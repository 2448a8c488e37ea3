-- ===== src/Senders/Publish/Wire.antt =====
-- The PUBLISH that `send__publish` puts on the wire.
use mathlib.Core.Path.{subst}
use artemisia.Base.{
  ℕ, ◌==◌, ◌+◌, ◌^◌, ◌≤◌, ◌<◌, ◌≡◌, sym, ap, ◌∙◌, arith, Bool, true, false, not, ◌&&◌,
}
use artemisia.Base.{
  List, [], ◌∷◌, ◌++◌, Bytes, Rc, ltb, if◌then◌else◌, length, length-append, is_failure, if-false,
}
use artemisia.State.{Protocol, is_mqtt5}
use artemisia.Property.Defs.{Property, i32, null_str}
use artemisia.Base.{zero, suc, refl}
use artemisia.Packet.Defs.{return}
use artemisia.Packet.Encode.{uint16_bytes, binary_bytes, varint_encoding, varint_limit}
use artemisia.Packet.Write.{write_bytes, write_varint, varint_bytes}
use artemisia.Packet.Write.Laws.{Writes, Writes-bind, Writes-return}
use artemisia.Packet.Write.Fields.{
  write_bytes-Writes, write_uint16-Writes, write_varint-Writes, varint_bytes-length,
}
use artemisia.Property.Wire.{EncodedAll}
use artemisia.Property.Write.{bytes_of}
use artemisia.Property.Write.Laws.{get_length_all-length}
use artemisia.Outgoing.Defs.{Outgoing, Reply}
use artemisia.Outgoing.{packet_alloc, check_oversize}
use artemisia.Outgoing.Stream.{IsStream}
use artemisia.Incoming.Frame.{frame}
use artemisia.Senders.{new_packet, fill_and_queue}
use artemisia.Senders.Puts.{Puts, Puts-by, fill_and_queue-Puts}
use artemisia.Senders.Writing.{
  of_bits, bytes_if, length-bytes_if, Writes-if, Writes-unchecked, write_text-Writes,
  property_write_all_bare,
}
use artemisia.Senders.Publish.{
  Args, expiry_props, proplen, is_too_big, publish_length, publish_command, publish_body,
  without_properties, send_publish, send_real_publish,
}

-- The property of an expiry interval that is not 0.
abbrev pub expiry_list : ℕ → List Property
expiry_list zero = []
expiry_list (suc n) =
    record { value = i32 (suc n); name = null_str; identifier = 2; client_generated = false } ∷ []

expiry_props-expiry_list : (n : ℕ) → expiry_props n ≡ expiry_list n
unfolding expiry_props
expiry_props-expiry_list zero = refl
expiry_props-expiry_list (suc n) = refl

-- The three lists of properties as MQTT 5 encodes them.
pub record Listed (a : Args) : Type 0 where
  pub cmsg : Bytes
  pub store : Bytes
  pub expiry : Bytes
  pub cmsg_wire : EncodedAll a.cmsg_props cmsg
  pub store_wire : EncodedAll a.store_props store
  pub expiry_wire : EncodedAll (expiry_list a.expiry_interval) expiry

abbrev pub listed_bytes : {a : Args} → Listed a → Bytes
listed_bytes l = l.cmsg ++ (l.store ++ l.expiry)

-- The variable header and the payload of a PUBLISH, as MQTT defines them.
abbrev pub publish_wire : Bool → (a : Args) → Listed a → Bytes
publish_wire mqtt5 a l =
    binary_bytes (bytes_of a.topic)
    ++ (bytes_if (ltb 0 a.qos) (uint16_bytes a.mid)
        ++ (bytes_if mqtt5 (varint_encoding (length (listed_bytes l)))
            ++ (bytes_if mqtt5 l.cmsg
                ++ (bytes_if mqtt5 l.store ++ (bytes_if mqtt5 l.expiry ++ a.payload)))))

-- The first byte of a PUBLISH: the type 3, DUP, two bits for the QoS, and RETAIN.
abbrev pub publish_header : Args → ℕ
publish_header a =
    of_bits (false ∷ false ∷ true ∷ true ∷ a.dup ∷ (a.qos == 2) ∷ (a.qos == 1) ∷ a.retain ∷ [])

publish_command-publish_header : (a : Args) → a.qos ≤ 2 → publish_command a ≡ publish_header a
publish_command-publish_header a h = ground arith

expiry-EncodedAll : (a : Args) (l : Listed a) → EncodedAll (expiry_props a.expiry_interval) l.expiry
expiry-EncodedAll a l =
    subst (λ ps. EncodedAll ps l.expiry) (sym (expiry_props-expiry_list a.expiry_interval))
      l.expiry_wire

pub record IsPublish (mqtt5 : Bool) (a : Args) (l : Listed a) : Type 0 where
  pub topic : length (bytes_of a.topic) < 2 ^ 16
  pub payload : length a.payload ≡ a.payloadlen
  pub fits : length (publish_wire mqtt5 a l) < varint_limit
  pub few : length (listed_bytes l) < varint_limit

proplen-listed : (a : Args) (l : Listed a) → proplen a ≡ length (listed_bytes l)
proplen-listed a l =
    let c = get_length_all-length a.cmsg_props l.cmsg l.cmsg_wire in
    let s = get_length_all-length a.store_props l.store l.store_wire in
    let e =
      get_length_all-length (expiry_props a.expiry_interval) l.expiry (expiry-EncodedAll a l) in
    omega (arith, length-append l.cmsg (l.store ++ l.expiry), length-append l.store l.expiry)

payload-Writes :
    (a : Args)
    → length a.payload ≡ a.payloadlen
    → Writes
        (if ltb 0 a.payloadlen then write_bytes a.payload a.payloadlen else return tt)
        a.payload
payload-Writes a h = rw (sym h) (whole a.payload)
  where
    whole :
        (bs : Bytes)
        → Writes (if ltb 0 (length bs) then write_bytes bs (length bs) else return tt) bs
    whole [] = Writes-return
    whole (b ∷ bs) =
        let some_ : ltb 0 (length (b ∷ bs)) ≡ true = ground arith in
        rw some_ (write_bytes-Writes (b ∷ bs))

publish_body-Writes :
    (mqtt5 : Bool) (a : Args) (l : Listed a)
    → IsPublish mqtt5 a l
    → Writes (publish_body mqtt5 (proplen a) a) (publish_wire mqtt5 a l)
unfolding publish_body
publish_body-Writes mqtt5 a l h =
    let varint : Writes (write_varint (proplen a)) (varint_encoding (length (listed_bytes l))) =
      rw (proplen-listed a l) (write_varint-Writes (length (listed_bytes l)) h.few) in
    Writes-bind _ _ (binary_bytes (bytes_of a.topic)) _ (write_text-Writes a.topic h.topic) (
      Writes-bind _ _ (bytes_if (ltb 0 a.qos) (uint16_bytes a.mid)) _
        (Writes-if (ltb 0 a.qos) _ _ (write_uint16-Writes a.mid))
        (Writes-bind _ _ (bytes_if mqtt5 (varint_encoding (length (listed_bytes l)))) _
          (Writes-if mqtt5 _ _ (Writes-unchecked _ _ varint))
          (Writes-bind _ _ (bytes_if mqtt5 l.cmsg) _
            (Writes-if mqtt5 _ _ (property_write_all_bare a.cmsg_props l.cmsg l.cmsg_wire))
            (Writes-bind _ _ (bytes_if mqtt5 l.store) _
              (Writes-if mqtt5 _ _ (property_write_all_bare a.store_props l.store l.store_wire))
              (Writes-bind _ _ (bytes_if mqtt5 l.expiry) a.payload
                (Writes-if mqtt5 _ _ (
                  property_write_all_bare (expiry_props a.expiry_interval) l.expiry
                    (expiry-EncodedAll a l)))
                (payload-Writes a h.payload))))))

is_too_big-false :
    (a : Args) (l : Listed a) → length (listed_bytes l) < varint_limit → is_too_big a ≡ false
unfolding varint_bytes
is_too_big-false a l few = let same = proplen-listed a l in ground arith

-- `packetlen` is the length of what follows the fixed header.
publish_length-length :
    (mqtt5 : Bool) (a : Args) (l : Listed a)
    → IsPublish mqtt5 a l
    → publish_length mqtt5 a ≡ length (publish_wire mqtt5 a l)
publish_length-length true a l h =
    let all_ = listed_bytes l in
    let bare = l.cmsg ++ (l.store ++ (l.expiry ++ a.payload)) in
    let id = bytes_if (ltb 0 a.qos) (uint16_bytes a.mid) in
    let len = varint_encoding (length all_) in
    let small = is_too_big-false a l h.few in
    let two = length-bytes_if (ltb 0 a.qos) (uint16_bytes a.mid) in
    let total : 2
          + length (bytes_of a.topic)
          + a.payloadlen
          + (if ltb 0 a.qos then 2 else 0)
          + (proplen a + varint_bytes (proplen a))
        ≡ length (publish_wire true a l) =
      omega (
        arith,
        h.payload,
        two,
        proplen-listed a l,
        ap varint_bytes (proplen-listed a l),
        varint_bytes-length (length all_) h.few,
        length-append l.cmsg (l.store ++ l.expiry),
        length-append l.store l.expiry,
        length-append (binary_bytes (bytes_of a.topic)) (id ++ (len ++ bare)),
        length-append id (len ++ bare),
        length-append len bare,
        length-append l.cmsg (l.store ++ (l.expiry ++ a.payload)),
        length-append l.store (l.expiry ++ a.payload),
        length-append l.expiry a.payload,
      ) in
    rw small (omega (arith, total, h.fits))
publish_length-length false a l h =
    let id = bytes_if (ltb 0 a.qos) (uint16_bytes a.mid) in
    omega (
      arith,
      h.fits,
      h.payload,
      length-bytes_if (ltb 0 a.qos) (uint16_bytes a.mid),
      length-append (binary_bytes (bytes_of a.topic)) (id ++ a.payload),
      length-append id a.payload,
    )

-- The same with the first byte of the code, for any `qos`.
pub send_publish-frame :
    (protocol : Protocol) (maximum_packet_size : ℕ) (a : Args) (l : Listed a) (now : ℕ)
    (rs : List Reply) (o : Outgoing)
    → o.has_socket ≡ true
    → IsPublish (is_mqtt5 protocol) a l
    → check_oversize maximum_packet_size (length (publish_wire (is_mqtt5 protocol) a l))
      ≡ Rc.success
    → IsStream o
    → Puts
        (send_publish protocol maximum_packet_size a true true now rs o)
        o
        (frame (publish_command a) (publish_wire (is_mqtt5 protocol) a l))
unfolding send_publish send_real_publish
send_publish-frame protocol maximum a l now rs o open_ h room stream =
    let mqtt5 = is_mqtt5 protocol in
    let len = publish_length-length mqtt5 a l h in
    let small = is_too_big-false a l h.few in
    let drop_none : (mqtt5 && is_too_big a) ≡ false = ground (arith, small) in
    let p = record (new_packet (publish_command a) (publish_length mqtt5 a)) { mid = a.mid } in
    let checked : is_failure (check_oversize maximum (publish_length mqtt5 a)) ≡ false =
      ap (λ n. is_failure (check_oversize maximum n)) len ∙ ap is_failure room in
    let body = λ (x : Args). publish_body mqtt5 (proplen a) x in
    let step =
      if-false (not o.has_socket) _ _ (ap not open_)
      ∙ if-false (is_failure (check_oversize maximum (publish_length mqtt5 a))) _ _ checked
      ∙ ap (λ x. fill_and_queue (packet_alloc p true) (body x) now rs o)
          (if-false (mqtt5 && is_too_big a) (without_properties a) a drop_none) in
    Puts-by _ _ o _ step (
      fill_and_queue-Puts p (body a) (publish_wire mqtt5 a l) now rs o
        (publish_body-Writes mqtt5 a l h) len h.fits stream)

-- With a connection, memory, a QoS of 2 at most and a packet that the server has room for,
-- `send__publish` puts one PUBLISH behind all that is sent and that waits: the first byte with the
-- type of the packet, DUP, the QoS and RETAIN, the remaining length, the topic, the identifier if
-- `qos` is not 0, the properties under their length in MQTT 5, and the payload.
pub send_publish-Puts :
    (protocol : Protocol) (maximum_packet_size : ℕ) (a : Args) (l : Listed a) (now : ℕ)
    (rs : List Reply) (o : Outgoing)
    → o.has_socket ≡ true
    → a.qos ≤ 2
    → IsPublish (is_mqtt5 protocol) a l
    → check_oversize maximum_packet_size (length (publish_wire (is_mqtt5 protocol) a l))
      ≡ Rc.success
    → IsStream o
    → Puts
        (send_publish protocol maximum_packet_size a true true now rs o)
        o
        (frame (publish_header a) (publish_wire (is_mqtt5 protocol) a l))
send_publish-Puts protocol maximum a l now rs o open_ level h room stream =
    subst
      (λ b.
        Puts (send_publish protocol maximum a true true now rs o) o
          (frame b (publish_wire (is_mqtt5 protocol) a l)))
      (publish_command-publish_header a level)
      (send_publish-frame protocol maximum a l now rs o open_ h room stream)
