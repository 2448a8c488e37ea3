-- ===== src/Senders/Connect/Wire.antt =====
-- The CONNECT that `send__connect` puts on the wire.
use artemisia.Base.{
  ℕ, ◌==◌, ◌+◌, ◌%◌, ◌^◌, ◌≤◌, ◌<◌, ◌≡◌, refl, ap, ◌∙◌, arith, Bool, true, false, not, ◌&&◌, Option,
  none, some, List, [], ◌∷◌, ◌++◌, Bytes, length, length-append, if-false,
}
use artemisia.State.{Protocol, is_mqtt5, is_mqtt31}
use artemisia.Packet.Defs.{Packet, M}
use artemisia.Packet.Encode.{uint16_bytes, binary_bytes, varint_encoding, varint_limit}
use artemisia.Packet.Write.{write_varint, varint_bytes}
use artemisia.Packet.Write.Laws.{Writes, Writes-bind, Writes-return}
use artemisia.Packet.Write.Fields.{
  write_byte-Writes, write_uint16-Writes, write_string-Writes, write_varint-Writes,
  varint_bytes-length,
}
use artemisia.Property.Defs.{Property}
use artemisia.Property.Wire.{EncodedAll}
use artemisia.Property.Write.{bytes_of, property_write_all}
use artemisia.Property.Write.Laws.{get_length_all-length, property_write_all-Writes}
use artemisia.Will.{Will, is_null}
use artemisia.Messages.Defs.{Client}
use artemisia.Outgoing.Defs.{Outgoing, Reply}
use artemisia.Outgoing.{packet_alloc}
use artemisia.Outgoing.Alloc.{packet_alloc-Allocated}
use artemisia.Outgoing.Stream.{pending, IsStream}
use artemisia.Incoming.Frame.{frame}
use artemisia.Senders.{new_packet, fill_and_queue}
use artemisia.Senders.Puts.{Puts, Puts-by, fill_and_queue-Puts}
use artemisia.Senders.Writing.{
  of_bits, bytes_if, Writes-if, Writes-unchecked, write_text-Writes, property_write_all_bare, chain,
  length-chain,
}
use artemisia.Senders.Connect.Prepared.{Prepared, local_properties-Prepared}
use artemisia.Senders.Connect.{
  Identity, version_of, protocol_name, given_length, will_length, connect_proplen, header_length,
  connect_length, connect_flags, write_given, write_will, connect_body, connect_queue, send_built,
  send_connect,
}

-- The name of the protocol and its level.
abbrev pub name_of : Protocol → Bytes
name_of Protocol.mqtt31 = b'M' ∷ b'Q' ∷ b'I' ∷ b's' ∷ b'd' ∷ b'p' ∷ []
name_of protocol = b'M' ∷ b'Q' ∷ b'T' ∷ b'T' ∷ []

abbrev pub level_of : Protocol → ℕ
level_of Protocol.mqtt31 = 3
level_of Protocol.mqtt311 = 4
level_of Protocol.mqtt5 = 5
level_of protocol = 0

protocol_name-name_of : (protocol : Protocol) → protocol_name protocol ≡ name_of protocol
protocol_name-name_of Protocol.mqtt31 = refl
protocol_name-name_of _ = refl

version_of-level_of : (protocol : Protocol) → version_of protocol ≡ level_of protocol
version_of-level_of Protocol.mqtt31 = refl
version_of-level_of Protocol.mqtt311 = refl
version_of-level_of Protocol.mqtt5 = refl
version_of-level_of _ = refl

-- The connect flags: whether there are a user name and a password, RETAIN, the QoS and the presence
-- of a will, whether the session is clean, and a 0.
abbrev pub flags_of : Identity → Bool → ℕ
flags_of who clean_session = elim (who.will) [
  | none ↦ of_bits (
      not (is_null who.username)
      ∷ not (is_null who.password)
      ∷ false
      ∷ false
      ∷ false
      ∷ false
      ∷ clean_session
      ∷ false
      ∷ [])
  | some w ↦ of_bits (
      not (is_null who.username)
      ∷ not (is_null who.password)
      ∷ w.retain
      ∷ (w.qos == 2)
      ∷ (w.qos == 1)
      ∷ true
      ∷ clean_session
      ∷ false
      ∷ [])
]

-- The properties and those of the will, as MQTT 5 encodes them.
pub record Props : Type 0 where
  pub given : Bytes
  pub local : Bytes
  pub will : Bytes

abbrev pub given_wire : Option Bytes → Bytes
given_wire none = []
given_wire (some text) = binary_bytes text

abbrev pub will_wire : Bool → Option Will → Bytes → Bytes
will_wire mqtt5 none props = []
will_wire mqtt5 (some w) props =
    bytes_if mqtt5 (varint_encoding (length props) ++ props)
    ++ (binary_bytes w.topic ++ binary_bytes w.payload)

-- The parts of a CONNECT behind the name of the protocol, in the order of MQTT.
abbrev pub connect_parts : Protocol → Identity → ℕ → Bool → Props → List Bytes
connect_parts protocol who keepalive clean_session props =
    (level_of protocol ∷ [])
    ∷ (flags_of who clean_session ∷ [])
    ∷ uint16_bytes keepalive
    ∷ bytes_if (is_mqtt5 protocol) (varint_encoding (length (props.given ++ props.local)))
    ∷ bytes_if (is_mqtt5 protocol) props.given
    ∷ bytes_if (is_mqtt5 protocol) props.local
    ∷ binary_bytes (bytes_of who.id)
    ∷ will_wire (is_mqtt5 protocol) who.will props.will
    ∷ given_wire who.username
    ∷ given_wire who.password
    ∷ []

abbrev pub connect_wire : Protocol → Identity → ℕ → Bool → Props → Bytes
connect_wire protocol who keepalive clean_session props =
    chain (binary_bytes (name_of protocol))
      (connect_parts protocol who keepalive clean_session props)

abbrev pub IsShort : Option Bytes → Type 0
IsShort text = length (bytes_of text) < 2 ^ 16

abbrev pub IsWill : Option Will → Bytes → Type 0
IsWill none props = Unit {0}
IsWill (some w) props =
    (EncodedAll w.properties props × (length props < varint_limit))
    × (((length w.topic < 2 ^ 16) × (length w.payload < 2 ^ 16)) × (w.qos ≤ 2))

connect_flags-flags_of :
    (id username password : Option Bytes) (will : Option Will) (clean_session : Bool)
    (props : Bytes)
    → IsWill will props
    → (let who : Identity = record {
      id = id;
      username = username;
      password = password;
      will = will;
    } in
        connect_flags who clean_session ≡ flags_of who clean_session)
connect_flags-flags_of id username password none clean_session props h = ground arith
connect_flags-flags_of id username password (some w) clean_session props (_, (_, level)) =
    ground arith

pub record IsConnect (protocol : Protocol) (who : Identity) (properties local : List Property)
    (props : Props) : Type 0 where
  pub id : IsShort who.id
  pub username : IsShort who.username
  pub password : IsShort who.password
  pub will : IsWill who.will props.will
  pub given : EncodedAll properties props.given
  pub generated : EncodedAll local props.local
  pub few : length (props.given ++ props.local) < varint_limit
  pub fits : length (connect_wire protocol who 0 false props) < varint_limit

write_given-Writes : (t : Option Bytes) → IsShort t → Writes (write_given t) (given_wire t)
write_given-Writes none h = Writes-return
write_given-Writes (some text) h =
    let same : length text % 2 ^ 16 ≡ length text = omega arith in
    rw same (write_string-Writes text)

write_will-Writes :
    (mqtt5 : Bool) (w : Option Will) (props : Bytes)
    → IsWill w props
    → Writes (write_will mqtt5 w) (will_wire mqtt5 w props)
write_will-Writes mqtt5 none props h = Writes-return
write_will-Writes mqtt5 (some w) props ((e, few), ((topic, payload), level)) =
    let same : length w.topic % 2 ^ 16 ≡ length w.topic = omega arith in
    let same' : length w.payload % 2 ^ 16 ≡ length w.payload = omega arith in
    rw (same, same')
      (Writes-bind _ _ (bytes_if mqtt5 (varint_encoding (length props) ++ props)) _
        (Writes-if mqtt5 _ _ (
          Writes-unchecked (property_write_all w.properties true) _
            (property_write_all-Writes w.properties props e few)))
        (Writes-bind _ _ (binary_bytes w.topic) (binary_bytes w.payload)
          (write_string-Writes w.topic) (write_string-Writes w.payload)))

proplen-length :
    (properties local : List Property) (props : Props)
    → EncodedAll properties props.given
    → EncodedAll local props.local
    → connect_proplen properties local ≡ length (props.given ++ props.local)
proplen-length properties local props e e' = omega (
  arith,
  get_length_all-length properties props.given e,
  get_length_all-length local props.local e',
  length-append props.given props.local,
)

connect_body-Writes :
    (protocol : Protocol) (who : Identity) (keepalive : ℕ) (clean_session : Bool)
    (properties local : List Property) (props : Props)
    → IsConnect protocol who properties local props
    → Writes
        (connect_body protocol who keepalive clean_session properties local)
        (connect_wire protocol who keepalive clean_session props)
unfolding connect_body
connect_body-Writes protocol who keepalive clean_session properties local props h =
    let mqtt5 = is_mqtt5 protocol in
    let all_ = props.given ++ props.local in
    let len = proplen-length properties local props h.given h.generated in
    let varint : Writes (write_varint (connect_proplen properties local))
        (varint_encoding (length all_)) =
      rw len (write_varint-Writes (length all_) h.few) in
    let name = name_of protocol in
    let flags =
      connect_flags-flags_of who.id who.username who.password who.will clean_session props.will
        h.will in
    rw (protocol_name-name_of protocol, version_of-level_of protocol, flags)
      (Writes-bind _ _ (binary_bytes name) _ (write_string-Writes name) (
        Writes-bind _ _ (level_of protocol ∷ []) _ (write_byte-Writes (level_of protocol)) (
          Writes-bind _ _ (flags_of who clean_session ∷ []) _ (write_byte-Writes _) (
            Writes-bind _ _ (uint16_bytes keepalive) _ (write_uint16-Writes keepalive) (
              Writes-bind _ _ (bytes_if mqtt5 (varint_encoding (length all_))) _
                (Writes-if mqtt5 _ _ (Writes-unchecked _ _ varint))
                (Writes-bind _ _ (bytes_if mqtt5 props.given) _
                  (Writes-if mqtt5 _ _ (property_write_all_bare properties props.given h.given))
                  (Writes-bind _ _ (bytes_if mqtt5 props.local) _
                    (Writes-if mqtt5 _ _ (property_write_all_bare local props.local h.generated))
                    (Writes-bind _ _ (binary_bytes (bytes_of who.id)) _
                      (write_text-Writes who.id h.id)
                      (Writes-bind _ _ (will_wire mqtt5 who.will props.will) _
                        (write_will-Writes mqtt5 who.will props.will h.will)
                        (Writes-bind _ _ (given_wire who.username) (given_wire who.password)
                          (write_given-Writes who.username h.username)
                          (write_given-Writes who.password h.password)))))))))))

length-bytes_if-append :
    (b : Bool) (xs ys : Bytes)
    → length (bytes_if b (xs ++ ys)) ≡ length (bytes_if b xs) + length (bytes_if b ys)
length-bytes_if-append true xs ys = length-append xs ys
length-bytes_if-append false xs ys = refl

given_length-length : (t : Option Bytes) → given_length t ≡ length (given_wire t)
given_length-length none = refl
given_length-length (some text) = omega arith

will_length-length :
    (mqtt5 : Bool) (w : Option Will) (props : Bytes)
    → IsWill w props
    → will_length mqtt5 w ≡ length (will_wire mqtt5 w props)
will_length-length mqtt5 none props h = refl
will_length-length true (some w) props ((e, few), (short, level)) =
    let same = get_length_all-length w.properties props e in
    let texts = binary_bytes w.topic ++ binary_bytes w.payload in
    omega (
      arith,
      same,
      ap varint_bytes same,
      varint_bytes-length (length props) few,
      length-append (varint_encoding (length props) ++ props) texts,
      length-append (varint_encoding (length props)) props,
      length-append (binary_bytes w.topic) (binary_bytes w.payload),
    )
will_length-length false (some w) props ((e, few), (short, level)) =
    omega (arith, length-append (binary_bytes w.topic) (binary_bytes w.payload))

header_length-length :
    (protocol : Protocol) (props : Bytes)
    → length props < varint_limit
    → header_length protocol (length props)
      ≡ length (binary_bytes (name_of protocol))
        + 4
        + length (bytes_if (is_mqtt5 protocol) (varint_encoding (length props)))
        + length (bytes_if (is_mqtt5 protocol) props)
header_length-length Protocol.mqtt5 props h = omega (arith, varint_bytes-length (length props) h)
header_length-length Protocol.mqtt311 props h = refl
header_length-length Protocol.mqtt31 props h = refl
header_length-length Protocol.mqtts props h = refl
header_length-length Protocol.invalid props h = refl

connect_length-length :
    (protocol : Protocol) (who : Identity) (keepalive : ℕ) (clean_session : Bool)
    (properties local : List Property) (props : Props)
    → IsConnect protocol who properties local props
    → connect_length protocol who (connect_proplen properties local)
      ≡ length (connect_wire protocol who keepalive clean_session props)
connect_length-length protocol who keepalive clean_session properties local props h =
    let mqtt5 = is_mqtt5 protocol in
    let all_ = props.given ++ props.local in
    let len = proplen-length properties local props h.given h.generated in
    let name = binary_bytes (name_of protocol) in
    omega (
      arith,
      h.fits,
      len,
      ap (header_length protocol) len,
      header_length-length protocol all_ h.few,
      length-bytes_if-append mqtt5 props.given props.local,
      will_length-length mqtt5 who.will props.will h.will,
      given_length-length who.username,
      given_length-length who.password,
      length-chain name (connect_parts protocol who keepalive clean_session props),
      length-chain name (connect_parts protocol who 0 false props),
    )

connect_queue-fill_and_queue :
    (p : Packet) (m : M (Unit {0})) (keepalive now : ℕ) (rs : List Reply) (o : Outgoing)
    → p.remaining_length < varint_limit
    → connect_queue (packet_alloc p true) m keepalive now rs o
      ≡ fill_and_queue (packet_alloc p true) m now rs (record o { keepalive = keepalive })
connect_queue-fill_and_queue p m keepalive now rs o h =
    let (q, e, a) = packet_alloc-Allocated p h in rw e refl

-- A password has a user name beside it, as the versions before MQTT 5 ask for.
abbrev pub IsNamed : Protocol → Identity → Type 0
IsNamed protocol who =
    (not (is_mqtt5 protocol) && not (is_null who.password) && is_null who.username) ≡ false

send_built-Puts :
    (protocol : Protocol) (who : Identity) (keepalive : ℕ) (clean_session : Bool)
    (properties local : List Property) (props : Props) (now : ℕ) (rs : List Reply) (o : Outgoing)
    → IsNamed protocol who
    → IsConnect protocol who properties local props
    → IsStream o
    → Puts
        (send_built protocol who keepalive clean_session properties local true true now rs o)
        o
        (frame 0x10 (connect_wire protocol who keepalive clean_session props))
unfolding send_built pending
send_built-Puts protocol who keepalive clean_session properties local props now rs o named h
      stream =
    let len = connect_length-length protocol who keepalive clean_session properties local props h in
    let wire = connect_wire protocol who keepalive clean_session props in
    let p = new_packet 0x10 (connect_length protocol who (connect_proplen properties local)) in
    let m = connect_body protocol who keepalive clean_session properties local in
    let o' = record o { keepalive = keepalive } in
    let fits : length wire < varint_limit = omega (
      arith,
      h.fits,
      length-chain (binary_bytes (name_of protocol))
          (connect_parts protocol who keepalive clean_session props),
      length-chain (binary_bytes (name_of protocol)) (connect_parts protocol who 0 false props),
    ) in
    Puts-by _ _ o _
      (if-false _ _ _ named ∙ connect_queue-fill_and_queue p m keepalive now rs o (omega arith))
      (fill_and_queue-Puts p m wire now rs o'
        (connect_body-Writes protocol who keepalive clean_session properties local props h) len fits
        stream)

-- With memory and a user name beside a password, `send__connect` puts one CONNECT behind all that is
-- sent and that waits: the name and the level of the protocol, the flags, the keepalive, the
-- properties of MQTT 5 with the receive maximum among them, and then the client's name, its will of
-- QoS 2 at most, its user name and its password, as far as there are any. A receive maximum among the
-- properties that are given becomes the client's; without one, the client's is sent.
pub send_connect-Puts :
    (protocol : Protocol) (who : Identity) (keepalive : ℕ) (clean_session : Bool)
    (properties local : List Property) (props : Props) (now : ℕ) (rs : List Reply) (o : Outgoing)
    (c c' : Client)
    → (is_mqtt31 protocol && is_null who.id) ≡ false
    → Prepared properties c protocol local c'
    → IsNamed protocol who
    → IsConnect protocol who properties local props
    → IsStream o
    → (let r =
          send_connect protocol who keepalive clean_session properties true true true now rs o c in
        Puts (r.0) o (frame 0x10 (connect_wire protocol who keepalive clean_session props))
        × (r.1 ≡ c'))
unfolding send_connect
send_connect-Puts protocol who keepalive clean_session properties local props now rs o c c' known
      prepared named h stream =
    rw (known, local_properties-Prepared protocol properties local c c' prepared)
      (
        send_built-Puts protocol who keepalive clean_session properties local props now rs o named h
            stream,
        refl,
      )
