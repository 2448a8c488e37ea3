-- ===== src/Senders/Request/Wire.antt =====
-- The SUBSCRIBE and the UNSUBSCRIBE on the wire.
use artemisia.Base.{
  ℕ, ◌%◌, ◌^◌, ◌<◌, ◌≡◌, refl, ap, arith, Bool, true, false, List, [], ◌∷◌, ◌++◌, Bytes, length,
  length-append, All,
}
use artemisia.State.{Protocol, is_mqtt5}
use artemisia.Packet.Defs.{Packet, M, return}
use artemisia.Packet.Encode.{uint16_bytes, binary_bytes, varint_encoding, varint_limit}
use artemisia.Packet.Write.{write_byte, write_string, varint_bytes}
use artemisia.Packet.Write.Laws.{Writes, Writes-bind, Writes-return}
use artemisia.Packet.Write.Fields.{
  write_byte-Writes, write_uint16-Writes, write_string-Writes, varint_bytes-length,
}
use artemisia.Property.Defs.{Property}
use artemisia.Property.Wire.{EncodedAll}
use artemisia.Property.Write.{property_write_all}
use artemisia.Property.Write.Laws.{get_length_all-length, property_write_all-Writes}
use artemisia.Messages.Defs.{Client}
use artemisia.Messages.{mid_generate}
use artemisia.Outgoing.Defs.{Outgoing, Reply}
use artemisia.Outgoing.{packet_alloc}
use artemisia.Outgoing.Alloc.{packet_alloc-Allocated}
use artemisia.Outgoing.Stream.{IsStream}
use artemisia.Incoming.Frame.{frame}
use artemisia.Senders.{new_packet}
use artemisia.Senders.Puts.{Puts, fill_and_queue-Puts}
use artemisia.Senders.Writing.{bytes_if, Writes-if, Writes-unchecked}
use artemisia.Senders.Request.{
  topics_length, request_length, topics_body, request_body, numbered, send_request, send_subscribe,
  send_unsubscribe,
}

-- Each topic behind its length, with `behind` after it.
unfoldable pub topics_wire : Bytes → List Bytes → Bytes
topics_wire behind [] = []
topics_wire behind (t ∷ topics) = binary_bytes t ++ (behind ++ topics_wire behind topics)

-- The identifier, the properties of MQTT 5 under their length, and the topics.
abbrev pub request_wire : Bool → ℕ → Bytes → Bytes → List Bytes → Bytes
request_wire mqtt5 mid props behind topics =
    uint16_bytes mid
    ++ (bytes_if mqtt5 (varint_encoding (length props) ++ props) ++ topics_wire behind topics)

abbrev pub IsShort : Bytes → Type 0
IsShort t = length t < 2 ^ 16

topics_body-Writes :
    (m : M (Unit {0})) (behind : Bytes) (topics : List Bytes)
    → Writes m behind
    → All IsShort topics
    → Writes (topics_body m topics) (topics_wire behind topics)
unfolding topics_body topics_wire
topics_body-Writes m behind [] w h = Writes-return
topics_body-Writes m behind (t ∷ topics) w (short, h) =
    let same : length t % 2 ^ 16 ≡ length t = omega arith in
    rw same (
      Writes-bind (write_string t (length t)) _ (binary_bytes t) _ (write_string-Writes t) (
        Writes-bind m (topics_body m topics) behind (topics_wire behind topics) w
          (topics_body-Writes m behind topics w h)))

topics_length-length :
    (behind : Bytes) (topics : List Bytes)
    → topics_length (length behind) topics ≡ length (topics_wire behind topics)
unfolding topics_length topics_wire
topics_length-length behind [] = refl
topics_length-length behind (t ∷ topics) = omega (
  arith,
  topics_length-length behind topics,
  length-append (binary_bytes t) (behind ++ topics_wire behind topics),
  length-append behind (topics_wire behind topics),
)

request_length-length :
    (mqtt5 : Bool) (properties : List Property) (props : Bytes) (mid : ℕ) (behind : Bytes)
    (topics : List Bytes)
    → EncodedAll properties props
    → length (request_wire mqtt5 mid props behind topics) < varint_limit
    → length props < varint_limit
    → request_length mqtt5 properties (length behind) topics
      ≡ length (request_wire mqtt5 mid props behind topics)
request_length-length true properties props mid behind topics e fits few =
    let same = get_length_all-length properties props e in
    omega (
      arith,
      same,
      ap varint_bytes same,
      varint_bytes-length (length props) few,
      topics_length-length behind topics,
      length-append (varint_encoding (length props) ++ props) (topics_wire behind topics),
      length-append (varint_encoding (length props)) props,
    )
request_length-length false properties props mid behind topics e fits few =
    omega (arith, topics_length-length behind topics)

-- What both packets have to be.
pub record IsRequest (mqtt5 : Bool) (properties : List Property) (props behind : Bytes)
    (topics : List Bytes) : Type 0 where
  pub encoded : EncodedAll properties props
  pub short : All IsShort topics
  pub few : length props < varint_limit
  pub fits : length (request_wire mqtt5 0 props behind topics) < varint_limit

request_body-Writes :
    (mqtt5 : Bool) (properties : List Property) (props : Bytes) (m : M (Unit {0})) (behind : Bytes)
    (topics : List Bytes) (mid : ℕ)
    → Writes m behind
    → IsRequest mqtt5 properties props behind topics
    → Writes
        (request_body mqtt5 properties m topics mid)
        (request_wire mqtt5 mid props behind topics)
unfolding request_body
request_body-Writes mqtt5 properties props m behind topics mid w h =
    Writes-bind _ _ (uint16_bytes mid) _ (write_uint16-Writes mid) (
      Writes-bind _ _ (bytes_if mqtt5 (varint_encoding (length props) ++ props)) _
        (Writes-if mqtt5 _ _ (
          Writes-unchecked (property_write_all properties true) _
            (property_write_all-Writes properties props h.encoded h.few)))
        (topics_body-Writes m behind topics w h.short))

numbered-some :
    (p : Packet) (c : Client)
    → p.remaining_length < varint_limit
    → numbered (packet_alloc p true) c ≡ (mid_generate c).1
numbered-some p c h = let (q, e, a) = packet_alloc-Allocated p h in rw e refl

send_request-Puts :
    (command : ℕ) (mqtt5 : Bool) (properties : List Property) (props : Bytes) (m : M (Unit {0}))
    (behind : Bytes) (topics : List Bytes) (now : ℕ) (rs : List Reply) (o : Outgoing) (c : Client)
    → Writes m behind
    → IsRequest mqtt5 properties props behind topics
    → IsStream o
    → (let p = new_packet command (request_length mqtt5 properties (length behind) topics) in
        let r = send_request p (request_body mqtt5 properties m topics) true true now rs o c in
        Puts (r.0) o (frame command (request_wire mqtt5 (mid_generate c).0 props behind topics))
        × (r.1 ≡ (mid_generate c).1))
send_request-Puts command mqtt5 properties props m behind topics now rs o c w h stream =
    let p = new_packet command (request_length mqtt5 properties (length behind) topics) in
    let mid = (mid_generate c).0 in
    let len =
      request_length-length mqtt5 properties props mid behind topics h.encoded h.fits h.few in
    (
      fill_and_queue-Puts p (request_body mqtt5 properties m topics mid)
          (request_wire mqtt5 mid props behind topics) now rs o
          (request_body-Writes mqtt5 properties props m behind topics mid w h) len h.fits stream,
      numbered-some p c (omega (arith, len, h.fits)),
    )

-- With memory for the packet, `send__subscribe` takes the next identifier and puts one SUBSCRIBE
-- with it behind all that is sent and that waits: the properties under their length in MQTT 5, and
-- each topic behind its length, with the byte of its options.
pub send_subscribe-Puts :
    (protocol : Protocol) (topics : List Bytes) (topic_qos : ℕ) (properties : List Property)
    (props : Bytes) (now : ℕ) (rs : List Reply) (o : Outgoing) (c : Client)
    → topic_qos < 256
    → IsRequest (is_mqtt5 protocol) properties props (topic_qos ∷ []) topics
    → IsStream o
    → Puts (send_subscribe protocol topics topic_qos properties true true now rs o c).0 o (
        frame 0x82
          (request_wire (is_mqtt5 protocol) (mid_generate c).0 props (topic_qos ∷ []) topics))
      × ((send_subscribe protocol topics topic_qos properties true true now rs o c).1
          ≡ (mid_generate c).1)
unfolding send_subscribe
send_subscribe-Puts protocol topics topic_qos properties props now rs o c byte h stream =
    let same : topic_qos % 256 ≡ topic_qos = omega arith in
    rw same (
      send_request-Puts 0x82 (is_mqtt5 protocol) properties props (write_byte topic_qos)
        (topic_qos ∷ []) topics now rs o c (write_byte-Writes topic_qos) h stream)

-- The same for `send__unsubscribe` and an UNSUBSCRIBE, where nothing stands behind a topic.
pub send_unsubscribe-Puts :
    (protocol : Protocol) (topics : List Bytes) (properties : List Property) (props : Bytes)
    (now : ℕ) (rs : List Reply) (o : Outgoing) (c : Client)
    → IsRequest (is_mqtt5 protocol) properties props [] topics
    → IsStream o
    → Puts
        (send_unsubscribe protocol topics properties true true now rs o c).0
        o
        (frame 0xa2 (request_wire (is_mqtt5 protocol) (mid_generate c).0 props [] topics))
      × ((send_unsubscribe protocol topics properties true true now rs o c).1 ≡ (mid_generate c).1)
unfolding send_unsubscribe
send_unsubscribe-Puts protocol topics properties props now rs o c h stream =
    send_request-Puts 0xa2 (is_mqtt5 protocol) properties props (return tt) [] topics now rs o c
      Writes-return h stream
