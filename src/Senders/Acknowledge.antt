-- ===== src/Senders/Acknowledge.antt =====
-- `send__command_with_mid` with a reason code and properties.
use artemisia.Base.{
  ℕ, ◌+◌, ◌<◌, ◌≡◌, refl, arith, Bool, true, false, not, ◌&&◌, ◌||◌, List, [], ◌∷◌, ◌++◌, Bytes,
  length, length-append, ◌==◌, if◌then◌else◌,
}
use artemisia.State.{Protocol, is_mqtt5}
use artemisia.Packet.Encode.{uint16_bytes, varint_encoding, varint_limit}
use artemisia.Packet.Write.{varint_bytes}
use artemisia.Packet.Write.Laws.{Writes, Writes-bind}
use artemisia.Packet.Write.Fields.{write_byte-Writes, write_uint16-Writes}
use artemisia.Property.Defs.{Property}
use artemisia.Property.Wire.{EncodedAll}
use artemisia.Property.Write.{get_length_all}
use artemisia.Property.Write.Laws.{property_write_all-Writes}
use artemisia.Outgoing.Defs.{Outgoing, Reply}
use artemisia.Outgoing.Stream.{IsStream}
use artemisia.Incoming.Frame.{frame}
use artemisia.Senders.{new_packet, with_dup, is_any, ack_length, ack_body, send_command_with_mid}
use artemisia.Senders.Puts.{Puts, fill_and_queue-Puts}
use artemisia.Senders.Writing.{bytes_if, length-bytes_if, Writes-if, list_wire, list-length}

-- MQTT 5 has the reason where it is not 0 or properties follow, and the properties if there are any.
abbrev pub ack_wire : Bool → ℕ → ℕ → List Property → Bytes → Bytes
ack_wire mqtt5 mid reason_code properties props =
    uint16_bytes mid
    ++ (bytes_if (mqtt5 && (not (reason_code == 0) || is_any properties)) (reason_code ∷ [])
        ++ bytes_if (mqtt5 && is_any properties) (varint_encoding (length props) ++ props))

ack_body-Writes :
    (mqtt5 : Bool) (mid reason_code : ℕ) (properties : List Property) (props : Bytes)
    → EncodedAll properties props
    → length props < varint_limit
    → Writes
        (ack_body mqtt5 mid reason_code properties)
        (ack_wire mqtt5 mid reason_code properties props)
unfolding ack_body
ack_body-Writes mqtt5 mid reason_code properties props e few =
    let told = mqtt5 && (not (reason_code == 0) || is_any properties) in
    let listed = mqtt5 && is_any properties in
    Writes-bind _ _ (uint16_bytes mid) _ (write_uint16-Writes mid) (
      Writes-bind _ _ (bytes_if told (reason_code ∷ [])) _
        (Writes-if told _ _ (write_byte-Writes reason_code))
        (Writes-if listed _ _ (property_write_all-Writes properties props e few)))

if-swap : (b : Bool) (m n : ℕ) → (if b then n + m else 0) ≡ (if b then m + n else 0)
if-swap true m n = omega arith
if-swap false m n = refl

ack_length-length :
    (mqtt5 : Bool) (mid reason_code : ℕ) (properties : List Property) (props : Bytes)
    → EncodedAll properties props
    → length props < varint_limit
    → ack_length mqtt5 reason_code properties
      ≡ length (ack_wire mqtt5 mid reason_code properties props)
ack_length-length false mid reason_code properties props e few = refl
ack_length-length true mid reason_code properties props e few =
    let sum = list-length properties props e few in
    let told = not (reason_code == 0) || is_any properties in
    let first = length-bytes_if told (reason_code ∷ []) in
    let behind = list_wire properties props in
    let whole = length-append (bytes_if told (reason_code ∷ [])) behind in
    let swap =
      if-swap (is_any properties) (get_length_all properties)
        (varint_bytes (get_length_all properties)) in
    omega (arith, sum, first, whole, swap)

-- With memory for the packet, an acknowledgement with any reason code and properties is put as one
-- packet behind all that is sent and that waits, in every version of the protocol: its command
-- with the bit of a repeated one, its identifier, and in MQTT 5 the reason and the properties.
pub send_command_with_mid-Puts :
    (protocol : Protocol) (command mid : ℕ) (dup : Bool) (reason_code : ℕ)
    (properties : List Property) (props : Bytes) (now : ℕ) (rs : List Reply) (o : Outgoing)
    → EncodedAll properties props
    → length props < varint_limit
    → length (ack_wire (is_mqtt5 protocol) mid reason_code properties props) < varint_limit
    → IsStream o
    → Puts
        (send_command_with_mid protocol command mid dup reason_code properties true true now rs o)
        o
        (frame
          (with_dup dup command)
          (ack_wire (is_mqtt5 protocol) mid reason_code properties props))
unfolding send_command_with_mid
send_command_with_mid-Puts protocol command mid dup reason_code properties props now rs o e few fits
      stream =
    let mqtt5 = is_mqtt5 protocol in
    fill_and_queue-Puts
      (new_packet (with_dup dup command) (ack_length mqtt5 reason_code properties))
      (ack_body mqtt5 mid reason_code properties) (ack_wire mqtt5 mid reason_code properties props)
      now rs o (ack_body-Writes mqtt5 mid reason_code properties props e few)
      (ack_length-length mqtt5 mid reason_code properties props e few) fits stream
