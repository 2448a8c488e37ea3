-- ===== src/Senders/Disconnect/Wire.antt =====
-- The DISCONNECT and the PINGREQ on the wire.
use artemisia.Base.{
  ℕ, ◌<◌, ◌≡◌, refl, arith, Bool, true, Bool-cases, inl, inr, Option, List, [], ◌∷◌, Bytes, Rc,
  length,
}
use artemisia.State.{Protocol}
use artemisia.Packet.Defs.{return}
use artemisia.Packet.Encode.{varint_groups, varint_encoding, varint_limit}
use artemisia.Packet.Write.{write_byte}
use artemisia.Packet.Write.Laws.{Writes, Writes-bind, Writes-return}
use artemisia.Packet.Write.Fields.{write_byte-Writes}
use artemisia.Property.Defs.{Property}
use artemisia.Property.Wire.{EncodedAll}
use artemisia.Outgoing.Defs.{Outgoing, Reply}
use artemisia.Outgoing.Stream.{IsStream}
use artemisia.Incoming.Frame.{frame}
use artemisia.Senders.{new_packet, send_simple_command}
use artemisia.Senders.Puts.{Puts, fill_and_queue-Puts}
use artemisia.Senders.Writing.{bytes_if, list_wire, list-Writes, list-length}
use artemisia.Senders.Disconnect.{
  has_reason, disconnect_body, reason_body, send_disconnect, send_pingreq, pinged,
}

abbrev pub reason_wire : Bool → ℕ → List Property → Bytes → Bytes
reason_wire told reason_code properties props =
    bytes_if told (reason_code ∷ list_wire properties props)

reason_body-Writes :
    (reason_code : ℕ) (properties : List Property) (props : Bytes)
    → EncodedAll properties props
    → length props < varint_limit
    → Writes (reason_body reason_code properties) (reason_code ∷ list_wire properties props)
reason_body-Writes reason_code properties props e few =
    Writes-bind (write_byte reason_code) _ (reason_code ∷ []) (list_wire properties props)
      (write_byte-Writes reason_code) (list-Writes properties props e few)

-- With memory for the packet, `send__disconnect` puts one DISCONNECT behind all that is sent and
-- that waits. In MQTT 5 it has the reason, where that is not 0 or there are properties, and the
-- properties under their length.
pub send_disconnect-Puts :
    (protocol : Protocol) (reason_code : ℕ) (properties : List Property) (props : Bytes) (now : ℕ)
    (rs : List Reply) (o : Outgoing)
    → EncodedAll properties props
    → length (reason_code ∷ list_wire properties props) < varint_limit
    → length props < varint_limit
    → IsStream o
    → Puts (send_disconnect protocol reason_code properties true true now rs o) o (
        frame 0xe0
          (reason_wire (has_reason protocol reason_code properties) reason_code properties props))
unfolding send_disconnect disconnect_body
send_disconnect-Puts protocol reason_code properties props now rs o e fits few stream =
    let sum = list-length properties props e few in
    let listed = reason_code ∷ list_wire properties props in
    elim (Bool-cases (has_reason protocol reason_code properties)) [
      | inl told ↦ rw told (
          fill_and_queue-Puts _ (reason_body reason_code properties) listed now rs o
            (reason_body-Writes reason_code properties props e few) (omega (arith, sum, fits)) fits
            stream)
      | inr untold ↦ rw untold (
          fill_and_queue-Puts (new_packet 0xe0 0) (return tt) [] now rs o Writes-return refl
            (omega arith) stream)
    ]

-- With memory for the packet, `send__pingreq` puts the two bytes of a PINGREQ behind all that is
-- sent and that waits, and keeps the time if it succeeds.
pub send_pingreq-Puts :
    (now ping_t : ℕ) (rs : List Reply) (o : Outgoing)
    → IsStream o
    → (r : Option (Outgoing × Rc)) × Puts r o (0xc0 ∷ 0 ∷ [])
      × (send_pingreq true true now rs ping_t o ≡ pinged now ping_t r)
unfolding send_pingreq send_simple_command varint_encoding varint_groups
send_pingreq-Puts now ping_t rs o stream = (
  send_simple_command 0xc0 true true now rs o,
  fill_and_queue-Puts (new_packet 0xc0 0) (return tt) [] now rs o Writes-return refl (omega arith)
      stream,
  refl,
)
