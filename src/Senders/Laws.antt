-- ===== src/Senders/Laws.antt =====
-- What the senders put on the wire.
use artemisia.Base.{ℕ, ◌≡◌, refl, arith, inl, inr, true, false, Bool-cases}
use artemisia.Base.{some, List, [], ◌∷◌, ◌++◌, Rc, ℤ}
use artemisia.State.{Protocol, is_mqtt5}
use artemisia.Packet.Defs.{Packet}
use artemisia.Packet.Write.{write_byte, write_uint16, overwrite}
use artemisia.Packet.Encode.{uint16_bytes}
use artemisia.Outgoing.Defs.{Outgoing, Reply}
use artemisia.Outgoing.{packet_alloc, packet_queue, alloc_loop, block}
use artemisia.Outgoing.Stream.{pending, IsStream}
use artemisia.Outgoing.Queue.{packet_queue-IsStream}
use artemisia.Senders.{new_packet, ack_body, send_command_with_mid}

-- An acknowledgement without a reason code, as it is queued.
abbrev ack_packet : ℕ → ℕ → Packet
ack_packet command mid = record (new_packet command 2) {
  payload = command ∷ 2 ∷ uint16_bytes mid;
  packet_length = 4;
  pos = 4;
  remaining_count = ℤ.pos 1;
}

send_command_with_mid_step :
    (protocol : Protocol) (command mid now : ℕ) (rs : List Reply) (o : Outgoing)
    → send_command_with_mid protocol command mid false 0 [] true true now rs o
      ≡ some (packet_queue (ack_packet command mid) now rs o)
unfolding send_command_with_mid ack_body packet_alloc alloc_loop block overwrite write_byte
    write_uint16
send_command_with_mid_step protocol command mid now rs o = elim (Bool-cases (is_mqtt5 protocol)) [
  | inl new ↦ rw new refl
  | inr old ↦ rw old refl
]

-- With memory for the packet, a PUBACK, PUBREC, PUBREL or PUBCOMP without a reason code is queued
-- in every version of the protocol: its four bytes are put behind all that is sent and that waits.
pub send_command_with_mid-IsStream :
    (protocol : Protocol) (command mid now : ℕ) (rs : List Reply) (o : Outgoing)
    → IsStream o
    → (o' : Outgoing) × (rc : Rc) × (send_command_with_mid protocol command mid false 0 [] true true
          now rs o
        ≡ some (o', rc))
      × (o'.wire ++ pending o' ≡ (o.wire ++ pending o) ++ (command ∷ 2 ∷ uint16_bytes mid))
      × IsStream o'
send_command_with_mid-IsStream protocol command mid now rs o h =
    let (stream, kept) =
      packet_queue-IsStream (ack_packet command mid) now rs o (refl, omega arith) h in
    (_, _, send_command_with_mid_step protocol command mid now rs o, stream, kept)
