-- ===== src/Senders/Disconnect.antt =====
-- `send__disconnect` of send_disconnect.c and `send__pingreq` of send_mosq.c.
pub mod Wire
use artemisia.Base.{
  ℕ, zero, ◌+◌, ◌%◌, ◌^◌, Bool, true, not, ◌&&◌, ◌||◌, Option, none, some, List, [], Rc,
}
use artemisia.Base.{◌==◌, if◌then◌else◌}
use artemisia.State.{Protocol, is_mqtt5}
use artemisia.Packet.Defs.{M, ◌>>=◌, ◌>>◌, return}
use artemisia.Packet.Write.{write_byte, varint_bytes}
use artemisia.Property.Defs.{Property}
use artemisia.Property.Write.{get_length_all, property_write_all}
use artemisia.Outgoing.Defs.{Outgoing, Reply}
use artemisia.Outgoing.{packet_alloc}
use artemisia.Senders.{new_packet, is_any, fill_and_queue, send_simple_command}

-- `mosq->protocol == mosq_p_mqtt5 && (reason_code != 0 || properties)`.
abbrev pub has_reason : Protocol → ℕ → List Property → Bool
has_reason protocol reason_code properties =
    is_mqtt5 protocol && (not (reason_code == 0) || is_any properties)

abbrev pub disconnect_length : Protocol → ℕ → List Property → ℕ
disconnect_length protocol reason_code properties =
    let proplen = get_length_all properties in
    let listed = if is_any properties then proplen + varint_bytes proplen else 0 in
    if has_reason protocol reason_code properties then (1 + listed) % 2 ^ 32 else 0

abbrev pub reason_body : ℕ → List Property → M (Unit {0})
reason_body reason_code properties = do
  write_byte reason_code
  if is_any properties then property_write_all properties true else return tt

pub disconnect_body : Protocol → ℕ → List Property → M (Unit {0})
disconnect_body protocol reason_code properties =
    if has_reason protocol reason_code properties
    then reason_body reason_code properties
    else return tt

pub send_disconnect :
    Protocol → ℕ → List Property → Bool → Bool → ℕ → List Reply → Outgoing → Option (Outgoing × Rc)
send_disconnect protocol reason_code properties mem1 mem2 now rs o =
    let p = new_packet 0xe0 (disconnect_length protocol reason_code properties) in
    if mem1
    then fill_and_queue (packet_alloc p mem2) (disconnect_body protocol reason_code properties) now
        rs o
    else some (o, Rc.nomem)

-- `ping_t` is the time at which a PINGREQ was sent.
abbrev pub pinged : ℕ → ℕ → Option (Outgoing × Rc) → Option (Outgoing × Rc × ℕ)
pinged now ping_t none = none
pinged now ping_t (some (o, Rc.success)) = some (o, Rc.success, now)
pinged now ping_t (some (o, rc)) = some (o, rc, ping_t)

pub send_pingreq : Bool → Bool → ℕ → List Reply → ℕ → Outgoing → Option (Outgoing × Rc × ℕ)
send_pingreq mem1 mem2 now rs ping_t o =
    pinged now ping_t (send_simple_command 0xc0 mem1 mem2 now rs o)
