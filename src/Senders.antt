-- ===== src/Senders.antt =====
-- The senders of send_mosq.c: a packet is built with the functions of packet_datatypes.c and
-- packet_mosq.c and queued.
pub mod Puts
pub mod Writing
pub mod Publish
pub mod Request
pub mod Connect
pub mod Disconnect
pub mod Acknowledge
pub mod Laws
mod Tests
use artemisia.Base.{ℕ, zero, suc, ◌+◌, ◌-◌, ◌/◌, ◌%◌, ◌^◌, Bool, true, false, not, ◌&&◌, ◌||◌}
use artemisia.Base.{
  Option, none, some, List, [], ◌∷◌, Bytes, Rc, ℤ, ltb, ◌==◌, if◌then◌else◌, length,
}
use artemisia.State.{Protocol, is_mqtt5}
use artemisia.Packet.Defs.{Packet, Outcome, done, fail, fault, M, ◌>>=◌, ◌>>◌, return}
use artemisia.Packet.Write.{write_byte, write_uint16, write_string, varint_bytes}
use artemisia.Property.Defs.{Property}
use artemisia.Property.Command
use artemisia.Property.Write.{get_length_all, property_write_all}
use artemisia.Outgoing.Defs.{Outgoing, Reply}
use artemisia.Outgoing.{packet_alloc, packet_queue}

-- `mosquitto__calloc` of a packet, with its command and remaining length.
abbrev pub new_packet : ℕ → ℕ → Packet
new_packet command remaining_length = record {
  payload = [];
  remaining_mult = 0;
  remaining_length = remaining_length;
  packet_length = 0;
  to_process = 0;
  pos = 0;
  mid = 0;
  command = command;
  remaining_count = ℤ.pos 0;
}

abbrev pub is_any : List Property → Bool
is_any [] = false
is_any (p ∷ properties) = true

-- `if(dup) packet->command |= 8;`
abbrev pub with_dup : Bool → ℕ → ℕ
with_dup dup command = if dup && command / 8 % 2 == 0 then command + 8 else command

abbrev pub ack_length : Bool → ℕ → List Property → ℕ
ack_length mqtt5 reason_code properties =
    let proplen = get_length_all properties in
    let coded = if not (reason_code == 0) || is_any properties then 1 else 0 in
    let listed = if is_any properties then varint_bytes proplen + proplen else 0 in
    if mqtt5 then 2 + coded + listed else 2

-- What `send__command_with_mid` writes behind the fixed header.
pub ack_body : Bool → ℕ → ℕ → List Property → M (Unit {0})
ack_body mqtt5 mid reason_code properties = do
  write_uint16 mid
  if mqtt5 && (not (reason_code == 0) || is_any properties)
      then write_byte reason_code
      else return tt
  if mqtt5 && is_any properties then property_write_all properties true else return tt

-- The return codes of the write functions are not looked at.
abbrev pub queue_built : Outcome (Unit {0}) → ℕ → List Reply → Outgoing → Option (Outgoing × Rc)
queue_built (done u p) now rs o = some (packet_queue p now rs o)
queue_built (fail rc p) now rs o = some (packet_queue p now rs o)
queue_built fault now rs o = none

abbrev pub fill_and_queue :
    Option Packet × Rc → M (Unit {0}) → ℕ → List Reply → Outgoing → Option (Outgoing × Rc)
fill_and_queue (none, rc) body now rs o = some (o, rc)
fill_and_queue (some p, rc) body now rs o = queue_built (body p) now rs o

-- `mem1` and `mem2` are the answers of calloc and of the malloc of `packet__alloc`.
pub send_command_with_mid :
    Protocol
    → ℕ
    → ℕ
    → Bool
    → ℕ
    → List Property
    → Bool
    → Bool
    → ℕ
    → List Reply
    → Outgoing
    → Option (Outgoing × Rc)
send_command_with_mid protocol command mid dup reason_code properties mem1 mem2 now rs o =
    let mqtt5 = is_mqtt5 protocol in
    let p = new_packet (with_dup dup command) (ack_length mqtt5 reason_code properties) in
    if mem1
    then fill_and_queue (packet_alloc p mem2) (ack_body mqtt5 mid reason_code properties) now rs o
    else some (o, Rc.nomem)

pub send_simple_command : ℕ → Bool → Bool → ℕ → List Reply → Outgoing → Option (Outgoing × Rc)
send_simple_command command mem1 mem2 now rs o =
    if mem1
    then fill_and_queue (packet_alloc (new_packet command 0) mem2) (return tt) now rs o
    else some (o, Rc.nomem)

-- A call of a write function whose return code is not looked at, with more calls behind it.
abbrev pub unchecked : M (Unit {0}) → M (Unit {0})
unchecked m p = elim (m p) [ done u q ↦ done tt q | fail rc q ↦ done tt q | fault ↦ fault ]

-- A string, or the length of an empty one for a null pointer.
abbrev pub write_text : Option Bytes → M (Unit {0})
write_text none = write_uint16 0
write_text (some text) = write_string text (length text % 2 ^ 16)
