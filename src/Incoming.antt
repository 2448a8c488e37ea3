-- ===== src/Incoming.antt =====
-- `packet__read` of packet_mosq.c: a packet comes in piece by piece, over as many calls as the
-- socket makes necessary, and is handed to `handle__packet`, which is a parameter here.
pub mod Socket
pub mod Body
pub mod Absorb
pub mod Feeds
pub mod Frame
pub mod Delivery
mod Tests
use artemisia.Base.{ℕ, zero, suc, ◌+◌, ◌-◌, ◌*◌, ◌/◌, ◌%◌, ◌^◌, Bool, true, false, not, ◌&&◌}
use artemisia.Base.{
  List, [], ◌∷◌, Bytes, Rc, ℤ, pos, negsuc, pred_ℤ, neg_ℤ, is_positive, ltb, ◌==◌, if◌then◌else◌,
  length,
}
use artemisia.State.{ClientState, is_connect_pending}
use artemisia.Packet.Defs.{Packet}
use artemisia.Packet.Write.{overwrite}
use artemisia.Outgoing.{block, cleanup}
use artemisia.Incoming.Socket.{Arrival, Reply, got, ended, again, lost, failed, net_read}

-- The part of `struct mosquitto` that receiving uses; `client` is the rest, for the handlers.
pub record Incoming (S : Type 0) : Type 0 where
  pub has_socket : Bool
  pub state : ClientState
  pub in_packet : Packet
  pub socket : List Arrival
  pub last_msg_in : ℕ
  pub client : S

-- A part of `packet__read`: it goes on, or the function returns. The last field of `back` says
-- whether `last_msg_in` is set.
pub data Progress : Type 0 where
  go : Packet → List Arrival → Progress
  back : Packet → List Arrival → Rc → Bool → Progress

-- The return code where the command or the remaining length does not come.
abbrev pub header_code : Reply → Rc
header_code ended = Rc.conn_lost
header_code lost = Rc.conn_lost
header_code failed = Rc.errno
header_code r = Rc.success

-- The return code where the body does not come: the end of the stream leaves `errno` at 0, which is
-- neither EAGAIN nor ECONNRESET.
abbrev pub body_code : Reply → Rc
body_code ended = Rc.errno
body_code lost = Rc.conn_lost
body_code failed = Rc.errno
body_code r = Rc.success

abbrev pub set_command : Packet → Reply × List Arrival → Progress
set_command p (got b bs, s) = go (record p { command = b }) s
set_command p (r, s) = back p s (header_code r) false

pub read_command : Packet → List Arrival → Progress
read_command p s = if p.command == 0 then set_command p (net_read 1 s) else go p s

-- `remaining_length += (byte & 127) * remaining_mult; remaining_mult *= 128;`
unfoldable pub add_length : ℕ → Packet → Packet
add_length b p = record p {
  remaining_count = pred_ℤ p.remaining_count;
  remaining_length = (p.remaining_length + b % 128 * p.remaining_mult) % 2 ^ 32;
  remaining_mult = p.remaining_mult * 128 % 2 ^ 32;
}

-- `remaining_count < -4`.
abbrev pub is_too_long : ℤ → Bool
is_too_long (pos n) = false
is_too_long (negsuc n) = ltb 3 n

-- The rounds until `remaining_count < -4` ends the loop.
abbrev pub rounds : ℤ → ℕ
rounds (pos n) = 5
rounds (negsuc n) = 4 - n

abbrev pub length_next : Reply → Packet → List Arrival → (ℕ → Progress) → Progress
length_next (got b bs) p s more =
    if is_too_long (pred_ℤ p.remaining_count)
    then back (record p { remaining_count = pred_ℤ p.remaining_count }) s Rc.protocol false
    else if b / 128 % 2 == 1
    then more b
    else go (add_length b p) s
length_next r p s more = back p s (header_code r) false

-- The loop over the bytes of the remaining length, over the rounds left.
pub length_loop : ℕ → Packet → List Arrival → Progress
length_loop zero p s = back p s Rc.protocol false
length_loop (suc k) p s =
    let (r, s') = net_read 1 s in length_next r p s' (λ b. length_loop k (add_length b p) s')

-- What follows the loop, where malloc gives the block for the body.
unfoldable pub begin_body : Packet → Packet
begin_body p =
    let p' = record p { remaining_count = neg_ℤ p.remaining_count } in
    if ltb 0 p.remaining_length
    then record p' { payload = block p.remaining_length; to_process = p.remaining_length }
    else p'

-- What follows the loop. `mem` is malloc's answer.
pub after_loop : Bool → Progress → Progress
after_loop mem (back p s rc t) = back p s rc t
after_loop mem (go p s) =
    if ltb 0 p.remaining_length && not mem
    then back (record p { remaining_count = neg_ℤ p.remaining_count; payload = [] }) s Rc.nomem
        false
    else go (begin_body p) s

-- `remaining_count <= 0`: the remaining length is not complete.
pub read_length : Bool → Packet → List Arrival → Progress
read_length mem p s =
    if is_positive p.remaining_count
    then go p s
    else after_loop mem (length_loop (rounds p.remaining_count) p s)

-- `count` bytes of the body.
unfoldable pub store : Bytes → Packet → Packet
store bs p = record p {
  payload = overwrite p.payload p.pos bs;
  to_process = p.to_process - length bs;
  pos = (p.pos + length bs) % 2 ^ 32;
}

abbrev pub body_next : Reply → Packet → List Arrival → (Bytes → Progress) → Progress
body_next (got b bs) p s more = more (b ∷ bs)
body_next again p s more = back p s Rc.success (ltb 1000 p.to_process)
body_next r p s more = back p s (body_code r) false

-- The loop over the body; each round takes a byte at least, so `to_process` rounds are enough.
pub body_loop : ℕ → Packet → List Arrival → Progress
body_loop zero p s = go p s
body_loop (suc k) p s =
    let (r, s') = net_read p.to_process s in
    if p.to_process == 0 then go p s else body_next r p s' (λ bs. body_loop k (store bs p) s')

pub then_go : Progress → (Packet → List Arrival → Progress) → Progress
then_go (back p s rc t) f = back p s rc t
then_go (go p s) f = f p s

pub read_body : Packet → List Arrival → Progress
read_body p s = body_loop p.to_process p s

pub after_command : Bool → Packet → List Arrival → Progress
after_command mem p s = then_go (read_length mem p s) read_body

-- The function up to `All data for this packet is read.`
pub receive : Bool → Packet → List Arrival → Progress
receive mem p s = then_go (read_command p s) (after_command mem)

module _ {S : Type 0} (handle_packet : Incoming S → Incoming S × Rc) where
  -- `All data for this packet is read.`
  abbrev pub handled : ℕ → Incoming S → Incoming S × Rc
  handled now c =
      let (c', rc) = handle_packet (record c { in_packet = record (c.in_packet) { pos = 0 } }) in
      (record c' { in_packet = cleanup c'.in_packet; last_msg_in = now }, rc)

  abbrev pub received : ℕ → Incoming S → Progress → Incoming S × Rc
  received now c (back p s rc touched) = (
    record c { in_packet = p; socket = s; last_msg_in = if touched then now else c.last_msg_in },
    rc,
  )
  received now c (go p s) = handled now (record c { in_packet = p; socket = s })

  pub packet_read : Bool → ℕ → Incoming S → Incoming S × Rc
  packet_read mem now c =
      if not c.has_socket
      then (c, Rc.no_conn)
      else if is_connect_pending c.state
      then (c, Rc.success)
      else received now c (receive mem c.in_packet c.socket)
