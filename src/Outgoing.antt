-- ===== src/Outgoing.antt =====
-- The part of packet_mosq.c that sends: a packet is allocated, written, queued, and handed to the
-- socket in pieces, and `do_client_disconnect` of connect.c, which a sent DISCONNECT calls.
pub mod Defs
pub mod Alloc
pub mod Stream
pub mod Queue
pub mod Drain
mod Tests
use artemisia.Base.{ℕ, zero, suc, ◌+◌, ◌-◌, ◌/◌, ◌%◌, ◌^◌, Bool, true, false, not, ◌&&◌, ◌||◌}
use artemisia.Base.{Option, none, some, List, [], ◌∷◌, ◌++◌, Bytes, Rc, ℤ, ltb, ◌==◌, if◌then◌else◌}
use artemisia.Base.{length, take, drop}
use artemisia.State.{ClientState, is_connect_pending}
use artemisia.Packet.Defs.{Packet}
use artemisia.Packet.Write.{overwrite, varint_bytes}
use artemisia.Outgoing.Defs.{Outgoing, Reply, accepts, again, conn_reset, failed}

-- The bytes of the remaining length, over the rounds left.
unfoldable pub alloc_loop : ℕ → ℕ → Bytes
alloc_loop zero remaining_length = []
alloc_loop (suc k) remaining_length =
    let rest = alloc_loop k (remaining_length / 128) in
    if ltb 0 (remaining_length / 128)
    then (remaining_length % 128 + 128) ∷ rest
    else remaining_length % 128 ∷ []

-- A block of `n` bytes from malloc. What it holds is not read before it is written, so zeros
-- stand for it.
unfoldable pub block : ℕ → Bytes
block zero = []
block (suc n) = 0 ∷ block n

abbrev pub allocated : Packet → Bytes → Packet
allocated p bytes =
    let count = length bytes in
    let len = (p.remaining_length + 1 + count) % 2 ^ 32 in
    record p {
      remaining_count = ℤ.pos count;
      packet_length = len;
      payload = overwrite (block len) 0 (p.command ∷ bytes);
      pos = 1 + count;
    }

unfoldable pub packet_alloc : Packet → Bool → Option Packet × Rc
packet_alloc p mem =
    let bytes = alloc_loop 5 p.remaining_length in
    if length bytes == 5
    then (none, Rc.payload_size)
    else if mem
    then (some (allocated p bytes), Rc.success)
    else (none, Rc.nomem)

unfoldable pub check_oversize : ℕ → ℕ → Rc
check_oversize maximum_packet_size remaining_length =
    if maximum_packet_size == 0
    then Rc.success
    else if ltb maximum_packet_size ((remaining_length + varint_bytes remaining_length) % 2 ^ 32)
    then Rc.oversize_packet
    else Rc.success

abbrev pub first : List Packet → Option Packet
first [] = none
first (p ∷ ps) = some p

abbrev pub behind_first : List Packet → List Packet
behind_first [] = []
behind_first (p ∷ ps) = ps

-- The first packet of the queue becomes the current one.
abbrev pub next_packet : Outgoing → Outgoing
next_packet o = record o {
  current_out_packet = first o.out_packet;
  out_packet = behind_first o.out_packet;
}

abbrev pub take_up : Outgoing → Outgoing
take_up o = elim (o.current_out_packet) [ none ↦ next_packet o | some p ↦ o ]

-- `net__write(mosq, &payload[pos], to_process)` that takes `n` bytes.
pub advance_by : ℕ → Packet → Packet
advance_by n p = record p { to_process = p.to_process - n; pos = (p.pos + n) % 2 ^ 32 }

-- How the loop over one packet ends: all of it is sent, or the function returns.
pub data Sent : Type 0 where
  whole : Packet → Bytes → List Reply → Sent
  partly : Packet → Bytes → List Reply → Rc → Sent

abbrev pub sent_before : Bytes → Sent → Sent
sent_before bs (whole p wire rs) = whole p (bs ++ wire) rs
sent_before bs (partly p wire rs rc) = partly p (bs ++ wire) rs rc

-- The inner loop, over the replies of the socket; without one more reply, it would block.
pub write_loop : List Reply → Packet → Sent
write_loop [] p = if p.to_process == 0 then whole p [] [] else partly p [] [] Rc.success
write_loop (accepts k ∷ rs) p =
    let n = if ltb p.to_process (suc k) then p.to_process else suc k in
    let rest = write_loop rs (advance_by n p) in
    if p.to_process == 0
    then whole p [] (accepts k ∷ rs)
    else sent_before (take n (drop p.pos p.payload)) rest
write_loop (again ∷ rs) p =
    if p.to_process == 0 then whole p [] (again ∷ rs) else partly p [] rs Rc.success
write_loop (conn_reset ∷ rs) p =
    if p.to_process == 0 then whole p [] (conn_reset ∷ rs) else partly p [] rs Rc.conn_lost
write_loop (failed ∷ rs) p =
    if p.to_process == 0 then whole p [] (failed ∷ rs) else partly p [] rs Rc.errno

-- `(command & 0xF6) == CMD_PUBLISH` and `(command & 0xF0) == CMD_DISCONNECT`, for a byte.
abbrev pub is_publish_qos0 : ℕ → Bool
is_publish_qos0 command = command / 16 == 3 && command / 2 % 4 == 0

abbrev pub is_disconnect : ℕ → Bool
is_disconnect command = command / 16 == 14

-- `do_client_disconnect`: the current packet is given up for the next one.
pub do_client_disconnect : Rc → ℕ → Outgoing → Outgoing
do_client_disconnect reason_code now o =
    let o' = next_packet o in
    record o' {
      state = ClientState.disconnected;
      has_socket = false;
      next_msg_out = now + o.keepalive;
      on_disconnect = o.on_disconnect ++ (reason_code ∷ []);
    }

-- What follows a packet that is sent: callbacks, and the next packet. `true` ends the loop.
pub after_packet : ℕ → Packet → Outgoing → Outgoing × Bool
after_packet now p o =
    if is_publish_qos0 p.command
    then (
      record (next_packet o) {
        on_publish = o.on_publish ++ (p.mid ∷ []);
        next_msg_out = now + o.keepalive;
      },
      false,
    )
    else if is_disconnect p.command
    then (do_client_disconnect Rc.success now o, true)
    else (record (next_packet o) { next_msg_out = now + o.keepalive }, false)

-- The outer loop, with the number of packets that are left as fuel, and the replies left.
pub packet_loop : ℕ → ℕ → List Reply → Outgoing → Outgoing × Rc
packet_loop zero now rs o = (o, Rc.success)
packet_loop (suc fuel) now rs o = elim (o.current_out_packet) [
  | none ↦ (o, Rc.success)
  | some p ↦ elim (write_loop rs p) [
    | partly p' bs rs' rc ↦ (record o { current_out_packet = some p'; wire = o.wire ++ bs }, rc)
    | whole p' bs rs' ↦
        let (o', ends) = after_packet now p' (record o { wire = o.wire ++ bs }) in
        elim ends [ true ↦ (o', Rc.success) | false ↦ packet_loop fuel now rs' o' ]
  ]
]

-- `want_connect` is set while the TLS hand-shake goes on.
pub packet_write : ℕ → List Reply → Outgoing → Outgoing × Rc
packet_write now rs o =
    let o' = take_up o in
    if not o.has_socket
    then (o, Rc.no_conn)
    else if is_connect_pending o.state || o.want_connect
    then (o', Rc.success)
    else packet_loop (suc (length o'.out_packet)) now rs o'

abbrev pub queued_packet : Packet → Packet
queued_packet p = record p { pos = 0; to_process = p.packet_length }

abbrev pub append_packet : Packet → Outgoing → Outgoing
append_packet p o = record o { out_packet = o.out_packet ++ (queued_packet p ∷ []) }

pub packet_queue : Packet → ℕ → List Reply → Outgoing → Outgoing × Rc
packet_queue p now rs o =
    if not o.in_callback && not o.threaded
    then packet_write now rs (append_packet p o)
    else (append_packet p o, Rc.success)

-- `packet__cleanup` of a packet that is not freed itself.
pub cleanup : Packet → Packet
cleanup p = record p {
  command = 0;
  remaining_count = ℤ.pos 0;
  remaining_mult = 1;
  remaining_length = 0;
  payload = [];
  to_process = 0;
  pos = 0;
}

-- `packet__cleanup_all`, but for `in_packet`: every packet of the queue is freed.
pub cleanup_all : Outgoing → Outgoing
cleanup_all o = record o { current_out_packet = none; out_packet = [] }
