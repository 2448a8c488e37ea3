-- ===== src/Socks.antt =====
-- `socks5__send` and `socks5__read` of socks_mosq.c: the client asks a SOCKS5 proxy for a
-- connection to its server.
pub mod Greeting
pub mod DomainName
pub mod Options
mod Tests
use artemisia.Base.{
  ℕ, zero, suc, ◌+◌, ◌-◌, ◌/◌, ◌%◌, ◌^◌, Bool, true, false, Option, none, some, List, [], ◌∷◌, ◌++◌,
  Bytes, Rc, ltb, ◌==◌, ◌||◌, get_elem?, if◌then◌else◌, length, is_failure,
}
use artemisia.State.{ClientState, Protocol}
use artemisia.Packet.Defs.{Packet}
use artemisia.Messages.Defs.{Client}
use artemisia.Outgoing.{block, cleanup, packet_queue}
use artemisia.Outgoing.Defs
use artemisia.Outgoing.Defs.{Outgoing}
use artemisia.Incoming.{store}
use artemisia.Incoming.Socket.{Arrival, Reply, got, ended, again, lost, failed, net_read}
use artemisia.Senders.{new_packet}
use artemisia.Senders.Connect.{Identity, send_connect}

-- The part of `struct mosquitto` that the proxy needs; `socks5_host` is no null pointer. The state
-- is that of `out`.
pub record Proxied : Type 0 where
  pub host : Bytes
  pub port : ℕ
  pub socks5_username : Option Bytes
  pub socks5_password : Option Bytes
  pub in_packet : Packet
  pub socket : List Arrival
  pub out : Outgoing
  pub protocol : Protocol
  pub who : Identity
  pub keepalive : ℕ
  pub clean_start : Bool
  pub messages : Client

-- What the surroundings answer: the allocations, inet_pton for the two kinds of addresses, the time,
-- what the socket takes, and net__socket_connect_step3.
pub record World : Type 0 where
  pub mem : ℕ → Bool
  pub inet4 : Bytes → Option Bytes
  pub inet6 : Bytes → Option Bytes
  pub now : ℕ
  pub replies : List Defs.Reply
  pub step3 : Rc

-- A call ends with a code, or runs into a null pointer.
abbrev pub Ended : Type 0
Ended = Option (Proxied × Rc)

abbrev pub set_state : ClientState → Proxied → Proxied
set_state s x = record x { out = record (x.out) { state = s } }

-- `mosq->in_packet` for a reply of `n` bytes. The last malloc is that of its buffer.
abbrev pub awaiting : ℕ → Bytes → Packet → Packet
awaiting n buffer p = record p { pos = 0; packet_length = n; to_process = n; payload = buffer }

abbrev pub raw_packet : Bytes → Packet
raw_packet bytes = record (new_packet 0 0) { payload = bytes; packet_length = length bytes }

-- The new state, the room for the reply, and the packet into the queue.
pub send_and_await : World → ClientState → ℕ → Bytes → Proxied → Proxied × Rc
send_and_await world state n bytes x =
    let x' = set_state state x in
    let (o, rc) = packet_queue (raw_packet bytes) world.now world.replies x'.out in
    if world.mem 2
    then (record x' { in_packet = awaiting n (block n) x.in_packet; out = o }, rc)
    else (record x' { in_packet = awaiting n [] x.in_packet }, Rc.nomem)

abbrev pub greeting : Option Bytes → Bytes
greeting none = 5 ∷ 1 ∷ 0 ∷ []
greeting (some username) = 5 ∷ 2 ∷ 0 ∷ 2 ∷ []

-- The buffer of the packet is written without a look at malloc's answer.
pub send_greeting : World → Proxied → Ended
send_greeting world x =
    if world.mem 0
    then (if world.mem 1
        then some (send_and_await world ClientState.socks5_start 2 (greeting x.socks5_username) x)
        else none)
    else some (x, Rc.nomem)

-- The type of the address and the address, if the host is not too long.
abbrev pub named_address : Bytes → Option Bytes
named_address host = if ltb 255 (length host) then none else some (3 ∷ length host % 256 ∷ host)

abbrev pub either_address : Option Bytes → Option Bytes → Bytes → Option Bytes
either_address (some a) v6 host = some (1 ∷ a)
either_address none (some a) host = some (4 ∷ a)
either_address none none host = named_address host

abbrev pub request_bytes : Bytes → ℕ → Bytes
request_bytes address port = (5 ∷ 1 ∷ 0 ∷ []) ++ (address ++ (port / 256 % 256 ∷ port % 256 ∷ []))

abbrev pub request_to : World → Proxied → Option Bytes → Ended
request_to world x none = some (x, Rc.nomem)
request_to world x (some address) =
    if world.mem 1
    then some (send_and_await world ClientState.socks5_request 5 (request_bytes address x.port) x)
    else some (x, Rc.nomem)

pub send_request : World → Proxied → Ended
send_request world x =
    if world.mem 0
    then request_to world x (either_address (world.inet4 x.host) (world.inet6 x.host) x.host)
    else some (x, Rc.nomem)

-- The lengths go into one byte each. Malloc's answer is not looked at.
abbrev pub userpass_bytes : Bytes → Bytes → Bytes
userpass_bytes username password =
    (1 ∷ length username % 256 ∷ []) ++ (username ++ (length password % 256 ∷ password))

abbrev pub userpass_of : World → Proxied → Option Bytes → Option Bytes → Ended
userpass_of world x (some username) (some password) =
    if world.mem 1
    then some (
        send_and_await world ClientState.socks5_userpass_reply 2 (userpass_bytes username password)
          x)
    else none
userpass_of world x username password = none

pub send_userpass : World → Proxied → Ended
send_userpass world x =
    if world.mem 0
    then userpass_of world x x.socks5_username x.socks5_password
    else some (x, Rc.nomem)

abbrev pub send_in : ClientState → World → Proxied → Ended
send_in ClientState.socks5_new world x = send_greeting world x
send_in ClientState.socks5_auth_ok world x = send_request world x
send_in ClientState.socks5_send_userpass world x = send_userpass world x
send_in state world x = some (x, Rc.success)

pub socks5_send : World → Proxied → Ended
socks5_send world x = send_in x.out.state world x

-- How the loop over one reply ends: all is there, nothing more has arrived, or the call fails.
pub data Reading : Type 0 where
  whole : Packet → List Arrival → Reading
  paused : Packet → List Arrival → Reading
  broken : Packet → List Arrival → Rc → Reading

abbrev pub reply_next : Reply × List Arrival → Packet → (Bytes → List Arrival → Reading) → Reading
reply_next (got b bs, s) p more = more (b ∷ bs) s
reply_next (again, s) p more = paused p s
reply_next (ended, s) p more = broken p s Rc.proxy
reply_next (lost, s) p more = broken p s Rc.conn_lost
reply_next (failed, s) p more = broken p s Rc.errno

-- The loop, over the bytes that are missing, of which each round takes one at least.
unfoldable pub reply_loop : ℕ → Packet → List Arrival → Reading
reply_loop zero p s = whole p s
reply_loop (suc k) p s =
    if p.to_process == 0
    then whole p s
    else reply_next (net_read p.to_process s) p (λ bs s'. reply_loop k (store bs p) s')

abbrev pub with_reply : Proxied → Packet → List Arrival → Proxied
with_reply x p s = record x { in_packet = p; socket = s }

abbrev pub cleaned : Proxied → Proxied
cleaned x = record x { in_packet = cleanup x.in_packet }

abbrev pub refused : Proxied → Rc → Ended
refused x rc = some (cleaned x, rc)

abbrev pub after_reply : (Proxied → Ended) → Proxied → Reading → Ended
after_reply on x (whole p s) = on (with_reply x p s)
after_reply on x (paused p s) = some (with_reply x p s, Rc.success)
after_reply on x (broken p s rc) = refused (with_reply x p s) rc

abbrev pub read_reply : (Proxied → Ended) → Proxied → Ended
read_reply on x = after_reply on x (reply_loop x.in_packet.to_process x.in_packet x.socket)

-- `mosq->in_packet.payload[i]`.
abbrev pub at_byte : Option ℕ → (ℕ → Ended) → Ended
at_byte none f = none
at_byte (some b) f = f b

abbrev pub with_byte : ℕ → Proxied → (ℕ → Ended) → Ended
with_byte i x f = at_byte (get_elem? x.in_packet.payload i) f

abbrev pub go_on : World → ClientState → Proxied → Ended
go_on world state x = socks5_send world (set_state state (cleaned x))

-- The method that the proxy has chosen.
pub method_reply : World → Proxied → Ended
method_reply world x = with_byte 0 x (λ version.
    if version == 5
    then with_byte 1 x (λ method.
      if method == 0
      then go_on world ClientState.socks5_auth_ok x
      else if method == 2
      then go_on world ClientState.socks5_send_userpass x
      else refused x Rc.auth)
    else refused x Rc.proxy)

-- The return code for a reply that is not 0.
abbrev pub reply_code : ℕ → Rc
reply_code i =
    if i == 2
    then Rc.auth
    else if i == 3 || i == 4 || i == 5
    then Rc.no_conn
    else if i == 1 || i == 6 || i == 7 || i == 8
    then Rc.proxy
    else Rc.inval

pub userpass_reply : World → Proxied → Ended
userpass_reply world x = with_byte 0 x (λ version.
    if version == 1
    then with_byte 1 x
        (λ i. if i == 0 then go_on world ClientState.socks5_auth_ok x else refused x (reply_code i))
    else refused x Rc.proxy)

-- `n` more bytes are to come. `mem 3` is realloc's answer.
unfoldable pub longer : ℕ → Bool → Packet → Packet
longer n mem p = record p {
  to_process = p.to_process + n;
  packet_length = p.packet_length + n;
  payload = if mem then p.payload ++ block n else p.payload;
}

abbrev pub extended : World → ℕ → Proxied → Ended
extended world n x =
    let x' = record x { in_packet = longer n (world.mem 3) x.in_packet } in
    if world.mem 3 then some (x', Rc.success) else refused x' Rc.nomem

-- Five bytes are there: the type of the address says how many follow, but for a name the two bytes
-- of the port are not among them.
pub first_part : World → Proxied → Ended
first_part world x = with_byte 3 x (λ type.
    if type == 1
    then extended world 5 x
    else if type == 4
    then extended world 17 x
    else if type == 3
    then with_byte 4 x (λ n. extended world n x)
    else refused x Rc.protocol)

abbrev pub connecting : Proxied → Option (Outgoing × Rc) × Client → Ended
connecting x (none, c) = none
connecting x (some (o, rc), c) = some (record x { out = o; messages = c }, rc)

-- Behind the proxy: the TLS hand-shake, if there is one, and the CONNECT.
abbrev pub through : World → Proxied → Ended
through world x =
    if is_failure world.step3
    then some (x, world.step3)
    else connecting x (
        send_connect x.protocol x.who x.keepalive x.clean_start [] (world.mem 4) (world.mem 5)
          (world.mem 6) world.now world.replies x.out x.messages)

pub whole_reply : World → Proxied → Ended
whole_reply world x = with_byte 0 x (λ version.
    if version == 5
    then with_byte 1 x (λ i.
      if i == 0
      then through world (set_state ClientState.new (cleaned x))
      else some (set_state ClientState.socks5_new (cleaned x), reply_code i))
    else refused x Rc.proxy)

abbrev pub request_reply : World → Proxied → Ended
request_reply world x =
    if x.in_packet.packet_length == 5 then first_part world x else whole_reply world x

-- `read_on` is packet__read, which every other state calls.
abbrev pub read_in : (Proxied → Ended) → ClientState → World → Proxied → Ended
read_in read_on ClientState.socks5_start world x = read_reply (method_reply world) x
read_in read_on ClientState.socks5_userpass_reply world x = read_reply (userpass_reply world) x
read_in read_on ClientState.socks5_request world x = read_reply (request_reply world) x
read_in read_on state world x = read_on x

pub socks5_read : (Proxied → Ended) → World → Proxied → Ended
socks5_read read_on world x = read_in read_on x.out.state world x
