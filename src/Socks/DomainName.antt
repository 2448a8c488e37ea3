-- ===== src/Socks/DomainName.antt =====
-- The answer of the proxy to a request: what is read of it, by the type of its address.
use artemisia.Base.{
  ℕ, zero, suc, ◌-◌, ◌<◌, ◌≡◌, refl, ap, ◌∙◌, arith, Bool, true, false, Option, none, some, List,
  [], ◌∷◌, ◌++◌, Bytes, Rc, length, get_elem?, ◌==◌, if◌then◌else◌, if-true, if-false,
}
use mathlib.Core.Option.{some-injective}
use artemisia.State.{ClientState}
use artemisia.Packet.Defs.{Packet}
use artemisia.Packet.Write.{overwrite}
use artemisia.Outgoing.{block}
use artemisia.Incoming.{store}
use artemisia.Incoming.Socket.{Arrival, got, run, net_read}
use artemisia.Socks.{
  Proxied, World, Ended, whole, reply_loop, reply_next, with_reply, awaiting, set_state, cleaned,
  after_reply, longer, extended, first_part, whole_reply, through, request_reply, socks5_read,
}

abbrev pub arriving : Bytes → List Arrival → List Arrival
arriving [] s = s
arriving (b ∷ bs) s = Arrival.byte b ∷ arriving bs s

arriving-append :
    (bs cs : Bytes) (s : List Arrival) → arriving (bs ++ cs) s ≡ arriving bs (arriving cs s)
arriving-append [] cs s = refl
arriving-append (b ∷ bs) cs s = ap (λ t. Arrival.byte b ∷ t) (arriving-append bs cs s)

run-arriving : (bs : Bytes) (s : List Arrival) → run (length bs) (arriving bs s) ≡ (bs, s)
unfolding run
run-arriving [] s = refl
run-arriving (b ∷ bs) s = rw (run-arriving bs s) refl

net_read-arriving :
    (b : ℕ) (bs : Bytes) (s : List Arrival)
    → net_read (length (b ∷ bs)) (arriving (b ∷ bs) s) ≡ (got b bs, s)
unfolding net_read
net_read-arriving b bs s =
    let count : length (b ∷ bs) - 1 ≡ length bs = omega arith in rw (count, run-arriving bs s) refl

reply_loop-full :
    (k : ℕ) (p : Packet) (s : List Arrival) → p.to_process ≡ 0 → reply_loop k p s ≡ whole p s
unfolding reply_loop
reply_loop-full zero p s h = refl
reply_loop-full (suc k) p s h =
    let none_left : (p.to_process == 0) ≡ true = ground arith in if-true _ _ _ none_left

-- All that is missing has arrived together.
reply_loop-arriving :
    (b : ℕ) (bs : Bytes) (s : List Arrival) (p : Packet)
    → p.to_process ≡ length (b ∷ bs)
    → reply_loop p.to_process p (arriving (b ∷ bs) s) ≡ whole (store (b ∷ bs) p) s
unfolding reply_loop store
reply_loop-arriving b bs s p missing =
    let stream = arriving (b ∷ bs) s in
    let more = λ (cs : Bytes) (s' : List Arrival). reply_loop (length bs) (store cs p) s' in
    let some_left : (p.to_process == 0) ≡ false = ground arith in
    ap (λ n. reply_loop n p stream) missing
    ∙ if-false (p.to_process == 0) _ _ some_left
    ∙ ap (λ n. reply_next (net_read n stream) p more) missing
    ∙ ap (λ r. reply_next r p more) (net_read-arriving b bs s)
    ∙ reply_loop-full (length bs) (store (b ∷ bs) p) s (omega (arith, missing))

-- The client has asked for a connection, and the answer is on its way.
abbrev pub asked : Proxied → Packet → List Arrival → Proxied
asked x p s = record (set_state ClientState.socks5_request x) {
  in_packet = awaiting 5 (block 5) p;
  socket = s;
}

-- How many bytes are read behind the first five.
abbrev pub announced : ℕ → ℕ → Option ℕ
announced type first =
    if type == 1
    then some 5
    else if type == 4
    then some 17
    else if type == 3
    then some first
    else none

abbrev head : ℕ → ℕ → Bytes
head type first = 5 ∷ 0 ∷ 0 ∷ type ∷ first ∷ []

-- Behind the first call.
abbrev half_read : Proxied → Packet → ℕ → ℕ → ℕ → List Arrival → Proxied
half_read x p type first n s = record (asked x p s) {
  in_packet = longer n true (store (head type first) (awaiting 5 (block 5) p));
}

first_part-announced :
    (world : World) (x : Proxied) (type first n : ℕ)
    → get_elem? x.in_packet.payload 3 ≡ some type
    → get_elem? x.in_packet.payload 4 ≡ some first
    → announced type first ≡ some n
    → first_part world x ≡ extended world n x
unfolding first_part
first_part-announced world x type first n third fourth e =
    rw (third, fourth) (go (type == 1) (type == 4) (type == 3) e)
  where
    go :
        (v4 v6 name : Bool)
        → (if v4 then some 5 else if v6 then some 17 else if name then some first else none)
          ≡ some n
        → (if v4
            then extended world 5 x
            else if v6
            then extended world 17 x
            else if name
            then extended world first x
            else some (cleaned x, Rc.protocol))
          ≡ extended world n x
    go true v6 name e = ap (λ k. extended world k x) (some-injective _ _ e)
    go false true name e = ap (λ k. extended world k x) (some-injective _ _ e)
    go false false true e = ap (λ k. extended world k x) (some-injective _ _ e)
    go false false false e = absurd cc

-- The first call reads the first five bytes.
first_call :
    (read_on : Proxied → Ended) (world : World) (x : Proxied) (p : Packet) (type first n : ℕ)
    (s : List Arrival)
    → announced type first ≡ some n
    → world.mem 3 ≡ true
    → socks5_read read_on world (asked x p (arriving (head type first) s))
      ≡ some (half_read x p type first n s, Rc.success)
unfolding socks5_read store overwrite block
first_call read_on world x p type first n s e mem =
    ap (after_reply (request_reply world) (asked x p (arriving (head type first) s)))
      (reply_loop-arriving 5 (0 ∷ 0 ∷ type ∷ first ∷ []) s (awaiting 5 (block 5) p) refl)
    ∙ first_part-announced world
        (with_reply (asked x p s) (store (head type first) (awaiting 5 (block 5) p)) s) type first n
        refl refl e
    ∙ rw mem refl

-- The second call reads the rest, and goes on to the server.
second_call :
    (read_on : Proxied → Ended) (world : World) (x : Proxied) (p : Packet) (type first b : ℕ)
    (more : Bytes) (s : List Arrival)
    → length more < 256
    → (z : Proxied) × (socks5_read read_on world
          (half_read x p type first (length (b ∷ more)) (arriving (b ∷ more) s))
        ≡ through world z)
      × (z.socket ≡ s)
      × (z.out.state ≡ ClientState.new)
unfolding socks5_read store overwrite block longer whole_reply
second_call read_on world x p type first b more s short =
    let n = length (b ∷ more) in
    let y = half_read x p type first n (arriving (b ∷ more) s) in
    let p' = store (b ∷ more) y.in_packet in
    let z = set_state ClientState.new (cleaned (with_reply y p' s)) in
    let all_ : reply_loop y.in_packet.to_process y.in_packet (arriving (b ∷ more) s) ≡ whole p' s =
      reply_loop-arriving b more s y.in_packet (omega arith) in
    let longer_ : (p'.packet_length == 5) ≡ false = ground arith in
    (z, ap (after_reply (request_reply world) y) all_ ∙ if-false _ _ _ longer_ ∙ refl, refl, refl)

-- A proxy that has connected the client is understood in two calls: they take the first five bytes
-- of its answer and as many as its type announces, 5 for an address of IPv4, 17 for one of IPv6
-- and as many as the name has for a name; then the client goes on to the server. This is so for an
-- answer that has arrived and announces between 1 and 256 bytes.
pub socks5_read-through :
    (read_on : Proxied → Ended) (world : World) (x : Proxied) (p : Packet) (type first b : ℕ)
    (more : Bytes) (s : List Arrival)
    → announced type first ≡ some (length (b ∷ more))
    → length more < 256
    → world.mem 3 ≡ true
    → (y : Proxied) × (z : Proxied) × (socks5_read read_on world
          (asked x p (arriving (5 ∷ 0 ∷ 0 ∷ type ∷ first ∷ []) (arriving (b ∷ more) s)))
        ≡ some (y, Rc.success))
      × (socks5_read read_on world y ≡ through world z)
      × (z.socket ≡ s)
      × (z.out.state ≡ ClientState.new)
socks5_read-through read_on world x p type first b more s e short mem =
    let n = length (b ∷ more) in
    let stream = arriving (b ∷ more) s in
    let (z, second, left, state) = second_call read_on world x p type first b more s short in
    (
      half_read x p type first n stream,
      z,
      first_call read_on world x p type first n stream e mem,
      second,
      left,
      state,
    )

-- The answer of SOCKS5 for a host with a name ends with two bytes of a port, which are not read:
-- whatever the name, its length up to 255 and the port, the client goes on to the server with those
-- two bytes before all that the server sends.
pub domain_name_port_left :
    (read_on : Proxied → Ended) (world : World) (x : Proxied) (p : Packet) (b : ℕ) (name : Bytes)
    (port1 port2 : ℕ) (s : List Arrival)
    → length (b ∷ name) < 256
    → world.mem 3 ≡ true
    → (y : Proxied) × (z : Proxied) × (socks5_read read_on world (
          asked x p (
            arriving
              (5 ∷ 0 ∷ 0 ∷ 3 ∷ length (b ∷ name) ∷ [])
              (arriving ((b ∷ name) ++ (port1 ∷ port2 ∷ [])) s)))
        ≡ some (y, Rc.success))
      × (socks5_read read_on world y ≡ through world z)
      × (z.socket ≡ Arrival.byte port1 ∷ Arrival.byte port2 ∷ s)
domain_name_port_left read_on world x p b name port1 port2 s short mem =
    let port = arriving (port1 ∷ port2 ∷ []) s in
    let (y, z, first, second, left, state) =
      socks5_read-through read_on world x p 3 (length (b ∷ name)) b name port refl (omega arith)
        mem in
    (y, z, rw (arriving-append (b ∷ name) (port1 ∷ port2 ∷ []) s) first, second, left)

-- Behind the first part of an answer with a name of no bytes, no call reads anything or ends
-- otherwise than with success, whatever arrives.
pub domain_name_empty :
    (read_on : Proxied → Ended) (world : World) (x : Proxied) (p : Packet) (s : List Arrival)
    → world.mem 3 ≡ true
    → (y : Proxied) × (socks5_read read_on world (asked x p (arriving (5 ∷ 0 ∷ 0 ∷ 3 ∷ 0 ∷ []) s))
        ≡ some (y, Rc.success))
      × (y.socket ≡ s)
      × (socks5_read read_on world y ≡ some (y, Rc.success))
unfolding socks5_read store overwrite block longer first_part reply_loop
domain_name_empty read_on world x p s mem =
    (half_read x p 3 0 0 s, first_call read_on world x p 3 0 0 s refl mem, refl, rw mem refl)
