-- ===== src/Incoming/Delivery.antt =====
-- A packet comes in over as many calls of `packet__read` as the stream makes necessary.
use artemisia.Base.{
  ℕ, zero, suc, ◌-◌, ◌<◌, ◌≡◌, ◌≢◌, refl, sym, ap, ◌∙◌, arith, inl, inr, Bool, true, false, not,
  Bool-cases,
}
use artemisia.Base.{List, [], ◌∷◌, Bytes, Rc, pred_ℤ, is_positive, ltb, ◌==◌, if◌then◌else◌, length}
use artemisia.State.{is_connect_pending}
use artemisia.Packet.Defs.{Packet}
use artemisia.Packet.Encode.{varint_limit}
use artemisia.Incoming.Socket.{Arrival, Reply, net_read}
use artemisia.Incoming.{
  Incoming, Progress, go, back, set_command, receive, rounds, add_length, length_next, after_loop,
  body_next, store, read_command, read_body, after_command, body_loop, length_loop, then_go,
  handled, received, packet_read,
}
use artemisia.Incoming.Absorb.{
  wants, absorb, Takes, receive-absorb, pred-rounds, receive-command, command-body, command-length,
}
use artemisia.Base.{if-true, if-false}
use artemisia.Incoming.Frame.{IsClean, frame, frame-Feeds}
use artemisia.Incoming.Feeds.{Feeds, Holds}

-- `Delivers w bs s s'`: the stream `s` brings the bytes `bs`, one read's worth after another, with
-- `w` pauses before their last byte, and `s'` is what follows.
pub data Delivers : ℕ → Bytes → List Arrival → List Arrival → Type 0 where
  done : {s s' : List Arrival} → s ≡ s' → Delivers 0 [] s s'
  came :
      {w : ℕ} {bs : Bytes} {s s' : List Arrival} (b : ℕ)
      → Delivers w bs s s'
      → Delivers w (b ∷ bs) (Arrival.byte b ∷ s) s'
  cut :
      {w b : ℕ} {bs : Bytes} {s s' : List Arrival}
      → Delivers w (b ∷ bs) s s'
      → Delivers w (b ∷ bs) (Arrival.gap ∷ s) s'
  waits :
      {w b : ℕ} {bs : Bytes} {s s' : List Arrival}
      → Delivers w (b ∷ bs) s s'
      → Delivers (suc w) (b ∷ bs) (Arrival.pause ∷ s) s'

-- A call on an incomplete packet starts with a read, which decides what it does.
record Reads (p : Packet) : Type 0 where
  count : ℕ
  touched : Bool
  on : Reply × List Arrival → Progress
  reads : (s : List Arrival) → receive true p s ≡ on (net_read count s)
  waits : (s : List Arrival) → on (Reply.again, s) ≡ back p s Rc.success touched

command-Reads : (p : Packet) → (p.command == 0) ≡ true → Reads p
unfolding receive read_command then_go
command-Reads p e = record {
  count = 1;
  touched = false;
  on = λ r. then_go (set_command p r) (after_command true);
  reads = λ s. ap (λ t. then_go t (after_command true)) (if-true _ _ _ e);
  waits = λ s. refl;
}

length-Reads :
    (k : ℕ) (p : Packet)
    → (p.command == 0) ≡ false
    → is_positive p.remaining_count ≡ false
    → rounds p.remaining_count ≡ suc k
    → Reads p
unfolding length_loop then_go after_loop
length-Reads k p started open_ left =
    let next = λ (r : Reply × List Arrival).
      length_next r.0 p r.1 (λ b. length_loop k (add_length b p) r.1) in
    record {
      count = 1;
      touched = false;
      on = λ r. then_go (after_loop true (next r)) read_body;
      reads = λ s.
          receive-command p s started
          ∙ command-length p s open_
          ∙ ap (λ n. then_go (after_loop true (length_loop n p s)) read_body) left;
      waits = λ s. refl;
    }

body-Reads :
    (n : ℕ) (p : Packet)
    → (p.command == 0) ≡ false
    → is_positive p.remaining_count ≡ true
    → p.to_process ≡ suc n
    → Reads p
unfolding body_loop
body-Reads n p started counted left = record {
  count = p.to_process;
  touched = ltb 1000 p.to_process;
  on = λ r. body_next r.0 p r.1 (λ bs. body_loop n (store bs p) r.1);
  reads = λ s.
      receive-command p s started
      ∙ command-body p s counted
      ∙ ap (λ k. body_loop k p s) left
      ∙ if-false (p.to_process == 0) _ _ (ground (arith, left));
  waits = λ s. refl;
}

Takes-Reads : (b : ℕ) (p : Packet) → Takes b p → Reads p
Takes-Reads b p (want, nonzero, short, fit) = elim (Bool-cases (p.command == 0)) [
  | inl e ↦ command-Reads p e
  | inr e ↦ elim (Bool-cases (is_positive p.remaining_count)) [
    | inl body ↦ body-Reads (p.to_process - 1) p e body (ground arith)
    | inr header ↦
        length-Reads (rounds (pred_ℤ p.remaining_count)) p e header
          (pred-rounds p.remaining_count header short).0
  ]
]

receive-gap :
    (b : ℕ) (p : Packet) (s : List Arrival)
    → Takes b p
    → receive true p (Arrival.gap ∷ s) ≡ receive true p s
unfolding net_read
receive-gap b p s takes =
    let r = Takes-Reads b p takes in r.reads (Arrival.gap ∷ s) ∙ sym (r.reads s)

receive-pause :
    (b : ℕ) (p : Packet) (s : List Arrival)
    → Takes b p
    → (t : Bool) × (receive true p (Arrival.pause ∷ s) ≡ back p s Rc.success t)
unfolding net_read
receive-pause b p s takes =
    let r = Takes-Reads b p takes in (r.touched, r.reads (Arrival.pause ∷ s) ∙ r.waits s)

wants-done :
    (p : Packet)
    → wants p ≡ false
    → ((p.command == 0) ≡ false) × (is_positive p.remaining_count ≡ true) × (p.to_process ≡ 0)
wants-done p w = elim (Bool-cases (is_positive p.remaining_count)) [
  | inl counted ↦ (ground arith, counted, ground arith)
  | inr open_ ↦ absurd (ground arith)
]

receive-full : (p : Packet) (s : List Arrival) → wants p ≡ false → receive true p s ≡ go p s
unfolding body_loop
receive-full p s w =
    let (started, counted, left) = wants-done p w in
    receive-command p s started ∙ command-body p s counted ∙ ap (λ k. body_loop k p s) left

-- What follows a call: the next one, unless it has failed.
abbrev pub next_call :
    {S : Type 0} → Incoming S × Rc → (Incoming S → Incoming S × Rc) → Incoming S × Rc
next_call (c, Rc.success) f = f c
next_call (c, rc) f = (c, rc)

abbrev pub at : {S : Type 0} → Incoming S → Packet → List Arrival → Incoming S
at c p s = record c { in_packet = p; socket = s }

-- The client has a connection.
pub record IsConnected {S : Type 0} (c : Incoming S) : Type 0 where
  pub open_ : c.has_socket ≡ true
  pub settled : is_connect_pending c.state ≡ false

module _ {S : Type 0} (handle_packet : Incoming S → Incoming S × Rc) (clock : ℕ → ℕ) where
  -- A call, and after it at most `w` more.
  unfoldable pub calls : ℕ → Incoming S → Incoming S × Rc
  calls zero c = packet_read handle_packet true (clock 0) c
  calls (suc w) c = next_call (packet_read handle_packet true (clock (suc w)) c) (calls w)

  received-same :
      (now : ℕ) (c : Incoming S) (p p' : Packet) (s s' : List Arrival) (r : Progress)
      → received handle_packet now (at c p s) r ≡ received handle_packet now (at c p' s') r
  received-same now c p p' s s' (go q t) = refl
  received-same now c p p' s s' (back q t rc touched) = refl

  packet_read-connected :
      (now : ℕ) (c : Incoming S)
      → IsConnected c
      → packet_read handle_packet true now c
        ≡ received handle_packet now c (receive true c.in_packet c.socket)
  unfolding packet_read
  packet_read-connected now c h =
      if-false (not c.has_socket) _ _ (ap not h.open_) ∙ if-false _ _ _ h.settled

  at-IsConnected :
      (c : Incoming S) (p : Packet) (s : List Arrival) → IsConnected c → IsConnected (at c p s)
  at-IsConnected c p s h = record { open_ = h.open_; settled = h.settled }

  packet_read-same :
      (now : ℕ) (c : Incoming S) (p p' : Packet) (s s' : List Arrival)
      → IsConnected c
      → receive true p s ≡ receive true p' s'
      → packet_read handle_packet true now (at c p s)
        ≡ packet_read handle_packet true now (at c p' s')
  packet_read-same now c p p' s s' h e =
      packet_read-connected now (at c p s) (at-IsConnected c p s h)
      ∙ received-same now c p p' s s' (receive true p s)
      ∙ ap (received handle_packet now (at c p' s')) e
      ∙ sym (packet_read-connected now (at c p' s') (at-IsConnected c p' s' h))

  calls-same :
      (w : ℕ) (c : Incoming S) (p p' : Packet) (s s' : List Arrival)
      → IsConnected c
      → receive true p s ≡ receive true p' s'
      → calls w (at c p s) ≡ calls w (at c p' s')
  unfolding calls
  calls-same zero c p p' s s' h e = packet_read-same (clock 0) c p p' s s' h e
  calls-same (suc w) c p p' s s' h e =
      ap (λ r. next_call r (calls w)) (packet_read-same (clock (suc w)) c p p' s s' h e)

  calls-Delivers :
      {w : ℕ} {bs : Bytes} {p q : Packet} {s s' : List Arrival} (c : Incoming S)
      → IsConnected c
      → Delivers w bs s s'
      → Feeds p bs q
      → (t : ℕ) × (calls w (at c p s)
          ≡ handled handle_packet (clock 0) (record (at c q s') { last_msg_in = t }))
  unfolding calls
  calls-Delivers {p} {s} {s'} c h (Delivers.done e) (Feeds.full want) = (
    c.last_msg_in,
    packet_read-connected (clock 0) (at c p s) (at-IsConnected c p s h)
        ∙ ap (received handle_packet (clock 0) (at c p s)) (receive-full p s want)
        ∙ ap (λ x. handled handle_packet (clock 0) (at c p x)) e,
  )
  calls-Delivers {w} {p} c h (Delivers.came {s} b d) (Feeds.next b' takes f) =
      let (t, e) = calls-Delivers c h d f in
      (t, calls-same w c p (absorb b p) (Arrival.byte b ∷ s) s h (receive-absorb b p s takes) ∙ e)
  calls-Delivers {w} {p} c h (Delivers.cut {s} d) (Feeds.next b takes f) =
      let (t, e) = calls-Delivers c h d (Feeds.next b takes f) in
      (t, calls-same w c p p (Arrival.gap ∷ s) s h (receive-gap b p s takes) ∙ e)
  calls-Delivers {p} c h (Delivers.waits {w} {s} d) (Feeds.next b takes f) =
      let (touched, e) = receive-pause b p s takes in
      let c' = record c { last_msg_in = if touched then clock (suc w) else c.last_msg_in } in
      let (t, rest) =
        calls-Delivers c' (record { open_ = h.open_; settled = h.settled }) d
          (Feeds.next b takes f) in
      (
        t,
        ap (λ r. next_call r (calls w))
              (packet_read-connected (clock (suc w)) (at c p (Arrival.pause ∷ s))
                  (at-IsConnected c p (Arrival.pause ∷ s) h)
                ∙ ap (received handle_packet (clock (suc w)) (at c p (Arrival.pause ∷ s))) e)
            ∙ rest,
      )

  -- From an empty packet, `w + 1` calls on a stream that brings a packet's bytes with `w` pauses,
  -- cut anywhere, hand a packet with this command, this length and this body to `handle__packet`,
  -- once.
  pub packet_read-Delivers :
      (w cmd : ℕ) (body : Bytes) (s' : List Arrival) (c : Incoming S)
      → IsConnected c
      → cmd ≢ 0
      → IsClean c.in_packet
      → length body < varint_limit
      → Delivers w (frame cmd body) c.socket s'
      → (q : Packet) × (t : ℕ) × Holds cmd body q
        × (calls w c ≡ handled handle_packet (clock 0) (record (at c q s') { last_msg_in = t }))
  packet_read-Delivers w cmd body s' c h nonzero clean fits stream =
      let (q, feeds, holds) = frame-Feeds cmd c.in_packet body nonzero clean fits in
      let (t, e) = calls-Delivers c h stream feeds in (q, t, holds, e)
