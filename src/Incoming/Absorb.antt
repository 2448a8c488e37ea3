-- ===== src/Incoming/Absorb.antt =====
-- `packet__read` sees the stream byte by byte, however it is cut: a byte that has arrived can as
-- well have been taken in before the call.
use artemisia.Base.{if-true, if-false}
use artemisia.Base.{
  ℕ, zero, suc, ◌+◌, ◌-◌, ◌/◌, ◌%◌, ◌^◌, ◌<◌, ◌≡◌, ◌≢◌, refl, sym, ap, ◌∙◌, arith, inl, inr, Bool,
  true, false, not, ◌&&◌, ◌||◌, Bool-cases,
}
use artemisia.Base.{
  List, [], ◌∷◌, ℤ, pos, negsuc, pred_ℤ, neg_ℤ, is_positive, ltb, ◌==◌, if◌then◌else◌,
}
use artemisia.Packet.Defs.{Packet}
use artemisia.Incoming.Socket.{Arrival, run, net_read}
use artemisia.Incoming.{
  go, read_command, add_length, is_too_long, rounds, length_loop, begin_body, after_loop,
  read_length, read_body, after_command, store, body_loop, then_go, receive,
}
use artemisia.Incoming.Body.{body-absorb}

-- The packet is not complete: the call reads on.
abbrev pub wants : Packet → Bool
wants p = p.command == 0 || not (is_positive p.remaining_count) || ltb 0 p.to_process

-- One byte of the stream, where malloc gives the block for the body.
unfoldable pub absorb : ℕ → Packet → Packet
absorb b p =
    if p.command == 0
    then record p { command = b }
    else if is_positive p.remaining_count
    then store (b ∷ []) p
    else if b / 128 % 2 == 1
    then add_length b p
    else begin_body (add_length b p)

-- The bytes that may come next: a command is not 0, there are four bytes of length at most, and the
-- body fits its block.
abbrev pub Takes : ℕ → Packet → Type 0
Takes b p =
    (wants p ≡ true)
    × (p.command ≡ 0 → b ≢ 0)
    × (is_too_long (pred_ℤ p.remaining_count) ≡ false)
    × (p.pos + p.to_process < 2 ^ 32)

length_loop-absorb :
    (k b : ℕ) (p : Packet) (s : List Arrival)
    → is_too_long (pred_ℤ p.remaining_count) ≡ false
    → length_loop (suc k) p (Arrival.byte b ∷ s)
      ≡ (if b / 128 % 2 == 1 then length_loop k (add_length b p) s else go (add_length b p) s)
unfolding length_loop net_read run
length_loop-absorb k b p s h = if-false _ _ _ h

-- The parts of the function that are passed over.
pub receive-command :
    (p : Packet) (s : List Arrival)
    → (p.command == 0) ≡ false
    → receive true p s ≡ after_command true p s
unfolding receive read_command then_go
receive-command p s h = ap (λ t. then_go t (after_command true)) (if-false _ _ _ h)

receive-first :
    (b : ℕ) (p : Packet) (s : List Arrival)
    → (p.command == 0) ≡ true
    → receive true p (Arrival.byte b ∷ s) ≡ after_command true (record p { command = b }) s
unfolding receive read_command then_go net_read run
receive-first b p s h = ap (λ t. then_go t (after_command true)) (if-true _ _ _ h)

pub command-body :
    (p : Packet) (s : List Arrival)
    → is_positive p.remaining_count ≡ true
    → after_command true p s ≡ body_loop p.to_process p s
unfolding after_command read_length read_body then_go
command-body p s h = ap (λ t. then_go t read_body) (if-true _ _ _ h)

pub command-length :
    (p : Packet) (s : List Arrival)
    → is_positive p.remaining_count ≡ false
    → after_command true p s
      ≡ then_go (after_loop true (length_loop (rounds p.remaining_count) p s)) read_body
unfolding after_command read_length
command-length p s h = ap (λ t. then_go t read_body) (if-false _ _ _ h)

after_loop-go : (p : Packet) (s : List Arrival) → after_loop true (go p s) ≡ go (begin_body p) s
unfolding after_loop
after_loop-go p s = if-false (ltb 0 p.remaining_length && false) _ _ (ground arith)

absorb-body :
    (n b : ℕ) (p : Packet) (s : List Arrival)
    → (p.command == 0) ≡ false
    → is_positive p.remaining_count ≡ true
    → p.to_process ≡ suc n
    → p.pos + p.to_process < 2 ^ 32
    → receive true p (Arrival.byte b ∷ s) ≡ receive true (store (b ∷ []) p) s
absorb-body n b p s hc hp e fit =
    let left : (store (b ∷ []) p).to_process ≡ n = unfold store in omega arith in
    receive-command p (Arrival.byte b ∷ s) hc
    ∙ command-body p (Arrival.byte b ∷ s) hp
    ∙ ap (λ k. body_loop k p (Arrival.byte b ∷ s)) e
    ∙ body-absorb n b p s e fit
    ∙ ap (λ k. body_loop k (store (b ∷ []) p) s) (sym left)
    ∙ sym (command-body (store (b ∷ []) p) s (unfold store in hp))
    ∙ sym (receive-command (store (b ∷ []) p) s (unfold store in hc))

-- The rounds that are left for the count of a length byte more.
pub pred-rounds :
    (z : ℤ)
    → is_positive z ≡ false
    → is_too_long (pred_ℤ z) ≡ false
    → (rounds z ≡ suc (rounds (pred_ℤ z)))
      × (is_positive (pred_ℤ z) ≡ false)
      × (is_positive (neg_ℤ (pred_ℤ z)) ≡ true)
pred-rounds (pos zero) h k = (omega arith, refl, refl)
pred-rounds (pos (suc n)) h k = cc
pred-rounds (negsuc n) h k = (ground arith, refl, refl)

go-body : (p : Packet) (s : List Arrival) → then_go (go p s) read_body ≡ body_loop p.to_process p s
unfolding then_go read_body
go-body p s = refl

begin_body-keeps :
    (p : Packet)
    → ((begin_body p).command ≡ p.command)
      × ((begin_body p).remaining_count ≡ neg_ℤ p.remaining_count)
unfolding begin_body
begin_body-keeps p = elim (Bool-cases (ltb 0 p.remaining_length)) [
  | inl e ↦ rw e (refl, refl)
  | inr e ↦ rw e (refl, refl)
]

absorb-length :
    (b : ℕ) (p : Packet) (s : List Arrival)
    → (p.command == 0) ≡ false
    → is_positive p.remaining_count ≡ false
    → is_too_long (pred_ℤ p.remaining_count) ≡ false
    → receive true p (Arrival.byte b ∷ s)
      ≡ receive true (if b / 128 % 2 == 1 then add_length b p else begin_body (add_length b p)) s
unfolding add_length
absorb-length b p s hc hp short =
    let (more, neg, positive) = pred-rounds p.remaining_count hp short in
    let k = rounds (pred_ℤ p.remaining_count) in
    let start =
      receive-command p (Arrival.byte b ∷ s) hc
      ∙ command-length p (Arrival.byte b ∷ s) hp
      ∙ ap (λ n. then_go (after_loop true (length_loop n p (Arrival.byte b ∷ s))) read_body) more
      ∙ ap (λ t. then_go (after_loop true t) read_body) (length_loop-absorb k b p s short) in
    start ∙ rest (b / 128 % 2 == 1)
  where
    q : Packet
    q = add_length b p

    rest :
        (c : Bool)
        → then_go
            (after_loop true
              (if c then length_loop (rounds (pred_ℤ p.remaining_count)) q s else go q s))
            read_body
          ≡ receive true (if c then q else begin_body q) s
    rest true =
        let (more, neg, positive) = pred-rounds p.remaining_count hp short in
        sym (receive-command q s hc ∙ command-length q s neg)
    rest false =
        let (more, neg, positive) = pred-rounds p.remaining_count hp short in
        let (same, count) = begin_body-keeps q in
        ap (λ t. then_go t read_body) (after_loop-go q s)
        ∙ go-body (begin_body q) s
        ∙ sym (
            receive-command (begin_body q) s (ap (λ c. c == 0) same ∙ hc)
            ∙ command-body (begin_body q) s (ap is_positive count ∙ positive))

pub absorb_first :
    (b : ℕ) (p : Packet) → (p.command == 0) ≡ true → absorb b p ≡ record p { command = b }
unfolding absorb
absorb_first b p e = if-true _ _ _ e

pub absorb_length :
    (b : ℕ) (p : Packet)
    → (p.command == 0) ≡ false
    → is_positive p.remaining_count ≡ false
    → absorb b p ≡ (if b / 128 % 2 == 1 then add_length b p else begin_body (add_length b p))
unfolding absorb
absorb_length b p e h = if-false _ _ _ e ∙ if-false _ _ _ h

pub absorb_body :
    (b : ℕ) (p : Packet)
    → (p.command == 0) ≡ false
    → is_positive p.remaining_count ≡ true
    → absorb b p ≡ store (b ∷ []) p
unfolding absorb
absorb_body b p e h = if-false _ _ _ e ∙ if-true _ _ _ h

-- Where the packet takes the byte, a call with the byte at the front of the socket and a call that
-- has taken it in do the same.
pub receive-absorb :
    (b : ℕ) (p : Packet) (s : List Arrival)
    → Takes b p
    → receive true p (Arrival.byte b ∷ s) ≡ receive true (absorb b p) s
receive-absorb b p s (w, nonzero, short, fit) = elim (Bool-cases (p.command == 0)) [
  | inl e ↦
      receive-first b p s e
      ∙ sym (receive-command (record p { command = b }) s (ground (arith, nonzero)))
      ∙ ap (λ q. receive true q s) (sym (absorb_first b p e))
  | inr e ↦ elim (Bool-cases (is_positive p.remaining_count)) [
    | inl body ↦
        let busy : p.to_process ≡ suc (p.to_process - 1) = ground arith in
        absorb-body (p.to_process - 1) b p s e body busy fit
        ∙ ap (λ q. receive true q s) (sym (absorb_body b p e body))
    | inr header ↦
        absorb-length b p s e header short
        ∙ ap (λ q. receive true q s) (sym (absorb_length b p e header))
  ]
]
