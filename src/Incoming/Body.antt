-- ===== src/Incoming/Body.antt =====
-- The loop of `packet__read` over the body: a byte that has arrived can as well have been stored
-- before.
use artemisia.Base.{if-false}
use artemisia.Base.{
  ℕ, zero, suc, ◌+◌, ◌-◌, ◌%◌, ◌^◌, ◌≤◌, ◌<◌, ◌≡◌, refl, sym, ap, ◌∙◌, arith, true, false,
}
use artemisia.Base.{List, [], ◌∷◌, Bytes, ◌==◌, if◌then◌else◌, length}
use artemisia.Packet.Defs.{Packet}
use artemisia.Packet.Write.Laws.{overwrite-append, overwrite-nil}
use artemisia.Incoming.Socket.{Arrival, Reply, got, ended, again, lost, failed, run, net_read}
use artemisia.Incoming.{Progress, go, store, body_next, body_loop}

body_next-same :
    (r : Reply) (p : Packet) (s : List Arrival) (f g : Bytes → Progress)
    → ((b : ℕ) (bs : Bytes) → f (b ∷ bs) ≡ g (b ∷ bs))
    → body_next r p s f ≡ body_next r p s g
body_next-same (got b bs) p s f g h = h b bs
body_next-same ended p s f g h = refl
body_next-same again p s f g h = refl
body_next-same lost p s f g h = refl
body_next-same failed p s f g h = refl

-- More rounds than there are bytes to come change nothing.
body_loop-fuel :
    (f : ℕ) (p : Packet) (s : List Arrival)
    → p.to_process ≤ f
    → body_loop f p s ≡ body_loop (suc f) p s
unfolding body_loop store
body_loop-fuel zero p s h = let z : (p.to_process == 0) ≡ true = ground arith in rw z refl
body_loop-fuel (suc f) p s h =
    let same =
      body_next-same (net_read p.to_process s).0 p (net_read p.to_process s).1
        (λ bs. body_loop f (store bs p) (net_read p.to_process s).1)
        (λ bs. body_loop (suc f) (store bs p) (net_read p.to_process s).1)
        (λ b bs. body_loop-fuel f (store (b ∷ bs) p) (net_read p.to_process s).1 (omega arith)) in
    ap (λ t. if p.to_process == 0 then go p s else t) same

store-append :
    (b : ℕ) (bs : Bytes) (p : Packet)
    → p.pos + p.to_process < 2 ^ 32
    → length (b ∷ bs) ≤ p.to_process
    → store bs (store (b ∷ []) p) ≡ store (b ∷ bs) p
unfolding store
store-append b bs p h fit =
    let one : (p.pos + 1) % 2 ^ 32 ≡ p.pos + 1 = omega arith in
    let two : (p.pos + 1 + length bs) % 2 ^ 32 ≡ (p.pos + suc (length bs)) % 2 ^ 32 = omega arith in
    let left : p.to_process - 1 - length bs ≡ p.to_process - suc (length bs) = omega arith in
    rw one (λ i. record p {
      payload = overwrite-append p.payload p.pos (b ∷ []) bs i;
      to_process = left i;
      pos = two i;
    })

body_loop-byte :
    (n b : ℕ) (p : Packet) (s : List Arrival)
    → (p.to_process == 0) ≡ false
    → body_loop (suc n) p (Arrival.byte b ∷ s)
      ≡ body_loop n (store (b ∷ (run (p.to_process - 1) s).0) p) (run (p.to_process - 1) s).1
unfolding body_loop net_read
body_loop-byte n b p s busy = if-false _ _ _ busy

store-nil : (q : Packet) → q.pos < 2 ^ 32 → store [] q ≡ q
unfolding store
store-nil q h =
    let same : (q.pos + 0) % 2 ^ 32 ≡ q.pos = omega arith in
    let left : q.to_process - 0 ≡ q.to_process = omega arith in
    λ i. record q { payload = overwrite-nil q.payload q.pos i; to_process = left i; pos = same i }

length-run : (n : ℕ) (s : List Arrival) → length (run n s).0 ≤ n
unfolding run
length-run zero s = omega arith
length-run (suc n) [] = omega arith
length-run (suc n) (Arrival.byte b ∷ s) = omega (arith, length-run n s)
length-run (suc n) (Arrival.gap ∷ s) = omega arith
length-run (suc n) (Arrival.pause ∷ s) = omega arith
length-run (suc n) (Arrival.end ∷ s) = omega arith
length-run (suc n) (Arrival.conn_reset ∷ s) = omega arith
length-run (suc n) (Arrival.failure ∷ s) = omega arith

body-nothing :
    (n : ℕ) (q : Packet) (s : List Arrival)
    → q.pos < 2 ^ 32
    → body_loop n (store [] q) s ≡ body_loop n q s
body-nothing n q s h = ap (λ t. body_loop n t s) (store-nil q h)

-- The bytes that have arrived together can be stored before the loop.
body-run :
    (n : ℕ) (q : Packet) (s : List Arrival)
    → q.to_process ≡ n
    → q.pos < 2 ^ 32
    → body_loop n (store (run n s).0 q) (run n s).1 ≡ body_loop n q s
unfolding run
body-run zero q s e h = body-nothing 0 q s h
body-run (suc m) q (Arrival.byte c ∷ s) e h =
    let left : q.to_process - 1 ≡ m = omega arith in
    let busy : (q.to_process == 0) ≡ false = ground arith in
    sym (
      body_loop-byte m c q s busy
      ∙ ap (λ k. body_loop m (store (c ∷ (run k s).0) q) (run k s).1) left
      ∙ body_loop-fuel m (store (c ∷ (run m s).0) q) (run m s).1 (unfold store in omega arith))
body-run (suc m) q [] e h = body-nothing (suc m) q [] h
body-run (suc m) q (Arrival.gap ∷ s) e h = body-nothing (suc m) q (Arrival.gap ∷ s) h
body-run (suc m) q (Arrival.pause ∷ s) e h = body-nothing (suc m) q (Arrival.pause ∷ s) h
body-run (suc m) q (Arrival.end ∷ s) e h = body-nothing (suc m) q (Arrival.end ∷ s) h
body-run (suc m) q (Arrival.conn_reset ∷ s) e h = body-nothing (suc m) q (Arrival.conn_reset ∷ s) h
body-run (suc m) q (Arrival.failure ∷ s) e h = body-nothing (suc m) q (Arrival.failure ∷ s) h

-- In the body.
pub body-absorb :
    (n b : ℕ) (p : Packet) (s : List Arrival)
    → p.to_process ≡ suc n
    → p.pos + p.to_process < 2 ^ 32
    → body_loop (suc n) p (Arrival.byte b ∷ s) ≡ body_loop n (store (b ∷ []) p) s
body-absorb n b p s e h =
    let left : p.to_process - 1 ≡ n = omega arith in
    let short = length-run n s in
    let busy : (p.to_process == 0) ≡ false = ground arith in
    body_loop-byte n b p s busy
    ∙ ap (λ k. body_loop n (store (b ∷ (run k s).0) p) (run k s).1) left
    ∙ ap (λ q. body_loop n q (run n s).1) (sym (store-append b (run n s).0 p h (omega arith)))
    ∙ body-run n (store (b ∷ []) p) s (unfold store in omega arith) (unfold store in omega arith)
