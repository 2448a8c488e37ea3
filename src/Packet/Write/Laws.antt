-- ===== src/Packet/Write/Laws.antt =====
-- What a write function does, told by the bytes that it adds: `Writes m bs` says that `m` puts
-- `bs` at `pos` and moves on, where the packet has room for them.
use artemisia.Base.{ℕ, zero, suc, ◌+◌, ◌≤◌, ◌≡◌, refl, sym, ap, ◌∙◌, arith}
use artemisia.Base.{[], ◌∷◌, ◌++◌, Bytes, length, take, drop, set}
use artemisia.Base.{length-append}
use artemisia.Packet.Defs.{Packet, done, M, ◌>>=◌, ◌>>◌, return, IsWritable}
use artemisia.Packet.Write.{overwrite}

-- The packet with `bs` written at `pos`.
unfoldable pub put : Bytes → Packet → Packet
unfolding overwrite
put bs p = record p { payload = overwrite p.payload p.pos bs; pos = p.pos + length bs }

abbrev pub Fits : Bytes → Packet → Type 0
Fits bs p = p.pos + length bs ≤ p.packet_length

abbrev pub Writes : M (Unit {0}) → Bytes → Type 0
Writes m bs = (p : Packet) → IsWritable p → Fits bs p → m p ≡ done tt (put bs p)

pub overwrite-nil : (l : Bytes) (i : ℕ) → overwrite l i [] ≡ l
unfolding overwrite
overwrite-nil [] i = refl
overwrite-nil (x ∷ l) zero = refl
overwrite-nil (x ∷ l) (suc i) = ap (λ t. x ∷ t) (overwrite-nil l i)

overwrite-one : (l : Bytes) (i b : ℕ) → overwrite l i (b ∷ []) ≡ set l i b
unfolding overwrite
overwrite-one [] i b = refl
overwrite-one (x ∷ l) zero b = ap (λ t. b ∷ t) (overwrite-nil l 0)
overwrite-one (x ∷ l) (suc i) b = ap (λ t. x ∷ t) (overwrite-one l i b)

pub length-overwrite : (l : Bytes) (i : ℕ) (bs : Bytes) → length (overwrite l i bs) ≡ length l
unfolding overwrite
length-overwrite [] i bs = refl
length-overwrite (x ∷ l) (suc i) bs = ap suc (length-overwrite l i bs)
length-overwrite (x ∷ l) zero [] = refl
length-overwrite (x ∷ l) zero (b ∷ bs) = ap suc (length-overwrite l zero bs)

overwrite_from :
    (l : Bytes) (b : ℕ) (n : ℕ) (cs : Bytes)
    → overwrite (b ∷ l) (0 + suc n) cs ≡ b ∷ overwrite l (0 + n) cs
unfolding overwrite
overwrite_from l b n cs =
    let up : 0 + suc n ≡ suc n = omega arith in let down : 0 + n ≡ n = omega arith in rw (up, down)

-- Two runs of bytes side by side are one run.
pub overwrite-append :
    (l : Bytes) (i : ℕ) (bs cs : Bytes)
    → overwrite (overwrite l i bs) (i + length bs) cs ≡ overwrite l i (bs ++ cs)
unfolding overwrite
overwrite-append [] i bs cs = refl
overwrite-append (x ∷ l) (suc i) bs cs =
    let up : suc i + length bs ≡ suc (i + length bs) = omega arith in
    rw up (ap (λ t. x ∷ t) (overwrite-append l i bs cs))
overwrite-append (x ∷ l) zero [] cs = refl
overwrite-append (x ∷ l) zero (b ∷ bs) cs =
    overwrite_from (overwrite l 0 bs) b (length bs) cs
    ∙ ap (λ t. b ∷ t) (overwrite-append l zero bs cs)

-- What was written is what stands there.
pub take-drop-overwrite :
    (l : Bytes) (i : ℕ) (bs : Bytes)
    → i + length bs ≤ length l
    → take (length bs) (drop i (overwrite l i bs)) ≡ bs
unfolding overwrite
take-drop-overwrite [] zero [] h = refl
take-drop-overwrite [] zero (b ∷ bs) h = absurd (omega arith)
take-drop-overwrite [] (suc i) bs h = absurd (omega arith)
take-drop-overwrite (x ∷ l) (suc i) bs h = take-drop-overwrite l i bs (omega arith)
take-drop-overwrite (x ∷ l) zero [] h = refl
take-drop-overwrite (x ∷ l) zero (b ∷ bs) h =
    ap (λ t. b ∷ t) (take-drop-overwrite l zero bs (omega arith))

-- One byte is one write into the buffer.
pub put-one :
    (b : ℕ) (p : Packet)
    → put (b ∷ []) p ≡ record p { payload = set p.payload p.pos b; pos = p.pos + 1 }
unfolding put
put-one b p = λ i. record p { payload = overwrite-one p.payload p.pos b i; pos = p.pos + 1 }

pub put-IsWritable : (bs : Bytes) (p : Packet) → IsWritable p → Fits bs p → IsWritable (put bs p)
unfolding put
put-IsWritable bs p w f =
    let same = length-overwrite p.payload p.pos bs in
    record { within = f; backed = omega arith; bounded = w.bounded }

pub put-append : (bs cs : Bytes) (p : Packet) → put cs (put bs p) ≡ put (bs ++ cs) p
unfolding put
put-append bs cs p =
    let sum = length-append bs cs in
    let data' = overwrite-append p.payload p.pos bs cs in
    let there : p.pos + length bs + length cs ≡ p.pos + length (bs ++ cs) = omega arith in
    λ i. record p { payload = data' i; pos = there i }

pub Writes-bind :
    (m k : M (Unit {0})) (bs cs : Bytes) → Writes m bs → Writes k cs → Writes (do m; k) (bs ++ cs)
Writes-bind m k bs cs hm hk p w f =
    let sum = length-append bs cs in
    let first : Fits bs p = omega arith in
    rw (hm p w first, ◌>>=◌)
      (hk (put bs p) (put-IsWritable bs p w first) (unfold put in omega arith)
        ∙ ap (done tt) (put-append bs cs p))

pub Writes-return : Writes (return tt) []
unfolding put
Writes-return p w f =
    let here : p.pos + 0 ≡ p.pos = omega arith in
    λ i. done tt (record p { payload = sym (overwrite-nil p.payload p.pos) i; pos = sym here i })
