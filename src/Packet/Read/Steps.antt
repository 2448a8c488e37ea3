-- ===== src/Packet/Read/Steps.antt =====
-- The steps that the read functions are made of, on a packet with enough left.
use artemisia.Base.{ℕ, zero, suc, ◌+◌, ◌-◌, ◌%◌, ◌^◌, ◌≤◌, ◌<◌, ◌≡◌, refl, sym, ◌∙◌, ap, arith}
use artemisia.Base.{some, [], ◌∷◌, ◌++◌, Bytes, Rc, length, get_elem?, take, drop}
use artemisia.Base.{length-append, take-append}
use artemisia.Packet.Defs.{Packet, Outcome, done, fail, M, ◌>>=◌, ◌>>◌, return, advance}
use artemisia.Packet.Defs.{IsReadable}
use artemisia.Packet.Unread.{unread, length-unread, get_elem?-unread, Reads, unread-advance_rest}
use artemisia.Packet.Unread.{advance-IsReadable}
use artemisia.Packet.Read.{peek, skip, require, copy_out, has_more}

pub skip_fits : (n : ℕ) (p : Packet) → p.pos + n < 2 ^ 32 → skip n p ≡ done tt (advance n p)
unfolding skip
skip_fits n p h = let small : (p.pos + n) % 2 ^ 32 ≡ p.pos + n = omega arith in rw small

pub skip-unread :
    (n : ℕ) (p : Packet) → IsReadable p → n ≤ length (unread p) → skip n p ≡ done tt (advance n p)
skip-unread n p h le = skip_fits n p (omega (arith, length-unread p h))

pub require_fits :
    (n : ℕ) (p : Packet) → IsReadable p → n ≤ length (unread p) → require n p ≡ done tt p
unfolding require
require_fits n p h le = ground (arith, length-unread p h)

pub require_short :
    (n : ℕ) (p : Packet)
    → IsReadable p
    → n ≤ 65536
    → length (unread p) < n
    → require n p ≡ fail Rc.protocol p
unfolding require
require_short n p h small lt = ground (arith, length-unread p h)

pub peek-unread : (p : Packet) (b : ℕ) (r : Bytes) → unread p ≡ b ∷ r → peek p ≡ done b p
unfolding peek
peek-unread p b r e =
    let here : p.pos + 0 ≡ p.pos = omega arith in
    let found : get_elem? p.payload p.pos ≡ some b =
      ap (get_elem? p.payload) (sym here)
      ∙ get_elem?-unread p 0 (omega (arith, ap length e))
      ∙ ap (λ l. get_elem? l 0) e in
    rw (found, peek)

pub has_more-unread :
    {A : Type 0} (m : Packet → Outcome A) (p : Packet) (b : ℕ) (r : Bytes)
    → IsReadable p
    → unread p ≡ b ∷ r
    → has_more m p ≡ m p
unfolding has_more
has_more-unread m p b r h e = ground (arith, length-unread p h, ap length e)

pub has_more-none :
    {A : Type 0} (m : Packet → Outcome A) (p : Packet)
    → IsReadable p
    → unread p ≡ []
    → has_more m p ≡ fail Rc.protocol p
unfolding has_more
has_more-none m p h e = ground (arith, length-unread p h, ap length e)

-- `take` reads a prefix of the list below it.
take-take_le : (k n : ℕ) (xs : Bytes) → k ≤ n → take k (take n xs) ≡ take k xs
take-take_le zero n xs h = refl
take-take_le (suc k) zero xs h = absurd (omega arith)
take-take_le (suc k) (suc n) [] h = refl
take-take_le (suc k) (suc n) (x ∷ xs) h = ap (λ l. x ∷ l) (take-take_le k n xs (omega arith))

pub copy_out-unread :
    (p : Packet) (bs r : Bytes)
    → IsReadable p
    → unread p ≡ bs ++ r
    → copy_out (length bs) p ≡ done bs p
unfolding copy_out unread
copy_out-unread p bs r h e =
    let left : length bs ≤ p.remaining_length - p.pos =
      omega (arith, length-unread p h, ap length e, length-append bs r) in
    let part : take (length bs) (drop p.pos p.payload) ≡ bs =
      sym (take-take_le (length bs) (p.remaining_length - p.pos) (drop p.pos p.payload) left)
      ∙ ap (take (length bs)) e
      ∙ take-append bs r in
    ground (arith, part, left)

-- The rules: one byte and what comes after it, the checks before a read, and a block of bytes.
pub Reads-next :
    {A : Type 0} (f : ℕ → M A) (b : ℕ) (bs : Bytes) (v : A)
    → Reads (f b) bs v
    → Reads (do byte ← peek; skip 1; f byte) (b ∷ bs) v
Reads-next f b bs v hf p r h e =
    let there : p.pos + length (b ∷ bs) ≡ p.pos + 1 + length bs = omega arith in
    rw (peek-unread p b (bs ++ r) e, ◌>>=◌, skip-unread 1 p h (omega (arith, ap length e)), there)
      (hf (advance 1 p) r (advance-IsReadable p (b ∷ []) (bs ++ r) h e)
        (unread-advance_rest p (b ∷ []) (bs ++ r) e))

pub Reads-require :
    {A : Type 0} (n : ℕ) (m : M A) (bs : Bytes) (v : A)
    → n ≤ length bs
    → Reads m bs v
    → Reads (do require n; m) bs v
Reads-require n m bs v le hm p r h e =
    rw (require_fits n p h (omega (arith, ap length e, length-append bs r)), ◌>>=◌) (hm p r h e)

pub Reads-has_more :
    {A : Type 0} (m : M A) (b : ℕ) (bs : Bytes) (v : A)
    → Reads m (b ∷ bs) v
    → Reads (has_more m) (b ∷ bs) v
Reads-has_more m b bs v hm p r h e = rw (has_more-unread m p b (bs ++ r) h e) (hm p r h e)

pub Reads-copy :
    {A : Type 0} (f : Bytes → A) (bs : Bytes)
    → Reads (do bytes ← copy_out (length bs); skip (length bs); return (f bytes)) bs (f bs)
Reads-copy f bs p r h e = rw (
  copy_out-unread p bs r h e,
  ◌>>=◌,
  skip-unread (length bs) p h (omega (arith, ap length e, length-append bs r)),
)
