-- ===== src/Packet/Read/Varint.antt =====
-- `packet__read_varint` against the variable byte integers of Packet/Encode.
use artemisia.Base.{ℕ, zero, suc, ◌+◌, ◌*◌, ◌/◌, ◌%◌, ◌^◌, ◌<◌, ◌≡◌, refl, ap, arith, ◌⊎◌, inl, inr}
use artemisia.Base.{true, false, ◌&&◌, Bool-cases, [], ◌∷◌, Bytes, length, ltb, ◌==◌}
use artemisia.Packet.Defs.{M, return}
use artemisia.Packet.Encode.{varint_groups, varint_encoding, varint_limit}
use artemisia.Packet.Unread.{Reads, Reads-return}
use artemisia.Packet.Read.Steps.{Reads-next, Reads-has_more}
use artemisia.Packet.Read.{varint_end, varint_loop, read_varint}

varint_end-last :
    (w lword lbytes : ℕ) (next : M (ℕ × ℕ))
    → w < 128
    → (0 < w) ⊎ (lbytes ≡ 1)
    → varint_end w lword lbytes next ≡ return (lword, lbytes)
unfolding varint_end
varint_end-last w lword lbytes next h least =
    let top : (w / 128 % 2 == 0) ≡ true = ground arith in
    let short : (ltb 1 lbytes && w == 0) ≡ false = ground arith in rw (top, short)

varint_end-more :
    (g lword lbytes : ℕ) (next : M (ℕ × ℕ))
    → g < 128
    → varint_end (g + 128) lword lbytes next ≡ next
unfolding varint_end
varint_end-more g lword lbytes next h =
    let top : ((g + 128) / 128 % 2 == 0) ≡ false = ground arith in rw top

-- The low seven bits of `w` and the rest, both scaled.
split_group : (w mult : ℕ) → w % 128 * mult + w / 128 * (mult * 128) ≡ w * mult
split_group w mult = omega (arith, ap (λ (t : ℕ). t * mult) (whole w))
  where
    whole : (n : ℕ) → n % 128 + n / 128 * 128 ≡ n
    whole n = omega arith

-- The last byte, and a byte with more behind it.
varint_loop-last :
    (k w lword mult lbytes : ℕ)
    → w < 128
    → (0 < w) ⊎ (lbytes ≡ 0)
    → Reads (varint_loop (suc k) lword mult lbytes) (w ∷ []) (lword + w * mult, lbytes + 1)
unfolding varint_loop
varint_loop-last k w lword mult lbytes h least =
    let low : w % 128 ≡ w = omega arith in
    Reads-has_more _ w [] _ (
      Reads-next _ w [] _ (
        rw (low, varint_end-last w (lword + w * mult) (lbytes + 1) _ h (omega arith))
          (Reads-return _)))

varint_loop-more :
    (k g lword mult lbytes : ℕ) (bs : Bytes) (v : ℕ × ℕ)
    → g < 128
    → Reads (varint_loop k (lword + g * mult) (mult * 128) (lbytes + 1)) bs v
    → Reads (varint_loop (suc k) lword mult lbytes) ((g + 128) ∷ bs) v
unfolding varint_loop
varint_loop-more k g lword mult lbytes bs v h rest =
    let low : (g + 128) % 128 ≡ g = omega arith in
    Reads-has_more _ (g + 128) bs v (
      Reads-next _ (g + 128) bs v
        (rw (varint_end-more g (lword + (g + 128) % 128 * mult) (lbytes + 1) _ h, low) rest))

varint_loop-Reads :
    (k w lword mult lbytes : ℕ)
    → w < 128 ^ suc k
    → (0 < w) ⊎ (lbytes ≡ 0)
    → Reads
        (varint_loop (suc k) lword mult lbytes)
        (varint_groups k w)
        (lword + w * mult, lbytes + length (varint_groups k w))
unfolding varint_groups
varint_loop-Reads zero w lword mult lbytes h least =
    varint_loop-last zero w lword mult lbytes (omega arith) least
varint_loop-Reads (suc k) w lword mult lbytes h least = elim (Bool-cases (ltb w 128)) [
  | inl last ↦ rw last (varint_loop-last (suc k) w lword mult lbytes (ground arith) least)
  | inr more ↦
      let value : lword + w % 128 * mult + w / 128 * (mult * 128) ≡ lword + w * mult =
        omega (arith, split_group w mult) in
      let count : lbytes + suc (length (varint_groups k (w / 128)))
          ≡ lbytes + 1 + length (varint_groups k (w / 128)) =
        omega arith in
      rw (more, count, ← value)
        (varint_loop-more (suc k) (w % 128) lword mult lbytes (varint_groups k (w / 128)) _
          (omega arith)
          (varint_loop-Reads k (w / 128) (lword + w % 128 * mult) (mult * 128) (lbytes + 1)
            (omega arith) (inl (ground arith))))
]

-- `packet__read_varint` reads a number below 128 ^ 4 back from its encoding, with the encoding's
-- length, whatever follows.
pub read_varint-Reads :
    (w : ℕ)
    → w < varint_limit
    → Reads read_varint (varint_encoding w) (w, length (varint_encoding w))
unfolding read_varint varint_encoding
read_varint-Reads w h =
    let value : 0 + w * 1 ≡ w = omega arith in
    let count : 0 + length (varint_groups 3 w) ≡ length (varint_groups 3 w) = omega arith in
    rw (value, count) at (varint_loop-Reads 3 w 0 1 0 (omega arith) (inr refl))
