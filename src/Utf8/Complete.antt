-- ===== src/Utf8/Complete.antt =====
-- `mosquitto_validate_utf8` accepts every UTF-8 text of allowed code points.
use artemisia.Base.{ℕ, zero, suc, ◌+◌, ◌-◌, ◌*◌, ◌/◌, ◌%◌, ◌≤◌, ◌<◌, ◌≡◌, refl, inl, inr, arith}
use artemisia.Base.{true, false, ◌&&◌, some, [], ◌∷◌, ◌++◌, List, Bytes, Rc, length, All}
use artemisia.Base.{length-append, ltb, ◌==◌, Bool-cases, ap, ◌∙◌}
use artemisia.Utf8.{Check, code, lead_byte, continuation, is_allowed, sequence, loop, validate_utf8}
use artemisia.Utf8.Encode.{encode, encode_all, IsText}
use mathlib.Core.List.{append_assoc}

lead_byte-two : (h : ℕ) → 2 ≤ h → h < 32 → lead_byte (0xc0 + h) ≡ some (2, h)
unfolding lead_byte
lead_byte-two h lo hi = ground arith

lead_byte-three : (h : ℕ) → h < 16 → lead_byte (0xe0 + h) ≡ some (3, h)
unfolding lead_byte
lead_byte-three h hi = ground arith

lead_byte-four : (h : ℕ) → h ≤ 4 → lead_byte (0xf0 + h) ≡ some (4, h)
unfolding lead_byte
lead_byte-four h hi = ground arith

lead_byte-one : (cp : ℕ) → 0 < cp → cp < 0x80 → lead_byte cp ≡ some (1, cp)
unfolding lead_byte
lead_byte-one cp pos h = ground arith

continuation-step :
    (k cp x : ℕ) (s : Bytes) (next : ℕ → Bytes → Check)
    → x < 64
    → continuation (suc k) cp ((0x80 + x) ∷ s) next ≡ continuation k (cp * 64 + x) s next
unfolding continuation
continuation-step k cp x s next h =
    let mark : ((0x80 + x) / 64 % 4 == 2) ≡ true = ground arith in
    let low : (0x80 + x) % 64 ≡ x = omega arith in rw (mark, low)

is_allowed-IsText :
    (n cp : ℕ)
    → IsText cp
    → (n == 3 && ltb cp 0x800) ≡ false
    → (n == 4 && ltb cp 0x10000) ≡ false
    → is_allowed n cp ≡ true
unfolding is_allowed
is_allowed-IsText n cp t three four = ground arith

-- One round over a whole sequence, by the length of the sequence.
module _ (cp : ℕ) (s : Bytes) (n : ℕ) (next : Bytes → ℕ → Check) (t : IsText cp) where
  round_one : cp < 0x80 → sequence (lead_byte cp) s (suc n) next ≡ next s n
  unfolding sequence continuation
  round_one h =
      let inside : (suc n == 0) ≡ false = ground arith in
      let ok = is_allowed-IsText 1 cp t refl refl in
      let left : suc n - 1 ≡ n = omega arith in
      rw (lead_byte-one cp (omega arith) h, inside, ok, left)

  round_two :
      0x80 ≤ cp
      → cp < 0x800
      → sequence (lead_byte (0xc0 + cp / 64)) ((0x80 + cp % 64) ∷ s) (suc (suc n)) next ≡ next s n
  unfolding sequence
  round_two lo hi =
      let inside : (suc (suc n) == 1) ≡ false = ground arith in
      let whole : cp / 64 * 64 + cp % 64 ≡ cp = omega arith in
      let ok = is_allowed-IsText 2 cp t refl refl in
      let left : suc (suc n) - 2 ≡ n = omega arith in
      rw
        (
          lead_byte-two (cp / 64) (omega arith) (omega arith),
          inside,
          continuation-step 0 (cp / 64) (cp % 64) s _ (omega arith),
          whole,
        )
        (unfold continuation in rw (ok, left))

  -- At any `n` but the one that the source rules out.
  pub round_three_any :
      (n == 2) ≡ false
      → 0x800 ≤ cp
      → cp < 0x10000
      → sequence
          (lead_byte (0xe0 + cp / 4096))
          ((0x80 + cp / 64 % 64) ∷ (0x80 + cp % 64) ∷ s)
          n
          next
        ≡ next s (n - 3)
  unfolding sequence
  round_three_any inside lo hi =
      let whole : (cp / 4096 * 64 + cp / 64 % 64) * 64 + cp % 64 ≡ cp = omega arith in
      let ok = is_allowed-IsText 3 cp t (ground arith) refl in
      rw
        (
          lead_byte-three (cp / 4096) (omega arith),
          inside,
          continuation-step 1 (cp / 4096) (cp / 64 % 64) _ _ (omega arith),
          continuation-step 0 _ (cp % 64) s _ (omega arith),
          whole,
        )
        (unfold continuation in rw ok)

  round_four :
      0x10000 ≤ cp
      → sequence
          (lead_byte (0xf0 + cp / 262144))
          ((0x80 + cp / 4096 % 64) ∷ (0x80 + cp / 64 % 64) ∷ (0x80 + cp % 64) ∷ s)
          (suc (suc (suc (suc n))))
          next
        ≡ next s n
  unfolding sequence
  round_four lo =
      let inside : (suc (suc (suc (suc n))) == 3) ≡ false = ground arith in
      let whole : ((cp / 262144 * 64 + cp / 4096 % 64) * 64 + cp / 64 % 64) * 64 + cp % 64 ≡ cp =
        omega arith in
      let ok = is_allowed-IsText 4 cp t refl (ground arith) in
      let left : suc (suc (suc (suc n))) - 4 ≡ n = omega arith in
      rw
        (
          lead_byte-four (cp / 262144) (omega arith),
          inside,
          continuation-step 2 (cp / 262144) (cp / 4096 % 64) _ _ (omega arith),
          continuation-step 1 _ (cp / 64 % 64) _ _ (omega arith),
          continuation-step 0 _ (cp % 64) s _ (omega arith),
          whole,
        )
        (unfold continuation in rw (ok, left))

-- The loop takes one encoded code point in a round.
loop-encode :
    (cp : ℕ) (s : Bytes) (fuel n : ℕ)
    → IsText cp
    → loop (suc fuel) (encode cp ++ s) (length (encode cp) + n) ≡ loop fuel s n
unfolding loop encode
loop-encode cp s fuel n t = elim (Bool-cases (ltb cp 0x80)) [
  | inl one ↦
      let sum : 1 + n ≡ suc n = omega arith in
      rw (one, sum) (round_one cp s n (loop fuel) t (ground arith))
  | inr many ↦ elim (Bool-cases (ltb cp 0x800)) [
    | inl two ↦
        let sum : 2 + n ≡ suc (suc n) = omega arith in
        rw (many, two, sum) (round_two cp s n (loop fuel) t (ground arith) (ground arith))
    | inr more ↦ elim (Bool-cases (ltb cp 0x10000)) [
      | inl three ↦
          let sum : 3 + n ≡ suc (suc (suc n)) = omega arith in
          let left : suc (suc (suc n)) - 3 ≡ n = omega arith in
          rw (many, more, three, sum)
            (round_three_any cp s (suc (suc (suc n))) (loop fuel) t (ground arith) (ground arith)
                (ground arith)
              ∙ ap (loop fuel s) left)
      | inr four ↦
          let sum : 4 + n ≡ suc (suc (suc (suc n))) = omega arith in
          rw (many, more, four, sum) (round_four cp s n (loop fuel) t (ground arith))
    ]
  ]
]

length-encode : (cp : ℕ) → 1 ≤ length (encode cp)
unfolding encode
length-encode cp = ground arith

loop-encode_all :
    (cps : List ℕ) (rest : Bytes) (fuel : ℕ)
    → All IsText cps
    → length (encode_all cps) ≤ fuel
    → loop fuel (encode_all cps ++ rest) (length (encode_all cps)) ≡ code Rc.success
loop-encode_all [] rest zero t h = unfold loop in refl
loop-encode_all [] rest (suc fuel) t h = unfold loop in refl
loop-encode_all (cp ∷ cps) rest zero t h =
    absurd (omega (arith, length-encode cp, length-append (encode cp) (encode_all cps)))
loop-encode_all (cp ∷ cps) rest (suc fuel) (t, ts) h =
    let sum = length-append (encode cp) (encode_all cps) in
    rw (sum, append_assoc (encode cp) (encode_all cps) rest)
      (loop-encode cp (encode_all cps ++ rest) fuel (length (encode_all cps)) t
        ∙ loop-encode_all cps rest fuel ts (omega (arith, length-encode cp)))

-- A text of at most 65536 bytes, encoded from code points that are no control character, no
-- surrogate, no non-character and at most U+10FFFF, is accepted, whatever stands behind it in the
-- buffer: with no read outside the buffer, and within the fuel.
pub validate_utf8-encode_all :
    (cps : List ℕ) (rest : Bytes)
    → All IsText cps
    → length (encode_all cps) ≤ 65536
    → validate_utf8 (some (encode_all cps ++ rest)) (length (encode_all cps)) ≡ code Rc.success
unfolding validate_utf8
validate_utf8-encode_all cps rest t h =
    let short : ltb 65536 (length (encode_all cps)) ≡ false = ground arith in
    rw short (loop-encode_all cps rest (length (encode_all cps)) t (omega arith))
