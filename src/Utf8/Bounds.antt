-- ===== src/Utf8/Bounds.antt =====
-- Where `mosquitto_validate_utf8` looks: never behind a NUL, and behind `len` where a sequence of
-- three or four bytes is cut after its first byte.
use artemisia.Base.{ℕ, zero, suc, ◌+◌, ◌-◌, ◌*◌, ◌/◌, ◌%◌, ◌≤◌, ◌<◌, ◌≡◌, refl, inl, inr, arith}
use artemisia.Base.{true, false, some, Option-cases, [], ◌∷◌, ◌++◌, Bytes, Rc, length}
use artemisia.Base.{ltb, ◌==◌, Bool-cases}
use artemisia.Utf8.Encode.{encode, IsText}
use artemisia.Utf8.Complete.{round_three_any}
use artemisia.Utf8.{
  Check, code, overrun, stuck, lead_byte, continuation, is_allowed, sequence, loop, validate_utf8,
}

-- The check ended with a return code.
abbrev pub Ends : Check → Type 0
Ends (code rc) = Unit
Ends overrun = ⊥
Ends stuck = ⊥

-- A NUL stops a sequence.
continuation-Ends :
    (k cp : ℕ) (s rest : Bytes) (next : ℕ → Bytes → Check)
    → ((cp' : ℕ) (t : Bytes) → length t + k ≡ length s → Ends (next cp' (t ++ (0 ∷ rest))))
    → Ends (continuation k cp (s ++ (0 ∷ rest)) next)
unfolding continuation
continuation-Ends zero cp s rest next h = h cp s (omega arith)
continuation-Ends (suc k) cp [] rest next h = tt
continuation-Ends (suc k) cp (b ∷ s) rest next h = elim (Bool-cases (b / 64 % 4 == 2)) [
  | inl more ↦
      rw more
        (continuation-Ends k (cp * 64 + b % 64) s rest next (λ cp' t e. h cp' t (omega arith)))
  | inr bad ↦ rw bad tt
]

lead_byte-bounds :
    (b codelen first : ℕ) → lead_byte b ≡ some (codelen, first) → (1 ≤ codelen) × (codelen ≤ 4)
unfolding lead_byte
lead_byte-bounds b codelen first h = ground arith

sequence-Ends :
    (codelen first : ℕ) (s rest : Bytes) (n : ℕ) (next : Bytes → ℕ → Check)
    → ((cp : ℕ) (t : Bytes)
        → length t + (codelen - 1) ≡ length s
        → Ends (next (t ++ (0 ∷ rest)) (n - codelen)))
    → Ends (sequence (some (codelen, first)) (s ++ (0 ∷ rest)) n next)
unfolding sequence
sequence-Ends codelen first s rest n next h = elim (Bool-cases (n == codelen - 1)) [
  | inl cut ↦ rw cut tt
  | inr inside ↦ rw inside (
      continuation-Ends (codelen - 1) first s rest _ λ cp t e.
        elim (Bool-cases (is_allowed codelen cp)) [
          | inl good ↦ rw good (h cp t e)
          | inr bad ↦ rw bad tt
        ])
]

loop-Ends :
    (fuel : ℕ) (s rest : Bytes) → length s ≤ fuel → Ends (loop fuel (s ++ (0 ∷ rest)) (length s))
unfolding loop sequence
loop-Ends fuel [] rest h = tt
loop-Ends zero (b ∷ s) rest h = absurd (omega arith)
loop-Ends (suc fuel) (b ∷ s) rest h = elim (Option-cases (lead_byte b)) [
  | inl bad ↦ rw bad tt
  | inr ((codelen, first), lead) ↦
      let (one, four) = lead_byte-bounds b codelen first lead in
      rw lead (
        sequence-Ends codelen first s rest (suc (length s)) (loop fuel) λ cp t e.
          let left : suc (length s) - codelen ≡ length t = omega arith in
          rw left (loop-Ends fuel t rest (omega arith)))
]

-- On a NUL-terminated string of any length `mosquitto_validate_utf8` ends with a return code: no
-- byte behind the NUL is read, and the fuel is enough.
pub validate_utf8-Ends : (s rest : Bytes) → Ends (validate_utf8 (some (s ++ (0 ∷ rest))) (length s))
unfolding validate_utf8
validate_utf8-Ends s rest = elim (Bool-cases (ltb 65536 (length s))) [
  | inl long ↦ rw long tt
  | inr short ↦ rw short (loop-Ends (length s) s rest (omega arith))
]

-- In `mosquitto_validate_utf8` the check of `len` inside the loop asks only for one length: a code
-- point of three bytes is accepted at `len` 1, when its other two bytes happen to stand behind the
-- string.
pub validate_utf8_cut :
    (cp : ℕ) (rest : Bytes)
    → IsText cp
    → 0x800 ≤ cp
    → cp < 0x10000
    → validate_utf8 (some (encode cp ++ rest)) 1 ≡ code Rc.success
unfolding validate_utf8 loop encode
validate_utf8_cut cp rest t lo hi =
    let one : ltb cp 0x80 ≡ false = ground arith in
    let two : ltb cp 0x800 ≡ false = ground arith in
    let three : ltb cp 0x10000 ≡ true = ground arith in
    rw (one, two, three) (round_three_any cp rest 1 (loop 0) t refl lo hi)
