-- ===== src/Utf8.antt =====
-- utf8_mosq.c: `mosquitto_validate_utf8`.
pub mod Encode
pub mod Complete
pub mod Bounds
mod Tests
use artemisia.Base.{
  ℕ, zero, suc, ◌+◌, ◌-◌, ◌*◌, ◌/◌, ◌%◌, Bool, true, false, not, ◌&&◌, ◌||◌, Option, none, some,
}
use artemisia.Base.{[], ◌∷◌, Bytes, Rc, ltb, leb, ◌==◌, if◌then◌else◌}

-- `overrun` is a read behind the end of the buffer. `stuck` belongs to the model only: the loop
-- ran out of fuel.
pub data Check : Type 0 where
  code : Rc → Check
  overrun : Check
  stuck : Check

abbrev pub malformed : Check
malformed = code Rc.malformed_utf8

-- The first byte: `codelen` and the bits of `codepoint` that it holds, or no start of a sequence.
unfoldable pub lead_byte : ℕ → Option (ℕ × ℕ)
lead_byte b =
    if b == 0
    then none
    else if leb b 0x7f
    then some (1, b)
    else if b / 32 == 6
    then (if b == 0xc0 || b == 0xc1 then none else some (2, b % 32))
    else if b / 16 == 14
    then some (3, b % 16)
    else if b / 8 == 30
    then (if ltb 0xf4 b then none else some (4, b % 8))
    else none

-- The `for` over `j`, over the rounds left: the code point and what follows in the buffer go on to
-- `next`. The buffer is given from the next byte on.
unfoldable pub continuation : ℕ → ℕ → Bytes → (ℕ → Bytes → Check) → Check
continuation zero codepoint s next = next codepoint s
continuation (suc k) codepoint [] next = overrun
continuation (suc k) codepoint (b ∷ s) next =
    let rest = continuation k (codepoint * 64 + b % 64) s next in
    if b / 64 % 4 == 2 then rest else malformed

-- The checks of the whole code point, in the order of the source.
unfoldable pub is_allowed : ℕ → ℕ → Bool
is_allowed codelen codepoint =
    not (leb 0xd800 codepoint && leb codepoint 0xdfff)
    && not (codelen == 3 && ltb codepoint 0x800)
    && not (codelen == 4 && (ltb codepoint 0x10000 || ltb 0x10ffff codepoint))
    && not (leb 0xfdd0 codepoint && leb codepoint 0xfdef)
    && not (codepoint % 65536 == 0xfffe || codepoint % 65536 == 0xffff)
    && not (leb codepoint 0x1f || (leb 0x7f codepoint && leb codepoint 0x9f))

-- One round behind the first byte. `n` is `len - i`, so `i == len-codelen+1` is `n == codelen-1`;
-- `next` goes on behind the sequence.
unfoldable pub sequence : Option (ℕ × ℕ) → Bytes → ℕ → (Bytes → ℕ → Check) → Check
sequence none s n next = malformed
sequence (some (codelen, first)) s n next =
    if n == codelen - 1
    then malformed
    else continuation (codelen - 1) first s (λ codepoint rest.
      if is_allowed codelen codepoint then next rest (n - codelen) else malformed)

-- The loop over `i`: the buffer from `ustr[i]` on, and `len - i`. Past `len` the loop ends.
unfoldable pub loop : ℕ → Bytes → ℕ → Check
loop fuel s zero = code Rc.success
loop zero s (suc n) = stuck
loop (suc fuel) [] (suc n) = overrun
loop (suc fuel) (b ∷ s) (suc n) = sequence (lead_byte b) s (suc n) (loop fuel)

-- `len` is an int that is not negative. Each round takes a byte at least, so `len` rounds are
-- enough.
unfoldable pub validate_utf8 : Option Bytes → ℕ → Check
validate_utf8 none len = code Rc.inval
validate_utf8 (some str) len = if ltb 65536 len then code Rc.inval else loop len str len
