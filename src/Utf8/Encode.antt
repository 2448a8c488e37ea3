-- ===== src/Utf8/Encode.antt =====
-- UTF-8 as the standard has it, with the code points that MQTT strings may hold.
use artemisia.Base.{ℕ, ◌+◌, ◌/◌, ◌%◌, ◌≤◌, ◌<◌, ◌⊎◌, [], ◌∷◌, ◌++◌, List, Bytes, ltb, if◌then◌else◌}

unfoldable pub encode : ℕ → Bytes
encode cp =
    if ltb cp 0x80
    then cp ∷ []
    else if ltb cp 0x800
    then (0xc0 + cp / 64) ∷ (0x80 + cp % 64) ∷ []
    else if ltb cp 0x10000
    then (0xe0 + cp / 4096) ∷ (0x80 + cp / 64 % 64) ∷ (0x80 + cp % 64) ∷ []
    else (0xf0 + cp / 262144)
      ∷ (0x80 + cp / 4096 % 64)
      ∷ (0x80 + cp / 64 % 64)
      ∷ (0x80 + cp % 64)
      ∷ []

abbrev pub encode_all : List ℕ → Bytes
encode_all [] = []
encode_all (cp ∷ cps) = encode cp ++ encode_all cps

-- No control character, no surrogate, no non-character, nothing above U+10FFFF.
pub record IsText (cp : ℕ) : Type 0 where
  pub printable : 0x1f < cp
  pub no_control : (cp < 0x7f) ⊎ (0x9f < cp)
  pub no_surrogate : (cp < 0xd800) ⊎ (0xdfff < cp)
  pub no_arabic_gap : (cp < 0xfdd0) ⊎ (0xfdef < cp)
  pub no_plane_end : cp % 65536 < 0xfffe
  pub in_range : cp ≤ 0x10ffff
