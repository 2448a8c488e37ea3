-- ===== src/Packet/Encode.antt =====
-- The MQTT encodings of a packet's fields as lists of bytes: big-endian integers, data behind a
-- two-byte length, and the variable byte integer of at most four bytes.
use artemisia.Base.{
  ℕ, zero, suc, ◌+◌, ◌/◌, ◌%◌, ◌^◌, [], ◌∷◌, ◌++◌, Bytes, ltb, if◌then◌else◌, length,
}

abbrev pub uint16_bytes : ℕ → Bytes
uint16_bytes w = w / 256 % 256 ∷ w % 256 ∷ []

abbrev pub uint32_bytes : ℕ → Bytes
uint32_bytes w = w / 2 ^ 24 % 256 ∷ w / 2 ^ 16 % 256 ∷ w / 2 ^ 8 % 256 ∷ w % 256 ∷ []

abbrev pub binary_bytes : Bytes → Bytes
binary_bytes bs = uint16_bytes (length bs) ++ bs

-- The groups of seven bits of a number below 128 ^ (k + 1), lowest first.
unfoldable pub varint_groups : ℕ → ℕ → Bytes
varint_groups zero w = w ∷ []
varint_groups (suc k) w =
    let rest = varint_groups k (w / 128) in if ltb w 128 then w ∷ [] else (w % 128 + 128) ∷ rest

abbrev pub varint_limit : ℕ
varint_limit = 268435456

unfoldable pub varint_encoding : ℕ → Bytes
varint_encoding w = varint_groups 3 w
