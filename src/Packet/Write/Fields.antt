-- ===== src/Packet/Write/Fields.antt =====
-- The write functions put exactly what the encodings of Packet/Encode hold.
use artemisia.Base.{ℕ, zero, suc, ◌+◌, ◌/◌, ◌%◌, ◌^◌, ◌≤◌, ◌<◌, ◌≡◌, refl, ap, arith}
use artemisia.Base.{true, false, ◌&&◌, [], ◌∷◌, Bytes, length, take, ltb, leb, ◌==◌}
use artemisia.Base.{Bool-cases, inl, inr, ◌≢◌}
use artemisia.Packet.Defs.{◌>>=◌}
use artemisia.Packet.Encode.{
  uint16_bytes, uint32_bytes, binary_bytes, varint_groups, varint_encoding, varint_limit,
}
use artemisia.Packet.Write.{write_byte, write_bytes, write_uint16, write_uint32, write_string}
use artemisia.Packet.Write.{write_varint_loop, write_varint, varint_bytes}
use artemisia.Packet.Write.Laws.{put, Writes, Writes-bind, put-one}

pub write_byte-Writes : (b : ℕ) → Writes (write_byte b) (b ∷ [])
unfolding write_byte
write_byte-Writes b p w f =
    let small : (p.pos + 1) % 2 ^ 32 ≡ p.pos + 1 = omega arith in
    let allowed : (leb (p.pos + 1) p.packet_length && ltb p.pos (length p.payload)) ≡ true =
      ground arith in
    rw (put-one b p, small, allowed)

take-length : (bs : Bytes) → take (length bs) bs ≡ bs
take-length [] = refl
take-length (b ∷ bs) = ap (λ t. b ∷ t) (take-length bs)

pub write_bytes-Writes : (bs : Bytes) → Writes (write_bytes bs (length bs)) bs
unfolding write_bytes put
write_bytes-Writes bs p w f =
    let small : (p.pos + length bs) % 2 ^ 32 ≡ p.pos + length bs = omega arith in
    let allowed : (leb (p.pos + length bs) p.packet_length
          && leb (p.pos + length bs) (length p.payload)
          && leb (length bs) (length bs))
        ≡ true =
      ground arith in
    rw (small, allowed, take-length bs)

pub write_uint16-Writes : (w : ℕ) → Writes (write_uint16 w) (uint16_bytes w)
unfolding write_uint16
write_uint16-Writes w =
    Writes-bind _ _ (w / 256 % 256 ∷ []) (w % 256 ∷ []) (write_byte-Writes (w / 256 % 256))
      (write_byte-Writes (w % 256))

pub write_uint32-Writes : (w : ℕ) → Writes (write_uint32 w) (uint32_bytes w)
unfolding write_uint32
write_uint32-Writes w = Writes-bind _ _ (w / 2 ^ 24 % 256 ∷ []) _ (write_byte-Writes _) (
    Writes-bind _ _ (w / 2 ^ 16 % 256 ∷ []) _ (write_byte-Writes _) (
      Writes-bind _ _ (w / 2 ^ 8 % 256 ∷ []) (w % 256 ∷ []) (write_byte-Writes _)
        (write_byte-Writes _)))

pub write_string-Writes : (bs : Bytes) → Writes (write_string bs (length bs)) (binary_bytes bs)
unfolding write_string
write_string-Writes bs =
    Writes-bind _ _ (uint16_bytes (length bs)) bs (write_uint16-Writes (length bs))
      (write_bytes-Writes bs)

-- The last byte of a variable byte integer, and a byte with more behind it.
write_varint_loop-last : (k w : ℕ) → k ≢ 0 → w < 128 → Writes (write_varint_loop (suc k) w) (w ∷ [])
unfolding write_varint_loop
write_varint_loop-last k w pos h p ok f =
    let none_left : ltb 0 (w / 128) ≡ false = ground arith in
    let low : w % 128 ≡ w = omega arith in
    let rounds : (k == 0) ≡ false = ground arith in
    rw (none_left, low, write_byte-Writes w p ok f, ◌>>=◌, rounds, none_left)

write_varint_loop-more :
    (k w : ℕ) (bs : Bytes)
    → k ≢ 0
    → 128 ≤ w
    → Writes (write_varint_loop k (w / 128)) bs
    → Writes (write_varint_loop (suc k) w) ((w % 128 + 128) ∷ bs)
unfolding write_varint_loop
write_varint_loop-more k w bs pos h rest =
    let some_left : ltb 0 (w / 128) ≡ true = ground arith in
    let rounds : (k == 0) ≡ false = ground arith in
    rw (some_left, rounds)
      (Writes-bind (write_byte (w % 128 + 128)) (write_varint_loop k (w / 128))
        ((w % 128 + 128) ∷ []) bs (write_byte-Writes _) rest)

write_varint_loop-Writes :
    (k w : ℕ) → w < 128 ^ suc k → Writes (write_varint_loop (suc (suc k)) w) (varint_groups k w)
unfolding varint_groups
write_varint_loop-Writes zero w h = write_varint_loop-last 1 w (omega arith) (omega arith)
write_varint_loop-Writes (suc k) w h = elim (Bool-cases (ltb w 128)) [
  | inl last ↦ rw last (write_varint_loop-last (suc (suc k)) w (omega arith) (ground arith))
  | inr more ↦ rw more (
      write_varint_loop-more (suc (suc k)) w (varint_groups k (w / 128)) (omega arith)
        (ground arith) (write_varint_loop-Writes k (w / 128) (omega arith)))
]

-- `packet__write_varint` puts the encoding of a number below 128 ^ 4.
pub write_varint-Writes : (w : ℕ) → w < varint_limit → Writes (write_varint w) (varint_encoding w)
unfolding write_varint varint_encoding
write_varint-Writes w h = write_varint_loop-Writes 3 w (omega arith)

-- `packet__varint_bytes` is the length of the encoding of a number below 128 ^ 4.
pub varint_bytes-length : (w : ℕ) → w < varint_limit → varint_bytes w ≡ length (varint_encoding w)
unfolding varint_bytes varint_encoding varint_groups
varint_bytes-length w h = ground arith
