-- ===== src/Packet/Read/Laws.antt =====
-- The read functions take exactly what the encodings of Packet/Encode hold.
use artemisia.Base.{ℕ, ◌+◌, ◌*◌, ◌/◌, ◌%◌, ◌^◌, ◌<◌, ◌≡◌, arith}
use artemisia.Base.{none, some, Bool, true, [], ◌∷◌, ◌++◌, Bytes, Rc, length}
use artemisia.Packet.Defs.{◌>>=◌, ◌>>◌, return}
use artemisia.Packet.Encode.{uint16_bytes, uint32_bytes, binary_bytes}
use artemisia.Packet.Unread.{Reads, Reads-bind, Reads-return}
use artemisia.Packet.Read.Steps.{Reads-next, Reads-require, Reads-copy}
use artemisia.Packet.Read.{peek, skip, read_byte, read_bytes, read_uint16, read_uint32, uint32_loop}
use artemisia.Packet.Read.{read_binary, binary_body, validated, checked, read_string}
use artemisia.Utf8.{code, validate_utf8}
use artemisia.Base.{◌==◌, false}

pub read_byte-Reads : (b : ℕ) → Reads read_byte (b ∷ []) b
unfolding read_byte
read_byte-Reads b =
    Reads-require 1 (do byte ← peek; skip 1; return byte) (b ∷ []) b (omega arith)
      (Reads-next return b [] b (Reads-return b))

pub read_bytes-Reads : (bs : Bytes) → Reads (read_bytes (length bs)) bs bs
unfolding read_bytes
read_bytes-Reads bs = Reads-require (length bs) _ bs bs (omega arith) (Reads-copy (λ x. x) bs)

-- The two bytes of a uint16_t in the packet's order give it back.
pub read_uint16-Reads : (w : ℕ) → w < 2 ^ 16 → Reads read_uint16 (uint16_bytes w) w
unfolding read_uint16
read_uint16-Reads w h =
    let whole : (w / 256 % 256 * 256 + w % 256) % 2 ^ 16 ≡ w = omega arith in
    Reads-require 2 _ (uint16_bytes w) w (omega arith) (
      Reads-next _ (w / 256 % 256) (w % 256 ∷ []) w
        (Reads-next _ (w % 256) [] w (rw whole (Reads-return w))))

pub read_uint32-Reads : (w : ℕ) → w < 2 ^ 32 → Reads read_uint32 (uint32_bytes w) w
unfolding read_uint32 uint32_loop
read_uint32-Reads w h =
    let b0 = w / 2 ^ 24 % 256 in
    let b1 = w / 2 ^ 16 % 256 in
    let b2 = w / 2 ^ 8 % 256 in
    let b3 = w % 256 in
    let v1 = (0 * 256 + b0) % 2 ^ 32 in
    let v2 = (v1 * 256 + b1) % 2 ^ 32 in
    let v3 = (v2 * 256 + b2) % 2 ^ 32 in
    let whole : (v3 * 256 + b3) % 2 ^ 32 ≡ w = omega arith in
    Reads-require 4 _ (uint32_bytes w) w (omega arith) (
      Reads-next _ b0 (b1 ∷ b2 ∷ b3 ∷ []) w (
        Reads-next _ b1 (b2 ∷ b3 ∷ []) w
          (Reads-next _ b2 (b3 ∷ []) w (Reads-next _ b3 [] w (rw whole (Reads-return w))))))

-- A block of data behind its length, for which malloc gave the room; an empty one is a null
-- pointer.
pub read_binary-Reads :
    (b : ℕ) (bs : Bytes)
    → length (b ∷ bs) < 2 ^ 16
    → Reads (read_binary true) (binary_bytes (b ∷ bs)) (some (b ∷ bs), length (b ∷ bs))
unfolding read_binary binary_body
read_binary-Reads b bs h =
    Reads-bind read_uint16 (binary_body true) (uint16_bytes (length (b ∷ bs))) (b ∷ bs)
      (length (b ∷ bs)) _ (read_uint16-Reads (length (b ∷ bs)) h)
      (Reads-require (length (b ∷ bs)) _ (b ∷ bs) _ (omega arith)
        (Reads-copy (λ x. (some x, length (b ∷ bs))) (b ∷ bs)))

pub read_binary-Reads_empty : (mem : Bool) → Reads (read_binary mem) (binary_bytes []) (none, 0)
unfolding read_binary binary_body
read_binary-Reads_empty mem =
    Reads-bind read_uint16 (binary_body mem) (uint16_bytes 0) [] 0 (none, 0)
      (read_uint16-Reads 0 (omega arith)) (Reads-return _)

-- A string whose text `mosquitto_validate_utf8` accepts.
pub read_string-Reads :
    (b : ℕ) (bs : Bytes)
    → length (b ∷ bs) < 2 ^ 16
    → validate_utf8 (some ((b ∷ bs) ++ (0 ∷ []))) (length (b ∷ bs)) ≡ code Rc.success
    → Reads (read_string true) (binary_bytes (b ∷ bs)) (some (b ∷ bs), length (b ∷ bs))
unfolding read_string validated checked
read_string-Reads b bs h text p r ok e =
    let filled : (length (b ∷ bs) == 0) ≡ false = ground arith in
    rw (read_binary-Reads b bs h p r ok e, ◌>>=◌, filled, text)

pub read_string-Reads_empty : (mem : Bool) → Reads (read_string mem) (binary_bytes []) (none, 0)
unfolding read_string validated
read_string-Reads_empty mem p r ok e = rw (read_binary-Reads_empty mem p r ok e, ◌>>=◌)
