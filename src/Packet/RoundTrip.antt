-- ===== src/Packet/RoundTrip.antt =====
-- What the write functions put, the read functions get back.
use artemisia.Base.{ℕ, ◌+◌, ◌-◌, ◌^◌, ◌≤◌, ◌<◌, ◌≡◌, sym, ◌∙◌, arith}
use artemisia.Base.{true, [], ◌∷◌, Bytes, length, some}
use artemisia.Packet.Defs.{Packet, done, M, IsReadable, IsWritable}
use artemisia.Packet.Encode.{
  uint16_bytes, uint32_bytes, binary_bytes, varint_encoding, varint_limit,
}
use artemisia.Packet.Unread.{unread, Reads}
use artemisia.Packet.Write.{write_uint16, write_uint32, write_string, write_varint, varint_bytes}
use artemisia.Packet.Write.Laws.{put, Fits, Writes, length-overwrite, take-drop-overwrite}
use artemisia.Packet.Write.Fields.{
  write_uint16-Writes, write_uint32-Writes, write_string-Writes, write_varint-Writes,
  varint_bytes-length,
}
use artemisia.Packet.Read.{read_uint16, read_uint32, read_binary, read_varint}
use artemisia.Packet.Read.Laws.{read_uint16-Reads, read_uint32-Reads, read_binary-Reads}
use artemisia.Packet.Read.Varint.{read_varint-Reads}
use mathlib.Core.List.{append-nil}

-- The packet as its receiver sees it: the bytes that were written since `p`, up to `pos` of `q`.
abbrev pub received : Packet → Packet → Packet
received p q = record q { pos = p.pos; remaining_length = q.pos }

unread-received :
    (bs : Bytes) (p : Packet) → IsWritable p → Fits bs p → unread (received p (put bs p)) ≡ bs
unfolding unread put
unread-received bs p w f =
    let n : p.pos + length bs - p.pos ≡ length bs = omega arith in
    rw n (take-drop-overwrite p.payload p.pos bs (omega arith))

received-IsReadable :
    (bs : Bytes) (p : Packet) → IsWritable p → Fits bs p → IsReadable (received p (put bs p))
unfolding put
received-IsReadable bs p w f =
    let same = length-overwrite p.payload p.pos bs in
    record { within = omega arith; backed = omega arith; bounded = omega arith }

-- A write of `bs` and a read of `bs`, end to end: both succeed, and the reader stops where the
-- writer did.
abbrev pub Carries : {A : Type 0} → M (Unit {0}) → M A → Packet → A → Type 0
Carries m r p v =
    (q : Packet) × (m p ≡ done tt q)
    × (r (received p q) ≡ done v (record q { remaining_length = q.pos }))

pub Writes-Reads :
    {A : Type 0} (m : M (Unit {0})) (r : M A) (bs : Bytes) (v : A)
    → Writes m bs
    → Reads r bs v
    → (p : Packet) → IsWritable p
    → Fits bs p
    → Carries m r p v
unfolding put
Writes-Reads m r bs v hm hr p w f = (
  put bs p,
  hm p w f,
  hr (received p (put bs p)) [] (received-IsReadable bs p w f)
      (unread-received bs p w f ∙ sym (append-nil bs)),
)

-- A number below 268435456 that `packet__write_varint` writes where there is room,
-- `packet__read_varint` reads back, with the number of bytes written.
pub read_varint-write_varint :
    (w : ℕ) (p : Packet)
    → w < varint_limit
    → IsWritable p
    → p.pos + varint_bytes w ≤ p.packet_length
    → Carries (write_varint w) read_varint p (w, varint_bytes w)
read_varint-write_varint w p h ok f =
    let same = varint_bytes-length w h in
    rw same (
      Writes-Reads (write_varint w) read_varint (varint_encoding w) (w, length (varint_encoding w))
        (write_varint-Writes w h) (read_varint-Reads w h) p ok (omega arith))

-- Where there is room for the two bytes, what `packet__write_uint16` writes is read back by
-- `packet__read_uint16`.
pub read_uint16-write_uint16 :
    (w : ℕ) (p : Packet)
    → w < 2 ^ 16
    → IsWritable p
    → p.pos + 2 ≤ p.packet_length
    → Carries (write_uint16 w) read_uint16 p w
read_uint16-write_uint16 w p h ok f =
    Writes-Reads (write_uint16 w) read_uint16 (uint16_bytes w) w (write_uint16-Writes w)
      (read_uint16-Reads w h) p ok f

-- Where there is room for the four bytes, what `packet__write_uint32` writes is read back by
-- `packet__read_uint32`.
pub read_uint32-write_uint32 :
    (w : ℕ) (p : Packet)
    → w < 2 ^ 32
    → IsWritable p
    → p.pos + 4 ≤ p.packet_length
    → Carries (write_uint32 w) read_uint32 p w
read_uint32-write_uint32 w p h ok f =
    Writes-Reads (write_uint32 w) read_uint32 (uint32_bytes w) w (write_uint32-Writes w)
      (read_uint32-Reads w h) p ok f

-- A string of 1 to 65535 bytes that `packet__write_string` writes where there is room,
-- `packet__read_binary` reads back, if malloc gives it a block.
pub read_binary-write_string :
    (b : ℕ) (bs : Bytes) (p : Packet)
    → length (b ∷ bs) < 2 ^ 16
    → IsWritable p
    → p.pos + 2 + length (b ∷ bs) ≤ p.packet_length
    → Carries
        (write_string (b ∷ bs) (length (b ∷ bs)))
        (read_binary true)
        p
        (some (b ∷ bs), length (b ∷ bs))
read_binary-write_string b bs p h ok f =
    Writes-Reads (write_string (b ∷ bs) (length (b ∷ bs))) (read_binary true)
      (binary_bytes (b ∷ bs)) (some (b ∷ bs), length (b ∷ bs)) (write_string-Writes (b ∷ bs))
      (read_binary-Reads b bs h) p ok (omega arith)
