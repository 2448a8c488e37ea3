-- ===== src/Packet/Tests.antt =====
-- Runs of packet_datatypes.c, and its theorems at concrete inputs.
use artemisia.Base.{ℤ, ℕ, ◌≡◌, refl, arith, [], ◌∷◌, Bytes, Rc}
use artemisia.Packet.Defs.{Packet, fail, IsWritable}
use artemisia.Packet.Read.{read_varint, varint_loop, peek, skip, has_more, varint_end}
use artemisia.Packet.Write.{write_varint, varint_bytes}
use artemisia.Packet.RoundTrip.{Carries, read_varint-write_varint}

abbrev packet : Bytes → ℕ → ℕ → Packet
packet bs rl n = record {
  payload = bs;
  remaining_mult = 1;
  remaining_length = rl;
  packet_length = n;
  to_process = 0;
  pos = 0;
  mid = 0;
  command = 0;
  remaining_count = ℤ.pos 0;
}

abbrev empty : Packet
empty = packet (0 ∷ 0 ∷ 0 ∷ 0 ∷ 0 ∷ 0 ∷ 0 ∷ 0 ∷ []) 0 8

empty-IsWritable : IsWritable empty
empty-IsWritable = omega arith

-- 0x80 0x00 is an overlong zero.
overlong :
    read_varint (packet (0x80 ∷ 0 ∷ []) 2 0)
    ≡ fail Rc.protocol (record (packet (0x80 ∷ 0 ∷ []) 2 0) { pos = 2 })
unfolding read_varint varint_loop peek skip has_more varint_end
overlong = refl

read_varint-write_varint_example :
    Carries (write_varint 321) read_varint empty (321, varint_bytes 321)
unfolding varint_bytes
read_varint-write_varint_example =
    read_varint-write_varint 321 empty (omega arith) empty-IsWritable (omega arith)
