-- ===== src/Packet/Write.antt =====
-- The `packet__write_*` functions of packet_datatypes.c.
pub mod Laws
pub mod Fields
use artemisia.Base.{ℕ, zero, suc, ◌+◌, ◌*◌, ◌/◌, ◌%◌, ◌^◌, Bool, true, false, ◌&&◌}
use artemisia.Base.{
  [], ◌∷◌, ◌++◌, Bytes, Rc, ltb, leb, ◌==◌, if◌then◌else◌, length, set, take, drop,
}
use artemisia.Packet.Defs.{Packet, Outcome, done, fail, fault, M, ◌>>=◌, ◌>>◌, return, raise, stop}

-- `assert(packet->pos+1 <= packet->packet_length); payload[pos] = byte; pos++;`
unfoldable pub write_byte : ℕ → M (Unit {0})
write_byte byte p =
    if leb ((p.pos + 1) % 2 ^ 32) p.packet_length && ltb p.pos (length p.payload)
    then done tt (record p { payload = set p.payload p.pos byte; pos = (p.pos + 1) % 2 ^ 32 })
    else fault

-- `memcpy(&payload[i], bytes, n)` for `n` bytes that lie inside the buffer.
unfoldable pub overwrite : Bytes → ℕ → Bytes → Bytes
overwrite [] i bytes = []
overwrite (x ∷ payload) (suc i) bytes = x ∷ overwrite payload i bytes
overwrite (x ∷ payload) zero [] = x ∷ payload
overwrite (x ∷ payload) zero (b ∷ bytes) = b ∷ overwrite payload zero bytes

pub write_bytes : Bytes → ℕ → M (Unit {0})
write_bytes bytes count p =
    if leb ((p.pos + count) % 2 ^ 32) p.packet_length
      && leb (p.pos + count) (length p.payload)
      && leb count (length bytes)
    then done tt (record p {
      payload = overwrite p.payload p.pos (take count bytes);
      pos = (p.pos + count) % 2 ^ 32;
    })
    else fault

-- MOSQ_MSB and MOSQ_LSB of include/mosquitto_internal.h.
unfoldable pub write_uint16 : ℕ → M (Unit {0})
write_uint16 word = do write_byte (word / 256 % 256); write_byte (word % 256)

pub write_uint32 : ℕ → M (Unit {0})
write_uint32 word = do
  write_byte (word / 2 ^ 24 % 256)
  write_byte (word / 2 ^ 16 % 256)
  write_byte (word / 2 ^ 8 % 256)
  write_byte (word % 256)

pub write_string : Bytes → ℕ → M (Unit {0})
write_string str len = do write_uint16 len; write_bytes str len

-- The loop of `packet__write_varint`, over the rounds left: with the fifth byte `count` is 5, and
-- the loop ends with MOSQ_ERR_PROTOCOL whatever is left of the word.
pub write_varint_loop : ℕ → ℕ → M (Unit {0})
write_varint_loop zero word = raise Rc.protocol
write_varint_loop (suc k) word =
    let rest = write_varint_loop k (word / 128) in
    write_byte (if ltb 0 (word / 128) then word % 128 + 128 else word % 128)
    >> (if k == 0 then raise Rc.protocol else if ltb 0 (word / 128) then rest else return tt)

-- `word` is an int32_t that is not negative.
pub write_varint : ℕ → M (Unit {0})
write_varint word = write_varint_loop 5 word

unfoldable pub varint_bytes : ℕ → ℕ
varint_bytes word =
    if ltb word 128
    then 1
    else if ltb word 16384
    then 2
    else if ltb word 2097152
    then 3
    else if ltb word 268435456
    then 4
    else 5
