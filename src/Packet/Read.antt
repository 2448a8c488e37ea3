-- ===== src/Packet/Read.antt =====
-- The `packet__read_*` functions of packet_datatypes.c.
pub mod Steps
pub mod Laws
pub mod Varint
use artemisia.Base.{
  ℕ, zero, suc, ◌+◌, ◌*◌, ◌/◌, ◌%◌, ◌^◌, Bool, true, false, ◌&&◌, Option, none, some, [], ◌∷◌, ◌++◌,
}
use artemisia.Base.{Bytes, Rc, ltb, leb, ◌==◌, if◌then◌else◌, length, get_elem?, take, drop}
use artemisia.Packet.Defs.{Packet, Outcome, done, fail, fault, M, ◌>>=◌, ◌>>◌, return, raise, stop}
use artemisia.Utf8.{Check, code, overrun, stuck, validate_utf8}

-- `payload[pos]`, where a read outside the buffer is a fault.
unfoldable pub peek : M ℕ
peek p = elim (get_elem? p.payload p.pos) [ none ↦ fault | some b ↦ done b p ]

-- `pos += n`, a uint32_t.
unfoldable pub skip : ℕ → M (Unit {0})
skip n p = done tt (record p { pos = (p.pos + n) % 2 ^ 32 })

-- `if(packet->pos+n > packet->remaining_length) return MOSQ_ERR_PROTOCOL;`
pub require : ℕ → M (Unit {0})
require n p =
    if ltb p.remaining_length ((p.pos + n) % 2 ^ 32) then fail Rc.protocol p else done tt p

-- `memcpy(bytes, &payload[pos], n)`.
pub copy_out : ℕ → M Bytes
copy_out n p =
    if leb (p.pos + n) (length p.payload) then done (take n (drop p.pos p.payload)) p else fault

pub read_byte : M ℕ
read_byte = do require 1; byte ← peek; skip 1; return byte

pub read_bytes : ℕ → M Bytes
read_bytes count = do require count; bytes ← copy_out count; skip count; return bytes

pub read_uint16 : M ℕ
read_uint16 = do
  require 2
  msb ← peek
  skip 1
  lsb ← peek
  skip 1
  return ((msb * 256 + lsb) % 2 ^ 16)

-- The loop of `packet__read_uint32`, over the rounds left.
pub uint32_loop : ℕ → ℕ → M ℕ
uint32_loop zero val = return val
uint32_loop (suc k) val = do byte ← peek; skip 1; uint32_loop k ((val * 256 + byte) % 2 ^ 32)

pub read_uint32 : M ℕ
read_uint32 = do require 4; uint32_loop 4 0

-- What `packet__read_binary` does once the length is read. `mem` says whether malloc gives the
-- block of `slen+1` bytes.
pub binary_body : Bool → ℕ → M (Option Bytes × ℕ)
binary_body mem zero = return (none, 0)
binary_body true (suc n) = do
  require (suc n)
  bytes ← copy_out (suc n)
  skip (suc n)
  return (some bytes, suc n)
binary_body false (suc n) = do require (suc n); raise Rc.nomem

-- `none` is a null pointer; the NUL that ends the block is left out.
pub read_binary : Bool → M (Option Bytes × ℕ)
read_binary mem = do slen ← read_uint16; binary_body mem slen

-- `if(packet->pos < packet->remaining_length)`, else MOSQ_ERR_PROTOCOL.
unfoldable pub has_more : {A : Type 0} → M A → M A
has_more m p = if ltb p.pos p.remaining_length then m p else fail Rc.protocol p

-- The test of the top bit and what follows it, in the loop of `packet__read_varint`.
unfoldable pub varint_end : ℕ → ℕ → ℕ → M (ℕ × ℕ) → M (ℕ × ℕ)
varint_end byte lword lbytes next =
    if byte / 128 % 2 == 0
    then (if ltb 1 lbytes && byte == 0 then raise Rc.protocol else return (lword, lbytes))
    else next

-- The loop of `packet__read_varint`, over the rounds left: the value and the bytes read.
unfoldable pub varint_loop : ℕ → ℕ → ℕ → ℕ → M (ℕ × ℕ)
varint_loop zero lword mult lbytes = raise Rc.protocol
varint_loop (suc k) lword mult lbytes =
    let next =
      (λ (byte : ℕ). varint_loop k (lword + byte % 128 * mult) (mult * 128) (lbytes + 1)) in
    has_more
      (do byte ← peek; skip 1; varint_end byte (lword + byte % 128 * mult) (lbytes + 1) (next byte))

unfoldable pub read_varint : M (ℕ × ℕ)
read_varint = varint_loop 4 0 1 0

-- What `packet__read_string` does with the answer of `mosquitto_validate_utf8`.
pub checked : {A : Type 0} → Check → A → M A
checked (code Rc.success) a = return a
checked (code rc) a = raise Rc.malformed_utf8
checked overrun a = stop
checked stuck a = stop

-- The block that `packet__read_binary` fills ends in a NUL.
pub validated : Option Bytes × ℕ → M (Option Bytes × ℕ)
validated (none, len) =
    if len == 0 then return (none, len) else checked (validate_utf8 none len) (none, len)
validated (some bytes, len) =
    if len == 0
    then return (some bytes, len)
    else checked (validate_utf8 (some (bytes ++ (0 ∷ []))) len) (some bytes, len)

pub read_string : Bool → M (Option Bytes × ℕ)
read_string mem = do str ← read_binary mem; validated str
