-- ===== src/Property/Write.antt =====
-- `property__write`, `property__write_all` and the lengths, of property_mosq.c.
pub mod Laws
use artemisia.Base.{
  ℕ, zero, suc, ◌+◌, ◌%◌, ◌^◌, Bool, true, false, Option, none, some, List, [], ◌∷◌,
}
use artemisia.Base.{Bytes, Rc, ltb, if◌then◌else◌}
use artemisia.Packet.Defs.{M, ◌>>=◌, ◌>>◌, return, raise, stop}
use artemisia.Packet.Write.{
  write_byte, write_bytes, write_uint16, write_uint32, write_string, write_varint,
}
use artemisia.Property.Defs.{
  Str, Value, i8, i16, i32, varint, bin, s, Property, PropType, prop_type,
}

-- The bytes behind a `char *`.
abbrev pub bytes_of : Option Bytes → Bytes
bytes_of none = []
bytes_of (some bs) = bs

pub varint_length : ℕ → ℕ
varint_length w =
    if ltb w 128
    then 2
    else if ltb w 16384
    then 3
    else if ltb w 2097152
    then 4
    else if ltb w 268435456
    then 5
    else 0

-- The switch of `property__get_length`. A member that was not stored last reads as 0.
unfoldable pub value_length : Option PropType → Value → Str → ℕ
value_length (some PropType.byte) v name = 2
value_length (some PropType.int16) v name = 3
value_length (some PropType.int32) v name = 5
value_length (some PropType.varint_int) (varint w) name = varint_length w
value_length (some PropType.binary) (bin b) name = 3 + b.len
value_length (some PropType.string) (s t) name = 3 + t.len
value_length (some PropType.string_pair) (s t) name = 5 + t.len + name.len
value_length type v name = 0

unfoldable pub get_length : Property → ℕ
get_length p = value_length (prop_type p.identifier) p.value p.name

unfoldable pub get_length_all : List Property → ℕ
get_length_all [] = 0
get_length_all (p ∷ properties) = get_length p + get_length_all properties

-- The lengths of strings go into a uint16_t.
write_str : Str → M (Unit {0})
write_str t = write_string (bytes_of t.v) (t.len % 2 ^ 16)

-- The switch of `property__write`.
pub write_value : Option PropType → Value → Str → M (Unit {0})
write_value (some PropType.byte) (i8 b) name = write_byte b
write_value (some PropType.int16) (i16 w) name = write_uint16 w
write_value (some PropType.int32) (i32 w) name = write_uint32 w
write_value (some PropType.varint_int) (varint w) name = write_varint w
write_value (some PropType.string) (s t) name = write_str t
write_value (some PropType.binary) (bin b) name = do
  write_uint16 (b.len % 2 ^ 16)
  write_bytes (bytes_of b.v) b.len
write_value (some PropType.string_pair) (s t) name = do write_str name; write_str t
write_value (some type) v name = stop
write_value none v name = raise Rc.inval

pub property_write : Property → M (Unit {0})
property_write p = do write_varint p.identifier; write_value (prop_type p.identifier) p.value p.name

pub write_loop : List Property → M (Unit {0})
write_loop [] = return tt
write_loop (p ∷ properties) = do property_write p; write_loop properties

pub property_write_all : List Property → Bool → M (Unit {0})
property_write_all properties true = do
  write_varint (get_length_all properties)
  write_loop properties
property_write_all properties false = write_loop properties
