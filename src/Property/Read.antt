-- ===== src/Property/Read.antt =====
-- `property__read` and `property__read_all`
-- of property_mosq.c.
pub mod Laws
use artemisia.Base.{
  ℕ, zero, suc, ◌+◌, ◌-◌, ◌*◌, ◌%◌, ◌^◌, Bool, true, false, Option, none, some, List, [], ◌∷◌, ◌++◌,
}
use artemisia.Base.{Bytes, Rc, ltb, ◌==◌, if◌then◌else◌}
use artemisia.Packet.Defs.{M, ◌>>=◌, ◌>>◌, return, raise, stop}
use artemisia.Packet.Read.{
  read_byte, read_uint16, read_uint32, read_binary, read_string, read_varint,
}
use artemisia.Property.Defs.{
  Str, null_str, Value, i8, i16, i32, varint, bin, s, Property, PropType, prop_type,
}
use artemisia.Property.Check.{check_all}

-- `memset(property, 0, ...)`, the identifier, and the value that a case of the switch stores.
abbrev pub received_property : ℕ → Value → Property
received_property id v = record {
  value = v;
  name = null_str;
  identifier = id;
  client_generated = false;
}

abbrev str : Option Bytes × ℕ → Str
str (v, len) = record { v = v; len = len }

-- The switch of `property__read`: the property, and `*len` once the value is taken off. The
-- int32_t `*len` is read only by `proplen > 0`, so 0 stands for what is negative.
-- `mem1` and `mem2` say whether malloc gives the blocks of the first and the second string.
pub read_value : PropType → ℕ → ℕ → Bool → Bool → M (Property × ℕ)
read_value PropType.byte id len mem1 mem2 = do
  b ← read_byte
  return (received_property id (i8 b), len - 1)
read_value PropType.int16 id len mem1 mem2 = do
  w ← read_uint16
  return (received_property id (i16 w), len - 2)
read_value PropType.int32 id len mem1 mem2 = do
  w ← read_uint32
  return (received_property id (i32 w), len - 4)
read_value PropType.varint_int id len mem1 mem2 = do
  (w, byte_count) ← read_varint
  return (received_property id (varint w), len - byte_count)
read_value PropType.string id len mem1 mem2 = do
  (v, slen) ← read_string mem1
  return (received_property id (s (str (v, slen))), len - 2 - slen)
read_value PropType.binary id len mem1 mem2 = do
  (v, slen) ← read_binary mem1
  return (received_property id (bin (str (v, slen))), len - 2 - slen)
read_value PropType.string_pair id len mem1 mem2 = do
  (v1, slen1) ← read_string mem1
  (v2, slen2) ← read_string mem2
  return (
    record {
      value = s (str (v2, slen2));
      name = str (v1, slen1);
      identifier = id;
      client_generated = false;
    },
    len - 2 - slen1 - 2 - slen2,
  )

pub read_typed : Option PropType → ℕ → ℕ → Bool → Bool → M (Property × ℕ)
read_typed none id len mem1 mem2 = raise Rc.malformed_packet
read_typed (some type) id len mem1 mem2 = read_value type id len mem1 mem2

pub property_read : ℕ → Bool → Bool → M (Property × ℕ)
property_read len mem1 mem2 = do
  (id, count) ← read_varint
  read_typed (prop_type id) id (len - 1) mem1 mem2

-- The loop of `property__read_all`, from the `i`-th property on. `mem` says which allocations
-- succeed: three for each property, the property itself and its two strings. A round takes a byte
-- of `proplen` at least, so `proplen` rounds are enough; out of fuel is a fault.
pub read_all_loop : ℕ → (ℕ → Bool) → ℕ → ℕ → List Property → M (List Property)
read_all_loop fuel mem i zero properties = return properties
read_all_loop zero mem i (suc n) properties = stop
read_all_loop (suc fuel) mem i (suc n) properties =
    let round = (do
      (p, left) ← property_read (suc n) (mem (3 * i + 1)) (mem (3 * i + 2))
      read_all_loop fuel mem (i + 1) left (properties ++ (p ∷ []))) in
    if mem (3 * i) then round else raise Rc.nomem

abbrev guarded : {A : Type 0} → Rc → A → M A
guarded Rc.success a = return a
guarded rc a = raise rc

pub finish : ℕ → List Property → M (List Property)
finish command properties = guarded (check_all command properties) properties

pub property_read_all : ℕ → (ℕ → Bool) → M (List Property)
property_read_all command mem = do
  (proplen, count) ← read_varint
  properties ← read_all_loop proplen mem 0 proplen []
  finish command properties
