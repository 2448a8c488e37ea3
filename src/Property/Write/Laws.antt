-- ===== src/Property/Write/Laws.antt =====
-- `property__write` puts a property on the wire, and `property__get_length` says how long it is.
use artemisia.Base.{ℕ, ◌+◌, ◌%◌, ◌^◌, ◌≤◌, ◌<◌, ◌≡◌, refl, ap, arith}
use artemisia.Base.{
  true, false, none, some, List, [], ◌∷◌, ◌++◌, Bytes, length, length-append, ◌==◌,
}
use native.Mathlib.Decide.{dec_lt}
use artemisia.Packet.Encode.{
  uint16_bytes, binary_bytes, varint_groups, varint_encoding, varint_limit,
}
use artemisia.Packet.Write.{write_bytes, write_uint16, write_varint}
use artemisia.Packet.Write.Laws.{Writes, Writes-bind, Writes-return}
use artemisia.Packet.Write.Fields.{
  write_byte-Writes, write_bytes-Writes, write_uint16-Writes, write_uint32-Writes,
  write_string-Writes, write_varint-Writes,
}
use artemisia.Property.Defs.{Str, Value, Property, PropType, prop_type}
use artemisia.Property.Wire.{IsBinary, IsWire, Encoded, EncodedAll}
use artemisia.Property.Write.{
  bytes_of, varint_length, value_length, get_length, get_length_all, write_str, write_value,
  property_write, write_loop, property_write_all,
}

==-above : (id k : ℕ) → 128 ≤ id → k < 128 → (id == k) ≡ false
==-above id k h l = ground arith

-- No identifier of the protocol is above 127.
prop_type-above : (id : ℕ) → 128 ≤ id → prop_type id ≡ none
unfolding prop_type
prop_type-above id h =
    let no = λ (k : ℕ) (l : k < 128). ==-above id k h l in
    simp (
      no 1 (omega arith),
      no 2 (omega arith),
      no 3 (omega arith),
      no 8 (omega arith),
      no 9 (omega arith),
      no 11 (omega arith),
      no 17 (omega arith),
      no 18 (omega arith),
      no 19 (omega arith),
      no 21 (omega arith),
      no 22 (omega arith),
      no 23 (omega arith),
      no 24 (omega arith),
      no 25 (omega arith),
      no 26 (omega arith),
      no 28 (omega arith),
      no 31 (omega arith),
      no 33 (omega arith),
      no 34 (omega arith),
      no 35 (omega arith),
      no 36 (omega arith),
      no 37 (omega arith),
      no 38 (omega arith),
      no 39 (omega arith),
      no 40 (omega arith),
      no 41 (omega arith),
      no 42 (omega arith),
    )

-- Every identifier of the protocol takes one byte.
pub prop_type-lt : (id : ℕ) (type : PropType) → prop_type id ≡ some type → id < 128
prop_type-lt id type h = elim (dec_lt id 128) [
  | yes small ↦ small
  | no large ↦ cc (prop_type-above id (omega arith))
]

pub IsBinary-parts :
    (t : Str) (bs : Bytes)
    → IsBinary t bs
    → (bytes_of t.v ≡ bs) × (t.len ≡ length bs) × (length bs < 2 ^ 16)
IsBinary-parts t [] e = (ap (λ (x : Str). bytes_of x.v) e, ap (λ (x : Str). x.len) e, omega arith)
IsBinary-parts t (b ∷ bs) (e, h) = (ap (λ (x : Str). bytes_of x.v) e, ap (λ (x : Str). x.len) e, h)

write_str-Writes : (t : Str) (bs : Bytes) → IsBinary t bs → Writes (write_str t) (binary_bytes bs)
unfolding write_str
write_str-Writes t bs h =
    let (same, len, short) = IsBinary-parts t bs h in
    let whole : length bs % 2 ^ 16 ≡ length bs = omega arith in
    rw (same, len, whole) (write_string-Writes bs)

-- The value of a complete property, by type.
write_value-Writes :
    (type : PropType) (v : Value) (name : Str) (bs : Bytes)
    → IsWire type v name bs
    → Writes (write_value (some type) v name) bs
unfolding write_value
write_value-Writes type v name bs (IsWire.byte b h) = write_byte-Writes b
write_value-Writes type v name bs (IsWire.int16 w h) = write_uint16-Writes w
write_value-Writes type v name bs (IsWire.int32 w h) = write_uint32-Writes w
write_value-Writes type v name bs (IsWire.varint_int w h) = write_varint-Writes w h
write_value-Writes type v name bs (IsWire.binary t cs h) =
    let (same, len, short) = IsBinary-parts t cs h in
    let whole : length cs % 2 ^ 16 ≡ length cs = omega arith in
    rw (same, len, whole)
      (Writes-bind (write_uint16 (length cs)) (write_bytes cs (length cs))
        (uint16_bytes (length cs)) cs (write_uint16-Writes (length cs)) (write_bytes-Writes cs))
write_value-Writes type v name bs (IsWire.string t cs h) = write_str-Writes t cs h.0
write_value-Writes type v name bs (IsWire.string_pair n t ns cs hn ht) =
    Writes-bind (write_str n) (write_str t) (binary_bytes ns) (binary_bytes cs)
      (write_str-Writes n ns hn.0) (write_str-Writes t cs ht.0)

pub encoding-small : (id : ℕ) → id < 128 → varint_encoding id ≡ id ∷ []
unfolding varint_encoding varint_groups
encoding-small id h = ground arith

identifier-Writes : (id : ℕ) → id < 128 → Writes (write_varint id) (id ∷ [])
identifier-Writes id h = rw (encoding-small id h) at (write_varint-Writes id (omega arith))

-- `property__write` puts a complete property on the wire where there is room.
pub property_write-Writes :
    (p : Property) (bs : Bytes) → Encoded p bs → Writes (property_write p) bs
unfolding property_write
property_write-Writes p bs e =
    rw (e.whole, e.known)
      (Writes-bind (write_varint p.identifier) (write_value (some e.type) p.value p.name)
        (p.identifier ∷ []) e.body
        (identifier-Writes p.identifier (prop_type-lt p.identifier e.type e.known))
        (write_value-Writes e.type p.value p.name e.body e.wire))

varint_length-length : (w : ℕ) → w < varint_limit → varint_length w ≡ 1 + length (varint_encoding w)
unfolding varint_length varint_encoding varint_groups
varint_length-length w h = ground arith

value_length-length :
    (type : PropType) (v : Value) (name : Str) (bs : Bytes)
    → IsWire type v name bs
    → value_length (some type) v name ≡ 1 + length bs
unfolding value_length
value_length-length type v name bs (IsWire.byte b h) = refl
value_length-length type v name bs (IsWire.int16 w h) = refl
value_length-length type v name bs (IsWire.int32 w h) = refl
value_length-length type v name bs (IsWire.varint_int w h) = varint_length-length w h
value_length-length type v name bs (IsWire.binary t cs h) =
    let (same, len, short) = IsBinary-parts t cs h in omega arith
value_length-length type v name bs (IsWire.string t cs h) =
    let (same, len, short) = IsBinary-parts t cs h.0 in omega arith
value_length-length type v name bs (IsWire.string_pair n t ns cs hn ht) =
    let (same, len, short) = IsBinary-parts n ns hn.0 in
    let (same', len', short') = IsBinary-parts t cs ht.0 in
    omega (arith, length-append (binary_bytes ns) (binary_bytes cs))

-- `property__get_length` is the number of bytes of a complete property on the wire.
pub get_length-length : (p : Property) (bs : Bytes) → Encoded p bs → get_length p ≡ length bs
unfolding get_length
get_length-length p bs e =
    rw (e.known, e.whole) (omega (arith, value_length-length e.type p.value p.name e.body e.wire))

pub get_length_all-length :
    (ps : List Property) (bs : Bytes) → EncodedAll ps bs → get_length_all ps ≡ length bs
unfolding get_length_all
get_length_all-length ps bs EncodedAll.end = refl
get_length_all-length ps bs (EncodedAll.next p qs cs ds e es) =
    omega (arith, get_length-length p cs e, get_length_all-length qs ds es, length-append cs ds)

write_loop-Writes : (ps : List Property) (bs : Bytes) → EncodedAll ps bs → Writes (write_loop ps) bs
unfolding write_loop
write_loop-Writes ps bs EncodedAll.end = Writes-return
write_loop-Writes ps bs (EncodedAll.next p qs cs ds e es) =
    Writes-bind (property_write p) (write_loop qs) cs ds (property_write-Writes p cs e)
      (write_loop-Writes qs ds es)

-- `property__write_all` puts the properties on the wire behind the length that
-- `property__get_length_all` computes, where there is room and the length is below 268435456.
pub property_write_all-Writes :
    (ps : List Property) (bs : Bytes)
    → EncodedAll ps bs
    → length bs < varint_limit
    → Writes (property_write_all ps true) (varint_encoding (length bs) ++ bs)
unfolding property_write_all
property_write_all-Writes ps bs e h = rw (get_length_all-length ps bs e) (
    Writes-bind (write_varint (length bs)) (write_loop ps) (varint_encoding (length bs)) bs
      (write_varint-Writes (length bs) h) (write_loop-Writes ps bs e))

-- Without its length, for a list that is written behind another one.
pub property_write_all-false :
    (ps : List Property) (bs : Bytes) → EncodedAll ps bs → Writes (property_write_all ps false) bs
unfolding property_write_all
property_write_all-false ps bs e = write_loop-Writes ps bs e
