-- ===== src/Property/Read/Laws.antt =====
-- `property__read` takes a property off the wire as it was put there.
use artemisia.Base.{ℕ, zero, suc, ◌+◌, ◌-◌, ◌≤◌, ◌<◌, ◌≡◌, refl, ap, ◌∙◌, arith}
use artemisia.Base.{true, false, List, [], ◌∷◌, ◌++◌, Bytes, Rc, length, length-append}
use mathlib.Core.List.{map, append-nil, append_assoc}
use artemisia.Packet.Encode.{
  uint16_bytes, uint32_bytes, binary_bytes, varint_encoding, varint_limit,
}
use artemisia.Packet.Unread.{Reads, Reads-bind, Reads-return, Reads-map}
use artemisia.Packet.Read.{
  read_byte, read_uint16, read_uint32, read_binary, read_string, read_varint,
}
use artemisia.Packet.Read.Laws.{
  read_byte-Reads, read_uint16-Reads, read_uint32-Reads, read_binary-Reads, read_binary-Reads_empty,
  read_string-Reads, read_string-Reads_empty,
}
use artemisia.Packet.Read.Varint.{read_varint-Reads}
use artemisia.Property.Defs.{Str, Value, i8, i16, i32, varint, bin, s, Property, PropType}
use artemisia.Property.Wire.{IsBinary, IsString, IsWire, Encoded, EncodedAll, from_wire}
use artemisia.Property.Write.Laws.{prop_type-lt, encoding-small, IsBinary-parts}
use artemisia.Property.Check.{check_all}
use artemisia.Property.Check.Laws.{check_all-from_wire}
use artemisia.Property.Read.{
  finish, str, received_property, read_value, read_typed, property_read, read_all_loop,
  property_read_all,
}

len_eq : (t : Str) (bs : Bytes) → IsBinary t bs → t.len ≡ length bs
len_eq t bs h = (IsBinary-parts t bs h).1

-- What `packet__read_binary` and `packet__read_string` store for a string.
read_binary-Str :
    (t : Str) (bs : Bytes) → IsBinary t bs → Reads (read_binary true) (binary_bytes bs) (t.v, t.len)
read_binary-Str t [] e =
    rw (ap (λ (x : Str). x.v) e, ap (λ (x : Str). x.len) e) (read_binary-Reads_empty true)
read_binary-Str t (b ∷ bs) (e, h) =
    rw (ap (λ (x : Str). x.v) e, ap (λ (x : Str). x.len) e) (read_binary-Reads b bs h)

read_string-Str :
    (t : Str) (bs : Bytes) → IsString t bs → Reads (read_string true) (binary_bytes bs) (t.v, t.len)
read_string-Str t [] (e, text) =
    rw (ap (λ (x : Str). x.v) e, ap (λ (x : Str). x.len) e) (read_string-Reads_empty true)
read_string-Str t (b ∷ bs) ((e, h), text) =
    rw (ap (λ (x : Str). x.v) e, ap (λ (x : Str). x.len) e) (read_string-Reads b bs h text)

-- The value of a complete property, by type; `len` goes down by its bytes.
read_value-Reads :
    (type : PropType) (id : ℕ) (v : Value) (name : Str) (bs : Bytes) (len : ℕ)
    → IsWire type v name bs
    → Reads (read_value type id len true true) bs (
      record { value = v; name = name; identifier = id; client_generated = false },
      len - length bs,
    )
unfolding read_value
read_value-Reads type id v name bs len (IsWire.byte b h) =
    Reads-map read_byte (λ x. (received_property id (i8 x), len - 1)) (b ∷ []) b (read_byte-Reads b)
read_value-Reads type id v name bs len (IsWire.int16 w h) =
    Reads-map read_uint16 (λ x. (received_property id (i16 x), len - 2)) (uint16_bytes w) w
      (read_uint16-Reads w h)
read_value-Reads type id v name bs len (IsWire.int32 w h) =
    Reads-map read_uint32 (λ x. (received_property id (i32 x), len - 4)) (uint32_bytes w) w
      (read_uint32-Reads w h)
read_value-Reads type id v name bs len (IsWire.varint_int w h) =
    Reads-map read_varint (λ (x, n). (received_property id (varint x), len - n)) (varint_encoding w)
      (w, length (varint_encoding w)) (read_varint-Reads w h)
read_value-Reads type id v name bs len (IsWire.binary t cs h) =
    let left : len - length (binary_bytes cs) ≡ len - 2 - t.len = omega (arith, len_eq t cs h) in
    rw left (
      Reads-map (read_binary true)
        (λ (x, n). (received_property id (bin (str (x, n))), len - 2 - n)) (binary_bytes cs)
        (t.v, t.len) (read_binary-Str t cs h))
read_value-Reads type id v name bs len (IsWire.string t cs h) =
    let left : len - length (binary_bytes cs) ≡ len - 2 - t.len = omega (arith, len_eq t cs h.0) in
    rw left (
      Reads-map (read_string true) (λ (x, n). (received_property id (s (str (x, n))), len - 2 - n))
        (binary_bytes cs) (t.v, t.len) (read_string-Str t cs h))
read_value-Reads type id v name bs len (IsWire.string_pair m t ns cs hn ht) =
    let left : len - length (binary_bytes ns ++ binary_bytes cs) ≡ len - 2 - m.len - 2 - t.len =
      omega (
        arith,
        len_eq m ns hn.0,
        len_eq t cs ht.0,
        length-append (binary_bytes ns) (binary_bytes cs),
      ) in
    rw left (
      Reads-bind (read_string true) _ (binary_bytes ns) (binary_bytes cs) (m.v, m.len) _
        (read_string-Str m ns hn)
        (Reads-map (read_string true)
          (λ (x, n). (
            record {
              value = s (str (x, n));
              name = str (m.v, m.len);
              identifier = id;
              client_generated = false;
            },
            len - 2 - m.len - 2 - n,
          ))
          (binary_bytes cs) (t.v, t.len) (read_string-Str t cs ht)))

-- `property__read` takes a complete property off the wire, and its bytes off `*len`.
pub property_read-Reads :
    (p : Property) (bs : Bytes) (len : ℕ)
    → Encoded p bs
    → Reads (property_read len true true) bs (from_wire p, len - length bs)
unfolding property_read read_typed
property_read-Reads p bs len e =
    let id = p.identifier in
    let small = prop_type-lt id e.type e.known in
    let head : Reads read_varint (id ∷ []) (id, 1) =
      rw (encoding-small id small) at (read_varint-Reads id (omega arith)) in
    let left : len - length (id ∷ e.body) ≡ len - 1 - length e.body = omega arith in
    rw (e.whole, left)
      (Reads-bind read_varint _ (id ∷ []) e.body (id, 1) _ head
        (rw e.known (read_value-Reads e.type id p.value p.name e.body (len - 1) e.wire)))

-- The loop, on what is left of the properties: no allocation fails.
read_all_loop-Reads :
    (ps : List Property) (bs : Bytes) (fuel i n : ℕ) (before : List Property)
    → EncodedAll ps bs
    → n ≡ length bs
    → n ≤ fuel
    → Reads (read_all_loop fuel (λ _. true) i n before) bs (before ++ map from_wire ps)
unfolding read_all_loop
read_all_loop-Reads ps bs fuel i zero before EncodedAll.end hn hf =
    rw (append-nil before) (Reads-return before)
read_all_loop-Reads ps bs fuel i (suc n) before EncodedAll.end hn hf = absurd (omega arith)
read_all_loop-Reads ps bs fuel i zero before (EncodedAll.next p qs cs ds e es) hn hf =
    absurd (omega (arith, length-append cs ds, ap length e.whole))
read_all_loop-Reads ps bs zero i (suc n) before (EncodedAll.next p qs cs ds e es) hn hf =
    absurd (omega arith)
read_all_loop-Reads ps bs (suc fuel) i (suc n) before (EncodedAll.next p qs cs ds e es) hn hf =
    let left : suc n - length cs ≡ length ds = omega (arith, length-append cs ds) in
    let shorter : length ds ≤ fuel = omega (arith, length-append cs ds, ap length e.whole) in
    Reads-bind (property_read (suc n) true true) _ cs ds _ _ (property_read-Reads p cs (suc n) e) (
      rw (left, ← append_assoc before (from_wire p ∷ []) (map from_wire qs))
        (read_all_loop-Reads qs ds fuel (i + 1) (length ds) (before ++ (from_wire p ∷ [])) es refl
          shorter))

-- `property__read_all` takes properties off the wire that its check allows, with their length in
-- front: no allocation fails.
pub property_read_all-Reads :
    (command : ℕ) (ps : List Property) (bs : Bytes)
    → EncodedAll ps bs
    → check_all command ps ≡ Rc.success
    → length bs < varint_limit
    → Reads
        (property_read_all command (λ _. true))
        (varint_encoding (length bs) ++ bs)
        (map from_wire ps)
unfolding property_read_all finish
property_read_all-Reads command ps bs e allowed h =
    let allowed' = check_all-from_wire command ps ∙ allowed in
    let tail = rw (append-nil bs) at (
      Reads-bind (read_all_loop (length bs) (λ _. true) 0 (length bs) []) (finish command) bs []
        (map from_wire ps) (map from_wire ps)
        (read_all_loop-Reads ps bs (length bs) 0 (length bs) [] e refl (omega arith))
        (rw allowed' (Reads-return (map from_wire ps)))) in
    Reads-bind read_varint _ (varint_encoding (length bs)) bs _ _ (read_varint-Reads (length bs) h)
      tail
