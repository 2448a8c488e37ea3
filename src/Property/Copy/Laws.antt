-- ===== src/Property/Copy/Laws.antt =====
-- A copy of a list of properties is the list.
use artemisia.Base.{take-length, ltb, if-false}
use artemisia.Base.{
  ℕ, ◌+◌, ◌*◌, ◌≡◌, ◌≢◌, refl, sym, ap, ◌∙◌, arith, Bool, true, false, some, List, [], ◌∷◌, map,
  Bytes, ◌==◌, take, length, All,
}
use artemisia.Property.Defs.{
  Str, null_str, Value, i8, i16, i32, varint, bin, s, Property, PropType, prop_type, is_string,
}
use artemisia.Utf8
use artemisia.Utf8.{validate_utf8}
use artemisia.Property.Store.{is_valid, add_string, property_add}
use artemisia.Property.Copy.{
  copied, fault, then_copy, until_nul, dup_str, dup_binary, bytes_or_none, copy_value,
  copy_property, copy_loop, copy_all,
}

-- A string without a NUL, and data of the length that is told.
abbrev pub IsString : Str → Type 0
IsString t = (text : Bytes) × (t.v ≡ some text) × All (λ (b : ℕ). b ≢ 0) text

abbrev pub IsData : Str → Type 0
IsData t = (bytes : Bytes) × (t.v ≡ some bytes) × (t.len ≡ length bytes)

-- The value is of the type of the identifier, as `property__read` makes it.
abbrev pub IsTyped : PropType → Value → Str → Type 0
IsTyped PropType.byte v name = ((n : ℕ) × (v ≡ i8 n)) × (name ≡ null_str)
IsTyped PropType.int16 v name = ((n : ℕ) × (v ≡ i16 n)) × (name ≡ null_str)
IsTyped PropType.int32 v name = ((n : ℕ) × (v ≡ i32 n)) × (name ≡ null_str)
IsTyped PropType.varint_int v name = ((n : ℕ) × (v ≡ varint n)) × (name ≡ null_str)
IsTyped PropType.string v name = ((t : Str) × (v ≡ s t) × IsString t) × (name ≡ null_str)
IsTyped PropType.binary v name = ((t : Str) × (v ≡ bin t) × IsData t) × (name ≡ null_str)
IsTyped PropType.string_pair v name = ((t : Str) × (v ≡ s t) × IsString t) × IsString name

abbrev pub IsCopyable : Property → Type 0
IsCopyable p =
    (type : PropType) × (prop_type p.identifier ≡ some type) × IsTyped type p.value p.name

-- A copy does not belong to the client.
abbrev pub bare : Property → Property
bare p = record p { client_generated = false }

until_nul-text : (text : Bytes) → All (λ (b : ℕ). b ≢ 0) text → until_nul text ≡ text
unfolding until_nul
until_nul-text [] h = refl
until_nul-text (b ∷ bs) (ne, h) =
    let other : (b == 0) ≡ false = ground arith in rw (other, until_nul-text bs h)

dup_str-IsString : (t : Str) → IsString t → dup_str true t ≡ copied t
unfolding dup_str
dup_str-IsString t (text, given, whole) =
    let same : some (until_nul text) ≡ t.v = ap some (until_nul-text text whole) ∙ sym given in
    let dup : dup_str true t ≡ copied (record { v = some (until_nul text); len = t.len }) =
      rw given in
    dup ∙ ap (λ v. copied (record { v = v; len = t.len })) same

dup_binary-IsData : (t : Str) → IsData t → dup_binary true t ≡ copied t
unfolding dup_binary
dup_binary-IsData t (bytes, given, len) =
    let same : some (take t.len (bytes_or_none t.v)) ≡ t.v =
      rw (given, len) (ap some (take-length bytes)) in
    let backed : ltb (length (bytes_or_none t.v)) t.len ≡ false =
      rw (given, len) (whole (length bytes)) in
    if-false (ltb (length (bytes_or_none t.v)) t.len) _ _ backed
    ∙ ap (λ v. copied (record { v = v; len = t.len })) same
  where
    whole : (n : ℕ) → ltb n n ≡ false
    whole n = ground arith

copy_value-IsTyped :
    (type : PropType) (p : Property)
    → IsTyped type p.value p.name
    → copy_value type p true true ≡ copied (bare p)
unfolding copy_value
copy_value-IsTyped PropType.byte p ((n, e), k) = rw (e, k)
copy_value-IsTyped PropType.int16 p ((n, e), k) = rw (e, k)
copy_value-IsTyped PropType.int32 p ((n, e), k) = rw (e, k)
copy_value-IsTyped PropType.varint_int p ((n, e), k) = rw (e, k)
copy_value-IsTyped PropType.string p ((t, e, text), k) = rw (e, dup_str-IsString t text, k)
copy_value-IsTyped PropType.binary p ((t, e, bytes), k) = rw (e, dup_binary-IsData t bytes, k)
copy_value-IsTyped PropType.string_pair p ((t, e, text), name) =
    rw (e, dup_str-IsString t text, then_copy, dup_str-IsString p.name name)

copy_property-IsCopyable :
    (p : Property) → IsCopyable p → copy_property p true true ≡ copied (bare p)
unfolding copy_property
copy_property-IsCopyable p (type, e, typed) =
    rw (copy_property, e) (copy_value-IsTyped type p typed)

copy_loop-All :
    (mem : ℕ → Bool) (i : ℕ) (ps : List Property)
    → ((j : ℕ) → mem j ≡ true)
    → All IsCopyable ps
    → copy_loop mem i ps ≡ copied (map bare ps)
unfolding copy_loop
copy_loop-All mem i [] all h = refl
copy_loop-All mem i (p ∷ ps) all (hp, h) = rw (
  all (3 * i),
  all (3 * i + 1),
  all (3 * i + 2),
  copy_property-IsCopyable p hp,
  then_copy,
  copy_loop-All mem (i + 1) ps all h,
)

-- Where there is memory, `mosquitto_property_copy_all` makes a copy of every property of a list
-- that is not empty, in order, if each has a value of its type, strings without NUL that are no
-- null pointers, and data of the length that is told. Only the mark for the client's own properties
-- is not copied.
pub copy_all-IsCopyable :
    (mem : ℕ → Bool) (dest : List Property) (p : Property) (ps : List Property)
    → ((j : ℕ) → mem j ≡ true)
    → All IsCopyable (p ∷ ps)
    → copy_all mem dest (p ∷ ps) ≡ copied (map bare (p ∷ ps))
unfolding copy_all
copy_all-IsCopyable mem dest p ps all h = copy_loop-All mem 0 (p ∷ ps) all h

valid_empty : is_valid (some []) ≡ true
unfolding is_valid validate_utf8 Utf8.loop
valid_empty = refl

-- An empty string that `mosquitto_property_add_string` added is a null pointer, which
-- `mosquitto_property_copy_all` copies from, whatever the identifier of a string.
pub copy_all-add_string :
    (dest : List Property) (id : ℕ)
    → prop_type id ≡ some PropType.string
    → is_string id ≡ true
    → copy_all (λ j. true) dest (add_string [] id (some []) true true).1 ≡ fault
unfolding add_string property_add copy_all copy_loop copy_property copy_value dup_str
copy_all-add_string dest id type string = rw (valid_empty, string, copy_property, type)
