-- ===== src/Property/Store.antt =====
-- The functions of property_mosq.c that build a list of properties and look things up in one. A
-- pointer to a list is never null here. `mem` says whether the allocations succeed.
pub mod Laws
use artemisia.Base.{
  ℕ, zero, suc, ◌+◌, ◌%◌, Bool, true, false, not, ◌&&◌, ◌||◌, Option, none, some, List, [], ◌∷◌,
  ◌++◌,
}
use artemisia.Base.{Bytes, Rc, ltb, ◌==◌, if◌then◌else◌, length, take}
use artemisia.Utf8.{Check, code, validate_utf8}
use artemisia.Property.Ident
use artemisia.Property.Defs.{Str, null_str, Value, i8, i16, i32, varint, bin, s, Property, PropType}
use artemisia.Property.Defs.{is_byte, is_int16, is_int32, is_varint_int, is_binary, is_string}

-- `property__add`: the end of the list, also of an empty one.
unfoldable pub property_add : List Property → Property → List Property
property_add properties p = properties ++ (p ∷ [])

abbrev pub generated : ℕ → Value → Property
generated id v = record { value = v; name = null_str; identifier = id; client_generated = true }

-- The identifier is checked, then the property is allocated.
abbrev pub add_checked : Bool → Bool → List Property → Property → Rc × List Property
add_checked false mem properties p = (Rc.inval, properties)
add_checked true false properties p = (Rc.nomem, properties)
add_checked true true properties p = (Rc.success, property_add properties p)

pub add_byte : List Property → ℕ → ℕ → Bool → Rc × List Property
add_byte properties id value mem = add_checked (is_byte id) mem properties (generated id (i8 value))

unfoldable pub add_int16 : List Property → ℕ → ℕ → Bool → Rc × List Property
add_int16 properties id value mem =
    add_checked (is_int16 id) mem properties (generated id (i16 value))

pub add_int32 : List Property → ℕ → ℕ → Bool → Rc × List Property
add_int32 properties id value mem =
    add_checked (is_int32 id) mem properties (generated id (i32 value))

pub add_varint : List Property → ℕ → ℕ → Bool → Rc × List Property
add_varint properties id value mem =
    add_checked (not (ltb 268435455 value) && id == Ident.subscription_identifier) mem properties
      (generated id (varint value))

-- `len` bytes that are copied, or nothing for a length of 0.
abbrev pub stored : Bytes → ℕ → Str
stored bytes zero = null_str
stored bytes (suc n) = record { v = some (take (suc n) bytes); len = suc n }

-- The second allocation is made only for a length that is not 0.
abbrev pub mem_for : ℕ → Bool → Bool
mem_for zero mem = true
mem_for (suc n) mem = mem

pub add_binary : List Property → ℕ → Bytes → ℕ → Bool → Bool → Rc × List Property
add_binary properties id value len mem1 mem2 =
    add_checked (is_binary id) (mem1 && mem_for len mem2) properties
      (generated id (bin (stored value len)))

-- `if(value) if(mosquitto_validate_utf8(value, strlen(value)))`.
abbrev pub is_accepted : Check → Bool
is_accepted (code Rc.success) = true
is_accepted c = false

unfoldable pub is_valid : Option Bytes → Bool
is_valid none = true
is_valid (some text) = is_accepted (validate_utf8 (some (text ++ (0 ∷ []))) (length text))

-- A C string as the property keeps it, with its length as a uint16_t: a null pointer if it is null
-- or empty.
abbrev pub text_of : Option Bytes → Str
text_of none = null_str
text_of (some []) = null_str
text_of (some (b ∷ text)) = record { v = some (b ∷ text); len = length (b ∷ text) % 65536 }

abbrev pub mem_text : Option Bytes → Bool → Bool
mem_text none mem = true
mem_text (some text) mem = mem_for (length text) mem

unfoldable pub add_string : List Property → ℕ → Option Bytes → Bool → Bool → Rc × List Property
add_string properties id value mem1 mem2 =
    if is_valid value
    then add_checked (is_string id) (mem1 && mem_text value mem2) properties
        (generated id (s (text_of value)))
    else (Rc.malformed_utf8, properties)

unfoldable pub add_string_pair :
    List Property → ℕ → Option Bytes → Option Bytes → Bool → Bool → Bool → Rc × List Property
add_string_pair properties id name value mem1 mem2 mem3 =
    if id == Ident.user_property
    then (if is_valid name && is_valid value
        then add_checked true (mem1 && mem_text name mem2 && mem_text value mem3) properties
            (record {
              value = s (text_of value);
              name = text_of name;
              identifier = id;
              client_generated = true;
            })
        else (Rc.malformed_utf8, properties))
    else (Rc.inval, properties)

-- The loop of `property__get_property`.
unfoldable pub get_loop : List Property → ℕ → Bool → Bool → Option Property
get_loop [] id skip_first is_first = none
get_loop (p ∷ next) id skip_first is_first =
    let rest = get_loop next id skip_first in
    let skipped = rest false in
    let passed = rest is_first in
    if p.identifier == id
    then (if not is_first || not skip_first then some p else skipped)
    else passed

unfoldable pub get_property : List Property → ℕ → Bool → Option Property
get_property proplist id skip_first = get_loop proplist id skip_first true

-- The property is given back if its identifier is of the type that the function reads.
abbrev pub of_type : (ℕ → Bool) → Option Property → Option Property
of_type test none = none
of_type test (some p) = if test p.identifier then some p else none

unfoldable pub read_byte_property : List Property → ℕ → Bool → Option Property
read_byte_property proplist id skip_first = of_type is_byte (get_property proplist id skip_first)

unfoldable pub read_int16_property : List Property → ℕ → Bool → Option Property
read_int16_property proplist id skip_first = of_type is_int16 (get_property proplist id skip_first)

unfoldable pub read_int32_property : List Property → ℕ → Bool → Option Property
read_int32_property proplist id skip_first = of_type is_int32 (get_property proplist id skip_first)

pub read_varint_property : List Property → ℕ → Bool → Option Property
read_varint_property proplist id skip_first =
    of_type is_varint_int (get_property proplist id skip_first)

-- What `mosquitto_property_read_string` makes of the property it finds: `mem` is calloc's answer.
abbrev pub string_copy : Bool → Option Property → Option Bytes
string_copy mem none = none
string_copy false (some p) = none
string_copy true (some p) = elim (p.value) [
  | s text ↦ elim (text.v) [ none ↦ some [] | some bytes ↦ some (take text.len bytes) ]
  | other ↦ none
]

unfoldable pub read_string_property : List Property → ℕ → Bool → Bool → Option Bytes
read_string_property proplist id skip_first mem =
    string_copy mem (of_type is_string (get_property proplist id skip_first))
