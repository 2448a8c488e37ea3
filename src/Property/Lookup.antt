-- ===== src/Property/Lookup.antt =====
-- The look-ups of property_mosq.c that copy binary data and a pair of strings. The caller asks for
-- every value.
use artemisia.Base.{
  ℕ, ◌%◌, ◌<◌, Bool, true, false, ◌&&◌, Option, none, some, List, [], ◌∷◌, ◌≡◌, refl, arith,
}
use artemisia.Base.{Bytes, if◌then◌else◌, length, take, take-length}
use artemisia.Property.Ident
use artemisia.Property.Defs.{Str, bin, s, Property, is_binary, is_string_pair}
use artemisia.Property.Store.{
  property_add, get_property, of_type, is_valid, text_of, mem_text, add_string_pair,
}
use artemisia.Property.Store.Laws.{Lacks, get_property_lem}

-- `len` bytes from where the pointer points to.
abbrev pub copied : Str → Bytes
copied text = elim (text.v) [ none ↦ [] | some bytes ↦ take text.len bytes ]

-- The copy and its length; `mem` is malloc's answer.
abbrev pub binary_copy : Bool → Option Property → Option (Bytes × ℕ)
binary_copy mem none = none
binary_copy false (some p) = none
binary_copy true (some p) = elim (p.value) [
  | bin text ↦ some (copied text, text.len)
  | other ↦ none
]

pub read_binary_property : List Property → ℕ → Bool → Bool → Option (Bytes × ℕ)
read_binary_property proplist id skip_first mem =
    binary_copy mem (of_type is_binary (get_property proplist id skip_first))

-- `mem1` and `mem2` are the answers of calloc for the name and for the value.
abbrev pub pair_copy : Bool → Bool → Option Property → Option (Bytes × Bytes)
pair_copy mem1 mem2 none = none
pair_copy mem1 mem2 (some p) = elim (p.value) [
  | s text ↦ if mem1 && mem2 then some (copied p.name, copied text) else none
  | other ↦ none
]

unfoldable pub read_string_pair_property :
    List Property → ℕ → Bool → Bool → Bool → Option (Bytes × Bytes)
read_string_pair_property proplist id skip_first mem1 mem2 =
    pair_copy mem1 mem2 (of_type is_string_pair (get_property proplist id skip_first))

copied-text_of : (text : Bytes) → length text < 65536 → copied (text_of (some text)) ≡ text
copied-text_of [] h = refl
copied-text_of (b ∷ text) h =
    let whole : length (b ∷ text) % 65536 ≡ length (b ∷ text) = omega arith in
    rw whole (take-length (b ∷ text))

mem_text-true : (text : Bytes) → mem_text (some text) true ≡ true
mem_text-true [] = refl
mem_text-true (b ∷ text) = refl

-- The pair that `mosquitto_property_add_string_pair` added to a list without the identifier is what
-- `mosquitto_property_read_string_pair` copies, where name and value are valid and shorter than
-- 65536 bytes.
pub read_string_pair_property-add_string_pair :
    (ps : List Property) (name value : Bytes)
    → is_valid (some name) ≡ true
    → is_valid (some value) ≡ true
    → length name < 65536
    → length value < 65536
    → Lacks Ident.user_property ps
    → read_string_pair_property
        (add_string_pair ps Ident.user_property (some name) (some value) true true true).1
        Ident.user_property
        false
        true
        true
      ≡ some (name, value)
unfolding read_string_pair_property add_string_pair property_add
read_string_pair_property-add_string_pair ps name value hn hv ln lv lacks =
    let p : Property = record {
      value = s (text_of (some value));
      name = text_of (some name);
      identifier = Ident.user_property;
      client_generated = true;
    } in
    rw (
      hn,
      hv,
      mem_text-true name,
      mem_text-true value,
      (get_property_lem ps p [] lacks).0,
      copied-text_of name ln,
      copied-text_of value lv,
    )
