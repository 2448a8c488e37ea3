-- ===== src/Property/Copy.antt =====
-- `mosquitto_property_copy_all` of property_mosq.c.
pub mod Laws
use artemisia.Base.{
  ℕ, zero, suc, ◌+◌, ◌*◌, Bool, true, false, not, ltb, length, Option, none, some, List, [], ◌∷◌,
  Bytes, Rc, ◌==◌, if◌then◌else◌, take,
}
use artemisia.Property.Defs.{
  Str, null_str, Value, i8, i16, i32, varint, bin, s, Property, PropType, prop_type,
}

-- A copy, a return code behind which nothing is left of the copy, or a fault: a copy of a null
-- pointer, or of a member of the union that was not stored last.
pub data Copied (A : Type 0) : Type 0 where
  copied : A → Copied A
  failed : Rc → Copied A
  fault : Copied A

abbrev pub then_copy : {A B : Type 0} → Copied A → (A → Copied B) → Copied B
then_copy (copied a) f = f a
then_copy (failed rc) f = failed rc
then_copy fault f = fault

-- The bytes before the first NUL.
unfoldable pub until_nul : Bytes → Bytes
until_nul [] = []
until_nul (b ∷ bs) = let rest = until_nul bs in if b == 0 then [] else b ∷ rest

-- `strdup` of a string, with its length.
pub dup_str : Bool → Str → Copied Str
dup_str mem t = elim (t.v) [
  | none ↦ fault
  | some text ↦
      if mem then copied (record { v = some (until_nul text); len = t.len }) else failed Rc.nomem
]

-- `len` bytes in a block of malloc.
abbrev pub bytes_or_none : Option Bytes → Bytes
bytes_or_none none = []
bytes_or_none (some bytes) = bytes

-- More bytes than there are, or than a null pointer has, are a fault.
pub dup_binary : Bool → Str → Copied Str
dup_binary mem t =
    if not mem
    then failed Rc.nomem
    else if ltb (length (bytes_or_none t.v)) t.len
    then fault
    else copied (record { v = some (take t.len (bytes_or_none t.v)); len = t.len })

abbrev pub copy_of : ℕ → Value → Str → Copied Property
copy_of id v name =
    copied (record { value = v; name = name; identifier = id; client_generated = false })

-- The switch. `mem1` and `mem2` are the answers for the two strings.
pub copy_value : PropType → Property → Bool → Bool → Copied Property
copy_value PropType.byte p mem1 mem2 = elim (p.value) [
  | i8 n ↦ copy_of p.identifier (i8 n) null_str
  | other ↦ fault
]
copy_value PropType.int16 p mem1 mem2 = elim (p.value) [
  | i16 n ↦ copy_of p.identifier (i16 n) null_str
  | other ↦ fault
]
copy_value PropType.int32 p mem1 mem2 = elim (p.value) [
  | i32 n ↦ copy_of p.identifier (i32 n) null_str
  | other ↦ fault
]
copy_value PropType.varint_int p mem1 mem2 = elim (p.value) [
  | varint n ↦ copy_of p.identifier (varint n) null_str
  | other ↦ fault
]
copy_value PropType.string p mem1 mem2 = elim (p.value) [
  | s t ↦ then_copy (dup_str mem1 t) (λ t'. copy_of p.identifier (s t') null_str)
  | other ↦ fault
]
copy_value PropType.binary p mem1 mem2 = elim (p.value) [
  | bin t ↦ then_copy (dup_binary mem1 t) (λ t'. copy_of p.identifier (bin t') null_str)
  | other ↦ fault
]
copy_value PropType.string_pair p mem1 mem2 = elim (p.value) [
  | s t ↦
      then_copy (dup_str mem1 t)
        (λ t'. then_copy (dup_str mem2 p.name) (λ name. copy_of p.identifier (s t') name))
  | other ↦ fault
]

pub copy_property : Property → Bool → Bool → Copied Property
copy_property p mem1 mem2 = elim (prop_type p.identifier) [
  | none ↦ failed Rc.inval
  | some type ↦ copy_value type p mem1 mem2
]

-- The loop, from the `i`-th property on, with three allocations for each.
pub copy_loop : (ℕ → Bool) → ℕ → List Property → Copied (List Property)
copy_loop mem i [] = copied []
copy_loop mem i (p ∷ src) =
    let rest = copy_loop mem (i + 1) src in
    let one = copy_property p (mem (3 * i + 1)) (mem (3 * i + 2)) in
    if mem (3 * i)
    then then_copy one (λ p'. then_copy rest (λ ps. copied (p' ∷ ps)))
    else failed Rc.nomem

-- What `*dest` is afterwards, where it is no null pointer, and the return code. An empty list
-- leaves it as it was.
unfoldable pub copy_all : (ℕ → Bool) → List Property → List Property → Copied (List Property)
copy_all mem dest [] = copied dest
copy_all mem dest (p ∷ src) = copy_loop mem 0 (p ∷ src)
