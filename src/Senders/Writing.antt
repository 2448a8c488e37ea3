-- ===== src/Senders/Writing.antt =====
-- How the parts of a packet's body are written, one behind the other.
use artemisia.Base.{
  ℕ, ◌+◌, ◌*◌, ◌%◌, ◌^◌, ◌<◌, ◌≡◌, refl, ap, arith, inl, inr, Bool-cases, Bool, true, false, Option,
  none, some, List, [], ◌∷◌, ◌++◌, Bytes, length, length-append, if◌then◌else◌,
}
use artemisia.Packet.Defs.{M, return}
use artemisia.Packet.Encode.{binary_bytes, varint_encoding, varint_limit}
use artemisia.Packet.Write.{varint_bytes}
use artemisia.Packet.Write.Laws.{Writes, Writes-return}
use artemisia.Packet.Write.Fields.{varint_bytes-length, write_uint16-Writes, write_string-Writes}
use artemisia.Property.Defs.{Property}
use artemisia.Property.Wire.{EncodedAll}
use artemisia.Property.Write.{get_length_all, bytes_of, property_write_all}
use artemisia.Property.Write.Laws.{
  get_length_all-length, property_write_all-Writes, property_write_all-false,
}
use artemisia.Senders.{is_any, unchecked, write_text}

abbrev pub bytes_if : Bool → Bytes → Bytes
bytes_if b bs = if b then bs else []

pub Writes-if :
    (b : Bool) (m : M (Unit {0})) (bs : Bytes)
    → Writes m bs
    → Writes (if b then m else return tt) (bytes_if b bs)
Writes-if true m bs h = h
Writes-if false m bs h = Writes-return

pub Writes-unchecked : (m : M (Unit {0})) (bs : Bytes) → Writes m bs → Writes (unchecked m) bs
Writes-unchecked m bs h p w f = rw (unchecked, h p w f) refl

pub write_text-Writes :
    (t : Option Bytes)
    → length (bytes_of t) < 2 ^ 16
    → Writes (write_text t) (binary_bytes (bytes_of t))
write_text-Writes none h = write_uint16-Writes 0
write_text-Writes (some text) h =
    let same : length text % 2 ^ 16 ≡ length text = omega arith in
    rw same (write_string-Writes text)

-- The list without its length, as it is written behind another one.
pub property_write_all_bare :
    (ps : List Property) (bs : Bytes)
    → EncodedAll ps bs
    → Writes (unchecked (property_write_all ps false)) bs
property_write_all_bare ps bs e =
    Writes-unchecked (property_write_all ps false) bs (property_write_all-false ps bs e)

-- Parts of a body in order, and how long they are together.
abbrev pub chain : Bytes → List Bytes → Bytes
chain bs [] = bs
chain bs (cs ∷ parts) = bs ++ chain cs parts

abbrev pub lengths : Bytes → List Bytes → ℕ
lengths bs [] = length bs
lengths bs (cs ∷ parts) = length bs + lengths cs parts

pub length-chain : (bs : Bytes) (parts : List Bytes) → length (chain bs parts) ≡ lengths bs parts
length-chain bs [] = refl
length-chain bs (cs ∷ parts) =
    omega (arith, length-append bs (chain cs parts), length-chain cs parts)

pub length-bytes_if :
    (b : Bool) (bs : Bytes) → length (bytes_if b bs) ≡ (if b then length bs else 0)
length-bytes_if true bs = refl
length-bytes_if false bs = refl

-- The list behind its length, if there is one.
abbrev pub list_wire : List Property → Bytes → Bytes
list_wire properties props = bytes_if (is_any properties) (varint_encoding (length props) ++ props)

pub list-Writes :
    (properties : List Property) (props : Bytes)
    → EncodedAll properties props
    → length props < varint_limit
    → Writes
        (if is_any properties then property_write_all properties true else return tt)
        (list_wire properties props)
list-Writes properties props e few =
    Writes-if (is_any properties) _ _ (property_write_all-Writes properties props e few)

pub list-length :
    (properties : List Property) (props : Bytes)
    → EncodedAll properties props
    → length props < varint_limit
    → (if is_any properties
        then get_length_all properties + varint_bytes (get_length_all properties)
        else 0)
      ≡ length (list_wire properties props)
list-length properties props e few =
    let same = get_length_all-length properties props e in
    let bytes = varint_bytes-length (length props) few in
    let whole = length-append (varint_encoding (length props)) props in
    elim (Bool-cases (is_any properties)) [
      | inl some_ ↦ rw some_ (omega (arith, same, ap varint_bytes same, bytes, whole))
      | inr none_ ↦ rw none_ refl
    ]

-- A byte by its bits, the highest first.
abbrev pub bits_from : ℕ → List Bool → ℕ
bits_from n [] = n
bits_from n (b ∷ bs) = bits_from (2 * n + (if b then 1 else 0)) bs

abbrev pub of_bits : List Bool → ℕ
of_bits bits = bits_from 0 bits
