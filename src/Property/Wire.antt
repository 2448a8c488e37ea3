-- ===== src/Property/Wire.antt =====
-- Properties as MQTT 5 puts them on the wire, and those that a client may send.
use artemisia.Base.{ℕ, ◌<◌, ◌^◌, ◌≡◌, false, some, List, [], ◌∷◌, ◌++◌}
use artemisia.Base.{Bytes, Rc, length}
use artemisia.Packet.Encode.{
  uint16_bytes, uint32_bytes, binary_bytes, varint_encoding, varint_limit,
}
use artemisia.Utf8.{code, validate_utf8}
use artemisia.Property.Defs.{
  Str, null_str, Value, i8, i16, i32, varint, bin, s, Property, PropType, prop_type,
}

-- A string of at most 65535 bytes, kept as a null pointer when it is empty.
abbrev pub IsBinary : Str → Bytes → Type 0
IsBinary t [] = t ≡ null_str
IsBinary t (b ∷ bs) =
    (t ≡ record { v = some (b ∷ bs); len = length (b ∷ bs) }) × (length (b ∷ bs) < 2 ^ 16)

-- The same, where `mosquitto_validate_utf8` accepts the text.
abbrev pub IsString : Str → Bytes → Type 0
IsString t bs =
    IsBinary t bs × (validate_utf8 (some (bs ++ (0 ∷ []))) (length bs) ≡ code Rc.success)

-- `IsWire p bs`: the property `p` is complete, and `bs` is its value on the wire, by type.
pub data IsWire : PropType → Value → Str → Bytes → Type 0 where
  byte : (b : ℕ) → b < 256 → IsWire PropType.byte (i8 b) null_str (b ∷ [])
  int16 : (w : ℕ) → w < 2 ^ 16 → IsWire PropType.int16 (i16 w) null_str (uint16_bytes w)
  int32 : (w : ℕ) → w < 2 ^ 32 → IsWire PropType.int32 (i32 w) null_str (uint32_bytes w)
  varint_int :
      (w : ℕ)
      → w < varint_limit
      → IsWire PropType.varint_int (varint w) null_str (varint_encoding w)
  binary :
      (t : Str) (bs : Bytes)
      → IsBinary t bs
      → IsWire PropType.binary (bin t) null_str (binary_bytes bs)
  string :
      (t : Str) (bs : Bytes)
      → IsString t bs
      → IsWire PropType.string (s t) null_str (binary_bytes bs)
  string_pair :
      (name t : Str) (ns bs : Bytes)
      → IsString name ns
      → IsString t bs
      → IsWire PropType.string_pair (s t) name (binary_bytes ns ++ binary_bytes bs)

-- A property with an identifier of the protocol, as it stands on the wire.
pub record Encoded (p : Property) (bs : Bytes) : Type 0 where
  pub type : PropType
  pub known : prop_type p.identifier ≡ some type
  pub body : Bytes
  pub wire : IsWire type p.value p.name body
  pub whole : bs ≡ p.identifier ∷ body

pub data EncodedAll : List Property → Bytes → Type 0 where
  end : EncodedAll [] []
  next :
      (p : Property) (ps : List Property) (bs cs : Bytes)
      → Encoded p bs
      → EncodedAll ps cs
      → EncodedAll (p ∷ ps) (bs ++ cs)

-- A property as its receiver has it.
abbrev pub from_wire : Property → Property
from_wire p = record p { client_generated = false }
