-- ===== src/Options/Given.antt =====
-- What a client has for a name and a password behind `mosquitto_username_pw_set`.
use artemisia.Base.{
  [], ◌∷◌, ◌++◌, length, ◌≡◌, ◌⊎◌, Bool, true, false, ◌&&◌, Option, none, some, Bytes, Rc,
}
use artemisia.State.{Protocol}
use artemisia.Utf8.{Check, code, validate_utf8}
use artemisia.Options.{Credentials}

-- The check of a name answers this.
abbrev pub is_text : Bytes → Check
is_text name = validate_utf8 (some (name ++ (0 ∷ []))) (length name)

-- A name that is given is valid UTF-8.
abbrev pub IsGood : Option Bytes → Type 0
IsGood none = Unit {0}
IsGood (some name) = is_text name ≡ code Rc.success

-- A password without a name, before MQTT 5.
abbrev pub IsAlone : Protocol → Option Bytes → Option Bytes → Type 0
IsAlone protocol username password =
    ((protocol ≡ Protocol.mqtt31) ⊎ (protocol ≡ Protocol.mqtt311))
    × ((username ≡ none) × ((text : Bytes) × (password ≡ some text)))

-- There is memory for a copy of what is given.
abbrev pub has_copy : Bool → Option Bytes → Bool
has_copy mem none = true
has_copy mem (some text) = mem

-- The name and the password are as they were, as they were given, or both gone, by the memory for
-- the two copies.
pub data Setting (mem1 mem2 : Bool) (username password : Option Bytes) (c : Credentials)
    : Credentials × Rc → Type 0 where
  kept : IsAlone c.protocol username password → Setting mem1 mem2 username password c (c, Rc.inval)
  given :
      (IsAlone c.protocol username password → ⊥)
      → IsGood username
      → has_copy mem1 username ≡ true
      → has_copy mem2 password ≡ true
      → Setting mem1 mem2 username password c
          (record c { username = username; password = password }, Rc.success)
  malformed :
      (text : Bytes)
      → username ≡ some text
      → (is_text text ≡ code Rc.success → ⊥)
      → Setting mem1 mem2 username password c
          (record c { username = none; password = none }, Rc.malformed_utf8)
  short :
      IsGood username
      → (has_copy mem1 username && has_copy mem2 password) ≡ false
      → Setting mem1 mem2 username password c
          (record c { username = none; password = none }, Rc.nomem)

module _ (c : Credentials) where
  abbrev empty : Credentials
  empty = record c { username = none; password = none }
