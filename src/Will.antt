-- ===== src/Will.antt =====
-- The will of a client: `will__set` and `will__clear` of will_mosq.c.
pub mod Laws
mod Tests
use artemisia.Base.{
  ℕ, ◌-◌, Bool, true, false, not, ◌&&◌, ◌||◌, Option, none, some, List, [], ◌∷◌, ◌++◌, Bytes, Rc, ℤ,
  pos, negsuc, is_positive, ltb, if◌then◌else◌, length, take, is_failure,
}
use artemisia.State.{Protocol, is_mqtt5}
use artemisia.Utf8.{Check, code, overrun, stuck, validate_utf8}
use artemisia.Topic.{pub_topic_check}
use artemisia.Property.Defs.{Property}
use artemisia.Property.Command
use artemisia.Property.Check.{check_command}

-- The fields of `struct mosquitto_message_all` that a will has.
pub record Will : Type 0 where
  pub topic : Bytes
  pub payload : Bytes
  pub qos : ℕ
  pub retain : Bool
  pub properties : List Property

pub record Client : Type 0 where
  pub protocol : Protocol
  pub will : Option Will
  pub will_delay_interval : ℕ

-- The arguments of `will__set`; `none` is a null pointer.
pub record Args : Type 0 where
  pub topic : Option Bytes
  pub payloadlen : ℤ
  pub payload : Option Bytes
  pub qos : ℕ
  pub retain : Bool
  pub properties : List Property

abbrev pub is_null : Option Bytes → Bool
is_null none = true
is_null (some text) = false

-- `payloadlen < 0 || payloadlen > MQTT_MAX_PAYLOAD`.
abbrev pub is_outside : ℤ → Bool
is_outside (pos n) = ltb 268435455 n
is_outside (negsuc n) = true

abbrev pub is_refused : Check → Bool
is_refused (code Rc.success) = false
is_refused c = true

-- The loop over the properties.
pub will_loop : List Property → Rc
will_loop [] = Rc.success
will_loop (p ∷ properties) =
    let rest = will_loop properties in
    let rc = check_command Command.will p.identifier in if is_failure rc then rc else rest

abbrev pub check_properties : Protocol → List Property → Rc
check_properties protocol [] = Rc.success
check_properties protocol (p ∷ properties) =
    if not (is_mqtt5 protocol) then Rc.not_supported else will_loop (p ∷ properties)

-- The tests of a topic that is no null pointer.
pub check_topic : Bytes → Rc
check_topic topic =
    if is_failure (pub_topic_check (some topic))
    then Rc.inval
    else if is_refused (validate_utf8 (some (topic ++ (0 ∷ []))) (length topic))
    then Rc.malformed_utf8
    else Rc.success

-- The tests behind that of a null pointer.
pub check_given : Protocol → Args → Bytes → Rc
check_given protocol a topic =
    if is_outside a.payloadlen
    then Rc.payload_size
    else if is_positive a.payloadlen && is_null a.payload
    then Rc.inval
    else if is_failure (check_topic topic)
    then check_topic topic
    else check_properties protocol a.properties

-- Everything that is tested before the old will is given up.
pub check_args : Protocol → Args → Rc
check_args protocol a = elim (a.topic) [
  | none ↦ Rc.inval
  | some topic ↦ check_given protocol a topic
]

abbrev pub bytes_of : Option Bytes → Bytes
bytes_of none = []
bytes_of (some bs) = bs

-- `payloadlen` bytes of the payload.
abbrev pub copied_payload : ℤ → Option Bytes → Bytes
copied_payload (pos n) payload = take n (bytes_of payload)
copied_payload (negsuc n) payload = []

abbrev pub new_will : Args → Will
new_will a = record {
  topic = bytes_of a.topic;
  payload = copied_payload a.payloadlen a.payload;
  qos = a.qos;
  retain = a.retain;
  properties = a.properties;
}

-- `mem1`, `mem2` and `mem3` are the answers of calloc, strdup and malloc.
pub will_set : Bool → Bool → Bool → Args → Client → Client × Rc
will_set mem1 mem2 mem3 a c =
    if is_failure (check_args c.protocol a)
    then (c, check_args c.protocol a)
    else if mem1 && mem2 && (not (is_positive a.payloadlen) || mem3)
    then (record c { will = some (new_will a) }, Rc.success)
    else (record c { will = none }, Rc.nomem)

pub will_clear : Client → Client × Rc
will_clear c = elim (c.will) [
  | none ↦ (c, Rc.success)
  | some w ↦ (record c { will = none; will_delay_interval = 0 }, Rc.success)
]
