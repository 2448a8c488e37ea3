-- ===== src/Actions/Publish/Checked.antt =====
-- What a publication is that `mosquitto_publish_v5` does not refuse.
use artemisia.Base.{
  ℕ, ◌≤◌, ◌≡◌, refl, Bool, true, false, not, ◌&&◌, Option, none, some, List, [], ◌∷◌, ◌++◌, Bytes,
  Rc, ℤ, length,
}
use artemisia.State.{is_mqtt5}
use artemisia.Utf8.{Check, code, overrun, stuck, validate_utf8}
use artemisia.Topic.Levels.{is_plain}
use artemisia.Property.Command
use artemisia.Property.Defs.{Property}
use artemisia.Property.Check.{check_all}
use artemisia.Will.{is_outside, is_refused}
use artemisia.Senders.{is_any}
use artemisia.Actions.{Actor, outgoing_properties, has_topic_alias, is_oversize}
use artemisia.Actions.Publish.{Publication, given_topic, estimated_length}

-- A topic that may be published to, with a payload that MQTT has room for.
pub record IsNamed (topic : Bytes) (payloadlen : ℤ) : Type 0 where
  pub plain : is_plain topic ≡ true
  pub short : length topic ≤ 65535
  pub valid : validate_utf8 (some (topic ++ (0 ∷ []))) (length topic) ≡ code Rc.success
  pub fits : is_outside payloadlen ≡ false

-- A topic, or an alias for one.
pub data IsAddressed (mqtt5 : Bool) (outgoing : List Property) (payloadlen : ℤ)
    : Option Bytes → Type 0 where
  named :
      (topic : Bytes)
      → IsNamed topic payloadlen
      → IsAddressed mqtt5 outgoing payloadlen (some topic)
  aliased : (mqtt5 && has_topic_alias outgoing) ≡ true → IsAddressed mqtt5 outgoing payloadlen none

pub record IsAccepted (a : Actor) (r : Publication) (qos : ℕ) : Type 0 where
  pub version : (not (is_mqtt5 a.protocol) && is_any r.properties) ≡ false
  pub level : qos ≤ a.maximum_qos
  pub listed : check_all Command.publish (outgoing_properties r.properties) ≡ Rc.success
  pub addressed :
      IsAddressed
        (is_mqtt5 a.protocol)
        (outgoing_properties r.properties)
        r.payloadlen
        (given_topic r.topic)
  pub room : is_oversize a.maximum_packet_size (estimated_length r qos) ≡ false

pub is_refused-success : (c : Check) → is_refused c ≡ false → c ≡ code Rc.success
is_refused-success (code Rc.success) h = refl
is_refused-success (code _) h = cc
is_refused-success overrun h = cc
is_refused-success stuck h = cc
