-- ===== src/Actions/Subscribe.antt =====
-- `mosquitto_subscribe_multiple` and `mosquitto_unsubscribe_multiple` of actions.c, and the
-- functions that call them for one topic.
pub mod Sent
use Prim.Native.Nat.{bit_or}
use artemisia.Base.{
  ℕ, zero, suc, ◌+◌, ◌/◌, ◌%◌, ◌^◌, Bool, true, false, not, ◌&&◌, ◌||◌, Option, none, some, List,
  [], ◌∷◌, ◌++◌, Bytes, Rc, ℤ, ltb, ◌==◌, if◌then◌else◌, is_failure, length,
}
use artemisia.State.{Protocol, is_mqtt5, is_mqtt31}
use artemisia.Utf8.{validate_utf8}
use artemisia.Topic.{sub_topic_check}
use artemisia.Property.Defs.{Property}
use artemisia.Property.Command
use artemisia.Property.Check.{check_all}
use artemisia.Property.Write.{get_length_all}
use artemisia.Will.{is_refused}
use artemisia.Messages.Defs.{Client}
use artemisia.Outgoing.Defs.{Outgoing}
use artemisia.Senders.{is_any}
use artemisia.Senders.Request.{send_subscribe, send_unsubscribe, topics_length}
use artemisia.Actions.{
  Actor, World, refuse, first_failure, outgoing_properties, is_oversize, valid_qos, set_messages,
  ended,
}

-- The tests of one topic.
abbrev pub topic_tests : Bytes → List Rc
topic_tests sub =
    refuse (is_failure (sub_topic_check (some sub))) Rc.inval
    ∷ refuse (is_refused (validate_utf8 (some (sub ++ (0 ∷ []))) (length sub))) Rc.malformed_utf8
    ∷ []

-- The loop over the topics.
unfoldable pub all_topic_tests : List Bytes → List Rc
all_topic_tests [] = []
all_topic_tests (sub ∷ subs) = topic_tests sub ++ all_topic_tests subs

-- `remaining_length`, behind the loop.
abbrev pub request_estimate : ℕ → List Bytes → List Property → ℕ
request_estimate extra subs outgoing =
    (topics_length extra subs + 2 + get_length_all outgoing) % 2 ^ 32

-- `(options & 0x30) == 0x30 || (options & 0xC0) != 0`.
abbrev pub bad_options : ℕ → Bool
bad_options options = options / 16 % 4 == 3 || not (options / 64 % 4 == 0)

abbrev pub request_tests : Actor → ℕ → ℕ → List Bytes → List Property → List Rc
request_tests a command extra subs properties =
    let outgoing = outgoing_properties properties in
    check_all command outgoing
    ∷ (all_topic_tests subs
        ++ (refuse (is_oversize a.maximum_packet_size (request_estimate extra subs outgoing))
              Rc.oversize_packet
            ∷ []))

abbrev pub subscribe_tests : Actor → List Bytes → ℤ → ℕ → List Property → List Rc
subscribe_tests a subs qos options properties =
    refuse (length subs == 0) Rc.inval
    ∷ refuse (not (is_mqtt5 a.protocol) && is_any properties) Rc.not_supported
    ∷ (elim (valid_qos qos) [ none ↦ Rc.inval | some n ↦ Rc.success ])
    ∷ refuse (bad_options options) Rc.inval
    ∷ refuse (not a.out.has_socket) Rc.no_conn
    ∷ request_tests a Command.subscribe 1 subs properties

unfoldable pub subscribe_checks : Actor → List Bytes → ℤ → ℕ → List Property → Rc
subscribe_checks a subs qos options properties =
    first_failure (subscribe_tests a subs qos options properties)

-- `options = 0` for the versions before MQTT 5.
abbrev pub kept_options : Protocol → ℕ → ℕ
kept_options Protocol.mqtt311 options = 0
kept_options Protocol.mqtt31 options = 0
kept_options protocol options = options

-- What the sender leaves of the client.
abbrev pub requested : Actor → Option (Outgoing × Rc) × Client → Option (Actor × Rc)
requested a (result, c) = ended (set_messages c a) result

abbrev pub subscribe_at :
    World → List Bytes → Option ℕ → ℕ → List Property → Actor → Option (Actor × Rc)
subscribe_at world subs none options properties a = some (a, Rc.inval)
subscribe_at world subs (some qos) options properties a = requested a (
    send_subscribe a.protocol subs (bit_or qos (kept_options a.protocol options))
      (outgoing_properties properties) (world.mem 0) (world.mem 1) world.now world.replies a.out
      a.messages)

pub subscribe_multiple : World → List Bytes → ℤ → ℕ → List Property → Actor → Option (Actor × Rc)
subscribe_multiple world subs qos options properties a =
    let rc = subscribe_checks a subs qos options properties in
    if is_failure rc
    then some (a, rc)
    else subscribe_at world subs (valid_qos qos) options properties a

pub subscribe : World → Bytes → ℤ → Actor → Option (Actor × Rc)
subscribe world sub qos a = subscribe_multiple world (sub ∷ []) qos 0 [] a

pub subscribe_v5 : World → Bytes → ℤ → ℕ → List Property → Actor → Option (Actor × Rc)
subscribe_v5 world sub qos options properties a =
    subscribe_multiple world (sub ∷ []) qos options properties a

-- The number of topics is not tested here.
abbrev pub unsubscribe_tests : Actor → List Bytes → List Property → List Rc
unsubscribe_tests a subs properties =
    refuse (not (is_mqtt5 a.protocol) && is_any properties) Rc.not_supported
    ∷ refuse (not a.out.has_socket) Rc.no_conn
    ∷ request_tests a Command.unsubscribe 0 subs properties

pub unsubscribe_checks : Actor → List Bytes → List Property → Rc
unsubscribe_checks a subs properties = first_failure (unsubscribe_tests a subs properties)

pub unsubscribe_multiple : World → List Bytes → List Property → Actor → Option (Actor × Rc)
unsubscribe_multiple world subs properties a =
    let rc = unsubscribe_checks a subs properties in
    if is_failure rc
    then some (a, rc)
    else requested a (
        send_unsubscribe a.protocol subs (outgoing_properties properties) (world.mem 0)
          (world.mem 1) world.now world.replies a.out a.messages)

pub unsubscribe : World → Bytes → Actor → Option (Actor × Rc)
unsubscribe world sub a = unsubscribe_multiple world (sub ∷ []) [] a

pub unsubscribe_v5 : World → Bytes → List Property → Actor → Option (Actor × Rc)
unsubscribe_v5 world sub properties a = unsubscribe_multiple world (sub ∷ []) properties a
