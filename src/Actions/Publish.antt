-- ===== src/Actions/Publish.antt =====
-- `mosquitto_publish_v5` of actions.c.
pub mod Checked
pub mod Sent
use artemisia.Base.{
  ℕ, zero, suc, ◌+◌, ◌%◌, ◌^◌, Bool, true, false, not, ◌&&◌, Option, none, some, List, [], ◌∷◌,
  ◌++◌, Bytes, Rc, ℤ, pos, negsuc, ltb, if◌then◌else◌, is_failure, length, take,
}
use artemisia.State.{is_mqtt5}
use artemisia.Utf8.{Check, validate_utf8}
use artemisia.Topic.{pub_topic_check}
use artemisia.Property.Defs.{Property}
use artemisia.Property.Command
use artemisia.Property.Check.{check_all}
use artemisia.Property.Copy.{Copied, copied, failed, fault, copy_all}
use artemisia.Property.Write.{bytes_of, get_length_all}
use artemisia.Will.{is_outside, is_refused}
use artemisia.Messages.Defs.{Message, MsgState, Direction, md_out}
use artemisia.Messages.{mid_generate, message_queue}
use artemisia.Senders.{is_any}
use artemisia.Senders.Publish.{Args, send_publish}
use artemisia.Actions.{
  Actor, World, refuse, first_failure, outgoing_properties, has_topic_alias, is_oversize, valid_qos,
  to_uint32, set_messages, ended,
}

-- The arguments. The payload is the memory behind the pointer.
pub record Publication : Type 0 where
  pub topic : Option Bytes
  pub payloadlen : ℤ
  pub payload : Bytes
  pub qos : ℤ
  pub retain : Bool
  pub properties : List Property

-- `if(topic) topic = NULL;` for an empty one.
abbrev pub given_topic : Option Bytes → Option Bytes
given_topic none = none
given_topic (some []) = none
given_topic (some (b ∷ text)) = some (b ∷ text)

abbrev pub named_tests : Bytes → ℤ → List Rc
named_tests topic payloadlen =
    refuse (is_refused (validate_utf8 (some (topic ++ (0 ∷ []))) (length topic))) Rc.malformed_utf8
    ∷ refuse (is_outside payloadlen) Rc.payload_size
    ∷ refuse (is_failure (pub_topic_check (some topic))) Rc.inval
    ∷ []

unfoldable pub named_checks : Bytes → ℤ → Rc
named_checks topic payloadlen = first_failure (named_tests topic payloadlen)

-- Without a topic, MQTT 5 asks for an alias. The length of the payload is not looked at then.
abbrev pub topic_checks : Bool → List Property → Option Bytes → ℤ → Rc
topic_checks mqtt5 outgoing none payloadlen =
    refuse (not (mqtt5 && has_topic_alias outgoing)) Rc.inval
topic_checks mqtt5 outgoing (some topic) payloadlen = named_checks topic payloadlen

-- The length that is held against the maximum: one byte of two of the identifier is counted.
abbrev pub estimated_length : Publication → ℕ → ℕ
estimated_length r qos =
    (1
      + 2
      + length (bytes_of (given_topic r.topic))
      + to_uint32 r.payloadlen
      + get_length_all (outgoing_properties r.properties)
      + (if ltb 0 qos then 1 else 0))
    % 2 ^ 32

-- Everything that is tested before an identifier is taken, behind the range of `qos`.
abbrev pub publish_tests : Actor → Publication → ℕ → List Rc
publish_tests a r qos =
    let mqtt5 = is_mqtt5 a.protocol in
    let outgoing = outgoing_properties r.properties in
    refuse (not mqtt5 && is_any r.properties) Rc.not_supported
    ∷ refuse (ltb a.maximum_qos qos) Rc.qos_not_supported
    ∷ check_all Command.publish outgoing
    ∷ topic_checks mqtt5 outgoing (given_topic r.topic) r.payloadlen
    ∷ refuse (is_oversize a.maximum_packet_size (estimated_length r qos)) Rc.oversize_packet
    ∷ []

unfoldable pub publish_checks : Actor → Publication → ℕ → Rc
publish_checks a r qos = first_failure (publish_tests a r qos)

abbrev pub publish_args : Publication → ℕ → ℕ → Args
publish_args r mid qos = record {
  mid = mid;
  topic = given_topic r.topic;
  payloadlen = to_uint32 r.payloadlen;
  payload = r.payload;
  qos = qos;
  retain = r.retain;
  dup = false;
  cmsg_props = outgoing_properties r.properties;
  store_props = [];
  expiry_interval = 0;
}

-- QoS 0 is sent at once.
pub send_now : World → Publication → ℕ → Actor → Option (Actor × Rc)
send_now world r mid a = ended a (
    send_publish a.protocol a.maximum_packet_size (publish_args r mid 0) (world.mem 0) (world.mem 1)
      world.now world.replies a.out)

-- The allocations of the message: itself, its topic, and its payload. Malloc has no block for a
-- length below zero, which comes to it as one of almost 2 ^ 64.
abbrev pub has_topic_memory : World → Option Bytes → Bool
has_topic_memory world none = true
has_topic_memory world (some topic) = world.mem 1

abbrev pub has_payload_memory : World → ℤ → Bool
has_payload_memory world (pos zero) = true
has_payload_memory world (pos (suc n)) = world.mem 2
has_payload_memory world (negsuc n) = false

abbrev pub has_memory : World → Publication → Bool
has_memory world r =
    world.mem 0
    && has_topic_memory world (given_topic r.topic)
    && has_payload_memory world r.payloadlen

abbrev pub copied_bytes : ℤ → Bytes → Bytes
copied_bytes (pos n) payload = take n payload
copied_bytes (negsuc n) payload = []

abbrev pub queued_message : World → Publication → ℕ → ℕ → List Property → Message
queued_message world r mid qos properties = record {
  mid = mid;
  topic = bytes_of (given_topic r.topic);
  payload = copied_bytes r.payloadlen r.payload;
  qos = qos;
  retain = r.retain;
  properties = properties;
  timestamp = world.now;
  state = MsgState.invalid;
  dup = false;
  expiry_interval = 0;
}

-- The message with its copied properties goes into the queue.
pub queue_copied : World → Publication → ℕ → ℕ → List Property → Actor → Actor × Rc
queue_copied world r mid qos properties a =
    let m = queued_message world r mid qos properties in
    let (c, rc, sent) = message_queue world.send m md_out a.messages in
    if has_memory world r then (set_messages c a, rc) else (a, Rc.nomem)

abbrev pub queue_copy :
    World → Publication → ℕ → ℕ → Actor → Copied (List Property) → Option (Actor × Rc)
queue_copy world r mid qos a (copied properties) = some (queue_copied world r mid qos properties a)
queue_copy world r mid qos a (failed rc) = some (a, rc)
queue_copy world r mid qos a fault = none

pub queue_publication : World → Publication → ℕ → ℕ → Actor → Option (Actor × Rc)
queue_publication world r mid qos a =
    queue_copy world r mid qos a (copy_all world.property_mem [] (outgoing_properties r.properties))

-- `*mid` is the `last_mid` of the client behind the call.
abbrev pub publish_checked : World → Publication → ℕ → Actor → Option (Actor × Rc)
publish_checked world r zero a =
    let (mid, c) = mid_generate a.messages in send_now world r mid (set_messages c a)
publish_checked world r (suc qos) a =
    let (mid, c) = mid_generate a.messages in
    queue_publication world r mid (suc qos) (set_messages c a)

-- Behind the range of `qos`.
abbrev pub publish_at : World → Publication → Option ℕ → Actor → Option (Actor × Rc)
publish_at world r none a = some (a, Rc.inval)
publish_at world r (some qos) a =
    let rc = publish_checks a r qos in
    if is_failure rc then some (a, rc) else publish_checked world r qos a

pub publish_v5 : World → Publication → Actor → Option (Actor × Rc)
publish_v5 world r a = publish_at world r (valid_qos r.qos) a
