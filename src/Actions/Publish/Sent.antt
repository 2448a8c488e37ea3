-- ===== src/Actions/Publish/Sent.antt =====
-- What becomes of a publication that is not refused.
use artemisia.Base.{
  ℕ, zero, suc, ◌^◌, ◌≤◌, ◌<◌, ◌≡◌, refl, ap, ◌∙◌, arith, true, false, ◌∷◌, All, take-length,
  Option, none, some, List, [], ◌++◌, Bytes, Rc, ℤ, length, is_failure, if-true, if-false, ltb, inl,
  inr,
}
use artemisia.State.{is_mqtt5}
use artemisia.Packet.Encode.{varint_limit}
use artemisia.Property.Defs.{Property}
use artemisia.Property.Copy.{copied, copy_all}
use artemisia.Property.Write.{bytes_of}
use artemisia.Messages.Defs.{Message, Client, MsgState}
use artemisia.Messages.Release.{HasQos}
use artemisia.Messages.Starts.{Starts, release_loop-Starts}
use artemisia.Messages.{mid_generate, message_queue, release_to_inflight}
use artemisia.Messages.Queue.{IsQueue, Queued, message_queue_lem}
use artemisia.Messages.Defs.{md_out}
use artemisia.Outgoing.Defs.{Outgoing}
use artemisia.Outgoing.{check_oversize}
use artemisia.Outgoing.Stream.{pending, IsStream}
use artemisia.Senders.Puts.{Puts}
use artemisia.Senders.Publish.{Args}
use artemisia.Senders.Publish.Wire.{Listed, listed_bytes, publish_wire}
use artemisia.Actions.{Actor, World, outgoing_properties, valid_qos, set_out, set_messages, ended}
use artemisia.Actions.Publish.{
  Publication, given_topic, copied_bytes, publish_checks, queued_message, queue_copied,
  queue_publication, publish_checked, publish_at, publish_v5, has_memory, queue_copy,
}

-- The call ends, puts these bytes behind all that is sent and that waits, and leaves the queues of
-- messages like this.
abbrev pub Sends : Option (Actor × Rc) → Actor → Bytes → Client → Type 0
Sends result a bs c =
    (a' : Actor) × (rc : Rc) × (result ≡ some (a', rc))
    × (a'.out.wire ++ pending a'.out ≡ (a.out.wire ++ pending a.out) ++ bs)
    × IsStream a'.out
    × (a'.messages ≡ c)

pub Puts-Sends :
    (result : Option (Outgoing × Rc)) (a : Actor) (bs : Bytes) (c : Client)
    → Puts result a.out bs
    → Sends (ended (set_messages c a) result) a bs c
Puts-Sends result a bs c (o', rc, e, stream, kept) =
    (set_out o' (set_messages c a), rc, rw e refl, stream, kept, refl)

pub Sends-by :
    (result result' : Option (Actor × Rc)) (a : Actor) (bs : Bytes) (c : Client)
    → result ≡ result'
    → Sends result' a bs c
    → Sends result a bs c
Sends-by result result' a bs c e (a', rc, e', stream, kept, same) =
    (a', rc, e ∙ e', stream, kept, same)

-- Behind the checks.
publish_v5-checked :
    (world : World) (r : Publication) (a : Actor) (qos : ℕ)
    → valid_qos r.qos ≡ some qos
    → publish_checks a r qos ≡ Rc.success
    → publish_v5 world r a ≡ publish_checked world r qos a
unfolding publish_v5
publish_v5-checked world r a qos known checks =
    ap (λ q. publish_at world r q a) known
    ∙ if-false (is_failure (publish_checks a r qos)) _ _ (ap is_failure checks)

-- A publication of QoS 0 whose length is that of its payload, and which fits a packet that the
-- server takes.
pub record IsSmall (a : Actor) (r : Publication) (args : Args) (l : Listed args) : Type 0 where
  pub payload : r.payloadlen ≡ ℤ.pos (length r.payload)
  pub fits : length (publish_wire (is_mqtt5 a.protocol) args l) < varint_limit
  pub few : length (listed_bytes l) < varint_limit
  pub little : length r.payload < 2 ^ 32
  pub room :
      check_oversize a.maximum_packet_size (length (publish_wire (is_mqtt5 a.protocol) args l))
      ≡ Rc.success

valid_qos-HasQos : (qos : ℕ) (m : Message) → m.qos ≡ suc qos → suc qos ≤ 2 → HasQos m
valid_qos-HasQos zero m e h = inl e
valid_qos-HasQos (suc zero) m e h = inr e
valid_qos-HasQos (suc (suc qos)) m e h = absurd (omega arith)

message_queue-last_mid :
    (send : Message → Rc) (m : Message) (c : Client)
    → (message_queue send m md_out c).0.last_mid ≡ c.last_mid
unfolding message_queue release_to_inflight
message_queue-last_mid send m c = refl

-- The message that a publication is, with an identifier, its QoS and its properties.
abbrev pub message_of : Publication → ℕ → ℕ → List Property → ℕ → Message
message_of r mid qos properties now = record {
  mid = mid;
  topic = bytes_of r.topic;
  payload = r.payload;
  qos = qos;
  retain = r.retain;
  properties = properties;
  timestamp = now;
  state = MsgState.invalid;
  dup = false;
  expiry_interval = 0;
}

given_topic-bytes_of : (topic : Option Bytes) → bytes_of (given_topic topic) ≡ bytes_of topic
given_topic-bytes_of none = refl
given_topic-bytes_of (some []) = refl
given_topic-bytes_of (some (b ∷ text)) = refl

queued_message-message_of :
    (world : World) (r : Publication) (mid qos : ℕ) (properties : List Property)
    → r.payloadlen ≡ ℤ.pos (length r.payload)
    → queued_message world r mid qos properties ≡ message_of r mid qos properties world.now
queued_message-message_of world r mid qos properties whole =
    let m = message_of r mid qos properties world.now in
    ap (λ t. record m { topic = t; payload = copied_bytes r.payloadlen r.payload })
      (given_topic-bytes_of r.topic)
    ∙ ap (λ p. record m { payload = p })
        (ap (λ n. copied_bytes n r.payload) whole ∙ take-length r.payload)

All-last :
    (ms : List Message) (m : Message) → All HasQos ms → HasQos m → All HasQos (ms ++ (m ∷ []))
All-last [] m h hm = (hm, tt)
All-last (x ∷ ms) m (hx, h) hm = (hx, All-last ms m h hm)

message_queue-Starts :
    (send : Message → Rc) (m : Message) (c : Client)
    → HasQos m
    → All HasQos c.msgs_out.inflight
    → Starts
        (c.msgs_out.inflight ++ (m ∷ []))
        (message_queue send m md_out c).0.msgs_out.inflight
        (message_queue send m md_out c).2
unfolding message_queue release_to_inflight
message_queue-Starts send m c hm hs =
    release_loop-Starts send (c.msgs_out.inflight ++ (m ∷ [])) c.msgs_out.inflight_quota
      (All-last c.msgs_out.inflight m hs hm)

-- The properties that go on: those that the client made, or the first of others.
pub data GoesOn : List Property → List Property → Type 0 where
  none_given : GoesOn [] []
  generated :
      (p : Property) (ps : List Property) → p.client_generated ≡ true → GoesOn (p ∷ ps) (p ∷ ps)
  first_only :
      (p : Property) (ps : List Property)
      → p.client_generated ≡ false
      → GoesOn (p ∷ ps) (record p { client_generated = true } ∷ [])

outgoing_properties-GoesOn : (ps qs : List Property) → GoesOn ps qs → outgoing_properties ps ≡ qs
outgoing_properties-GoesOn ps qs GoesOn.none_given = refl
outgoing_properties-GoesOn ps qs (GoesOn.generated p rest own) = if-true p.client_generated _ _ own
outgoing_properties-GoesOn ps qs (GoesOn.first_only p rest foreign) =
    if-false p.client_generated _ _ foreign

-- A publication of QoS 1 or 2 whose length is that of its payload, and that `mosquitto_publish_v5`
-- does not refuse, takes the next identifier and is put last in the queue of messages that go out:
-- one unsent message with its topic, its payload, its QoS, its RETAIN and a copy of its properties, of
-- which only the first goes on if the client did not make them. The
-- other messages keep their order and their contents; those that are sent then wait for the answer
-- to their QoS. The places of the queue stay accounted for, and no place is left or no message waits
-- unless sending fails, whose code is returned then. This is so with memory and properties that can
-- be copied.
pub publish_v5-Queued :
    (world : World) (r : Publication) (a : Actor) (qos : ℕ) (given properties : List Property)
    → r.qos ≡ ℤ.pos (suc qos)
    → suc qos ≤ 2
    → r.payloadlen ≡ ℤ.pos (length r.payload)
    → publish_checks a r (suc qos) ≡ Rc.success
    → GoesOn r.properties given
    → copy_all world.property_mem [] given ≡ copied properties
    → has_memory world r ≡ true
    → IsQueue a.messages.msgs_out
    → (let (mid, c0) = mid_generate a.messages in
        let m = message_of r mid (suc qos) properties world.now in
        (c : Client) × (rc : Rc) × (sent : List Message) × (publish_v5 world r a
          ≡ some (set_messages c a, rc))
        × Starts (a.messages.msgs_out.inflight ++ (m ∷ [])) c.msgs_out.inflight sent
        × Queued m a.messages.msgs_out c.msgs_out rc
        × (c.last_mid ≡ mid))
unfolding queue_publication queue_copied mid_generate
publish_v5-Queued world r a qos given properties level small whole checks on copy memory queue =
    let (mid, c0) = mid_generate a.messages in
    let m = message_of r mid (suc qos) properties world.now in
    let same = queued_message-message_of world r mid (suc qos) properties whole in
    let known : valid_qos r.qos ≡ some (suc qos) =
      ap valid_qos level ∙ if-false (ltb 2 (suc qos)) none (some (suc qos)) (ground arith) in
    let has = valid_qos-HasQos qos m refl small in
    let q = message_queue world.send m md_out c0 in
    (
      q.0,
      q.1,
      q.2,
      publish_v5-checked world r a (suc qos) known checks
          ∙ ap (queue_copy world r mid (suc qos) (set_messages c0 a)) (
              ap (copy_all world.property_mem []) (outgoing_properties-GoesOn r.properties given on)
              ∙ copy)
          ∙ ap some (if-true (has_memory world r) _ _ memory)
          ∙ ap
              (λ x. some (
                set_messages (message_queue world.send x md_out c0).0 a,
                (message_queue world.send x md_out c0).1,
              ))
              same,
      message_queue-Starts world.send m c0 has queue.qos,
      message_queue_lem world.send m c0 has refl queue,
      message_queue-last_mid world.send m c0,
    )
