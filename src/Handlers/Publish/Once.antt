-- ===== src/Handlers/Publish/Once.antt =====
-- A message of QoS 2 is passed on once.
use artemisia.Base.{ℕ, ◌^◌, ◌<◌, ◌≡◌, ◌≢◌, refl, sym, ap, ◌∙◌, inl, inr, true, false, Bool-cases}
use artemisia.Base.{List, [], ◌∷◌, ◌++◌, Bytes, Rc, ltb, All}
use mathlib.Core.List.{append-nil, append_assoc}
use mathlib.Core.Path.{subst}
use artemisia.State.{is_active, is_mqtt5}
use artemisia.Packet.Defs.{Packet, advance}
use artemisia.Packet.Encode.{uint16_bytes, binary_bytes}
use artemisia.Property.Command
use artemisia.Messages.Defs.{Message, MsgData}
use artemisia.Messages.{increment_quota, remove_loop}
use artemisia.Handlers.Defs.{Event, Session, Env, next}
use artemisia.Handlers.Publish.{handle_publish, handle_pubrel, release_message}
use artemisia.Handlers.Publish.Steps.{
  Brings, PublishOf, waiting, handle_publish_lem, read_mid_lem, log_more, set_in, charged,
}
use artemisia.Handlers.Publish.Release.{
  IsPubrel, with_packet, handle_pubrel_step, release_message-found, release_message-absent,
  remove_loop-absent, remove_loop-behind,
}

-- What a PUBREL does: how the handler ends, what it tells the outside, and what is left of the
-- queue.
pub record Released (env : Env) (s : Session) (es : List Event) (ms : List Message) (s' : Session)
    : Type 0 where
  pub ends : handle_pubrel env s ≡ next Rc.success s'
  pub told : s'.events ≡ s.events ++ es
  pub left : s'.messages.msgs_in.inflight ≡ ms
  pub same : (s'.state ≡ s.state) × (s'.protocol ≡ s.protocol)

abbrev pub answered : ℕ → Event
answered mid = Event.sent Command.pubcomp mid 0

abbrev pub after_pubcomp : ℕ → Session → Session
after_pubcomp mid s =
    log_more (answered mid ∷ [])
      (set_in (increment_quota s.messages.msgs_in) (with_packet (advance 2 s.in_packet) s))

increment_quota-inflight : (d : MsgData) → (increment_quota d).inflight ≡ d.inflight
unfolding increment_quota
increment_quota-inflight d = elim (Bool-cases (ltb d.inflight_quota d.inflight_maximum)) [
  | inl room ↦ rw room
  | inr full ↦ rw full
]

handle_pubrel_lem :
    (env : Env) (mid : ℕ) (s : Session)
    → IsPubrel mid s.in_packet
    → 0 < mid
    → mid < 2 ^ 16
    → is_active s.state ≡ true
    → is_mqtt5 s.protocol ≡ false
    → env.answer Command.pubcomp mid ≡ Rc.success
    → handle_pubrel env s ≡ release_message mid Rc.success (after_pubcomp mid s)
handle_pubrel_lem env mid s p h k active version answer =
    handle_pubrel_step env mid s (advance 2 s.in_packet) p.flags active version answer
      (read_mid_lem mid [] s h k p.readable (p.rest ∙ sym (append-nil (uint16_bytes mid))))

-- A PUBREL for a message that is first of its identifier in the queue, and for one that is not
-- there.
handle_pubrel-Released :
    (env : Env) (mid : ℕ) (s : Session) (ms back : List Message) (m : Message)
    → IsPubrel mid s.in_packet
    → 0 < mid
    → mid < 2 ^ 16
    → is_active s.state ≡ true
    → is_mqtt5 s.protocol ≡ false
    → env.answer Command.pubcomp mid ≡ Rc.success
    → All (λ (m : Message). m.mid ≢ mid) ms
    → m.mid ≡ mid
    → m.qos ≡ 2
    → s.messages.msgs_in.inflight ≡ ms ++ (m ∷ back)
    → (s' : Session) × Released env s
        (answered mid ∷ Event.on_message m m.properties ∷ [])
        (ms ++ back)
        s'
handle_pubrel-Released env mid s ms back m p h k active version answer fresh same qos queue =
    let found_ =
      ap (remove_loop mid 2) (increment_quota-inflight s.messages.msgs_in ∙ queue)
      ∙ remove_loop-behind mid m ms back fresh same qos in
    (
      _,
      record {
        ends =
            handle_pubrel_lem env mid s p h k active version answer
            ∙ release_message-found mid m (ms ++ back) (after_pubcomp mid s) found_;
        told = append_assoc s.events (answered mid ∷ []) (Event.on_message m m.properties ∷ []);
        left = refl;
        same = (refl, refl);
      },
    )

handle_pubrel-again :
    (env : Env) (mid : ℕ) (s : Session)
    → IsPubrel mid s.in_packet
    → 0 < mid
    → mid < 2 ^ 16
    → is_active s.state ≡ true
    → is_mqtt5 s.protocol ≡ false
    → env.answer Command.pubcomp mid ≡ Rc.success
    → All (λ (m : Message). m.mid ≢ mid) s.messages.msgs_in.inflight
    → (s' : Session) × Released env s (answered mid ∷ []) s.messages.msgs_in.inflight s'
handle_pubrel-again env mid s p h k active version answer fresh =
    let absent_ =
      ap (remove_loop mid 2) (increment_quota-inflight s.messages.msgs_in)
      ∙ remove_loop-absent mid s.messages.msgs_in.inflight fresh in
    (
      _,
      record {
        ends =
            handle_pubrel_lem env mid s p h k active version answer
            ∙ release_message-absent mid (after_pubcomp mid s) absent_;
        told = refl;
        left = increment_quota-inflight s.messages.msgs_in;
        same = (refl, refl);
      },
    )

leaves :
    {env : Env} {s s' : Session} {es : List Event} {ms ms' : List Message}
    → Released env s es ms s'
    → ms ≡ ms'
    → Released env s es ms' s'
leaves r e = record { ends = r.ends; told = r.told; left = r.left ∙ e; same = r.same }

-- Without MQTT 5: a PUBLISH of QoS 2 with an identifier that is not in the queue is answered by a
-- PUBREC and not passed on. A PUBREL with the identifier is answered by a PUBCOMP, and then
-- the message is passed on, with its topic and payload, and leaves the queue as it was. Another
-- PUBREL is answered, and nothing is passed on. This is so where `send__pubcomp` succeeds.
pub qos2_once :
    (env : Env) (mid b : ℕ) (topic payload : Bytes) (s : Session) (p p' : Packet)
    → PublishOf env s.in_packet.command mid b topic
    → Brings s (binary_bytes (b ∷ topic) ++ (uint16_bytes mid ++ payload))
    → All (λ (m : Message). m.mid ≢ mid) s.messages.msgs_in.inflight
    → env.answer Command.pubcomp mid ≡ Rc.success
    → IsPubrel mid p
    → IsPubrel mid p'
    → (s1 : Session) × (s2 : Session) × (s3 : Session) × (handle_publish env s
        ≡ next (env.answer Command.pubrec mid) s1)
      × (s1.events ≡ s.events ++ (Event.sent Command.pubrec mid 0 ∷ []))
      × Released env
          (with_packet p s1)
          (answered mid
            ∷ Event.on_message (waiting env s.in_packet.command mid (b ∷ topic) payload) []
            ∷ [])
          s.messages.msgs_in.inflight
          s2
      × Released env (with_packet p' s2) (answered mid ∷ []) s.messages.msgs_in.inflight s3
qos2_once env mid b topic payload s p p' h brings fresh answer rel rel' =
    let m = waiting env s.in_packet.command mid (b ∷ topic) payload in
    let ms = s.messages.msgs_in.inflight in
    let (p1, first) = handle_publish_lem env mid b topic payload s h brings in
    let s1 =
      log_more (Event.sent Command.pubrec mid 0 ∷ [])
        (set_in (charged m s.messages.msgs_in) (with_packet p1 s)) in
    let (s2, second) =
      handle_pubrel-Released env mid (with_packet p s1) ms [] m rel h.positive h.small brings.active
        brings.version answer fresh refl h.qos refl in
    let left = second.left ∙ append-nil ms in
    let (s3, third) =
      handle_pubrel-again env mid (with_packet p' s2) rel' h.positive h.small
        (ap is_active second.same.0 ∙ brings.active) (ap is_mqtt5 second.same.1 ∙ brings.version)
        answer (subst (All (λ (m : Message). m.mid ≢ mid)) (sym left) fresh) in
    (s1, s2, s3, first, refl, leaves second (append-nil ms), leaves third left)

-- Without MQTT 5: a PUBLISH of QoS 2 that comes again before the PUBREL is queued again, so that
-- each of two PUBRELs passes the message on. This is so where `send__pubcomp` succeeds.
pub repeated_publish :
    (env : Env) (mid b : ℕ) (topic payload : Bytes) (s : Session) (p p' p'' : Packet)
    → PublishOf env s.in_packet.command mid b topic
    → PublishOf env p.command mid b topic
    → Brings s (binary_bytes (b ∷ topic) ++ (uint16_bytes mid ++ payload))
    → Brings (with_packet p s) (binary_bytes (b ∷ topic) ++ (uint16_bytes mid ++ payload))
    → All (λ (m : Message). m.mid ≢ mid) s.messages.msgs_in.inflight
    → env.answer Command.pubcomp mid ≡ Rc.success
    → IsPubrel mid p'
    → IsPubrel mid p''
    → (s1 : Session) × (s2 : Session) × (s3 : Session) × (s4 : Session) × (handle_publish env s
        ≡ next (env.answer Command.pubrec mid) s1)
      × (handle_publish env (with_packet p s1) ≡ next (env.answer Command.pubrec mid) s2)
      × Released env
          (with_packet p' s2)
          (answered mid
            ∷ Event.on_message (waiting env s.in_packet.command mid (b ∷ topic) payload) []
            ∷ [])
          (s.messages.msgs_in.inflight ++ (waiting env p.command mid (b ∷ topic) payload ∷ []))
          s3
      × Released env
          (with_packet p'' s3)
          (answered mid ∷ Event.on_message (waiting env p.command mid (b ∷ topic) payload) [] ∷ [])
          s.messages.msgs_in.inflight
          s4
repeated_publish env mid b topic payload s p p' p'' h h' brings brings' fresh answer rel rel' =
    let m = waiting env s.in_packet.command mid (b ∷ topic) payload in
    let m' = waiting env p.command mid (b ∷ topic) payload in
    let ms = s.messages.msgs_in.inflight in
    let (q1, first) = handle_publish_lem env mid b topic payload s h brings in
    let s1 =
      log_more (Event.sent Command.pubrec mid 0 ∷ [])
        (set_in (charged m s.messages.msgs_in) (with_packet q1 s)) in
    let (q2, second) = handle_publish_lem env mid b topic payload (with_packet p s1) h' (record {
      readable = brings'.readable;
      rest = brings'.rest;
      active = brings.active;
      version = brings.version;
    }) in
    let s2 =
      log_more (Event.sent Command.pubrec mid 0 ∷ [])
        (set_in (charged m' s1.messages.msgs_in) (with_packet q2 s1)) in
    let (s3, third) =
      handle_pubrel-Released env mid (with_packet p' s2) ms (m' ∷ []) m rel h.positive h.small
        brings.active brings.version answer fresh refl h.qos (append_assoc ms (m ∷ []) (m' ∷ [])) in
    let (s4, fourth) =
      handle_pubrel-Released env mid (with_packet p'' s3) ms [] m' rel' h.positive h.small
        (ap is_active third.same.0 ∙ brings.active) (ap is_mqtt5 third.same.1 ∙ brings.version)
        answer fresh refl h'.qos third.left in
    (s1, s2, s3, s4, first, second, third, leaves fourth (append-nil ms))
