-- ===== src/Handlers/Acknowledge.antt =====
-- What an acknowledgement does to the outgoing queue.
use artemisia.Base.{
  ℕ, ◌+◌, ◌^◌, ◌<◌, ◌⊎◌, ◌≢◌, ◌≡◌, refl, sym, ap, ◌∙◌, arith, inl, inr, Bool, true, false,
  Bool-cases,
}
use artemisia.Base.{List, [], ◌∷◌, ◌++◌, map, Rc, ltb, if◌then◌else◌, length, All}
use mathlib.Core.List.{append-nil, append_assoc}
use mathlib.Core.Path.{subst}
use artemisia.State.{is_active, is_mqtt5}
use artemisia.Packet.Defs.{Packet, advance, IsReadable}
use artemisia.Packet.Encode.{uint16_bytes}
use artemisia.Packet.Unread.{unread}
use artemisia.Messages.Defs.{md_out, Message, Client, active, is_active as is_in_flight}
use artemisia.Messages.{
  increment_quota, message_delete, message_remove, remove_loop, absent, found, release_to_inflight,
}
use artemisia.Messages.Queue.{
  IsQueue, remove_loop-split, message_delete-IsQueue, release_to_inflight-Released,
}
use artemisia.Messages.Starts.{Starts, release_loop-Starts}
use artemisia.Messages.Release.{unpaid, HasQos}
use artemisia.Handlers.Publish.Steps.{read_mid_lem}
use artemisia.Handlers.Defs.{Event, Session, Env, next, ◌>>=◌, ◌>>◌, demand, demand_active}
use artemisia.Handlers.{
  read_mid, read_reason, release, after_delete, acknowledged, handle_pubackcomp,
}

abbrev pub qos_for : Bool → ℕ
qos_for acked = if acked then 1 else 2

abbrev pub raised : Client → Client
raised c = record c { msgs_out = increment_quota c.msgs_out }

handle_pubackcomp_step :
    (env : Env) (acked : Bool) (mid : ℕ) (s : Session) (p1 : Packet)
    → is_active s.state ≡ true
    → is_mqtt5 s.protocol ≡ false
    → read_mid (record s { messages = raised s.messages })
      ≡ next mid (record s { messages = raised s.messages; in_packet = p1 })
    → handle_pubackcomp env acked s
      ≡ acknowledged env mid
          (qos_for acked)
          0
          []
          (record s { messages = raised s.messages; in_packet = p1 })
unfolding handle_pubackcomp read_reason
handle_pubackcomp_step env acked mid s p1 active version id =
    rw (demand_active, ◌>>=◌, ◌>>◌, demand, active, id, version)

-- The place that is given back first and the removal do not depend on each other.
delete-raised :
    (mid qos : ℕ) (c : Client) (m : Message) (ms : List Message)
    → remove_loop mid qos c.msgs_out.inflight ≡ found m ms
    → message_delete mid md_out qos (raised c)
      ≡ (raised (message_delete mid md_out qos c).0, Rc.success)
unfolding message_delete message_remove increment_quota
delete-raised mid qos c m ms e =
    elim (Bool-cases (ltb c.msgs_out.inflight_quota c.msgs_out.inflight_maximum)) [
      | inl room ↦ rw (room, e, room)
      | inr full ↦ rw (full, e, full)
    ]

delete-inflight :
    (mid qos : ℕ) (c : Client) (m : Message) (ms : List Message)
    → remove_loop mid qos c.msgs_out.inflight ≡ found m ms
    → ((message_delete mid md_out qos c).0.msgs_out.inflight ≡ ms)
      × ((message_delete mid md_out qos c).1 ≡ Rc.success)
unfolding message_delete message_remove
delete-inflight mid qos c m ms e = rw e (refl, refl)

raised-inflight : (c : Client) → (raised c).msgs_out.inflight ≡ c.msgs_out.inflight
unfolding increment_quota
raised-inflight c = elim (Bool-cases (ltb c.msgs_out.inflight_quota c.msgs_out.inflight_maximum)) [
  | inl room ↦ rw room
  | inr full ↦ rw full
]

-- The client is told that a message is acknowledged, and then of those of the messages `ms`, which
-- are left in the queue, that had not been sent and now are: those that had to wait for a place, in
-- order. The places of the quota are accounted for, but for one if sending failed; and unless it
-- failed, no place is left or no message waits.
pub record Acknowledged (s : Session) (mid : ℕ) (ms : List Message) (s' : Session) : Type 0 where
  pub released : List Message
  pub code : Rc
  pub told : s'.events ≡ s.events ++ (Event.on_publish mid 0 [] ∷ map Event.sent_publish released)
  pub starts : Starts ms s'.messages.msgs_out.inflight released
  pub counted : s'.messages.msgs_out.queue_len ≡ length ms
  pub places :
      active s'.messages.msgs_out.inflight + s'.messages.msgs_out.inflight_quota
      ≡ s'.messages.msgs_out.inflight_maximum + unpaid code
  pub settled :
      (unpaid code ≡ 1)
      ⊎ (s'.messages.msgs_out.inflight_quota ≡ 0)
      ⊎ (active s'.messages.msgs_out.inflight ≡ length s'.messages.msgs_out.inflight)

-- A PUBACK or PUBCOMP without a reason code, for an active client without MQTT 5.
pub record IsAck (mid : ℕ) (s : Session) : Type 0 where
  pub readable : IsReadable s.in_packet
  pub rest : unread s.in_packet ≡ uint16_bytes mid
  pub active_ : is_active s.state ≡ true
  pub version : is_mqtt5 s.protocol ≡ false
  pub positive : 0 < mid
  pub small : mid < 2 ^ 16

acknowledged-found :
    (env : Env) (mid qos : ℕ) (s : Session) (c : Client)
    → message_delete mid md_out qos s.messages ≡ (c, Rc.success)
    → acknowledged env mid qos 0 [] s
      ≡ release env
          (record s { messages = c; events = s.events ++ (Event.on_publish mid 0 [] ∷ []) })
unfolding acknowledged after_delete
acknowledged-found env mid qos s c e = rw e

release_to_inflight-Starts :
    (send : Message → Rc) (c : Client)
    → All HasQos c.msgs_out.inflight
    → (let r = release_to_inflight send md_out c in
        Starts c.msgs_out.inflight r.0.msgs_out.inflight r.2)
unfolding release_to_inflight
release_to_inflight-Starts send c h =
    release_loop-Starts send c.msgs_out.inflight c.msgs_out.inflight_quota h

-- A PUBACK or PUBCOMP without a reason code, for the first message of the queue with its identifier,
-- which was sent and has its QoS, ends with success without MQTT 5. The client is told once that the
-- message is published, the message leaves the queue, and the others keep their order and their
-- contents. Its place is given back, and waiting messages are sent until no place is left or no
-- message waits, unless sending fails; every place is accounted for again, but for one if it fails.
pub handle_pubackcomp-Acknowledged :
    (env : Env) (acked : Bool) (mid : ℕ) (s : Session) (front : List Message) (m : Message)
    (back : List Message)
    → IsAck mid s
    → IsQueue s.messages.msgs_out
    → All (λ (m : Message). m.mid ≡ mid → is_in_flight m ≡ true) s.messages.msgs_out.inflight
    → s.messages.msgs_out.inflight ≡ front ++ (m ∷ back)
    → All (λ (m : Message). m.mid ≢ mid) front
    → m.mid ≡ mid
    → m.qos ≡ (if acked then 1 else 2)
    → (s' : Session) × (handle_pubackcomp env acked s ≡ next Rc.success s')
      × Acknowledged s mid (front ++ back) s'
unfolding release
handle_pubackcomp-Acknowledged env acked mid s front m back ack q act split before same level =
    let c = s.messages in
    let ms = front ++ back in
    let e : remove_loop mid (qos_for acked) c.msgs_out.inflight ≡ found m ms =
      ap (remove_loop mid (qos_for acked)) split
      ∙ remove_loop-split mid (qos_for acked) front m back before same level in
    let (gone, ok) = delete-inflight mid (qos_for acked) c m ms e in
    let c' = raised (message_delete mid md_out (qos_for acked) c).0 in
    let q' = message_delete-IsQueue mid (qos_for acked) c q act ok in
    let left : c'.msgs_out.inflight ≡ ms =
      raised-inflight (message_delete mid md_out (qos_for acked) c).0 ∙ gone in
    let out = release_to_inflight-Released env.send c' q'.qos in
    let p1 = advance 2 s.in_packet in
    let step = handle_pubackcomp_step env acked mid s p1 ack.active_ ack.version (
      read_mid_lem mid [] (record s { messages = raised c }) ack.positive ack.small ack.readable
        (ack.rest ∙ sym (append-nil (uint16_bytes mid)))) in
    let s2 = record s { messages = raised c; in_packet = p1 } in
    (
      _,
      step
          ∙ acknowledged-found env mid (qos_for acked) s2 c'
              (delete-raised mid (qos_for acked) c m ms e),
      record {
        released = (release_to_inflight env.send md_out c').2;
        code = (release_to_inflight env.send md_out c').1;
        told =
            append_assoc s.events (Event.on_publish mid 0 [] ∷ [])
              (map Event.sent_publish (release_to_inflight env.send md_out c').2);
        starts =
            subst
              (λ l.
                Starts l (release_to_inflight env.send md_out c').0.msgs_out.inflight
                  (release_to_inflight env.send md_out c').2)
              left (release_to_inflight-Starts env.send c' q'.qos);
        settled = out.settled;
        counted = out.lengths ∙ q'.counted ∙ ap length left;
        places = omega (arith, out.places, out.maximum, q'.balanced);
      },
    )

delete-absent :
    (mid qos : ℕ) (c : Client)
    → remove_loop mid qos c.msgs_out.inflight ≡ absent
    → message_delete mid md_out qos (raised c) ≡ (raised c, Rc.not_found)
unfolding message_delete message_remove increment_quota
delete-absent mid qos c e =
    elim (Bool-cases (ltb c.msgs_out.inflight_quota c.msgs_out.inflight_maximum)) [
      | inl room ↦ rw (room, e)
      | inr full ↦ rw (full, e)
    ]

acknowledged-absent :
    (env : Env) (mid qos : ℕ) (s : Session)
    → message_delete mid md_out qos s.messages ≡ (s.messages, Rc.not_found)
    → acknowledged env mid qos 0 [] s ≡ release env s
unfolding acknowledged after_delete
acknowledged-absent env mid qos s e = rw e

raised-quota :
    (c : Client)
    → c.msgs_out.inflight_quota < c.msgs_out.inflight_maximum
    → ((raised c).msgs_out.inflight_quota ≡ c.msgs_out.inflight_quota + 1)
      × ((raised c).msgs_out.inflight_maximum ≡ c.msgs_out.inflight_maximum)
unfolding increment_quota
raised-quota c h =
    let room : ltb c.msgs_out.inflight_quota c.msgs_out.inflight_maximum ≡ true = ground arith in
    rw room (refl, refl)

-- A PUBACK or PUBCOMP without a reason code and with an identifier that is not in the queue ends
-- with success without MQTT 5. If a place was taken, there is one place too many afterwards:
-- messages in flight and places left are more than the maximum, by one more than the place that a
-- failed sending leaves unpaid.
pub handle_pubackcomp_unknown :
    (env : Env) (acked : Bool) (mid : ℕ) (s : Session)
    → IsAck mid s
    → IsQueue s.messages.msgs_out
    → s.messages.msgs_out.inflight_quota < s.messages.msgs_out.inflight_maximum
    → remove_loop mid (qos_for acked) s.messages.msgs_out.inflight ≡ absent
    → (s' : Session) × (rc : Rc) × (handle_pubackcomp env acked s ≡ next Rc.success s')
      × (active s'.messages.msgs_out.inflight + s'.messages.msgs_out.inflight_quota
          ≡ s'.messages.msgs_out.inflight_maximum + 1 + unpaid rc)
unfolding release
handle_pubackcomp_unknown env acked mid s ack q room e =
    let c = s.messages in
    let same = raised-inflight c in
    let (more, maximum) = raised-quota c room in
    let out =
      release_to_inflight-Released env.send (raised c) (subst (All HasQos) (sym same) q.qos) in
    let p1 = advance 2 s.in_packet in
    let step = handle_pubackcomp_step env acked mid s p1 ack.active_ ack.version (
      read_mid_lem mid [] (record s { messages = raised c }) ack.positive ack.small ack.readable
        (ack.rest ∙ sym (append-nil (uint16_bytes mid)))) in
    let s2 = record s { messages = raised c; in_packet = p1 } in
    (
      _,
      (release_to_inflight env.send md_out (raised c)).1,
      step ∙ acknowledged-absent env mid (qos_for acked) s2 (delete-absent mid (qos_for acked) c e),
      omega (arith, out.places, out.maximum, ap active same, more, maximum, q.balanced),
    )
