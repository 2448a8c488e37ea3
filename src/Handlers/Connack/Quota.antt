-- ===== src/Handlers/Connack/Quota.antt =====
-- What an accepted connection does to the outgoing queue.
use artemisia.Base.{
  ℕ, suc, ◌+◌, ◌≡◌, refl, sym, ap, ◌∙◌, arith, false, List, [], ◌∷◌, ◌++◌, map, Rc, if◌then◌else◌,
}
use mathlib.Core.List.{append_assoc}
use artemisia.State.{is_mqtt5}
use artemisia.Packet.Defs.{Packet, advance, IsReadable}
use artemisia.Packet.Unread.{unread, unread-advance_rest, advance-IsReadable}
use artemisia.Packet.Read.{read_byte}
use artemisia.Packet.Read.Laws.{read_byte-Reads}
use artemisia.Property.Store.{
  read_string_property, read_byte_property, read_int16_property, read_int32_property, get_property,
  get_loop,
}
use artemisia.Messages.Defs.{MsgState, Message, MsgData, is_invalid, active}
use artemisia.Messages.{Resend, retry_check}
use artemisia.Messages.Retry.{states, Due, retry_check_lem, retry_check-Due}
use artemisia.Handlers.Defs.{Event, Session, Env, next, ◌>>=◌, ◌>>◌, on_packet}
use artemisia.Handlers.Publish.Steps.{on_packet-Reads}
use artemisia.Handlers.Connack.{
  connack_callback, take_clientid, take_limits, activated, connected, connack_properties,
  handle_connack,
}

-- A CONNACK that accepts the connection, without MQTT 5.
pub record IsAccepted (flags : ℕ) (s : Session) : Type 0 where
  pub readable : IsReadable s.in_packet
  pub rest : unread s.in_packet ≡ flags ∷ 0 ∷ []
  pub version : is_mqtt5 s.protocol ≡ false

-- Every place of the quota is free.
abbrev pub free_all : MsgData → MsgData
free_all d = record d { inflight_quota = d.inflight_maximum }

handle_connack_step :
    (env : Env) (flags : ℕ) (s : Session) (p1 p2 : Packet)
    → is_mqtt5 s.protocol ≡ false
    → on_packet read_byte s ≡ next flags (record s { in_packet = p1 })
    → on_packet read_byte (record s { in_packet = p1 }) ≡ next 0 (record s { in_packet = p2 })
    → handle_connack env s
      ≡ connected env 0 (record s {
        in_packet = p2;
        reconnects = 0;
        messages = record (s.messages) { msgs_out = free_all s.messages.msgs_out };
        events = s.events ++ (Event.on_connect 0 flags [] ∷ []);
      })
unfolding handle_connack connack_properties take_clientid take_limits connack_callback
    read_string_property read_byte_property read_int16_property read_int32_property get_property
    get_loop
handle_connack_step env flags s p1 p2 version one two = rw (◌>>=◌, ◌>>◌, one, two, version)

active_states : List MsgState → ℕ
active_states [] = 0
active_states (m ∷ ms) = if is_invalid m then active_states ms else suc (active_states ms)

active-states : (ms : List Message) → active ms ≡ active_states (states ms)
unfolding active_states
active-states [] = refl
active-states (m ∷ ms) = ground (arith, active-states ms)

-- Without MQTT 5, an accepted connection is told to the client, and then each message in flight is
-- sent the packet that its state asks for, in order: a PUBLISH again with DUP, a PUBREC or a PUBREL,
-- or none. No state of a message changes, but every place of the quota is free
-- afterwards, those of the messages in flight included: messages in flight and places left are more
-- than the maximum by the number of messages in flight.
pub handle_connack_quota :
    (env : Env) (flags : ℕ) (s : Session)
    → IsAccepted flags s
    → (s' : Session) × (resends : List Resend) × (handle_connack env s ≡ next Rc.success s')
      × (s'.state ≡ activated s.state)
      × (s'.events ≡ s.events ++ (Event.on_connect 0 flags [] ∷ map Event.resent resends))
      × Due env.now s.messages.msgs_out.inflight resends
      × (states s'.messages.msgs_out.inflight ≡ states s.messages.msgs_out.inflight)
      × (active s'.messages.msgs_out.inflight + s'.messages.msgs_out.inflight_quota
          ≡ s'.messages.msgs_out.inflight_maximum + active s.messages.msgs_out.inflight)
unfolding connected retry_check
handle_connack_quota env flags s h =
    let p1 = advance 1 s.in_packet in
    let p2 = advance 1 p1 in
    let one =
      on_packet-Reads read_byte (flags ∷ []) (0 ∷ []) flags s (read_byte-Reads flags) h.readable
        h.rest in
    let ok1 = advance-IsReadable s.in_packet (flags ∷ []) (0 ∷ []) h.readable h.rest in
    let rest1 = unread-advance_rest s.in_packet (flags ∷ []) (0 ∷ []) h.rest in
    let two =
      on_packet-Reads read_byte (0 ∷ []) [] 0 (record s { in_packet = p1 }) (read_byte-Reads 0) ok1
        rest1 in
    let c = record (s.messages) { msgs_out = free_all s.messages.msgs_out } in
    let (same, count) = retry_check_lem env.now c in
    let kept =
      active-states (retry_check env.now c).0.msgs_out.inflight
      ∙ ap active_states same
      ∙ sym (active-states c.msgs_out.inflight) in
    (
      _,
      (retry_check env.now c).1,
      handle_connack_step env flags s p1 p2 h.version one two,
      refl,
      append_assoc s.events (Event.on_connect 0 flags [] ∷ [])
          (map Event.resent (retry_check env.now c).1),
      retry_check-Due env.now c,
      same,
      omega (arith, kept),
    )
