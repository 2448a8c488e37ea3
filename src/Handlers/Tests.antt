-- ===== src/Handlers/Tests.antt =====
-- Runs of the handlers, and their theorems at concrete inputs.
use artemisia.Base.{List, ℕ, ◌+◌, ◌≡◌, refl, arith, true, false, some, none, inl}
use artemisia.Base.{[], ◌∷◌, ◌++◌, Bytes, Rc, ℤ, length}
use artemisia.State.{ClientState, Protocol}
use artemisia.Packet.Defs.{Packet}
use artemisia.Packet.Unread.{unread}
use artemisia.Property.Command
use artemisia.Messages.Defs.{Message, MsgData, MsgState, active}
use artemisia.Base.{map}
use artemisia.Messages.{remove_loop, Resend}
use artemisia.Messages.Retry.{states, Due}
use artemisia.Handlers.Connack.{handle_connack}
use artemisia.Handlers.Connack.Quota.{IsAccepted, handle_connack_quota}
use artemisia.Messages.Release.{unpaid}
use artemisia.Handlers.{handle_pubackcomp}
use artemisia.Handlers.Acknowledge.{
  Acknowledged, IsAck, handle_pubackcomp-Acknowledged, handle_pubackcomp_unknown,
}
use artemisia.Utf8.{validate_utf8}
use artemisia.Utf8
use artemisia.Handlers.Defs.{Event, Session, Env, next}
use artemisia.Handlers.Publish.{handle_publish}
use artemisia.Handlers.Publish.Steps.{Brings, PublishOf, waiting}
use artemisia.Handlers.Publish.Release.{IsPubrel, with_packet}
use artemisia.Handlers.Publish.Once.{Released, answered, qos2_once, repeated_publish}

abbrev packet : ℕ → Bytes → Packet
packet command payload = record {
  command = command;
  mid = 0;
  pos = 0;
  to_process = 0;
  packet_length = 0;
  remaining_length = length payload;
  remaining_mult = 128;
  remaining_count = ℤ.pos 1;
  payload = payload;
}

-- A PUBLISH of QoS 2 with identifier 7, topic "a" and payload "hi", the same again, and its PUBREL.
abbrev publish : Packet
publish = packet 0x34 (0 ∷ 1 ∷ 97 ∷ 0 ∷ 7 ∷ 104 ∷ 105 ∷ [])

abbrev publish_again : Packet
publish_again = record publish { command = 0x3c }

abbrev pubrel : Packet
pubrel = packet 0x62 (0 ∷ 7 ∷ [])

abbrev no_messages : MsgData
no_messages = record { inflight = []; queue_len = 0; inflight_quota = 20; inflight_maximum = 20 }

abbrev session : Session
session = record {
  state = ClientState.active;
  protocol = Protocol.mqtt311;
  in_packet = publish;
  messages = record { msgs_in = no_messages; msgs_out = no_messages; last_mid = 0 };
  ping_t = 0;
  id = none;
  maximum_qos = 2;
  keepalive = 60;
  maximum_packet_size = 0;
  reconnects = 0;
  events = [];
}

abbrev env : Env
env = record {
  mem = λ i. true;
  property_mem = λ i. true;
  answer = λ c m. Rc.success;
  send = λ m. Rc.success;
  now = 50;
}

text_valid : validate_utf8 (some (97 ∷ 0 ∷ [])) 1 ≡ Utf8.code Rc.success
unfolding validate_utf8 Utf8.loop Utf8.sequence Utf8.lead_byte Utf8.continuation Utf8.is_allowed
text_valid = refl

publish-PublishOf : PublishOf env 0x34 7 97 []
publish-PublishOf = record {
  qos = refl;
  mem = λ i. refl;
  positive = omega arith;
  small = omega arith;
  short = omega arith;
  text = text_valid;
}

publish_again-PublishOf : PublishOf env 0x3c 7 97 []
publish_again-PublishOf = record {
  qos = refl;
  mem = λ i. refl;
  positive = omega arith;
  small = omega arith;
  short = omega arith;
  text = text_valid;
}

session-Brings : Brings session (0 ∷ 1 ∷ 97 ∷ 0 ∷ 7 ∷ 104 ∷ 105 ∷ [])
unfolding unread
session-Brings = record {
  readable = record { within = omega arith; backed = omega arith; bounded = omega arith };
  rest = refl;
  active = refl;
  version = refl;
}

session_again-Brings :
    Brings (with_packet publish_again session) (0 ∷ 1 ∷ 97 ∷ 0 ∷ 7 ∷ 104 ∷ 105 ∷ [])
unfolding unread
session_again-Brings = record {
  readable = record { within = omega arith; backed = omega arith; bounded = omega arith };
  rest = refl;
  active = refl;
  version = refl;
}

pubrel-IsPubrel : IsPubrel 7 pubrel
unfolding unread
pubrel-IsPubrel = record {
  readable = record { within = omega arith; backed = omega arith; bounded = omega arith };
  rest = refl;
  flags = refl;
}

qos2_once_example :
    (s1 : Session) × (s2 : Session) × (s3 : Session) × (handle_publish env session
      ≡ next Rc.success s1)
    × (s1.events ≡ [] ++ (Event.sent Command.pubrec 7 0 ∷ []))
    × Released env
        (with_packet pubrel s1)
        (answered 7 ∷ Event.on_message (waiting env 0x34 7 (97 ∷ []) (104 ∷ 105 ∷ [])) [] ∷ [])
        []
        s2
    × Released env (with_packet pubrel s2) (answered 7 ∷ []) [] s3
qos2_once_example =
    qos2_once env 7 97 [] (104 ∷ 105 ∷ []) session pubrel pubrel publish-PublishOf session-Brings tt
      refl pubrel-IsPubrel pubrel-IsPubrel

repeated_publish_example :
    (s1 : Session) × (s2 : Session) × (s3 : Session) × (s4 : Session) × (handle_publish env session
      ≡ next Rc.success s1)
    × (handle_publish env (with_packet publish_again s1) ≡ next Rc.success s2)
    × Released env
        (with_packet pubrel s2)
        (answered 7 ∷ Event.on_message (waiting env 0x34 7 (97 ∷ []) (104 ∷ 105 ∷ [])) [] ∷ [])
        (waiting env 0x3c 7 (97 ∷ []) (104 ∷ 105 ∷ []) ∷ [])
        s3
    × Released env
        (with_packet pubrel s3)
        (answered 7 ∷ Event.on_message (waiting env 0x3c 7 (97 ∷ []) (104 ∷ 105 ∷ [])) [] ∷ [])
        []
        s4
repeated_publish_example =
    repeated_publish env 7 97 [] (104 ∷ 105 ∷ []) session publish_again pubrel pubrel
      publish-PublishOf publish_again-PublishOf session-Brings session_again-Brings tt refl
      pubrel-IsPubrel pubrel-IsPubrel

-- One message of QoS 1 is in flight, and another waits.
abbrev outgoing : ℕ → MsgState → Message
outgoing mid state = record {
  mid = mid;
  topic = 97 ∷ [];
  payload = [];
  qos = 1;
  retain = false;
  properties = [];
  timestamp = 5;
  state = state;
  dup = false;
  expiry_interval = 0;
}

abbrev one_waits : MsgData
one_waits = record {
  inflight = outgoing 7 MsgState.wait_for_puback ∷ outgoing 8 MsgState.invalid ∷ [];
  queue_len = 2;
  inflight_quota = 0;
  inflight_maximum = 1;
}

-- One message is in flight, and another place is left.
abbrev place_left : MsgData
place_left = record {
  inflight = outgoing 8 MsgState.wait_for_puback ∷ [];
  queue_len = 1;
  inflight_quota = 1;
  inflight_maximum = 2;
}

abbrev puback_session : MsgData → Session
puback_session d = record session {
  in_packet = packet 0x40 (0 ∷ 7 ∷ []);
  messages = record (session.messages) { msgs_out = d };
}

puback-IsAck : (d : MsgData) → IsAck 7 (puback_session d)
unfolding unread
puback-IsAck d = record {
  readable = record { within = omega arith; backed = omega arith; bounded = omega arith };
  rest = refl;
  active_ = refl;
  version = refl;
  positive = omega arith;
  small = omega arith;
}

handle_pubackcomp-Acknowledged_example :
    (s' : Session) × (handle_pubackcomp env true (puback_session one_waits) ≡ next Rc.success s')
    × Acknowledged (puback_session one_waits) 7 ([] ++ (outgoing 8 MsgState.invalid ∷ [])) s'
handle_pubackcomp-Acknowledged_example =
    handle_pubackcomp-Acknowledged env true 7 (puback_session one_waits) []
      (outgoing 7 MsgState.wait_for_puback) (outgoing 8 MsgState.invalid ∷ [])
      (puback-IsAck one_waits)
      (record { counted = refl; balanced = refl; qos = (inl refl, (inl refl, tt)) })
      (λ e. refl, (λ e. absurd (omega arith), tt)) refl tt refl refl

handle_pubackcomp_unknown_example :
    (s' : Session) × (rc : Rc) × (handle_pubackcomp env true (puback_session place_left)
      ≡ next Rc.success s')
    × (active s'.messages.msgs_out.inflight + s'.messages.msgs_out.inflight_quota
        ≡ s'.messages.msgs_out.inflight_maximum + 1 + unpaid rc)
unfolding remove_loop
handle_pubackcomp_unknown_example =
    handle_pubackcomp_unknown env true 7 (puback_session place_left) (puback-IsAck place_left)
      (record { counted = refl; balanced = refl; qos = (inl refl, tt) }) (omega arith) refl

-- A CONNACK while a message is to be published again and another waits.
abbrev one_again : MsgData
one_again = record one_waits {
  inflight = outgoing 7 MsgState.publish_qos1 ∷ outgoing 8 MsgState.invalid ∷ [];
}

abbrev connack_session : Session
connack_session = record session {
  state = ClientState.connected;
  in_packet = packet 0x20 (1 ∷ 0 ∷ []);
  messages = record (session.messages) { msgs_out = one_again };
}

connack-IsAccepted : IsAccepted 1 connack_session
unfolding unread
connack-IsAccepted = record {
  readable = record { within = omega arith; backed = omega arith; bounded = omega arith };
  rest = refl;
  version = refl;
}

handle_connack_quota_example :
    (s' : Session) × (resends : List Resend) × (handle_connack env connack_session
      ≡ next Rc.success s')
    × (s'.state ≡ ClientState.active)
    × (s'.events ≡ [] ++ (Event.on_connect 0 1 [] ∷ map Event.resent resends))
    × Due env.now one_again.inflight resends
    × (states s'.messages.msgs_out.inflight ≡ states one_again.inflight)
    × (active s'.messages.msgs_out.inflight + s'.messages.msgs_out.inflight_quota
        ≡ s'.messages.msgs_out.inflight_maximum + active one_again.inflight)
handle_connack_quota_example = handle_connack_quota env 1 connack_session connack-IsAccepted
