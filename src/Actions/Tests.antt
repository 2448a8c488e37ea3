-- ===== src/Actions/Tests.antt =====
-- A client that publishes and subscribes.
use artemisia.Base.{
  ℕ, ◌≡◌, refl, arith, true, false, none, some, List, [], ◌∷◌, ◌++◌, Bytes, Rc, ℤ, All,
}
use artemisia.State.{ClientState, Protocol}
use artemisia.Utf8.{validate_utf8}
use artemisia.Utf8
use artemisia.Topic.{pub_topic_check, pub_loop, sub_topic_check, sub_loop, is_misplaced}
use artemisia.Topic.CheckLaws.{IsText}
use artemisia.Senders.Request.{topics_length}
use artemisia.Property.Write.{get_length_all}
use artemisia.Packet.Write.{varint_bytes}
use artemisia.Property.Wire.{EncodedAll}
use artemisia.Property.Check.{check_all}
use artemisia.Property.Copy.{copied, copy_all}
use artemisia.Messages.Defs.{Message, MsgData, Client}
use artemisia.Messages.{mid_generate}
use artemisia.Messages.Queue.{IsQueue, Queued}
use artemisia.Outgoing.Defs.{Outgoing, accepts, again}
use artemisia.Outgoing.{check_oversize}
use artemisia.Outgoing.Stream.{IsStream}
use artemisia.Incoming.Frame.{frame}
use artemisia.Senders.Publish.Wire.{expiry_list, Listed}
use artemisia.Senders.Request.Wire.{topics_wire, request_wire}
use artemisia.Actions.{Actor, World, set_messages}
use artemisia.Actions.Publish.{Publication, publish_args, named_checks, publish_checks, publish_v5}
use artemisia.Actions.Publish.Sent.{Sends, message_of, GoesOn, publish_v5-Queued}
use artemisia.Messages.Starts.{Starts}
use artemisia.Actions.Subscribe.{all_topic_tests, subscribe_checks, subscribe_multiple}
use artemisia.Actions.Subscribe.Sent.{IsFilter, IsFitting, subscribe_multiple-Sends}

abbrev sender : Outgoing
sender = record {
  has_socket = true;
  state = ClientState.active;
  want_connect = false;
  in_callback = false;
  threaded = false;
  keepalive = 60;
  next_msg_out = 0;
  current_out_packet = none;
  out_packet = [];
  wire = 0xc0 ∷ 0 ∷ [];
  on_publish = [];
  on_disconnect = [];
}

sender-IsStream : IsStream sender
sender-IsStream = (tt, tt)

abbrev no_messages : MsgData
no_messages = record { inflight = []; queue_len = 0; inflight_quota = 20; inflight_maximum = 20 }

abbrev actor : Actor
actor = record {
  protocol = Protocol.mqtt311;
  maximum_qos = 2;
  maximum_packet_size = 100;
  out = sender;
  messages = record { msgs_in = no_messages; msgs_out = no_messages; last_mid = 6 };
}

abbrev world : World
world = record {
  mem = λ i. true;
  property_mem = λ i. true;
  send = λ m. Rc.success;
  now = 50;
  replies = accepts 3 ∷ again ∷ [];
}

-- The payload "hi" for the topic "a".
abbrev publication : ℕ → Publication
publication qos = record {
  topic = some (97 ∷ []);
  payloadlen = ℤ.pos 2;
  payload = 104 ∷ 105 ∷ [];
  qos = ℤ.pos qos;
  retain = true;
  properties = [];
}

none-Encoded : EncodedAll (expiry_list 0) []
none-Encoded = EncodedAll.end

abbrev listed : (qos : ℕ) → Listed (publish_args (publication qos) 7 0)
listed qos = record {
  cmsg = [];
  store = [];
  expiry = [];
  cmsg_wire = EncodedAll.end;
  store_wire = EncodedAll.end;
  expiry_wire = none-Encoded;
}

checks2 : publish_checks actor (publication 2) 2 ≡ Rc.success
unfolding publish_checks named_checks check_all check_oversize pub_topic_check pub_loop
    validate_utf8 Utf8.loop Utf8.sequence Utf8.lead_byte Utf8.continuation Utf8.is_allowed
    get_length_all varint_bytes
checks2 = refl

copied_none : copy_all world.property_mem [] [] ≡ copied []
unfolding copy_all
copied_none = refl

no_messages-IsQueue : IsQueue no_messages
no_messages-IsQueue = record { counted = refl; balanced = refl; qos = tt }

publish_v5-Queued_example :
    (c : Client) × (rc : Rc) × (sent : List Message) × (publish_v5 world (publication 2) actor
      ≡ some (set_messages c actor, rc))
    × Starts ([] ++ (message_of (publication 2) 7 2 [] 50 ∷ [])) c.msgs_out.inflight sent
    × Queued (message_of (publication 2) 7 2 [] 50) no_messages c.msgs_out rc
    × (c.last_mid ≡ 7)
unfolding mid_generate
publish_v5-Queued_example =
    publish_v5-Queued world (publication 2) actor 1 [] [] refl (omega arith) refl checks2
      GoesOn.none_given copied_none refl no_messages-IsQueue

abbrev topics : List Bytes
topics = (97 ∷ []) ∷ (98 ∷ 47 ∷ 35 ∷ []) ∷ []

topics-IsText : All IsText topics
topics-IsText = (
  ((λ e. absurd (omega arith)), tt),
  (
    ((λ e. absurd (omega arith)), ((λ e. absurd (omega arith)), ((λ e. absurd (omega arith)), tt))),
    tt,
  ),
)

topics_checks : subscribe_checks actor topics (ℤ.pos 1) 4 [] ≡ Rc.success
unfolding subscribe_checks all_topic_tests topics_length check_all check_oversize sub_topic_check
    sub_loop is_misplaced validate_utf8 Utf8.loop Utf8.sequence Utf8.lead_byte Utf8.continuation
    Utf8.is_allowed get_length_all varint_bytes
topics_checks = refl

topics-IsFitting : IsFitting actor [] [] (1 ∷ []) topics
unfolding topics_wire
topics-IsFitting = record { encoded = EncodedAll.end; few = omega arith; fits = omega arith }

subscribe_multiple-Sends_example :
    All IsFilter topics
    × Sends
        (subscribe_multiple world topics (ℤ.pos 1) 4 [] actor)
        actor
        (frame 0x82 (request_wire false 7 [] (1 ∷ []) topics))
        (record (actor.messages) { last_mid = 7 })
unfolding mid_generate
subscribe_multiple-Sends_example =
    subscribe_multiple-Sends world topics 1 1 4 [] [] actor topics-IsText (omega arith)
      topics_checks refl (omega arith) refl refl topics-IsFitting sender-IsStream
