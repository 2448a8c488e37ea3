-- ===== src/Handlers/Publish/Tests.antt =====
-- A message of QoS 2 on its way to a receiver that gets it in two calls.
use artemisia.Base.{
  ℕ, ◌+◌, ◌-◌, ◌≡◌, refl, arith, true, false, none, some, List, [], ◌∷◌, Rc, ℤ, length,
}
use artemisia.State.{ClientState, Protocol}
use artemisia.Utf8.{validate_utf8}
use artemisia.Utf8
use artemisia.Packet.Defs.{Packet}
use artemisia.Packet.Encode.{varint_encoding, varint_groups}
use artemisia.Property.Wire.{EncodedAll}
use artemisia.Messages.Defs.{MsgData}
use artemisia.Outgoing.Defs.{Outgoing, again}
use artemisia.Outgoing.{check_oversize}
use artemisia.Outgoing.Stream.{IsStream}
use artemisia.Incoming.{Incoming, handled}
use artemisia.Incoming.Socket.{Arrival}
use artemisia.Incoming.Frame.{IsClean, frame}
use artemisia.Incoming.Delivery.{Delivers, at, calls}
use artemisia.Senders.Puts.{Puts}
use artemisia.Senders.Publish.{Args, publish_command, send_publish}
use artemisia.Senders.Publish.Wire.{expiry_list, Listed, IsPublish, publish_wire}
use artemisia.Handlers.Defs.{Session, Env}
use artemisia.Handlers.Replies.{handle_packet}
use artemisia.Handlers.Publish.Transfer.{IsTransfer, taken_in, send_publish-handle_packet}

abbrev args : Args
args = record {
  mid = 7;
  topic = some (97 ∷ []);
  payloadlen = 2;
  payload = 104 ∷ 105 ∷ [];
  qos = 2;
  retain = true;
  dup = false;
  cmsg_props = [];
  store_props = [];
  expiry_interval = 0;
}

none-Encoded : EncodedAll (expiry_list 0) []
none-Encoded = EncodedAll.end

abbrev listed : Listed args
listed = record {
  cmsg = [];
  store = [];
  expiry = [];
  cmsg_wire = EncodedAll.end;
  store_wire = EncodedAll.end;
  expiry_wire = none-Encoded;
}

args-IsPublish : IsPublish false args listed
args-IsPublish = record {
  topic = omega arith;
  payload = refl;
  fits = omega arith;
  few = omega arith;
}

args-room : check_oversize 0 (length (publish_wire false args listed)) ≡ Rc.success
unfolding check_oversize
args-room = refl

abbrev sender : Outgoing
sender = record {
  has_socket = true;
  state = ClientState.active;
  want_connect = false;
  in_callback = false;
  threaded = false;
  keepalive = 60;
  next_msg_out = 0;
  current_out_packet = none;
  out_packet = [];
  wire = 0xc0 ∷ 0 ∷ [];
  on_publish = [];
  on_disconnect = [];
}

sender-IsStream : IsStream sender
sender-IsStream = (tt, tt)

abbrev empty_packet : Packet
empty_packet = record {
  command = 0;
  mid = 0;
  pos = 0;
  to_process = 0;
  packet_length = 0;
  remaining_length = 0;
  remaining_mult = 1;
  remaining_count = ℤ.pos 0;
  payload = [];
}

-- The two halves of the packet, with a pause between them, and a byte of the next packet.
abbrev stream : List Arrival
stream =
    Arrival.byte 0x35
    ∷ Arrival.byte 7
    ∷ Arrival.gap
    ∷ Arrival.byte 0
    ∷ Arrival.byte 1
    ∷ Arrival.byte 97
    ∷ Arrival.pause
    ∷ Arrival.byte 0
    ∷ Arrival.byte 7
    ∷ Arrival.byte 104
    ∷ Arrival.byte 105
    ∷ Arrival.byte 0xd0
    ∷ []

stream-Delivers :
    Delivers 1 (frame 0x35 (publish_wire false args listed)) stream (Arrival.byte 0xd0 ∷ [])
unfolding varint_encoding varint_groups
stream-Delivers = Delivers.came 0x35 (
    Delivers.came 7 (
      Delivers.cut (
        Delivers.came 0 (
          Delivers.came 1 (
            Delivers.came 97 (
              Delivers.waits (
                Delivers.came 0 (
                  Delivers.came 7
                    (Delivers.came 104 (Delivers.came 105 (Delivers.done refl)))))))))))

abbrev receiver : Incoming ℕ
receiver = record {
  has_socket = true;
  state = ClientState.active;
  in_packet = empty_packet;
  socket = stream;
  last_msg_in = 5;
  client = 0;
}

abbrev count_packet : Incoming ℕ → Incoming ℕ × Rc
count_packet c = (record c { client = c.client + 1 }, Rc.success)

abbrev clock : ℕ → ℕ
clock w = 9 - w

abbrev no_messages : MsgData
no_messages = record { inflight = []; queue_len = 0; inflight_quota = 20; inflight_maximum = 20 }

abbrev session : Session
session = record {
  state = ClientState.active;
  protocol = Protocol.mqtt311;
  in_packet = empty_packet;
  messages = record { msgs_in = no_messages; msgs_out = no_messages; last_mid = 0 };
  ping_t = 0;
  id = none;
  maximum_qos = 2;
  keepalive = 60;
  maximum_packet_size = 0;
  reconnects = 0;
  events = [];
}

abbrev env : Env
env = record {
  mem = λ i. true;
  property_mem = λ i. true;
  answer = λ c m. Rc.success;
  send = λ m. Rc.success;
  now = 50;
}

text_valid : validate_utf8 (some (97 ∷ 0 ∷ [])) 1 ≡ Utf8.code Rc.success
unfolding validate_utf8 Utf8.loop Utf8.sequence Utf8.lead_byte Utf8.continuation Utf8.is_allowed
text_valid = refl

args-IsTransfer : IsTransfer env args session
args-IsTransfer = record {
  b = 97;
  text = [];
  topic = refl;
  valid = text_valid;
  qos = refl;
  positive = omega arith;
  small = omega arith;
  mem = λ i. refl;
  active = refl;
  version = refl;
}

empty-IsClean : IsClean empty_packet
empty-IsClean = record {
  command = refl;
  count = refl;
  multiplier = refl;
  remaining = refl;
  payload = refl;
  to_process = refl;
  start = refl;
}

send_publish-handle_packet_example :
    Puts
      (send_publish Protocol.mqtt311 0 args true true 5 (again ∷ []) sender)
      sender
      (frame (publish_command args) (publish_wire false args listed))
    × (q : Packet) × (t : ℕ) × (p : Packet) × (calls count_packet clock 1 receiver
        ≡ handled count_packet 9
            (record (at receiver q (Arrival.byte 0xd0 ∷ [])) { last_msg_in = t }))
    × (handle_packet env (record session { in_packet = record q { pos = 0 } })
        ≡ taken_in env args session p)
send_publish-handle_packet_example =
    send_publish-handle_packet Protocol.mqtt311 0 args listed 5 (again ∷ []) sender count_packet
      clock 1 (Arrival.byte 0xd0 ∷ []) receiver env session refl refl args-IsPublish args-room
      sender-IsStream (record { open_ = refl; settled = refl }) empty-IsClean stream-Delivers
      args-IsTransfer
