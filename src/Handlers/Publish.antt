-- ===== src/Handlers/Publish.antt =====
-- handle_publish.c, handle_pubrec.c and handle_pubrel.c: the messages that come in, and the two
-- steps of QoS 2 on either side.
pub mod Steps
pub mod Release
pub mod Once
pub mod Transfer
mod Tests
use artemisia.Base.{ℕ, zero, suc, ◌+◌, ◌-◌, ◌/◌, ◌%◌, ◌^◌, Bool, true, false, not, ◌&&◌, ◌||◌}
use artemisia.Base.{Option, none, some, List, [], ◌∷◌, ◌++◌, Bytes, Rc, ltb, ◌==◌, if◌then◌else◌}
use artemisia.State.{is_mqtt5, is_mqtt31}
use artemisia.Packet.Defs.{Packet}
use artemisia.Packet.Read.{read_bytes, read_string}
use artemisia.Property.Defs.{Property}
use artemisia.Property.Command
use artemisia.Messages.Defs.{MsgState, md_in, md_out, Message, Client}
use artemisia.Messages.{message_queue, message_remove, message_delete, out_update}
use artemisia.Handlers.Defs.{
  Event, Session, Env, H, ◌>>=◌, ◌>>◌, return, exit_with, log, on_packet, ask, demand,
  demand_active,
}
use artemisia.Handlers.{
  set_messages, increment_send_quota, decrement_receive_quota, send_puback, send_pubrec,
  send_pubrel, send_pubcomp, read_mid, read_reason, read_properties, release,
}

-- The three flags of the first byte of a PUBLISH.
abbrev pub dup_of : ℕ → Bool
dup_of header = header / 8 % 2 == 1

abbrev pub qos_of : ℕ → ℕ
qos_of header = header / 2 % 4

abbrev pub retain_of : ℕ → Bool
retain_of header = header % 2 == 1

-- The identifier of a message of QoS 1 or more, where MQTT 5 leaves room for it.
pub read_publish_mid : ℕ → H ℕ
read_publish_mid zero = return 0
read_publish_mid (suc qos) = do
  full ← ask (λ s. is_mqtt5 s.protocol && s.messages.msgs_in.inflight_quota == 0)
  demand (not full) Rc.protocol
  read_mid

-- What is left of the packet, a `uint32_t`.
abbrev pub payload_length : Packet → ℕ
payload_length p = (p.remaining_length + 2 ^ 32 - p.pos) % 2 ^ 32

pub read_payload : Env → H Bytes
read_payload env = do
  payloadlen ← ask (λ s. payload_length s.in_packet)
  if payloadlen == 0
      then return []
      else (do demand (env.mem 2) Rc.nomem; on_packet (read_bytes payloadlen))

abbrev pub topic_bytes : Option Bytes → Bytes
topic_bytes none = []
topic_bytes (some topic) = topic

-- `message__queue(mosq, message, mosq_md_in)`, whose return code is not looked at.
pub queue_incoming : Env → Message → H (Unit {0})
queue_incoming env m = do
  c ← ask (λ s. (message_queue env.send m md_in s.messages).0)
  set_messages c

-- `switch(message->msg.qos)`.
pub take_message : Env → ℕ → Message → List Property → H Rc
take_message env zero m properties = do log (Event.on_message m properties); return Rc.success
take_message env (suc zero) m properties = do
  decrement_receive_quota
  rc ← send_puback env m.mid 0
  log (Event.on_message m properties)
  return rc
take_message env (suc (suc zero)) m properties = do
  decrement_receive_quota
  rc ← send_pubrec env m.mid 0
  queue_incoming env (record m { properties = properties; state = MsgState.wait_for_pubrel })
  return rc
take_message env (suc (suc (suc qos))) m properties = exit_with Rc.protocol

abbrev pub new_message : Env → ℕ → ℕ → Option Bytes → Bytes → Message
new_message env header mid topic payload = record {
  mid = mid;
  topic = topic_bytes topic;
  payload = payload;
  qos = qos_of header;
  retain = retain_of header;
  properties = [];
  timestamp = env.now;
  state = MsgState.invalid;
  dup = dup_of header;
  expiry_interval = 0;
}

pub handle_publish : Env → H Rc
handle_publish env = do
  demand_active
  demand (env.mem 0) Rc.nomem
  header ← ask (λ s. s.in_packet.command)
  (topic, slen) ← on_packet (read_string (env.mem 1))
  demand (not (slen == 0)) Rc.protocol
  mid ← read_publish_mid (qos_of header)
  properties ← read_properties env Command.publish
  payload ← read_payload env
  take_message env (qos_of header) (new_message env header mid topic payload) properties

-- What follows `message__out_update`: an unknown identifier is acknowledged all the same.
pub after_update : Env → ℕ → Rc → H Rc
after_update env mid Rc.success = send_pubrel env mid
after_update env mid Rc.not_found = send_pubrel env mid
after_update env mid rc = exit_with rc

pub received_message : Env → ℕ → H Rc
received_message env mid s =
    let (c, rc) = out_update mid MsgState.wait_for_pubcomp 2 env.now s.messages in
    after_update env mid rc (record s { messages = c })

-- The receiver refuses the message. Its properties are freed by then.
abbrev pub tell_refused : Rc → ℕ → ℕ → H (Unit {0})
tell_refused Rc.success mid reason = log (Event.on_publish_v5 mid reason [])
tell_refused rc mid reason = return tt

pub refused_message : Env → ℕ → ℕ → H Rc
refused_message env mid reason = do
  (c, rc) ← ask (λ s. message_delete mid md_out 2 s.messages)
  set_messages c
  tell_refused rc mid reason
  increment_send_quota
  release env

pub handle_pubrec : Env → H Rc
handle_pubrec env = do
  demand_active
  mid ← read_mid
  (reason, properties) ← read_reason env Command.pubrec
  mqtt5 ← ask (λ s. is_mqtt5 s.protocol)
  if ltb reason 128 || not mqtt5 then received_message env mid else refused_message env mid reason

-- What follows `message__remove` in `handle__pubrel`, where the PUBCOMP is on its way.
pub after_remove : Rc → List Message → H Rc
after_remove Rc.success (m ∷ ms) = do log (Event.on_message m m.properties); return Rc.success
after_remove Rc.success [] = return Rc.success
after_remove Rc.not_found ms = return Rc.success
after_remove rc ms = return rc

-- What follows `send__pubcomp`: the message leaves the queue, and is passed on if that succeeded.
pub release_message : ℕ → Rc → H Rc
release_message mid Rc.success s =
    let (c, rc, ms) = message_remove mid md_in 2 s.messages in
    after_remove rc ms (record s { messages = c })
release_message mid failed s =
    let (c, rc, ms) = message_remove mid md_in 2 s.messages in
    exit_with failed (record s { messages = c })

pub handle_pubrel : Env → H Rc
handle_pubrel env = do
  demand_active
  flags ← ask (λ s. is_mqtt31 s.protocol || s.in_packet.command % 16 == 2)
  demand flags Rc.protocol
  mid ← read_mid
  (reason, properties) ← read_reason env Command.pubrel
  rc ← send_pubcomp env mid
  release_message mid rc
