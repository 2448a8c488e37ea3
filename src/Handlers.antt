-- ===== src/Handlers.antt =====
-- The handlers of received packets: handle_pubackcomp.c, handle_publish.c, handle_pubrec.c,
-- handle_pubrel.c, handle_suback.c, handle_unsuback.c, handle_ping.c, handle_disconnect.c and
-- handle_auth.c, with the senders of send_mosq.c and the receive quota of util_mosq.c as far as
-- they change the client.
pub mod Defs
pub mod Connack
pub mod Publish
pub mod Replies
pub mod Acknowledge
mod Tests
use artemisia.Base.{ℕ, zero, suc, ◌+◌, ◌-◌, ◌/◌, ◌%◌, ◌^◌, Bool, true, false, not, ◌&&◌, ◌||◌}
use artemisia.Base.{
  Option, none, some, List, [], ◌∷◌, ◌++◌, map, Bytes, Rc, ltb, ◌==◌, if◌then◌else◌,
}
use artemisia.State.{ClientState, is_mqtt5, is_mqtt31}
use artemisia.Packet.Read.{read_byte, read_bytes, read_uint16, read_string}
use artemisia.Property.Defs.{Property}
use artemisia.Property.Command
use artemisia.Property.Read.{property_read_all}
use artemisia.Messages.Defs.{MsgState, md_in, md_out, Message, MsgData, Client}
use artemisia.Messages.{
  increment_quota, decrement_quota, release_to_inflight, message_queue, message_remove,
  message_delete, out_update,
}
use artemisia.Handlers.Defs.{
  Event, Session, Env, Step, next, quit, crash, H, ◌>>=◌, ◌>>◌, return, exit_with, modify, log,
  on_packet, ask, demand, demand_active,
}

abbrev pub set_messages : Client → H (Unit {0})
set_messages c = modify (λ s. record s { messages = c })

-- `util__increment_receive_quota` and `util__decrement_receive_quota`.
abbrev pub increment_receive_quota : H (Unit {0})
increment_receive_quota = modify (λ s. record s {
  messages = record (s.messages) { msgs_in = increment_quota s.messages.msgs_in };
})

abbrev pub decrement_receive_quota : H (Unit {0})
decrement_receive_quota = modify (λ s. record s {
  messages = record (s.messages) {
    msgs_in = record (s.messages.msgs_in) {
      inflight_quota = decrement_quota s.messages.msgs_in.inflight_quota;
    };
  };
})

-- `util__increment_send_quota`.
abbrev pub increment_send_quota : H (Unit {0})
increment_send_quota = modify (λ s. record s {
  messages = record (s.messages) { msgs_out = increment_quota s.messages.msgs_out };
})

-- `send__command_with_mid`.
abbrev pub send_command_with_mid : Env → ℕ → ℕ → ℕ → H Rc
send_command_with_mid env command mid reason = do
  log (Event.sent command mid reason)
  return (env.answer command mid)

pub send_puback : Env → ℕ → ℕ → H Rc
send_puback env mid reason = do
  increment_receive_quota
  send_command_with_mid env Command.puback mid reason

pub send_pubcomp : Env → ℕ → H Rc
send_pubcomp env mid = do increment_receive_quota; send_command_with_mid env Command.pubcomp mid 0

pub send_pubrec : Env → ℕ → ℕ → H Rc
send_pubrec env mid reason = do
  mqtt5 ← ask (λ s. is_mqtt5 s.protocol)
  if ltb 127 reason && mqtt5 then increment_receive_quota else return tt
  send_command_with_mid env Command.pubrec mid reason

pub send_pubrel : Env → ℕ → H Rc
send_pubrel env mid = send_command_with_mid env (Command.pubrel + 2) mid 0

pub send_pingresp : Env → H Rc
send_pingresp env = do
  log (Event.sent_simple Command.pingresp)
  return (env.answer Command.pingresp 0)

-- `packet__read_uint16(&mosq->in_packet, &mid)` and `if(mid == 0) return MOSQ_ERR_PROTOCOL;`
pub read_mid : H ℕ
read_mid = do mid ← on_packet read_uint16; demand (not (mid == 0)) Rc.protocol; return mid

-- The reason code and the properties of an acknowledgement, where MQTT 5 has them.
pub read_reason : Env → ℕ → H (ℕ × List Property)
read_reason env command = do
  coded ← ask (λ s. is_mqtt5 s.protocol && ltb 2 s.in_packet.remaining_length)
  longer ← ask (λ s. ltb 3 s.in_packet.remaining_length)
  let properties : H (List Property) =
      if longer then on_packet (property_read_all command env.property_mem) else return []
  if coded
      then (do reason ← on_packet read_byte; ps ← properties; return (reason, ps))
      else return (0, [])

-- The properties of a packet, where MQTT 5 has them.
pub read_properties : Env → ℕ → H (List Property)
read_properties env command = do
  mqtt5 ← ask (λ s. is_mqtt5 s.protocol)
  if mqtt5 then on_packet (property_read_all command env.property_mem) else return []

-- `message__release_to_inflight(mosq, mosq_md_out)`, whose return code is not looked at.
pub release : Env → H Rc
release env s =
    let (c, rc, ms) = release_to_inflight env.send md_out s.messages in
    next Rc.success (record s { messages = c; events = s.events ++ map Event.sent_publish ms })

-- What follows `message__delete` in `handle__pubackcomp`.
pub after_delete : Rc → H (Unit {0}) → H Rc → H Rc
after_delete Rc.success tell rest = tell >> rest
after_delete Rc.not_found tell rest = rest
after_delete rc tell rest = exit_with rc

pub acknowledged : Env → ℕ → ℕ → ℕ → List Property → H Rc
acknowledged env mid qos reason properties s =
    let (c, rc) = message_delete mid md_out qos s.messages in
    after_delete rc (log (Event.on_publish mid reason properties)) (release env)
      (record s { messages = c })

-- `acked` is true for a PUBACK and false for a PUBCOMP.
pub handle_pubackcomp : Env → Bool → H Rc
handle_pubackcomp env acked = do
  demand_active
  increment_send_quota
  mid ← read_mid
  (reason, properties) ← read_reason env Command.puback
  acknowledged env mid (if acked then 1 else 2) reason properties
