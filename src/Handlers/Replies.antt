-- ===== src/Handlers/Replies.antt =====
-- handle_suback.c, handle_unsuback.c, handle_ping.c, handle_disconnect.c and handle_auth.c, and the
-- choice between all handlers in read_handle.c.
use artemisia.Base.{ℕ, zero, suc, ◌-◌, ◌*◌, ◌/◌, ◌%◌, true, false}
use artemisia.Base.{List, [], ◌∷◌, Rc, ltb, ◌==◌, if◌then◌else◌}
use artemisia.State.{ClientState, is_mqtt5}
use artemisia.Packet.Read.{read_byte}
use artemisia.Property.Command
use artemisia.Property.Read.{property_read_all}
use artemisia.Handlers.Defs.{
  Event, Env, Step, quit, H, ◌>>=◌, ◌>>◌, return, exit_with, modify, log, on_packet, ask, demand,
  demand_active,
}
use artemisia.Handlers.{send_pingresp, read_mid, read_properties, handle_pubackcomp}
use artemisia.Handlers.Connack.{handle_connack}
use artemisia.Handlers.Publish.{handle_publish, handle_pubrec, handle_pubrel}

-- The loop over the granted QoS. A round takes a byte, so what is left of the packet is enough
-- fuel.
pub granted_loop : ℕ → H (List ℕ)
granted_loop zero = return []
granted_loop (suc fuel) = do
  more ← ask (λ s. ltb s.in_packet.pos s.in_packet.remaining_length)
  let round : H (List ℕ) = (do
    qos ← on_packet read_byte
    rest ← granted_loop fuel
    return (qos ∷ rest))
  if more then round else return []

pub handle_suback : Env → H Rc
handle_suback env = do
  demand_active
  mid ← read_mid
  properties ← read_properties env Command.suback
  demand (env.mem 0) Rc.nomem
  count ← ask (λ s. s.in_packet.remaining_length - s.in_packet.pos)
  granted ← granted_loop count
  log (Event.on_subscribe mid granted properties)
  return Rc.success

pub handle_unsuback : Env → H Rc
handle_unsuback env = do
  demand_active
  mid ← read_mid
  properties ← read_properties env Command.unsuback
  log (Event.on_unsubscribe mid properties)
  return Rc.success

pub handle_pingreq : Env → H Rc
handle_pingreq env = do demand_active; send_pingresp env

pub handle_pingresp : H Rc
handle_pingresp = do demand_active; modify (λ s. record s { ping_t = 0 }); return Rc.success

-- What `do_client_disconnect` does to the packets stands in Outgoing.
pub handle_disconnect : Env → H Rc
handle_disconnect env = do
  mqtt5 ← ask (λ s. is_mqtt5 s.protocol)
  demand mqtt5 Rc.protocol
  reason ← on_packet read_byte
  longer ← ask (λ s. ltb 2 s.in_packet.remaining_length)
  properties ←
      (if longer
        then on_packet (property_read_all Command.disconnect env.property_mem)
        else return [])
  modify (λ s. record s { state = ClientState.disconnected })
  log (Event.client_disconnect reason)
  return Rc.success

-- `if(packet__read_byte(...)) return 1;`
abbrev pub or_one : {A : Type 0} → Step A → Step A
or_one (quit rc s) = quit Rc.nomem s
or_one r = r

pub handle_auth : Env → H Rc
handle_auth env = do
  mqtt5 ← ask (λ s. is_mqtt5 s.protocol)
  demand mqtt5 Rc.protocol
  reason ← (λ s. or_one (on_packet read_byte s))
  properties ← on_packet (property_read_all Command.auth env.property_mem)
  return Rc.success

-- `handle__packet`, by the upper four bits of the command.
unfoldable pub handle_packet : Env → H Rc
handle_packet env = do
  command ← ask (λ s. s.in_packet.command / 16 % 16 * 16)
  if command == Command.pingreq
      then handle_pingreq env
      else if command == Command.pingresp
      then handle_pingresp
      else if command == Command.puback
      then handle_pubackcomp env true
      else if command == Command.pubcomp
      then handle_pubackcomp env false
      else if command == Command.publish
      then handle_publish env
      else if command == Command.pubrec
      then handle_pubrec env
      else if command == Command.pubrel
      then handle_pubrel env
      else if command == Command.connack
      then handle_connack env
      else if command == Command.suback
      then handle_suback env
      else if command == Command.unsuback
      then handle_unsuback env
      else if command == Command.disconnect
      then handle_disconnect env
      else if command == Command.auth
      then handle_auth env
      else exit_with Rc.protocol
