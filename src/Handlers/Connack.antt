-- ===== src/Handlers/Connack.antt =====
-- handle_connack.c: the answer to the connection, with what the server asks for.
pub mod Quota
use artemisia.Base.{
  ℕ, zero, suc, ◌+◌, Bool, true, false, not, ◌&&◌, ◌||◌, ◌⊎◌, inl, inr, Option, none, some, List,
  [], ◌∷◌, ◌++◌, map, Bytes, Rc, ltb, ◌==◌, if◌then◌else◌,
}
use artemisia.State.{ClientState, is_mqtt5}
use artemisia.Packet.Read.{read_byte}
use artemisia.Property.Defs.{Property, Value, i8, i16, i32}
use artemisia.Property.Ident
use artemisia.Property.Command
use artemisia.Property.Read.{property_read_all}
use artemisia.Property.Store.{
  read_byte_property, read_int16_property, read_int32_property, read_string_property,
}
use artemisia.Messages.{retry_check}
use artemisia.Handlers.Defs.{
  Event, Session, Env, Step, next, quit, crash, H, ◌>>=◌, ◌>>◌, return, exit_with, modify, log,
  on_packet, attempt, ask,
}

-- `connack_callback`.
pub connack_callback : ℕ → ℕ → List Property → H (Unit {0})
connack_callback reason_code connect_flags properties = do
  modify (λ s. record s { reconnects = if reason_code == 0 then 0 else s.reconnects })
  log (Event.on_connect reason_code connect_flags properties)

-- What a look-up stores: the number of the property, or what was there.
abbrev pub number_or : ℕ → Option Property → ℕ
number_or old none = old
number_or old (some p) = elim (p.value) [ i8 n ↦ n | i16 n ↦ n | i32 n ↦ n | other ↦ old ]

-- The client identifier that the server gives: a client that has one already does not take it.
pub take_clientid : Option Bytes → H (Unit {0})
take_clientid none s = next tt s
take_clientid (some clientid) s = elim (s.id) [
  | none ↦ next tt (record s { id = some clientid })
  | some id ↦ quit Rc.protocol s
]

-- The limits of the server.
pub take_limits : List Property → H (Unit {0})
take_limits ps = modify (λ s.
    let out = s.messages.msgs_out in
    let maximum =
      number_or out.inflight_maximum (read_int16_property ps Ident.receive_maximum false) in
    record s {
      maximum_qos = number_or s.maximum_qos (read_byte_property ps Ident.maximum_qos false);
      keepalive = number_or s.keepalive (read_int16_property ps Ident.server_keep_alive false);
      maximum_packet_size =
          number_or s.maximum_packet_size (read_int32_property ps Ident.maximum_packet_size false);
      messages = record (s.messages) {
        msgs_out = record out { inflight_maximum = maximum; inflight_quota = maximum };
      };
    })

abbrev pub activated : ClientState → ClientState
activated ClientState.disconnecting = ClientState.disconnecting
activated s = ClientState.active

-- `switch(reason_code)`.
pub connected : Env → ℕ → H Rc
connected env zero s =
    let (c, resends) = retry_check env.now s.messages in
    next Rc.success (record s {
      state = activated s.state;
      messages = c;
      events = s.events ++ map Event.resent resends;
    })
connected env (suc n) s = if ltb n 5 then next Rc.conn_refused s else next Rc.protocol s

-- `property__read_all`, and its failure: 132 is MQTT_RC_UNSUPPORTED_PROTOCOL_VERSION.
pub connack_properties : Env → ℕ → ℕ → H (List Property)
connack_properties env reason_code connect_flags = do
  mqtt5 ← ask (λ s. is_mqtt5 s.protocol)
  answer ←
      (if mqtt5
        then attempt (property_read_all Command.connack env.property_mem)
        else return (inl []))
  decide answer
  where
    refused : Rc → H (List Property)
    refused Rc.protocol =
        if reason_code == 1
        then (connack_callback 132 connect_flags [] >> exit_with Rc.protocol)
        else exit_with Rc.protocol
    refused rc = exit_with rc

    decide : List Property ⊎ Rc → H (List Property)
    decide (inl properties) = return properties
    decide (inr rc) = refused rc

pub handle_connack : Env → H Rc
handle_connack env = do
  connect_flags ← on_packet read_byte
  reason_code ← on_packet read_byte
  properties ← connack_properties env reason_code connect_flags
  take_clientid (read_string_property properties Ident.assigned_client_identifier false (env.mem 0))
  take_limits properties
  connack_callback reason_code connect_flags properties
  connected env reason_code
