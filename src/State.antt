-- ===== src/State.antt =====
-- `enum mosquitto_client_state` and `enum mosquitto__protocol` of include/mosquitto_internal.h.
use artemisia.Base.{Bool, true, false}

pub data ClientState : Type 0 where
  new connected disconnecting active connect_pending connect_srv disconnect_ws : ClientState
  disconnected socks5_new socks5_start socks5_request socks5_reply socks5_auth_ok : ClientState
  socks5_userpass_reply socks5_send_userpass expiring duplicate : ClientState
  disconnect_with_will disused authenticating reauthenticating : ClientState

pub data Protocol : Type 0 where
  invalid mqtt31 mqtt311 mqtts mqtt5 : Protocol

abbrev pub is_active : ClientState → Bool
is_active ClientState.active = true
is_active s = false

abbrev pub is_connect_pending : ClientState → Bool
is_connect_pending ClientState.connect_pending = true
is_connect_pending s = false

abbrev pub is_mqtt5 : Protocol → Bool
is_mqtt5 Protocol.mqtt5 = true
is_mqtt5 p = false

abbrev pub is_mqtt31 : Protocol → Bool
is_mqtt31 Protocol.mqtt31 = true
is_mqtt31 p = false
