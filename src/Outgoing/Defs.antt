-- ===== src/Outgoing/Defs.antt =====
-- The part of `struct mosquitto` of include/mosquitto_internal.h that sending uses.
use artemisia.Base.{ℕ, Bool, Option, List, Bytes, Rc}
use artemisia.State.{ClientState}
use artemisia.Packet.Defs.{Packet}

-- What the socket answers to `net__write`: it takes up to `k + 1` bytes, or sets `errno`.
pub data Reply : Type 0 where
  accepts : ℕ → Reply
  again conn_reset failed : Reply

-- `wire`, `on_publish` and `on_disconnect` are what the network and the callbacks have got so far.
-- `threaded` is `threaded != mosq_ts_none`. `out_packet_last` is the end of the list.
pub record Outgoing : Type 0 where
  pub has_socket : Bool
  pub state : ClientState
  pub want_connect : Bool
  pub in_callback : Bool
  pub threaded : Bool
  pub keepalive : ℕ
  pub next_msg_out : ℕ
  pub current_out_packet : Option Packet
  pub out_packet : List Packet
  pub wire : Bytes
  pub on_publish : List ℕ
  pub on_disconnect : List Rc
