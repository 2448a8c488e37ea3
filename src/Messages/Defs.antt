-- ===== src/Messages/Defs.antt =====
-- The messages of a client: `struct mosquitto_message_all` and `struct mosquitto_msg_data` of
-- include/mosquitto_internal.h, and the part of `struct mosquitto` that they stand in.
use artemisia.Base.{
  ℕ, suc, ◌+◌, ◌≡◌, Bool, true, false, List, [], ◌∷◌, Bytes, length, if◌then◌else◌,
}
use artemisia.Property.Defs.{Property}

-- `enum mosquitto_msg_state`.
pub data MsgState : Type 0 where
  invalid publish_qos0 publish_qos1 wait_for_puback publish_qos2 wait_for_pubrec : MsgState
  resend_pubrel wait_for_pubrel resend_pubcomp wait_for_pubcomp send_pubrec queued : MsgState

-- `enum mosquitto_msg_direction`.
pub data Direction : Type 0 where
  md_in md_out : Direction

-- `struct mosquitto_message_all` with its `struct mosquitto_message`; the links of the list are
-- the order of a list.
pub record Message : Type 0 where
  pub mid : ℕ
  pub topic : Bytes
  pub payload : Bytes
  pub qos : ℕ
  pub retain : Bool
  pub properties : List Property
  pub timestamp : ℕ
  pub state : MsgState
  pub dup : Bool
  pub expiry_interval : ℕ

pub record MsgData : Type 0 where
  pub inflight : List Message
  pub queue_len : ℕ
  pub inflight_quota : ℕ
  pub inflight_maximum : ℕ

pub record Client : Type 0 where
  pub msgs_in : MsgData
  pub msgs_out : MsgData
  pub last_mid : ℕ

abbrev pub is_invalid : MsgState → Bool
is_invalid MsgState.invalid = true
is_invalid s = false

-- A message that takes a place of the quota: it was handed to the network.
abbrev pub is_active : Message → Bool
is_active m = if is_invalid m.state then false else true

abbrev pub active : List Message → ℕ
active [] = 0
active (m ∷ ms) = if is_active m then suc (active ms) else active ms

-- `queue_len` counts the list.
abbrev pub IsCounted : MsgData → Type 0
IsCounted d = d.queue_len ≡ length d.inflight

-- Every place of the maximum is free or taken by one message.
abbrev pub IsBalanced : MsgData → Type 0
IsBalanced d = active d.inflight + d.inflight_quota ≡ d.inflight_maximum
