-- ===== src/Handlers/Defs.antt =====
-- What a handler of a received packet works on: the part of `struct mosquitto` it touches, what it
-- does to the outside as a list of events, and how it ends.
use artemisia.Base.{Option, Bytes, ◌⊎◌, inl, inr, ℕ, Bool, true, false, List, [], ◌∷◌, ◌++◌, Rc}
use artemisia.State.{ClientState, Protocol, is_active}
use artemisia.Packet.Defs.{Packet, Outcome, done, fail, fault, M}
use artemisia.Property.Defs.{Property}
use artemisia.Messages.Defs.{Message, Client}
use artemisia.Messages.{Resend}

-- A callback with its arguments, a packet that is handed to send_mosq.c, or a message that is handed
-- to `send__publish`. A callback stands for its other versions too, such as `on_message_v5`, but for
-- `on_publish_v5`, which a refused message calls alone.
pub data Event : Type 0 where
  on_message : Message → List Property → Event
  on_publish : ℕ → ℕ → List Property → Event
  on_publish_v5 : ℕ → ℕ → List Property → Event
  on_subscribe : ℕ → List ℕ → List Property → Event
  on_unsubscribe : ℕ → List Property → Event
  client_disconnect : ℕ → Event
  sent : ℕ → ℕ → ℕ → Event
  sent_simple : ℕ → Event
  sent_publish : Message → Event
  on_connect : ℕ → ℕ → List Property → Event
  resent : Resend → Event

pub record Session : Type 0 where
  pub state : ClientState
  pub protocol : Protocol
  pub in_packet : Packet
  pub messages : Client
  pub ping_t : ℕ
  pub id : Option Bytes
  pub maximum_qos : ℕ
  pub keepalive : ℕ
  pub maximum_packet_size : ℕ
  pub reconnects : ℕ
  pub events : List Event

-- What the surroundings answer: the allocations of the handler and of `property__read_all`, what
-- `send__command_with_mid` and `send__simple_command` return, what `send__publish` returns, and the
-- time.
pub record Env : Type 0 where
  pub mem : ℕ → Bool
  pub property_mem : ℕ → Bool
  pub answer : ℕ → ℕ → Rc
  pub send : Message → Rc
  pub now : ℕ

-- A handler goes on, returns a code, or runs into a fault.
pub data Step (A : Type 0) : Type 0 where
  next : A → Session → Step A
  quit : Rc → Session → Step A
  crash : Step A

abbrev pub H : Type 0 → Type 0
H A = Session → Step A

infixl 5 ◌>>=◌ ◌>>◌
abbrev pub ◌>>=◌ : {A B : Type 0} → H A → (A → H B) → H B
◌>>=◌ m f s = elim (m s) [ next a s' ↦ f a s' | quit rc s' ↦ quit rc s' | crash ↦ crash ]

abbrev pub ◌>>◌ : {B : Type 0} → H (Unit {0}) → H B → H B
m >> k = m >>= λ _. k

abbrev pub return : {A : Type 0} → A → H A
return a s = next a s

abbrev pub exit_with : {A : Type 0} → Rc → H A
exit_with rc s = quit rc s

abbrev pub modify : (Session → Session) → H (Unit {0})
modify f s = next tt (f s)

abbrev pub log : Event → H (Unit {0})
log e = modify (λ s. record s { events = s.events ++ (e ∷ []) })

abbrev pub read_out : {A : Type 0} → Session → Outcome A → Step A
read_out s (done a p) = next a (record s { in_packet = p })
read_out s (fail rc p) = quit rc (record s { in_packet = p })
read_out s fault = crash

-- `rc = packet__read_...(&mosq->in_packet, ...); if(rc) return rc;`
abbrev pub on_packet : {A : Type 0} → M A → H A
on_packet m s = read_out s (m s.in_packet)

-- The same, where the code goes on with the return code.
abbrev pub attempted : {A : Type 0} → Session → Outcome A → Step (A ⊎ Rc)
attempted s (done a p) = next (inl a) (record s { in_packet = p })
attempted s (fail rc p) = next (inr rc) (record s { in_packet = p })
attempted s fault = crash

abbrev pub attempt : {A : Type 0} → M A → H (A ⊎ Rc)
attempt m s = attempted s (m s.in_packet)

-- The value of a condition on the client.
abbrev pub ask : {A : Type 0} → (Session → A) → H A
ask f s = next (f s) s

-- `if(!b) return MOSQ_ERR_...;`
abbrev pub demand : Bool → Rc → H (Unit {0})
demand true rc s = next tt s
demand false rc s = quit rc s

-- `if(state != mosq_cs_active) return MOSQ_ERR_PROTOCOL;`
abbrev pub demand_active : H (Unit {0})
demand_active s = demand (is_active s.state) Rc.protocol s
