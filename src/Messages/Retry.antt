-- ===== src/Messages/Retry.antt =====
-- `message__retry_check`.
pub mod Resumed
use artemisia.Base.{
  ℕ, ◌+◌, ◌≡◌, refl, ap, ◌⊎◌, inl, inr, arith, true, List, [], ◌∷◌, ◌++◌, map, length,
  length-append,
}
use artemisia.Messages.Defs.{Message, Client, MsgState}
use artemisia.Messages.{Resend, publish, pubrec, pubrel, retry_one, retry_loop, retry_check}
use mathlib.Core.Path.{ap₂}

-- How many packets a message is due, by its state.
abbrev pub is_resent : MsgState → ℕ
is_resent MsgState.publish_qos1 = 1
is_resent MsgState.publish_qos2 = 1
is_resent MsgState.wait_for_pubrel = 1
is_resent MsgState.resend_pubrel = 1
is_resent MsgState.wait_for_pubcomp = 1
is_resent s = 0

abbrev pub resent : List Message → ℕ
resent [] = 0
resent (m ∷ ms) = is_resent m.state + resent ms

abbrev pub states : List Message → List MsgState
states ms = map (λ (m : Message). m.state) ms

retry_one_lem :
    (now : ℕ) (s : MsgState) (m : Message)
    → ((retry_one now s m).0.state ≡ m.state) × (length (retry_one now s m).1 ≡ is_resent s)
unfolding retry_one
retry_one_lem now MsgState.publish_qos1 m = (refl, refl)
retry_one_lem now MsgState.publish_qos2 m = (refl, refl)
retry_one_lem now MsgState.wait_for_pubrel m = (refl, refl)
retry_one_lem now MsgState.resend_pubrel m = (refl, refl)
retry_one_lem now MsgState.wait_for_pubcomp m = (refl, refl)
retry_one_lem now _ m = (refl, refl)

retry_loop_lem :
    (now : ℕ) (ms : List Message)
    → (states (retry_loop now ms).0 ≡ states ms) × (length (retry_loop now ms).1 ≡ resent ms)
unfolding retry_loop
retry_loop_lem now [] = (refl, refl)
retry_loop_lem now (m ∷ ms) =
    let (same, one) = retry_one_lem now m.state m in
    let (rest, count) = retry_loop_lem now ms in
    (
      ap₂ ◌∷◌ same rest,
      omega (arith, one, count, length-append (retry_one now m.state m).1 (retry_loop now ms).1),
    )

-- `message__retry_check` keeps the state of every message, and sends one packet for each that is
-- to be published again, or that waits for a PUBREL or a PUBCOMP, and none for the others.
pub retry_check_lem :
    (now : ℕ) (c : Client)
    → (states (retry_check now c).0.msgs_out.inflight ≡ states c.msgs_out.inflight)
      × (length (retry_check now c).1 ≡ resent c.msgs_out.inflight)
unfolding retry_check
retry_check_lem now c = retry_loop_lem now c.msgs_out.inflight

-- A message that goes out again.
abbrev pub repeated : ℕ → MsgState → Message → Message
repeated now state m = record m { timestamp = now; state = state; dup = true }

-- The packets that messages are due by their states, in order: a PUBLISH with DUP that was not
-- acknowledged, a PUBREC for a message that waits for its PUBREL, a PUBREL for one that waits for its
-- PUBCOMP, and nothing for the others.
pub data Due (now : ℕ) : List Message → List Resend → Type 0 where
  done : Due now [] []
  publishes :
      (m : Message) (ms : List Message) (rs : List Resend)
      → (m.state ≡ MsgState.publish_qos1) ⊎ (m.state ≡ MsgState.publish_qos2)
      → Due now ms rs
      → Due now (m ∷ ms) (publish (repeated now m.state m) ∷ rs)
  receives :
      (m : Message) (ms : List Message) (rs : List Resend)
      → m.state ≡ MsgState.wait_for_pubrel
      → Due now ms rs
      → Due now (m ∷ ms) (pubrec m.mid ∷ rs)
  releases :
      (m : Message) (ms : List Message) (rs : List Resend)
      → (m.state ≡ MsgState.resend_pubrel) ⊎ (m.state ≡ MsgState.wait_for_pubcomp)
      → Due now ms rs
      → Due now (m ∷ ms) (pubrel m.mid ∷ rs)
  rests :
      (m : Message) (ms : List Message) (rs : List Resend)
      → is_resent m.state ≡ 0
      → Due now ms rs
      → Due now (m ∷ ms) rs

Due-one :
    (now : ℕ) (s : MsgState) (m : Message) (ms : List Message) (rs : List Resend)
    → m.state ≡ s
    → Due now ms rs
    → Due now (m ∷ ms) ((retry_one now s m).1 ++ rs)
unfolding retry_one
Due-one now MsgState.publish_qos1 m ms rs e h = Due.publishes m ms rs (inl e) h
Due-one now MsgState.publish_qos2 m ms rs e h = Due.publishes m ms rs (inr e) h
Due-one now MsgState.wait_for_pubrel m ms rs e h = Due.receives m ms rs e h
Due-one now MsgState.resend_pubrel m ms rs e h = Due.releases m ms rs (inl e) h
Due-one now MsgState.wait_for_pubcomp m ms rs e h = Due.releases m ms rs (inr e) h
Due-one now _ m ms rs e h = Due.rests m ms rs (ap is_resent e) h

retry_loop-Due : (now : ℕ) (ms : List Message) → Due now ms (retry_loop now ms).1
unfolding retry_loop
retry_loop-Due now [] = Due.done
retry_loop-Due now (m ∷ ms) =
    Due-one now m.state m ms (retry_loop now ms).1 refl (retry_loop-Due now ms)

-- `message__retry_check` sends each message the packet that its state asks for, in order.
pub retry_check-Due : (now : ℕ) (c : Client) → Due now c.msgs_out.inflight (retry_check now c).1
unfolding retry_check
retry_check-Due now c = retry_loop-Due now c.msgs_out.inflight
