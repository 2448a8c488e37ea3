-- ===== src/Messages/Retry/Resumed.antt =====
-- `message__retry_check` behind `message__reconnect_reset`.
use artemisia.Base.{
  ℕ, zero, suc, ◌+◌, ◌≡◌, refl, sym, ap, ◌∙◌, ◌⊎◌, inl, inr, arith, false, ◌==◌, List, [], ◌∷◌,
  ◌++◌, All, if-true, if-false,
}
use mathlib.Core.Path.{subst}
use artemisia.Messages.Defs.{Message, Client, MsgState}
use artemisia.Messages.{Resend, publish, pubrel, retry_one, retry_loop, retry_check}
use artemisia.Messages.{decrement_quota, reset_out_loop, reset_state, reconnect_reset}
use artemisia.Messages.Retry.{repeated}

-- A message of QoS 1, or one of QoS 2 that is not sent yet or in the middle of its hand-shake.
abbrev pub InSession : Message → Type 0
InSession m =
    (m.qos ≡ 1)
    ⊎ ((m.qos ≡ 2)
        × ((m.state ≡ MsgState.invalid)
            ⊎ (m.state ≡ MsgState.wait_for_pubrec)
            ⊎ (m.state ≡ MsgState.publish_qos2)
            ⊎ (m.state ≡ MsgState.wait_for_pubcomp)
            ⊎ (m.state ≡ MsgState.resend_pubrel)))

-- What is sent for the messages of a session behind a new connection that leaves so many places.
pub data Resumes (now : ℕ) : ℕ → List Message → List Resend → Type 0 where
  done : (places : ℕ) → Resumes now places [] []
  full : (ms : List Message) → Resumes now 0 ms []
  published :
      (places : ℕ) (m : Message) (ms : List Message) (rs : List Resend)
      → m.qos ≡ 1
      → Resumes now places ms rs
      → Resumes now (suc places) (m ∷ ms) (publish (repeated now MsgState.publish_qos1 m) ∷ rs)
  received :
      (places : ℕ) (m : Message) (ms : List Message) (rs : List Resend)
      → m.qos ≡ 2
      → (m.state ≡ MsgState.wait_for_pubrec) ⊎ (m.state ≡ MsgState.publish_qos2)
      → Resumes now places ms rs
      → Resumes now (suc places) (m ∷ ms) (publish (repeated now MsgState.publish_qos2 m) ∷ rs)
  released :
      (places : ℕ) (m : Message) (ms : List Message) (rs : List Resend)
      → m.qos ≡ 2
      → (m.state ≡ MsgState.wait_for_pubcomp) ⊎ (m.state ≡ MsgState.resend_pubrel)
      → Resumes now places ms rs
      → Resumes now (suc places) (m ∷ ms) (pubrel m.mid ∷ rs)
  unsent :
      (places : ℕ) (m : Message) (ms : List Message) (rs : List Resend)
      → m.qos ≡ 2
      → m.state ≡ MsgState.invalid
      → Resumes now places ms rs
      → Resumes now (suc places) (m ∷ ms) rs

-- A message in the state that the reset gives it.
abbrev placed : Message → MsgState → Message
placed m state = record m { timestamp = 0; state = state }

reset_state-one : (m : Message) → m.qos ≡ 1 → reset_state m ≡ MsgState.publish_qos1
reset_state-one m e = if-true (m.qos == 1) _ _ (ground arith)

by_state : MsgState → MsgState
by_state s = elim s [
  | MsgState.wait_for_pubrec ↦ MsgState.publish_qos2
  | MsgState.wait_for_pubcomp ↦ MsgState.resend_pubrel
  | other ↦ other
]

reset_state-two :
    (m : Message) (s : MsgState) → m.qos ≡ 2 → m.state ≡ s → reset_state m ≡ by_state s
unfolding by_state
reset_state-two m s e h =
    if-false (m.qos == 1) _ _ (ground arith)
    ∙ if-true (m.qos == 2) _ _ (ground arith)
    ∙ ap by_state h

module _ (now places : ℕ) (m : Message) (ms : List Message) (rs : List Resend) where
  -- What is sent for a message with a place, by the state that the reset gives it.
  Resumes-by :
      (s : MsgState)
      → reset_state m ≡ s
      → Resumes now (suc places) (m ∷ ms) ((retry_one now s (placed m s)).1 ++ rs)
      → Resumes now
          (suc places)
          (m ∷ ms)
          ((retry_one now (reset_state m) (placed m (reset_state m))).1 ++ rs)
  Resumes-by s e k =
      subst (λ x. Resumes now (suc places) (m ∷ ms) ((retry_one now x (placed m x)).1 ++ rs))
        (sym e) k

  Resumes-one :
      InSession m
      → Resumes now places ms rs
      → Resumes now
          (suc places)
          (m ∷ ms)
          ((retry_one now (reset_state m) (placed m (reset_state m))).1 ++ rs)
  unfolding retry_one by_state
  Resumes-one (inl one) h =
      Resumes-by MsgState.publish_qos1 (reset_state-one m one)
        (Resumes.published places m ms rs one h)
  Resumes-one (inr (two, inl s)) h =
      Resumes-by MsgState.invalid (reset_state-two m MsgState.invalid two s)
        (Resumes.unsent places m ms rs two s h)
  Resumes-one (inr (two, inr (inl s))) h =
      Resumes-by MsgState.publish_qos2 (reset_state-two m MsgState.wait_for_pubrec two s)
        (Resumes.received places m ms rs two (inl s) h)
  Resumes-one (inr (two, inr (inr (inl s)))) h =
      Resumes-by MsgState.publish_qos2 (reset_state-two m MsgState.publish_qos2 two s)
        (Resumes.received places m ms rs two (inr s) h)
  Resumes-one (inr (two, inr (inr (inr (inl s))))) h =
      Resumes-by MsgState.resend_pubrel (reset_state-two m MsgState.wait_for_pubcomp two s)
        (Resumes.released places m ms rs two (inl s) h)
  Resumes-one (inr (two, inr (inr (inr (inr s))))) h =
      Resumes-by MsgState.resend_pubrel (reset_state-two m MsgState.resend_pubrel two s)
        (Resumes.released places m ms rs two (inr s) h)

retry_full :
    (now : ℕ) (ms : List Message) (len : ℕ) → (retry_loop now (reset_out_loop ms 0 len).0).1 ≡ []
unfolding retry_loop reset_out_loop retry_one
retry_full now [] len = refl
retry_full now (m ∷ ms) len = retry_full now ms (len + 1)

less : (places : ℕ) → decrement_quota (suc places) ≡ places
unfolding decrement_quota
less places = ground arith

retry_loop-Resumes :
    (now places len : ℕ) (ms : List Message)
    → All InSession ms
    → Resumes now places ms (retry_loop now (reset_out_loop ms places len).0).1
unfolding retry_loop reset_out_loop
retry_loop-Resumes now places len [] h = Resumes.done places
retry_loop-Resumes now zero len (m ∷ ms) h =
    subst (Resumes now 0 (m ∷ ms)) (sym (retry_full now (m ∷ ms) len)) (Resumes.full (m ∷ ms))
retry_loop-Resumes now (suc places) len (m ∷ ms) (hm, h) =
    let some_left : (suc places == 0) ≡ false = ground arith in
    let one_less : decrement_quota (suc places) ≡ places = less places in
    rw (some_left, one_less)
      (Resumes-one now places m ms _ hm (retry_loop-Resumes now places (len + 1) ms h))

-- Behind a new connection, `message__retry_check` sends one packet for each message that has a place
-- of the quota, in order: for QoS 1 the PUBLISH again, with DUP; for QoS 2 the PUBLISH again, with DUP,
-- where no PUBREC has come, and the PUBREL where one has. It sends nothing for messages beyond the
-- places, nor for a message of QoS 2 that was not sent before, which takes up a place all the same.
pub retry_check-reconnect_reset :
    (now : ℕ) (c : Client)
    → All InSession c.msgs_out.inflight
    → Resumes now c.msgs_out.inflight_maximum c.msgs_out.inflight
        (retry_check now (reconnect_reset c)).1
unfolding reconnect_reset retry_check
retry_check-reconnect_reset now c h =
    retry_loop-Resumes now c.msgs_out.inflight_maximum 0 c.msgs_out.inflight h
