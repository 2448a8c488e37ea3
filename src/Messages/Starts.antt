-- ===== src/Messages/Starts.antt =====
-- Which messages `message__release_to_inflight` hands to `send__publish`, and what becomes of them.
use artemisia.Base.{
  ℕ, ◌-◌, ◌≡◌, refl, sym, ◌∙◌, inl, inr, arith, true, false, ◌==◌, List, [], ◌∷◌, Rc, if-true,
  if-false, All,
}
use mathlib.Core.Path.{subst}
use artemisia.Messages.Defs.{Message, MsgState, is_invalid}
use artemisia.Messages.{release_loop, started}
use artemisia.Messages.Release.{HasQos, is_waiting, waits, full, passed, taken, failed, round}

-- Messages before and behind a walk, and those of them that were handed over, in order. A message
-- that is handed over had not been sent before, and then waits for the answer that its QoS asks for.
pub data Starts : List Message → List Message → List Message → Type 0 where
  rest : (ms : List Message) → Starts ms ms []
  kept :
      (m : Message) (ms ms' sent : List Message)
      → Starts ms ms' sent
      → Starts (m ∷ ms) (m ∷ ms') sent
  qos1 :
      (m : Message) (ms ms' sent : List Message)
      → m.qos ≡ 1
      → m.state ≡ MsgState.invalid
      → Starts ms ms' sent
      → Starts
          (m ∷ ms)
          (record m { state = MsgState.wait_for_puback } ∷ ms')
          (record m { state = MsgState.wait_for_puback } ∷ sent)
  qos2 :
      (m : Message) (ms ms' sent : List Message)
      → m.qos ≡ 2
      → m.state ≡ MsgState.invalid
      → Starts ms ms' sent
      → Starts
          (m ∷ ms)
          (record m { state = MsgState.wait_for_pubrec } ∷ ms')
          (record m { state = MsgState.wait_for_pubrec } ∷ sent)

is_invalid-invalid : (s : MsgState) → is_invalid s ≡ true → s ≡ MsgState.invalid
is_invalid-invalid MsgState.invalid h = refl
is_invalid-invalid _ h = cc

Starts-started :
    (m : Message) (ms ms' sent : List Message)
    → HasQos m
    → is_waiting m ≡ true
    → Starts ms ms' sent
    → Starts (m ∷ ms) (started m ∷ ms') (started m ∷ sent)
Starts-started m ms ms' sent (inl one) due h =
    let same : (m.qos == 1) ≡ true = ground arith in
    subst (λ x. Starts (m ∷ ms) (x ∷ ms') (x ∷ sent)) (sym (if-true (m.qos == 1) _ _ same))
      (Starts.qos1 m ms ms' sent one (is_invalid-invalid m.state (waits m due)) h)
Starts-started m ms ms' sent (inr two) due h =
    let other : (m.qos == 1) ≡ false = ground arith in
    let same : (m.qos == 2) ≡ true = ground arith in
    subst (λ x. Starts (m ∷ ms) (x ∷ ms') (x ∷ sent))
      (sym (if-false (m.qos == 1) _ _ other ∙ if-true (m.qos == 2) _ _ same))
      (Starts.qos2 m ms ms' sent two (is_invalid-invalid m.state (waits m due)) h)

pub release_loop-Starts :
    (send : Message → Rc) (ms : List Message) (quota : ℕ)
    → All HasQos ms
    → Starts ms (release_loop send ms quota).kept (release_loop send ms quota).sent
release_loop-Starts send [] quota h = unfold release_loop in Starts.rest []
release_loop-Starts send (m ∷ ms) quota (hm, h) = elim (round send m ms quota) [
  | full none_left e ↦ rw e (Starts.rest (m ∷ ms))
  | passed pos idle e ↦ rw e (Starts.kept m ms _ _ (release_loop-Starts send ms quota h))
  | taken pos due next en e ↦
      rw (e, en) (Starts-started m ms _ _ hm due (release_loop-Starts send ms (quota - 1) h))
  | failed pos due rc bad e ↦ rw e (Starts-started m ms ms [] hm due (Starts.rest ms))
]
