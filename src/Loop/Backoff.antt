-- ===== src/Loop/Backoff.antt =====
-- The delays between attempts to connect.
use artemisia.Base.{
  ℕ, ◌≤◌, ◌≡◌, refl, ◌∙◌, arith, inl, inr, Bool, true, false, ◌||◌, List, [], ◌∷◌, ltb, All,
  Bool-cases, if◌then◌else◌, is_failure,
}
use mathlib.Core.Path.{subst}
use artemisia.Loop.{
  Reconnecting, wanted_delay, next_delay, Turn, looped, attempt, Phase, Run, is_fatal, is_ending,
  confirmed, phase_after, run_loop, loop_forever,
}

next_delay_bounds :
    (r : Reconnecting)
    → ((next_delay r).0 ≤ r.reconnect_delay_max)
      × ((next_delay r).1.reconnect_delay_max ≡ r.reconnect_delay_max)
unfolding next_delay
next_delay_bounds r = elim (Bool-cases (ltb r.reconnect_delay_max (wanted_delay r))) [
  | inl above ↦ rw above (omega arith, refl)
  | inr within_ ↦ rw within_ (ground arith, refl)
]

-- Every delay is `n` at most.
abbrev pub IsBelow : ℕ → Run → Type 0
IsBelow n run = All (λ (d : ℕ). d ≤ n) run.delays

confirmed_maximum :
    (connack : Bool) (r : Reconnecting)
    → (confirmed connack r).reconnect_delay_max ≡ r.reconnect_delay_max
confirmed_maximum true r = refl
confirmed_maximum false r = refl

if-IsBelow :
    (n : ℕ) (run run' : Run) (b : Bool)
    → IsBelow n run
    → IsBelow n run'
    → IsBelow n (if b then run else run')
if-IsBelow n run run' true h h' = h
if-IsBelow n run run' false h h' = h'

run_loop-IsBelow :
    (phase : Phase) (answers : List Turn) (r : Reconnecting) (n : ℕ)
    → r.reconnect_delay_max ≡ n
    → IsBelow n (run_loop phase answers r)
unfolding run_loop
run_loop-IsBelow phase [] r n e = tt
run_loop-IsBelow Phase.looping (looped rc eproto connack ∷ answers) r n e =
    let r' = confirmed connack r in
    let e' = confirmed_maximum connack r ∙ e in
    if-IsBelow n _ _ (is_failure rc)
      (if-IsBelow n _ _ (is_fatal rc || eproto) tt
        (run_loop-IsBelow Phase.reconnecting answers r' n e'))
      (run_loop-IsBelow Phase.looping answers r' n e')
run_loop-IsBelow Phase.reconnecting (attempt before slept after_ rc ∷ answers) r n e =
    let (below, same) = next_delay_bounds r in
    let rest = run_loop-IsBelow (phase_after rc) answers (next_delay r).1 n (same ∙ e) in
    if-IsBelow n _ _ (is_ending before) tt (
      subst (λ m. (next_delay r).0 ≤ m) e below,
      if-IsBelow n _ _ (is_failure slept) tt (if-IsBelow n _ _ (is_ending after_) tt rest),
    )
run_loop-IsBelow Phase.looping (attempt before slept after_ rc ∷ answers) r n e = tt
run_loop-IsBelow Phase.reconnecting (looped rc eproto connack ∷ answers) r n e = tt

-- However `mosquitto_loop` and the attempts to connect end, no delay of `mosquitto_loop_forever` is
-- above the maximum that was set.
pub loop_forever-IsBelow :
    (answers : List Turn) (r : Reconnecting)
    → IsBelow r.reconnect_delay_max (loop_forever answers r)
unfolding loop_forever
loop_forever-IsBelow answers r =
    run_loop-IsBelow Phase.looping answers (record r { reconnects = 0 }) r.reconnect_delay_max refl
