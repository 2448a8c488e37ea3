-- ===== src/Messages/Release.antt =====
-- `message__release_to_inflight`: how places of the quota go to waiting messages.
use artemisia.Base.{ℕ, zero, suc, ◌+◌, ◌-◌, ◌<◌, ◌≡◌, refl, ap, ◌∙◌, ◌⊎◌, inl, inr, arith}
use artemisia.Base.{
  true, false, ◌&&◌, Bool, Bool-cases, List, [], ◌∷◌, map, Rc, ltb, if◌then◌else◌, length,
  length-map, All, sym,
}
use mathlib.Core.Path.{ap₂}
use artemisia.Messages.Defs.{Message, is_invalid, active}
use artemisia.Messages.{Walk, keep, stopped, started, after_send, decrement_quota, release_loop}

-- A message that may be queued: QoS 1 or 2.
abbrev pub HasQos : Message → Type 0
HasQos m = (m.qos ≡ 1) ⊎ (m.qos ≡ 2)

-- What a return code of the walk says of the place of its last message.
abbrev pub unpaid : Rc → ℕ
unpaid Rc.success = 0
unpaid rc = 1

pub Rc-cases : (rc : Rc) → (rc ≡ Rc.success) ⊎ (unpaid rc ≡ 1)
Rc-cases Rc.success = inl refl
Rc-cases _ = inr refl

after_send-unpaid :
    (rc : Rc) (m : Message) (rest : List Message) (quota : ℕ) (w : Walk)
    → unpaid rc ≡ 1
    → after_send rc m rest quota w ≡ stopped (m ∷ rest) quota rc (m ∷ [])
unfolding after_send
after_send-unpaid Rc.success m rest quota w h = absurd (omega arith)
after_send-unpaid _ m rest quota w h = refl

after_send-ok :
    (m : Message) (rest : List Message) (quota : ℕ) (w : Walk)
    → after_send Rc.success m rest quota w ≡ record w { kept = m ∷ w.kept; sent = m ∷ w.sent }
unfolding after_send
after_send-ok m rest quota w = refl

active-started :
    (m : Message) (ms : List Message) → HasQos m → active (started m ∷ ms) ≡ suc (active ms)
active-started m ms (inl one) = ground arith
active-started m ms (inr two) = ground arith

active-invalid :
    (m : Message) (ms : List Message) → is_invalid m.state ≡ true → active (m ∷ ms) ≡ active ms
active-invalid m ms h = ground arith

-- A message that waits for a place.
abbrev pub is_waiting : Message → Bool
is_waiting m = ltb 0 m.qos && is_invalid m.state

active-idle :
    (m : Message) (ms : List Message)
    → HasQos m
    → is_waiting m ≡ false
    → active (m ∷ ms) ≡ suc (active ms)
active-idle m ms (inl one) h = ground arith
active-idle m ms (inr two) h = ground arith

HasQos-started : (m : Message) → HasQos m → HasQos (started m)
HasQos-started m (inl one) = ground arith
HasQos-started m (inr two) = ground arith

pub waits : (m : Message) → is_waiting m ≡ true → is_invalid m.state ≡ true
waits m h = ground arith

mid-started : (m : Message) → (started m).mid ≡ m.mid
mid-started m = ground arith

-- One walk over the messages, whatever `send__publish` answers.
module _ (send : Message → Rc) where
  -- The ways of one round: no place is left, the message needs none, it takes one, or sending
  -- fails.
  pub data Round (cur : Message) (rest : List Message) (quota : ℕ) (w : Walk) : Type 0 where
    full : quota ≡ 0 → w ≡ stopped (cur ∷ rest) quota Rc.success [] → Round cur rest quota w
    passed :
        0 < quota
        → is_waiting cur ≡ false
        → w ≡ keep cur (release_loop send rest quota)
        → Round cur rest quota w
    taken :
        0 < quota
        → is_waiting cur ≡ true
        → (next : Walk) → next ≡ release_loop send rest (quota - 1)
        → w ≡ record next { kept = started cur ∷ next.kept; sent = started cur ∷ next.sent }
        → Round cur rest quota w
    failed :
        0 < quota
        → is_waiting cur ≡ true
        → (rc : Rc) → unpaid rc ≡ 1
        → w ≡ stopped (started cur ∷ rest) quota rc (started cur ∷ [])
        → Round cur rest quota w

  release_loop-cons :
      (cur : Message) (rest : List Message) (quota : ℕ)
      → release_loop send (cur ∷ rest) quota ≡ (
          if ltb 0 quota
          then (if is_waiting cur
              then after_send
                  (send (started cur))
                  (started cur)
                  rest
                  quota
                  (release_loop send rest (decrement_quota quota))
              else keep cur (release_loop send rest quota))
          else stopped (cur ∷ rest) quota Rc.success [])
  unfolding release_loop
  release_loop-cons cur rest quota = refl

  decrement-pos : (quota : ℕ) → 0 < quota → decrement_quota quota ≡ quota - 1
  unfolding decrement_quota
  decrement-pos quota h = ground arith

  Round-open :
      (cur : Message) (rest : List Message) (quota : ℕ)
      → 0 < quota
      → Round cur rest quota (release_loop send (cur ∷ rest) quota)
  Round-open cur rest quota pos =
      let open_place : ltb 0 quota ≡ true = ground arith in
      let less = decrement-pos quota pos in
      elim (Bool-cases (is_waiting cur)) [
        | inr none_due ↦
            passed pos none_due (release_loop-cons cur rest quota ∙ rw (open_place, none_due))
        | inl due ↦ elim (Rc-cases (send (started cur))) [
          | inl ok ↦ taken pos due (release_loop send rest (quota - 1)) refl (
              release_loop-cons cur rest quota
              ∙ rw (open_place, due, ok, less)
                  (after_send-ok (started cur) rest quota (release_loop send rest (quota - 1))))
          | inr bad ↦ failed pos due (send (started cur)) bad (
              release_loop-cons cur rest quota
              ∙ rw (open_place, due)
                  (after_send-unpaid (send (started cur)) (started cur) rest quota
                    (release_loop send rest (decrement_quota quota)) bad))
        ]
      ]

  pub round :
      (cur : Message) (rest : List Message) (quota : ℕ)
      → Round cur rest quota (release_loop send (cur ∷ rest) quota)
  round cur rest zero = full refl (release_loop-cons cur rest zero)
  round cur rest (suc q) = Round-open cur rest (suc q) (omega arith)

  -- The places add up: one more is taken than paid for exactly if the walk ends with an error.
  pub active-release_loop :
      (ms : List Message) (quota : ℕ)
      → All HasQos ms
      → active ((release_loop send ms quota).kept) + (release_loop send ms quota).quota
        ≡ active ms + quota + unpaid ((release_loop send ms quota).code)
  active-release_loop [] quota h = unfold release_loop in omega arith
  active-release_loop (m ∷ ms) quota (hm, h) = elim (round m ms quota) [
    | full none_left e ↦ rw e (omega arith)
    | passed pos idle e ↦ rw e (ground (arith, active-release_loop ms quota h))
    | taken pos due next en e ↦
        let ih = rw (← en) at (active-release_loop ms (quota - 1) h) in
        rw e (ground (arith, ih, active-started m next.kept hm, active-invalid m ms (waits m due)))
    | failed pos due rc bad e ↦
        rw e (ground (arith, bad, active-started m ms hm, active-invalid m ms (waits m due)))
  ]

  -- When the walk succeeds, no place is left or no message waits for one.
  pub release_loop_done :
      (ms : List Message) (quota : ℕ)
      → All HasQos ms
      → (release_loop send ms quota).code ≡ Rc.success
      → ((release_loop send ms quota).quota ≡ 0)
        ⊎ (active ((release_loop send ms quota).kept) ≡ length ms)
  release_loop_done [] quota h ok = inr (unfold release_loop in refl)
  release_loop_done (m ∷ ms) quota (hm, h) ok = elim (round m ms quota) [
    | full none_left e ↦ inl (rw e none_left)
    | passed pos idle e ↦
        let ih = release_loop_done ms quota h (rw e at ok) in
        rw e (ground (arith, ih, active-idle m ((release_loop send ms quota).kept) hm idle))
    | taken pos due next en e ↦
        let ok' : (release_loop send ms (quota - 1)).code ≡ Rc.success = rw (e, en) at ok in
        let ih = rw (← en) at (release_loop_done ms (quota - 1) h ok') in
        rw e (ground (arith, ih, active-started m next.kept hm))
    | failed pos due rc bad e ↦
        let rc_ok : rc ≡ Rc.success = rw e at ok in
        let none_owed : unpaid rc ≡ 0 = ap unpaid rc_ok in absurd (omega arith)
  ]

  -- The walk keeps every message in its place.
  pub mids-release_loop :
      (ms : List Message) (quota : ℕ)
      → map (λ (m : Message). m.mid) ((release_loop send ms quota).kept)
        ≡ map (λ (m : Message). m.mid) ms
  mids-release_loop [] quota = unfold release_loop in refl
  mids-release_loop (m ∷ ms) quota = elim (round m ms quota) [
    | full none_left e ↦ rw e
    | passed pos idle e ↦ rw e (ap (λ l. m.mid ∷ l) (mids-release_loop ms quota))
    | taken pos due next en e ↦
        rw (e, en) (ap₂ ◌∷◌ (mid-started m) (mids-release_loop ms (quota - 1)))
    | failed pos due rc bad e ↦ rw e (ap (λ k. k ∷ map (λ (x : Message). x.mid) ms) (mid-started m))
  ]

  pub HasQos-release_loop :
      (ms : List Message) (quota : ℕ)
      → All HasQos ms
      → All HasQos ((release_loop send ms quota).kept)
  HasQos-release_loop [] quota h = unfold release_loop in tt
  HasQos-release_loop (m ∷ ms) quota (hm, h) = elim (round m ms quota) [
    | full none_left e ↦ rw e (hm, h)
    | passed pos idle e ↦ rw e (hm, HasQos-release_loop ms quota h)
    | taken pos due next en e ↦
        rw (e, en) (HasQos-started m hm, HasQos-release_loop ms (quota - 1) h)
    | failed pos due rc bad e ↦ rw e (HasQos-started m hm, h)
  ]

  pub length-release_loop :
      (ms : List Message) (quota : ℕ) → length ((release_loop send ms quota).kept) ≡ length ms
  length-release_loop ms quota =
      sym (length-map ((release_loop send ms quota).kept) (λ (m : Message). m.mid))
      ∙ ap length (mids-release_loop ms quota)
      ∙ length-map ms (λ (m : Message). m.mid)
