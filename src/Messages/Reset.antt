-- ===== src/Messages/Reset.antt =====
-- `message__reconnect_reset`: what a new connection makes of the queues.
use artemisia.Base.{ℕ, zero, suc, ◌+◌, ◌-◌, ◌<◌, ◌≡◌, refl, ap, sym, ◌∙◌, ◌⊎◌, inl, inr, arith}
use artemisia.Base.{true, false, List, [], ◌∷◌, map, ◌==◌, length, length-map, All}
use artemisia.Messages.Defs.{MsgState, Message, Client, is_invalid, active, IsCounted, IsBalanced}
use artemisia.Messages.{
  decrement_quota, reset_in_loop, reset_out_loop, reset_state, reconnect_reset,
}
use artemisia.Messages.Queue.{mids}

-- A message that `message__reconnect_reset` can put in the right state: QoS 1, or QoS 2 and sent.
abbrev pub IsResettable : Message → Type 0
IsResettable m = (m.qos ≡ 1) ⊎ ((m.qos ≡ 2) × (is_invalid m.state ≡ false))

active-reset :
    (m : Message) (ms : List Message)
    → IsResettable m
    → active (record m { timestamp = 0; state = reset_state m } ∷ ms) ≡ suc (active ms)
active-reset m ms (inl one) = ground arith
active-reset m ms (inr (two, sent)) = ground arith

decrement-suc : (q : ℕ) → decrement_quota (suc q) ≡ q
unfolding decrement_quota
decrement-suc q = ground arith

-- Places that were free are free or taken after the walk, and the list is counted.
reset_out_loop_lem :
    (ms : List Message) (quota len : ℕ)
    → All IsResettable ms
    → let (kept, quota', len') = reset_out_loop ms quota len in
      (active kept + quota' ≡ quota)
      × (len' ≡ len + length ms)
      × (map (λ (m : Message). m.mid) kept ≡ map (λ (m : Message). m.mid) ms)
unfolding reset_out_loop
reset_out_loop_lem [] quota len h = (omega arith, omega arith, refl)
reset_out_loop_lem (m ∷ ms) zero len (hm, hs) =
    let ih = reset_out_loop_lem ms 0 (len + 1) hs in
    (ih.0, omega (arith, ih.1), ap (λ l. m.mid ∷ l) ih.2)
reset_out_loop_lem (m ∷ ms) (suc q) len (hm, hs) =
    let ih = reset_out_loop_lem ms q (len + 1) hs in
    let some_left : (suc q == 0) ≡ false = ground arith in
    rw (some_left, decrement-suc q)
      (
        omega (arith, ih.0, active-reset m (reset_out_loop ms q (len + 1)).0 hm),
        omega (arith, ih.1),
        ap (λ l. m.mid ∷ l) ih.2,
      )

decrement-lem : (q : ℕ) → decrement_quota q ≡ q - 1
unfolding decrement_quota
decrement-lem q = ground arith

reset_in_loop_lem :
    (ms : List Message) (quota len : ℕ)
    → All (λ (m : Message). m.qos ≡ 2) ms
    → let (kept, quota', len') = reset_in_loop ms quota len in
      (quota' ≡ quota - length ms)
      × (len' ≡ len + length ms)
      × (map (λ (m : Message). m.mid) kept ≡ map (λ (m : Message). m.mid) ms)
unfolding reset_in_loop
reset_in_loop_lem [] quota len h = (omega arith, omega arith, refl)
reset_in_loop_lem (m ∷ ms) quota len (hm, hs) =
    let ih = reset_in_loop_lem ms (quota - 1) (len + 1) hs in
    let second : (m.qos == 2) ≡ true = ground arith in
    rw (second, decrement-lem quota)
      (omega (arith, ih.0), omega (arith, ih.1), ap (λ l. m.mid ∷ l) ih.2)

same_length :
    (ms ns : List Message)
    → map (λ (m : Message). m.mid) ns ≡ map (λ (m : Message). m.mid) ms
    → length ns ≡ length ms
same_length ms ns e =
    sym (length-map ns (λ (m : Message). m.mid))
    ∙ ap length e
    ∙ length-map ms (λ (m : Message). m.mid)

-- If every outgoing message is of QoS 1, or of QoS 2 and was sent, and every incoming one of QoS 2,
-- a new connection keeps the order of both queues and counts them again. Then each place of the
-- outgoing maximum is free or taken by one message, and each incoming message takes a place of the
-- incoming maximum while there is one.
pub reconnect_reset_lem :
    (c : Client)
    → All IsResettable c.msgs_out.inflight
    → All (λ (m : Message). m.qos ≡ 2) c.msgs_in.inflight
    → IsBalanced (reconnect_reset c).msgs_out
      × IsCounted (reconnect_reset c).msgs_out
      × (mids (reconnect_reset c).msgs_out ≡ mids c.msgs_out)
      × ((reconnect_reset c).msgs_in.inflight_quota
          ≡ c.msgs_in.inflight_maximum - length c.msgs_in.inflight)
      × IsCounted (reconnect_reset c).msgs_in
      × (mids (reconnect_reset c).msgs_in ≡ mids c.msgs_in)
unfolding reconnect_reset
reconnect_reset_lem c ho hi =
    let (places, count, order) =
      reset_out_loop_lem c.msgs_out.inflight c.msgs_out.inflight_maximum 0 ho in
    let (places', count', order') =
      reset_in_loop_lem c.msgs_in.inflight c.msgs_in.inflight_maximum 0 hi in
    (
      places,
      omega (arith, count, same_length c.msgs_out.inflight _ order),
      order,
      places',
      omega (arith, count', same_length c.msgs_in.inflight _ order'),
      order',
    )

waiting_reset :
    (m : Message)
    → m.qos ≡ 2
    → m.state ≡ MsgState.invalid
    → active (record m { timestamp = 0; state = reset_state m } ∷ []) ≡ 0
waiting_reset m two waits = ground arith

-- A waiting message of QoS 2 is charged for a place that it does not take: it stays in the state
-- in which it waits, and the quota is one less.
pub reconnect_reset_waiting :
    (c : Client) (m : Message)
    → m.qos ≡ 2
    → m.state ≡ MsgState.invalid
    → c.msgs_out.inflight ≡ m ∷ []
    → 0 < c.msgs_out.inflight_maximum
    → (active (reconnect_reset c).msgs_out.inflight ≡ 0)
      × ((reconnect_reset c).msgs_out.inflight_quota + 1 ≡ c.msgs_out.inflight_maximum)
unfolding reconnect_reset reset_out_loop
reconnect_reset_waiting c m two waits e pos =
    let some_left : (c.msgs_out.inflight_maximum == 0) ≡ false = ground arith in
    rw (e, some_left, decrement-lem c.msgs_out.inflight_maximum)
      (waiting_reset m two waits, omega arith)
