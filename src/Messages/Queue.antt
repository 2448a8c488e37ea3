-- ===== src/Messages/Queue.antt =====
-- `message__queue`, `message__remove`, `message__delete` and `message__out_update` on the queue of
-- outgoing messages.
use artemisia.Base.{ℕ, suc, ◌+◌, ◌-◌, ◌≡◌, ◌≢◌, refl, ap, ◌∙◌, ◌⊎◌, inl, inr, arith}
use artemisia.Base.{
  true, false, Bool-cases, List, [], ◌∷◌, ◌++◌, map, Rc, ltb, ◌==◌, length, All, length-append,
}
use artemisia.Messages.Defs.{
  MsgState, md_out, Message, MsgData, Client, is_active, active, IsCounted, IsBalanced,
}
use artemisia.Messages.{
  release_loop, release_to_inflight, message_queue, Search, absent, wrong_qos, found, found_behind,
  removed, remove_loop, message_remove, message_delete, increment_quota,
}
use artemisia.Messages.Release.{
  HasQos, unpaid, Rc-cases, active-release_loop, release_loop_done, mids-release_loop,
  HasQos-release_loop, length-release_loop,
}
use mathlib.Core.List.{map-append}
use mathlib.Core.Path.{subst}

-- The outgoing queue in order: counted, of QoS 1 and 2, and with every place accounted for.
pub record IsQueue (d : MsgData) : Type 0 where
  pub counted : IsCounted d
  pub balanced : IsBalanced d
  pub qos : All HasQos d.inflight

abbrev pub mids : MsgData → List ℕ
mids d = map (λ (m : Message). m.mid) d.inflight

-- An outgoing queue `d` behind one more message, and the return code of that step.
pub record Queued (m : Message) (before d : MsgData) (rc : Rc) : Type 0 where
  pub order : mids d ≡ mids before ++ (m.mid ∷ [])
  pub counted : IsCounted d
  pub qos : All HasQos d.inflight
  pub places : active d.inflight + d.inflight_quota ≡ d.inflight_maximum + unpaid rc
  pub settled : (unpaid rc ≡ 1) ⊎ (d.inflight_quota ≡ 0) ⊎ (active d.inflight ≡ length d.inflight)

active-append : (ms ns : List Message) → active (ms ++ ns) ≡ active ms + active ns
active-append [] ns = omega arith
active-append (m ∷ ms) ns = ground (arith, active-append ms ns)

All-append : (ms ns : List Message) → All HasQos ms → All HasQos ns → All HasQos (ms ++ ns)
All-append [] ns h k = k
All-append (m ∷ ms) ns (hm, h) k = (hm, All-append ms ns h k)

settled-release_loop :
    (send : Message → Rc) (ms : List Message) (quota : ℕ)
    → All HasQos ms
    → (let w = release_loop send ms quota in
        (unpaid w.code ≡ 1) ⊎ (w.quota ≡ 0) ⊎ (active w.kept ≡ length w.kept))
settled-release_loop send ms quota hs =
    let len = length-release_loop send ms quota in
    elim (Rc-cases (release_loop send ms quota).code) [
      | inl ok ↦ inr (ground (arith, len, release_loop_done send ms quota hs ok))
      | inr failed ↦ inl failed
    ]

-- Queueing an unsent message of QoS 1 or 2 puts it last and keeps the others in their order and
-- the count right. The places of the maximum are accounted for, but for one that is taken and not
-- paid for if sending fails; and if sending does not fail, no place is left or no message waits.
pub message_queue_lem :
    (send : Message → Rc) (m : Message) (c : Client)
    → HasQos m
    → m.state ≡ MsgState.invalid
    → IsQueue c.msgs_out
    → Queued m c.msgs_out
        ((message_queue send m md_out c).0.msgs_out)
        ((message_queue send m md_out c).1)
unfolding message_queue release_to_inflight
message_queue_lem send m c hm fresh q =
    let o = c.msgs_out in
    let ms = o.inflight ++ (m ∷ []) in
    let hs = All-append o.inflight (m ∷ []) q.qos (hm, tt) in
    let len = length-release_loop send ms o.inflight_quota in
    let sum = active-append o.inflight (m ∷ []) in
    let zero_more : active (m ∷ []) ≡ 0 = rw fresh in
    record {
      order =
          mids-release_loop send ms o.inflight_quota
          ∙ map-append (λ (x : Message). x.mid) o.inflight (m ∷ []);
      counted = omega (arith, len, length-append o.inflight (m ∷ []), q.counted);
      qos = HasQos-release_loop send ms o.inflight_quota hs;
      places =
          omega
            (arith, active-release_loop send ms o.inflight_quota hs, sum, zero_more, q.balanced);
      settled = settled-release_loop send ms o.inflight_quota hs;
    }

-- The outgoing queue `d` behind a release to the network, with its return code: the places are
-- accounted for as they were.
pub record Released (before d : MsgData) (rc : Rc) : Type 0 where
  pub order : mids d ≡ mids before
  pub counted : length d.inflight ≡ length before.inflight
  pub lengths : d.queue_len ≡ before.queue_len
  pub maximum : d.inflight_maximum ≡ before.inflight_maximum
  pub places :
      active d.inflight + d.inflight_quota
      ≡ active before.inflight + before.inflight_quota + unpaid rc
  pub settled : (unpaid rc ≡ 1) ⊎ (d.inflight_quota ≡ 0) ⊎ (active d.inflight ≡ length d.inflight)

pub release_to_inflight-Released :
    (send : Message → Rc) (c : Client)
    → All HasQos c.msgs_out.inflight
    → Released c.msgs_out
        ((release_to_inflight send md_out c).0.msgs_out)
        ((release_to_inflight send md_out c).1)
unfolding release_to_inflight
release_to_inflight-Released send c hs =
    let o = c.msgs_out in
    record {
      order = mids-release_loop send o.inflight o.inflight_quota;
      counted = length-release_loop send o.inflight o.inflight_quota;
      lengths = refl;
      maximum = refl;
      places = omega (arith, active-release_loop send o.inflight o.inflight_quota hs);
      settled = settled-release_loop send o.inflight o.inflight_quota hs;
    }

-- What a search finds: the first message with the identifier, and the others in their order.
pub data Removal (mid qos : ℕ) (ms : List Message) : Search → Type 0 where
  none_there : All (λ (m : Message). m.mid ≢ mid) ms → Removal mid qos ms absent
  other_qos :
      (front : List Message) (m : Message) (back : List Message)
      → ms ≡ front ++ (m ∷ back)
      → All (λ (m : Message). m.mid ≢ mid) front
      → m.mid ≡ mid
      → m.qos ≢ qos
      → Removal mid qos ms wrong_qos
  first_there :
      (front : List Message) (m : Message) (back : List Message)
      → ms ≡ front ++ (m ∷ back)
      → All (λ (m : Message). m.mid ≢ mid) front
      → m.mid ≡ mid
      → m.qos ≡ qos
      → Removal mid qos ms (found m (front ++ back))

Removal-behind :
    (mid qos : ℕ) (cur : Message) (ms : List Message) (r : Search)
    → cur.mid ≢ mid
    → Removal mid qos ms r
    → Removal mid qos (cur ∷ ms) (found_behind cur r)
Removal-behind mid qos cur ms r ne (none_there h) = none_there (ne, h)
Removal-behind mid qos cur ms r ne (other_qos front m back e h same q) =
    other_qos (cur ∷ front) m back (ap (λ l. cur ∷ l) e) (ne, h) same q
Removal-behind mid qos cur ms r ne (first_there front m back e h same q) =
    first_there (cur ∷ front) m back (ap (λ l. cur ∷ l) e) (ne, h) same q

-- The search of `message__remove` takes out the first message with the identifier if it has the
-- QoS, reports a protocol error if it has another one, and not found if there is none.
pub remove_loop-Removal :
    (mid qos : ℕ) (ms : List Message) → Removal mid qos ms (remove_loop mid qos ms)
unfolding remove_loop
remove_loop-Removal mid qos [] = none_there tt
remove_loop-Removal mid qos (cur ∷ rest) = elim (Bool-cases (cur.mid == mid)) [
  | inr other ↦
      rw other (Removal-behind mid qos cur rest _ (ground arith) (remove_loop-Removal mid qos rest))
  | inl same ↦ elim (Bool-cases (cur.qos == qos)) [
    | inl ok ↦ rw (same, ok) (first_there [] cur rest refl tt (ground arith) (ground arith))
    | inr bad ↦ rw (same, bad) (other_qos [] cur rest refl tt (ground arith) (ground arith))
  ]
]

-- The search takes out a message of the identifier and the QoS behind others.
pub remove_loop-split :
    (mid qos : ℕ) (front : List Message) (m : Message) (back : List Message)
    → All (λ (m : Message). m.mid ≢ mid) front
    → m.mid ≡ mid
    → m.qos ≡ qos
    → remove_loop mid qos (front ++ (m ∷ back)) ≡ found m (front ++ back)
unfolding remove_loop
remove_loop-split mid qos [] m back h same q =
    let here : (m.mid == mid) ≡ true = ground arith in
    let good : (m.qos == qos) ≡ true = ground arith in rw (here, good) refl
remove_loop-split mid qos (x ∷ front) m back (hx, h) same q =
    let other : (x.mid == mid) ≡ false = ground arith in
    rw (other, remove_loop-split mid qos front m back h same q) refl

All-split :
    (front : List Message) (m : Message) (back : List Message)
    → All HasQos (front ++ (m ∷ back))
    → All HasQos (front ++ back)
All-split [] m back (h, hs) = hs
All-split (x ∷ front) m back (h, hs) = (h, All-split front m back hs)

active-split :
    (front : List Message) (m : Message) (back : List Message)
    → is_active m ≡ true
    → active (front ++ (m ∷ back)) ≡ suc (active (front ++ back))
active-split [] m back h = rw h
active-split (x ∷ front) m back h = ground (arith, active-split front m back h)

length-split :
    (front : List Message) (m : Message) (back : List Message)
    → length (front ++ (m ∷ back)) ≡ suc (length (front ++ back))
length-split front m back = omega (arith, length-append front (m ∷ back), length-append front back)

IsQueue-split :
    (d : MsgData) (front : List Message) (m : Message) (back : List Message)
    → IsQueue d
    → d.inflight ≡ front ++ (m ∷ back)
    → is_active m ≡ true
    → IsQueue (increment_quota (record d { inflight = front ++ back; queue_len = d.queue_len - 1 }))
unfolding increment_quota
IsQueue-split d front m back q e act =
    let places = ap active e ∙ active-split front m back act in
    let count = ap length e ∙ length-split front m back in
    let below : ltb d.inflight_quota d.inflight_maximum ≡ true =
      ground (arith, places, q.balanced) in
    rw below (record {
      counted = omega (arith, count, q.counted);
      balanced = omega (arith, places, q.balanced);
      qos = All-split front m back (subst (All HasQos) e q.qos);
    })

All-middle :
    (P : Message → Type 0) (front : List Message) (m : Message) (back : List Message)
    → All P (front ++ (m ∷ back))
    → P m
All-middle P [] m back (h, hs) = h
All-middle P (x ∷ front) m back (h, hs) = All-middle P front m back hs

delete_step :
    (mid qos : ℕ) (d : MsgData) (r : Search)
    → IsQueue d
    → All (λ (m : Message). m.mid ≡ mid → is_active m ≡ true) d.inflight
    → Removal mid qos d.inflight r
    → (removed r d).1 ≡ Rc.success
    → IsQueue (increment_quota (removed r d).0)
delete_step mid qos d r q act (none_there h) ok = cc
delete_step mid qos d r q act (other_qos front m back e h same bad) ok = cc
delete_step mid qos d r q act (first_there front m back e h same good) ok =
    IsQueue-split d front m back q e (
      All-middle (λ x. x.mid ≡ mid → is_active x ≡ true) front m back
        (subst (All (λ (x : Message). x.mid ≡ mid → is_active x ≡ true)) e act) same)

-- An acknowledged message that was sent gives its place back: `message__delete` and then
-- `util__increment_send_quota` keep the queue in order, whatever its length.
pub message_delete-IsQueue :
    (mid qos : ℕ) (c : Client)
    → IsQueue c.msgs_out
    → All (λ (m : Message). m.mid ≡ mid → is_active m ≡ true) c.msgs_out.inflight
    → (message_delete mid md_out qos c).1 ≡ Rc.success
    → IsQueue (increment_quota (message_delete mid md_out qos c).0.msgs_out)
unfolding message_delete message_remove
message_delete-IsQueue mid qos c q act ok =
    delete_step mid qos c.msgs_out (remove_loop mid qos c.msgs_out.inflight) q act
      (remove_loop-Removal mid qos c.msgs_out.inflight) ok
