-- ===== src/Incoming/Frame.antt =====
-- An MQTT packet as it stands on the wire, taken in byte by byte.
use artemisia.Base.{
  ℕ, zero, suc, ◌+◌, ◌*◌, ◌/◌, ◌%◌, ◌^◌, ◌<◌, ◌≡◌, ◌≢◌, refl, sym, ap, ◌∙◌, arith, inl, inr, true,
  false, Bool-cases,
}
use artemisia.Base.{
  [], ◌∷◌, ◌++◌, Bytes, ℤ, pos, negsuc, pred_ℤ, neg_ℤ, is_positive, ltb, ◌==◌, length,
}
use artemisia.Packet.Defs.{Packet}
use artemisia.Packet.Encode.{varint_groups, varint_encoding, varint_limit}
use artemisia.Packet.Write.{overwrite}
use artemisia.Outgoing.{block}
use artemisia.Incoming.{add_length, is_too_long, begin_body}
use artemisia.Incoming.Absorb.{absorb, Takes, absorb_first, absorb_length}
use artemisia.Base.{if-true, if-false}
use mathlib.Core.Path.{subst}
use artemisia.Incoming.Feeds.{Feeds, Holds, InBody, body-Feeds, overwrite-block}

-- The count and the multiplier when up to `k + 1` bytes of the remaining length may come.
count_of : ℕ → ℤ
count_of zero = negsuc 2
count_of (suc zero) = negsuc 1
count_of (suc (suc zero)) = negsuc 0
count_of (suc (suc (suc k))) = pos 0

mult_of : ℕ → ℕ
mult_of zero = 2097152
mult_of (suc zero) = 16384
mult_of (suc (suc zero)) = 128
mult_of (suc (suc (suc k))) = 1

-- The command is there, and a part of the remaining length.
record InLength (p : Packet) (k : ℕ) : Type 0 where
  started : (p.command == 0) ≡ false
  counted : p.remaining_count ≡ count_of k
  multiplied : p.remaining_mult ≡ mult_of k
  empty : (p.payload ≡ []) × (p.to_process ≡ 0) × (p.pos ≡ 0)

count_of-short :
    (k : ℕ)
    → (is_positive (count_of k) ≡ false)
      × (is_too_long (pred_ℤ (count_of k)) ≡ false)
      × (is_positive (neg_ℤ (pred_ℤ (count_of k))) ≡ true)
unfolding count_of
count_of-short zero = (refl, refl, refl)
count_of-short (suc zero) = (refl, refl, refl)
count_of-short (suc (suc zero)) = (refl, refl, refl)
count_of-short (suc (suc (suc k))) = (refl, refl, refl)

InLength-Takes : (b k : ℕ) (p : Packet) → InLength p k → Takes b p
InLength-Takes b k p h =
    let (open_, short, positive) = count_of-short k in
    (
      ground (arith, h.started, ap is_positive h.counted ∙ open_),
      (λ e. absurd (ground (arith, h.started))),
      ap (λ z. is_too_long (pred_ℤ z)) h.counted ∙ short,
      omega (arith, h.empty),
    )

begin_body-fields :
    (p : Packet)
    → p.payload ≡ []
    → p.to_process ≡ 0
    → ((begin_body p).command ≡ p.command)
      × ((begin_body p).remaining_length ≡ p.remaining_length)
      × ((begin_body p).remaining_count ≡ neg_ℤ p.remaining_count)
      × ((begin_body p).pos ≡ p.pos)
      × ((begin_body p).payload ≡ block p.remaining_length)
      × ((begin_body p).to_process ≡ p.remaining_length)
unfolding begin_body block
begin_body-fields p e z = elim (Bool-cases (ltb 0 p.remaining_length)) [
  | inl some_ ↦ rw some_ (refl, refl, refl, refl, refl, refl)
  | inr none_ ↦
      let zero_ : p.remaining_length ≡ 0 = ground arith in
      rw none_ (refl, refl, refl, refl, e ∙ ap block (sym zero_), z ∙ sym zero_)
]

add_length-keeps :
    (b : ℕ) (p : Packet)
    → ((add_length b p).command ≡ p.command)
      × ((add_length b p).remaining_count ≡ pred_ℤ p.remaining_count)
      × ((add_length b p).payload ≡ p.payload)
      × ((add_length b p).to_process ≡ p.to_process)
      × ((add_length b p).pos ≡ p.pos)
unfolding add_length
add_length-keeps b p = (refl, refl, refl, refl, refl)

-- The last byte of the remaining length, and the body.
last-Feeds :
    (b k : ℕ) (p : Packet) (body : Bytes)
    → InLength p k
    → b < 128
    → p.remaining_length + b * mult_of k ≡ length body
    → length body < varint_limit
    → (q : Packet) × Feeds p (b ∷ body) q × Holds p.command body q
last-Feeds b k p body h small total fits =
    let (open_, short, positive) = count_of-short k in
    let p' = add_length b p in
    let low : b % 128 ≡ b = omega arith in
    let len : p'.remaining_length ≡ length body =
      unfold add_length in
      ap (λ t. (p.remaining_length + t * p.remaining_mult) % 2 ^ 32) low
      ∙ ap (λ t. (p.remaining_length + b * t) % 2 ^ 32) h.multiplied
      ∙ ap (λ t. t % 2 ^ 32) total
      ∙ (omega arith) in
    let (cmd0, count0, data0, left0, pos0) = add_length-keeps b p in
    let (cmd, rem, count, pos_, data', left) =
      begin_body-fields p' (data0 ∙ h.empty.0) (left0 ∙ h.empty.1) in
    let start : (begin_body p').pos ≡ 0 = pos_ ∙ pos0 ∙ h.empty.2 in
    let inside_ : (begin_body p').pos + (begin_body p').to_process < 2 ^ 32 =
      omega (arith, start, left, len) in
    let at_end : absorb b p ≡ begin_body p' =
      absorb_length b p h.started (ap is_positive h.counted ∙ open_)
      ∙ if-false (b / 128 % 2 == 1) p' (begin_body p') (ground arith) in
    let body_ : InBody (begin_body p') (length body) = record {
      started = ap (λ c. c == 0) (cmd ∙ cmd0) ∙ h.started;
      counted = ap is_positive (count ∙ ap neg_ℤ (count0 ∙ ap pred_ℤ h.counted)) ∙ positive;
      missing = left ∙ len;
      inside = inside_;
    } in
    let (q, feeds, cmd', rem', data'') = body-Feeds body (begin_body p') body_ in
    (
      q,
      Feeds.next b (InLength-Takes b k p h) (subst (λ x. Feeds x body q) (sym at_end) feeds),
      record {
        command = cmd' ∙ cmd ∙ cmd0;
        remaining = rem' ∙ rem ∙ len;
        payload =
            data''
            ∙ ap (λ t. overwrite t (begin_body p').pos body) (data' ∙ ap block len)
            ∙ ap (λ t. overwrite (block (length body)) t body) start
            ∙ overwrite-block body;
      },
    )

-- One byte of the remaining length further.
count_of-suc : (k : ℕ) → suc k < 4 → pred_ℤ (count_of (suc k)) ≡ count_of k
unfolding count_of
count_of-suc zero h = refl
count_of-suc (suc zero) h = refl
count_of-suc (suc (suc zero)) h = refl
count_of-suc (suc (suc (suc k))) h = absurd (omega arith)

mult_of-suc : (k : ℕ) → suc k < 4 → mult_of (suc k) * 128 % 2 ^ 32 ≡ mult_of k
unfolding mult_of
mult_of-suc zero h = refl
mult_of-suc (suc zero) h = refl
mult_of-suc (suc (suc zero)) h = refl
mult_of-suc (suc (suc (suc k))) h = absurd (omega arith)

total-suc :
    (k w l n : ℕ)
    → suc k < 4
    → n < varint_limit
    → l + w * mult_of (suc k) ≡ n
    → (l + (w % 128 + 128) % 128 * mult_of (suc k)) % 2 ^ 32 + w / 128 * mult_of k ≡ n
unfolding mult_of
total-suc zero w l n few fits e = omega arith
total-suc (suc zero) w l n few fits e = omega arith
total-suc (suc (suc zero)) w l n few fits e = omega arith
total-suc (suc (suc (suc k))) w l n few fits e = absurd (omega arith)

add_length-InLength :
    (b k : ℕ) (p : Packet) → InLength p (suc k) → suc k < 4 → InLength (add_length b p) k
add_length-InLength b k p h few =
    let (cmd, count, data', left, pos_) = add_length-keeps b p in
    let mult : (add_length b p).remaining_mult ≡ mult_of k =
      unfold add_length in (ap (λ m. m * 128 % 2 ^ 32) h.multiplied ∙ mult_of-suc k few) in
    record {
      started = ap (λ c. c == 0) cmd ∙ h.started;
      counted = count ∙ ap pred_ℤ h.counted ∙ count_of-suc k few;
      multiplied = mult;
      empty = (data' ∙ h.empty.0, left ∙ h.empty.1, pos_ ∙ h.empty.2);
    }

-- The bytes of a remaining length, and the body.
length-Feeds :
    (k w : ℕ) (p : Packet) (body : Bytes)
    → InLength p k
    → k < 4
    → w < 128 ^ suc k
    → p.remaining_length + w * mult_of k ≡ length body
    → length body < varint_limit
    → (q : Packet) × Feeds p (varint_groups k w ++ body) q × Holds p.command body q
unfolding varint_groups
length-Feeds zero w p body h few small total fits = last-Feeds w 0 p body h (omega arith) total fits
length-Feeds (suc k) w p body h few small total fits = elim (Bool-cases (ltb w 128)) [
  | inl low ↦ rw low (last-Feeds w (suc k) p body h (ground arith) total fits)
  | inr high ↦
      let b = w % 128 + 128 in
      let len : (add_length b p).remaining_length + w / 128 * mult_of k ≡ length body =
        unfold add_length in
        (ap (λ m. (p.remaining_length + b % 128 * m) % 2 ^ 32 + w / 128 * mult_of k) h.multiplied
          ∙ total-suc k w p.remaining_length (length body) few fits total) in
      let (q, feeds, holds) =
        length-Feeds k (w / 128) (add_length b p) body (add_length-InLength b k p h few)
          (omega arith) (omega arith) len fits in
      let (open_, short, positive) = count_of-short (suc k) in
      let on : absorb b p ≡ add_length b p =
        absorb_length b p h.started (ap is_positive h.counted ∙ open_)
        ∙ if-true (b / 128 % 2 == 1) (add_length b p) (begin_body (add_length b p))
            (ground arith) in
      let feeds' =
        Feeds.next b (InLength-Takes b (suc k) p h)
          (subst (λ x. Feeds x (varint_groups k (w / 128) ++ body) q) (sym on) feeds) in
      rw high (
        q,
        feeds',
        record {
          command = holds.command ∙ (add_length-keeps b p).0;
          remaining = holds.remaining;
          payload = holds.payload;
        },
      )
]

-- A packet of which nothing has come, as `packet__cleanup` leaves it.
pub record IsClean (p : Packet) : Type 0 where
  pub command : p.command ≡ 0
  pub count : p.remaining_count ≡ pos 0
  pub multiplier : p.remaining_mult ≡ 1
  pub remaining : p.remaining_length ≡ 0
  pub payload : p.payload ≡ []
  pub to_process : p.to_process ≡ 0
  pub start : p.pos ≡ 0

-- The bytes of a packet on the wire.
abbrev pub frame : ℕ → Bytes → Bytes
frame cmd body = cmd ∷ (varint_encoding (length body) ++ body)

pub frame-Feeds :
    (cmd : ℕ) (p : Packet) (body : Bytes)
    → cmd ≢ 0
    → IsClean p
    → length body < varint_limit
    → (q : Packet) × Feeds p (frame cmd body) q × Holds cmd body q
unfolding varint_encoding
frame-Feeds cmd p body nonzero clean fits =
    let p' = record p { command = cmd } in
    let started : InLength p' 3 = record {
      started = ground (arith, nonzero);
      counted = clean.count ∙ (unfold count_of in refl);
      multiplied = clean.multiplier ∙ (unfold mult_of in refl);
      empty = (clean.payload, clean.to_process, clean.start);
    } in
    let total : p.remaining_length + length body * mult_of 3 ≡ length body =
      unfold mult_of in omega (arith, clean.remaining) in
    let (q, feeds, holds) =
      length-Feeds 3 (length body) p' body started (omega arith) (omega arith) total fits in
    let takes : Takes cmd p = (
      ground (arith, clean.command),
      λ e. nonzero,
      ap (λ z. is_too_long (pred_ℤ z)) clean.count,
      omega (arith, clean.start, clean.to_process),
    ) in
    let first = absorb_first cmd p (ground (arith, clean.command)) in
    (
      q,
      Feeds.next cmd takes
          (subst (λ x. Feeds x (varint_groups 3 (length body) ++ body) q) (sym first) feeds),
      holds,
    )
