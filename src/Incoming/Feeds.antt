-- ===== src/Incoming/Feeds.antt =====
-- A packet takes in bytes until it is complete: its body.
use artemisia.Base.{ℕ, zero, suc, ◌+◌, ◌%◌, ◌^◌, ◌<◌, ◌≡◌, refl, sym, ap, ◌∙◌, arith, true, false}
use artemisia.Base.{[], ◌∷◌, Bytes, ℤ, pos, negsuc, pred_ℤ, is_positive, ◌==◌, length}
use artemisia.Packet.Defs.{Packet}
use artemisia.Packet.Write.{overwrite}
use artemisia.Packet.Write.Laws.{overwrite-append, overwrite-nil}
use artemisia.Outgoing.{block}
use artemisia.Incoming.{is_too_long, store}
use artemisia.Incoming.Absorb.{wants, absorb, Takes, absorb_body}
use mathlib.Core.Path.{subst}

-- `Feeds p bs q`: the packet `p` takes the bytes `bs`, and is complete as `q`.
pub data Feeds : Packet → Bytes → Packet → Type 0 where
  full : {p : Packet} → wants p ≡ false → Feeds p [] p
  next :
      {p q : Packet} (b : ℕ) {bs : Bytes} → Takes b p → Feeds (absorb b p) bs q → Feeds p (b ∷ bs) q

-- A complete packet with its command and its body.
pub record Holds (cmd : ℕ) (body : Bytes) (q : Packet) : Type 0 where
  pub command : q.command ≡ cmd
  pub remaining : q.remaining_length ≡ length body
  pub payload : q.payload ≡ body

-- In the body: the bytes that are missing fit the block behind `pos`.
pub record InBody (p : Packet) (n : ℕ) : Type 0 where
  pub started : (p.command == 0) ≡ false
  pub counted : is_positive p.remaining_count ≡ true
  pub missing : p.to_process ≡ n
  pub inside : p.pos + p.to_process < 2 ^ 32

positive-short : (z : ℤ) → is_positive z ≡ true → is_too_long (pred_ℤ z) ≡ false
positive-short (pos zero) h = cc
positive-short (pos (suc n)) h = refl
positive-short (negsuc n) h = cc

store-fields :
    (b : ℕ) (bs : Bytes) (p : Packet)
    → p.pos + 1 < 2 ^ 32
    → ((store (b ∷ []) p).command ≡ p.command)
      × ((store (b ∷ []) p).remaining_length ≡ p.remaining_length)
      × (overwrite (store (b ∷ []) p).payload (store (b ∷ []) p).pos bs
          ≡ overwrite p.payload p.pos (b ∷ bs))
unfolding store
store-fields b bs p h =
    let one : (p.pos + 1) % 2 ^ 32 ≡ p.pos + 1 = omega arith in
    (refl, refl, rw one (overwrite-append p.payload p.pos (b ∷ []) bs))

pub body-Feeds :
    (bs : Bytes) (p : Packet)
    → InBody p (length bs)
    → (q : Packet) × Feeds p bs q
      × (q.command ≡ p.command)
      × (q.remaining_length ≡ p.remaining_length)
      × (q.payload ≡ overwrite p.payload p.pos bs)
body-Feeds [] p h =
    let done : wants p ≡ false = ground (arith, h.started, h.counted, h.missing) in
    (p, Feeds.full done, refl, refl, sym (overwrite-nil p.payload p.pos))
body-Feeds (b ∷ bs) p h =
    let step = absorb_body b p h.started h.counted in
    let later : InBody (store (b ∷ []) p) (length bs) =
      unfold store in
      record {
        started = h.started;
        counted = h.counted;
        missing = omega (arith, h.missing);
        inside = omega (arith, h.missing, h.inside);
      } in
    let (q, feeds, cmd, len, data') = body-Feeds bs (store (b ∷ []) p) later in
    let (cmd', len', data'') = store-fields b bs p (omega (arith, h.missing, h.inside)) in
    let takes : Takes b p = (
      ground (arith, h.started, h.counted, h.missing),
      (λ e. absurd (ground (arith, h.started))),
      positive-short p.remaining_count h.counted,
      h.inside,
    ) in
    (
      q,
      Feeds.next b takes (subst (λ x. Feeds x bs q) (sym step) feeds),
      cmd ∙ cmd',
      len ∙ len',
      data' ∙ data'',
    )

pub overwrite-block : (bs : Bytes) → overwrite (block (length bs)) 0 bs ≡ bs
unfolding overwrite block
overwrite-block [] = refl
overwrite-block (b ∷ bs) = ap (λ t. b ∷ t) (overwrite-block bs)
