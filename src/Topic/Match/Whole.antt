-- ===== src/Topic/Match/Whole.antt =====
-- `mosquitto_topic_matches_sub` as a whole.
use artemisia.Base.{
  ℕ, ◌≡◌, ◌≢◌, refl, sym, ◌∙◌, arith, inl, inr, Bool, true, false, not, ◌&&◌, ◌||◌, Bool-cases,
  Option, none, some, [], ◌∷◌, Bytes,
}
use artemisia.Base.{Rc, ◌==◌}
use mathlib.Core.Path.{subst}
use artemisia.Topic.{plus, hash, next_char}
use artemisia.Topic.Levels.{levels, is_plain, is_filter, match_levels}
use artemisia.Topic.CheckLaws.{IsText}
use artemisia.Topic.Match.{
  is_wildcard, is_inside, is_behind_plus, wild_round, plus_round, hash_round, equal_round,
  match_loop, is_system, matches_texts, topic_matches_sub, topic_matches_sub2,
}
use artemisia.Topic.Match.Laws.{
  fits, fits-start, answer-start, fits-step, answer, scan-plain, answer-empty,
}
use artemisia.Topic.Match.Rounds.{
  is_open, Goes, equal_round_lem, plus_round_lem, hash_round_lem, other_round_lem,
}

wild_round_lem :
    (prev : Option ℕ) (c : ℕ) (s t : Bytes) (go : Bytes → Rc × Bool)
    → (not (c == next_char t) || next_char t == 0) ≡ true
    → c ≢ 0
    → fits (is_inside prev) (c ∷ s) ≡ true
    → IsText s
    → IsText t
    → is_plain t ≡ true
    → is_open (is_behind_plus prev) (c ∷ s) t ≡ true
    → ((u : Bytes) → is_plain u ≡ true → IsText u → Goes c s u go)
    → wild_round prev c s t go ≡ (Rc.success, answer (is_inside prev) (c ∷ s) t)
unfolding wild_round
wild_round_lem prev c s t go ne hc fit ts tt' pt open_ goes = elim (Bool-cases (c == plus)) [
  | inl e ↦
      let same : plus ≡ c = ground arith in
      rw e (
        subst
          (λ (x : ℕ).
            fits (is_inside prev) (x ∷ s) ≡ true
            → ((u : Bytes) → is_plain u ≡ true → IsText u → Goes x s u go)
            → plus_round prev s t go ≡ (Rc.success, answer (is_inside prev) (x ∷ s) t))
          same (λ f g. plus_round_lem prev s t go f ts tt' pt g) fit goes)
  | inr e ↦ elim (Bool-cases (c == hash)) [
    | inl e' ↦
        let same : hash ≡ c = ground arith in
        rw (e, e')
          (subst
            (λ (x : ℕ).
              fits (is_inside prev) (x ∷ s) ≡ true
              → hash_round prev s t ≡ (Rc.success, answer (is_inside prev) (x ∷ s) t))
            same (λ f. hash_round_lem prev s t f ts pt) fit)
    | inr e' ↦
        rw (e, e') (other_round_lem prev c s t (ground arith) hc (ground arith) fit ts tt' open_)
  ]
]

match_loop_lem :
    (prev : Option ℕ) (s t : Bytes)
    → IsText s
    → IsText t
    → is_plain t ≡ true
    → fits (is_inside prev) s ≡ true
    → is_open (is_behind_plus prev) s t ≡ true
    → match_loop prev s t ≡ (Rc.success, answer (is_inside prev) s t)
unfolding match_loop is_plain
match_loop_lem prev [] [] ts tt' pt fit open_ = ground arith
match_loop_lem prev [] (d ∷ t) ts tt' pt fit open_ =
    rw (scan-plain (d ∷ t) false pt, answer-empty (is_inside prev) d t) refl
match_loop_lem prev (c ∷ s) [] (hc, ts) tt' pt fit open_ =
    let (ok, rest) = fits-step (is_inside prev) c s ts fit in
    let ends : (not (c == 0) || true) ≡ true = ground arith in
    rw ends (
      wild_round_lem prev c s [] (match_loop (some c) s) ends hc fit ts tt' pt open_
        λ u pu tu o. match_loop_lem (some c) s u ts tu pu rest o)
match_loop_lem prev (c ∷ s) (d ∷ t) (hc, ts) (hd, tt') pt fit open_ =
    let (ok, rest) = fits-step (is_inside prev) c s ts fit in
    let plain : is_wildcard d ≡ false = ground (arith, pt) in
    let plains : is_plain t ≡ true = ground (arith, pt) in
    elim (Bool-cases (not (c == d) || d == 0)) [
      | inl other ↦
          rw (plain, other)
            (wild_round_lem prev c s (d ∷ t) (match_loop (some c) s) other hc fit ts (hd, tt') pt
              open_ λ u pu tu o. match_loop_lem (some c) s u ts tu pu rest o)
      | inr equal ↦
          let same : c ≡ d = ground arith in
          rw (plain, equal)
            (subst
              (λ (x : ℕ).
                equal_round c s t (match_loop (some c) s)
                ≡ (Rc.success, answer (is_inside prev) (c ∷ s) (x ∷ t)))
              same
              (equal_round_lem (is_inside prev) c s t (match_loop (some c) s) (ground arith) fit ts
                λ o. match_loop_lem (some c) s t ts tt' plains rest o))
    ]

-- Whether only one of the two begins with a `$`.
abbrev pub is_hidden : Bytes → Bytes → Bool
is_hidden s t = (is_system s && not (is_system t)) || (is_system t && not (is_system s))

-- For a topic filter that is not empty and a topic that is not empty and holds no wildcard, both
-- without a NUL, `mosquitto_topic_matches_sub` succeeds, and its result is that their levels match
-- and that not only one of the two begins with a `$`.
pub topic_matches_sub_lem :
    (c d : ℕ) (s t : Bytes)
    → IsText (c ∷ s)
    → IsText (d ∷ t)
    → is_filter (levels (c ∷ s)) ≡ true
    → is_plain (d ∷ t) ≡ true
    → topic_matches_sub (some (c ∷ s)) (some (d ∷ t)) ≡ (
      Rc.success,
      not (is_hidden (c ∷ s) (d ∷ t)) && match_levels (levels (c ∷ s)) (levels (d ∷ t)),
    )
unfolding topic_matches_sub topic_matches_sub2 matches_texts
topic_matches_sub_lem c d s t ts tt' fit pt = elim (Bool-cases (is_hidden (c ∷ s) (d ∷ t))) [
  | inl e ↦ rw e refl
  | inr e ↦
      rw (e, sym (answer-start (c ∷ s) (d ∷ t)))
        (match_loop_lem none (c ∷ s) (d ∷ t) ts tt' pt (fits-start (c ∷ s) ∙ fit) refl)
]
