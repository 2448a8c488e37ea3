-- ===== src/Topic/Match/Rounds.antt =====
-- What each kind of round of the loop of mosquitto_topic_matches_sub2 answers.
use artemisia.Base.{
  ℕ, ◌≡◌, ◌≢◌, refl, arith, inl, inr, Bool, true, false, not, ◌&&◌, ◌||◌, Bool-cases, Option, some,
  [], ◌∷◌, Bytes,
}
use artemisia.Base.{Rc, ◌==◌}
use artemisia.Topic.{plus, hash, slash, next_char}
use artemisia.Topic.Levels.{is_plain}
use artemisia.Topic.CheckLaws.{IsText}
use artemisia.Topic.Match.{
  Answer, is_wildcard, is_empty, is_inside, is_behind_plus, after_level, plus_round, hash_round,
  other_round, is_slash_hash, equal_round,
}
use artemisia.Topic.Match.Laws.{
  fits, answer, fits-step, scan-plain, Skipped, skip_level-Skipped, no_match-fits, answer-equal,
  answer-differ, answer-plus, answer-end, answer-slash_hash, answer-both_ends, answer-last_plus,
  answer-hash,
}

-- The rounds do not come to the end of the topic where the filter could still match, but behind a
-- `+`.
abbrev pub is_open : Bool → Bytes → Bytes → Bool
is_open behind s t = not (is_empty t) || not (is_empty s || (not behind && is_slash_hash s))

-- What the rest of the loop gives.
abbrev pub Goes : ℕ → Bytes → Bytes → (Bytes → Answer) → Type 0
Goes c s t go = is_open (c == plus) s t ≡ true → go t ≡ (Rc.success, answer (not (c == slash)) s t)

pub equal_round_lem :
    (inside : Bool) (c : ℕ) (s t : Bytes) (go : Bytes → Answer)
    → is_wildcard c ≡ false
    → fits inside (c ∷ s) ≡ true
    → IsText s
    → Goes c s t go
    → equal_round c s t go ≡ (Rc.success, answer inside (c ∷ s) (c ∷ t))
unfolding equal_round
equal_round_lem inside c s (d ∷ t) go h fit ts goes =
    let g = goes refl in rw (answer-equal inside c s (d ∷ t) h) (ground arith)
equal_round_lem inside c [] [] go h fit ts goes =
    rw (answer-equal inside c [] [] h, answer-both_ends (not (c == slash))) refl
equal_round_lem inside c (x ∷ []) [] go h fit (hx, ts) goes =
    let (ok, rest) = fits-step inside c (x ∷ []) (hx, ts) fit in
    let (ok', rest') = fits-step (not (c == slash)) x [] ts rest in
    rw (answer-equal inside c (x ∷ []) [] h) (elim (Bool-cases (x == plus)) [
      | inl e ↦
          let here : (c == slash) ≡ true = ground arith in
          rw (e, here, answer-last_plus x e) (ground arith)
      | inr e ↦ let g = goes (ground arith) in ground arith
    ])
equal_round_lem inside c (x ∷ y ∷ s) [] go h fit ts goes =
    rw (answer-equal inside c (x ∷ y ∷ s) [] h) (elim (Bool-cases (is_slash_hash (x ∷ y ∷ s))) [
      | inl e ↦ rw (e, answer-slash_hash (not (c == slash)) (x ∷ y ∷ s) ts e) refl
      | inr e ↦ let g = goes (ground arith) in ground arith
    ])

after_level_lem :
    (s u : Bytes) (go : Bytes → Answer)
    → Goes plus s u go
    → after_level s (some u) go ≡ (Rc.success, answer true s u)
after_level_lem [] [] go goes = rw (answer-both_ends true) refl
after_level_lem [] (d ∷ u) go goes = goes refl
after_level_lem (x ∷ s) [] go goes = goes refl
after_level_lem (x ∷ s) (d ∷ u) go goes = goes refl

pub plus_round_lem :
    (prev : Option ℕ) (s t : Bytes) (go : Bytes → Answer)
    → fits (is_inside prev) (plus ∷ s) ≡ true
    → IsText s
    → IsText t
    → is_plain t ≡ true
    → ((u : Bytes) → is_plain u ≡ true → IsText u → Goes plus s u go)
    → plus_round prev s t go ≡ (Rc.success, answer (is_inside prev) (plus ∷ s) t)
unfolding plus_round Skipped
plus_round_lem prev s t go fit ts tt' pt goes =
    let (ok, rest) = fits-step (is_inside prev) plus s ts fit in
    let (u, m, ms, skip, lt, lu, pu, tu) = skip_level-Skipped t pt tt' in
    let outside : is_inside prev ≡ false = ground arith in
    let next : (next_char s == 0 || next_char s == slash) ≡ true = ground arith in
    let same = answer-plus s t u m ms next ts lt lu in
    let right : (not (next_char s == 0) && not (next_char s == slash)) ≡ false = ground arith in
    rw (outside, skip, same, right) (after_level_lem s u go (goes u pu tu))

pub hash_round_lem :
    (prev : Option ℕ) (s t : Bytes)
    → fits (is_inside prev) (hash ∷ s) ≡ true
    → IsText s
    → is_plain t ≡ true
    → hash_round prev s t ≡ (Rc.success, answer (is_inside prev) (hash ∷ s) t)
unfolding hash_round
hash_round_lem prev [] t fit ts pt =
    let (ok, rest) = fits-step (is_inside prev) hash [] ts fit in
    let outside : is_inside prev ≡ false = ground arith in
    rw (outside, scan-plain t true pt, answer-hash t) refl
hash_round_lem prev (x ∷ s) t fit (hx, ts) pt =
    let (ok, rest) = fits-step (is_inside prev) hash (x ∷ s) (hx, ts) fit in ground arith

pub other_round_lem :
    (prev : Option ℕ) (c : ℕ) (s t : Bytes)
    → is_wildcard c ≡ false
    → c ≢ 0
    → (next_char t == c) ≡ false
    → fits (is_inside prev) (c ∷ s) ≡ true
    → IsText s
    → IsText t
    → is_open (is_behind_plus prev) (c ∷ s) t ≡ true
    → other_round prev c s t ≡ (Rc.success, answer (is_inside prev) (c ∷ s) t)
unfolding other_round
other_round_lem prev c [] [] h hc ne fit ts tt' open_ =
    let none_ = no_match-fits (is_inside prev) (c ∷ []) (hc, ts) fit in
    rw (answer-end (is_inside prev) c [] h fit ts, none_) (ground arith)
other_round_lem prev c (x ∷ s) [] h hc ne fit ts tt' open_ =
    let none_ = no_match-fits (is_inside prev) (c ∷ x ∷ s) (hc, ts) fit in
    let (ok, rest) = fits-step (is_inside prev) c (x ∷ s) ts fit in
    let (ok', rest') = fits-step (not (c == slash)) x s ts.1 rest in
    rw (answer-end (is_inside prev) c (x ∷ s) h fit ts, none_) (ground arith)
other_round_lem prev c s (d ∷ t) h hc ne fit ts (hd, tt') open_ =
    let none_ = no_match-fits (is_inside prev) (c ∷ s) (hc, ts) fit in
    rw (answer-differ (is_inside prev) c d s t h (ground (arith, ne)), none_) (ground arith)
