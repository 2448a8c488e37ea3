-- ===== src/Topic/Match/Laws.antt =====
-- The matching of a topic against a filter is the matching of their levels.
use artemisia.Base.{
  ℕ, ◌≡◌, ◌≢◌, refl, arith, inl, inr, Bool, true, false, not, ◌&&◌, ◌||◌, Bool-cases, some, List,
  [], ◌∷◌, Bytes,
}
use artemisia.Base.{Rc, ◌==◌, if◌then◌else◌}
use artemisia.Topic.{plus, hash, slash, next_char}
use artemisia.Topic.Levels.{levels, is_plain, is_only, is_filter, is_rest, same_text, match_levels}
use artemisia.Topic.CheckLaws.{IsText, levels-cons}
use artemisia.Topic.Match.{is_wildcard, scan, skip_level, no_match, is_slash_hash}

-- The rest of a level against the rest of a level.
match_rest : List Bytes → List Bytes → Bool
match_rest [] ts = false
match_rest (f ∷ fs) [] = false
match_rest (f ∷ fs) (t ∷ ts) = same_text f t && match_levels fs ts

-- What the rest of a filter is, inside a level or at the start of one.
pub fits : Bool → Bytes → Bool
fits inside s = if inside then is_rest (levels s) else is_filter (levels s)

pub answer : Bool → Bytes → Bytes → Bool
answer inside s t =
    if inside then match_rest (levels s) (levels t) else match_levels (levels s) (levels t)

pub fits-start : (s : Bytes) → fits false s ≡ is_filter (levels s)
unfolding fits
fits-start s = refl

pub answer-start : (s t : Bytes) → answer false s t ≡ match_levels (levels s) (levels t)
unfolding answer
answer-start s t = refl

abbrev allowed : Bool → ℕ → Bytes → Bool
allowed inside c s =
    if c == plus
    then not inside && (next_char s == 0 || next_char s == slash)
    else if c == hash
    then not inside && next_char s == 0
    else true

fits-end :
    (inside : Bool) (c : ℕ)
    → fits inside (c ∷ []) ≡ (allowed inside c [] && fits (not (c == slash)) [])
unfolding fits levels is_filter is_rest is_plain is_only
fits-end inside c = ground arith

fits-next :
    (inside : Bool) (c d : ℕ) (t l : Bytes) (ls : List Bytes)
    → d ≢ 0
    → levels t ≡ l ∷ ls
    → fits inside (c ∷ d ∷ t) ≡ (allowed inside c (d ∷ t) && fits (not (c == slash)) (d ∷ t))
unfolding fits levels is_filter is_rest is_plain is_only
fits-next inside c d t l [] hd e = ground arith
fits-next inside c d t l (m ∷ ls) hd e = ground arith

pub fits-step :
    (inside : Bool) (c : ℕ) (s : Bytes)
    → IsText s
    → fits inside (c ∷ s) ≡ true
    → (allowed inside c s ≡ true) × (fits (not (c == slash)) s ≡ true)
fits-step inside c [] t h = let e = fits-end inside c in ground arith
fits-step inside c (d ∷ s) (hd, t) h =
    let (l, ls, lv) = levels-cons s in let e = fits-next inside c d s l ls hd lv in ground arith

pub scan-plain : (t : Bytes) (r : Bool) → is_plain t ≡ true → scan t r ≡ (Rc.success, r)
unfolding scan is_plain
scan-plain [] r h = refl
scan-plain (d ∷ t) r h = ground (arith, scan-plain t r)

-- What `skip_level` leaves: the end of a level, with the levels that follow.
unfoldable pub Skipped : Bytes → Type 0
Skipped t =
    (u : Bytes) × (m : Bytes) × (ms : List Bytes) × (skip_level t ≡ some u)
    × (levels t ≡ m ∷ ms)
    × (levels u ≡ [] ∷ ms)
    × (is_plain u ≡ true)
    × IsText u

pub skip_level-Skipped : (t : Bytes) → is_plain t ≡ true → IsText t → Skipped t
unfolding skip_level levels is_plain Skipped
skip_level-Skipped [] h t = ([], [], [], refl, refl, refl, refl, tt)
skip_level-Skipped (d ∷ t) h (hd, ht) = elim (Bool-cases (d == slash)) [
  | inl e ↦ (d ∷ t, [], levels t, rw e refl, rw e refl, rw e refl, h, (hd, ht))
  | inr e ↦
      let (u, m, ms, skip, lt, lu, pu, tu) = skip_level-Skipped t (ground (arith, h)) ht in
      let open_ : is_wildcard d ≡ false = ground (arith, h) in
      (u, d ∷ m, ms, rw (e, open_, skip) refl, rw (e, lt) refl, lu, pu, tu)
]

-- A filter holds no `#` before its end.
pub no_match-fits :
    (inside : Bool) (s : Bytes) → IsText s → fits inside s ≡ true → no_match s ≡ (Rc.success, false)
unfolding no_match
no_match-fits inside [] t h = refl
no_match-fits inside (c ∷ s) (hc, t) h =
    let (ok, rest) = fits-step inside c s t h in
    let further = no_match-fits (not (c == slash)) s t rest in ground arith

-- The answer where a byte that is no wildcard stands in both.
pub answer-equal :
    (inside : Bool) (c : ℕ) (s t : Bytes)
    → is_wildcard c ≡ false
    → answer inside (c ∷ s) (c ∷ t) ≡ answer (not (c == slash)) s t
unfolding answer levels match_rest match_levels same_text is_only
answer-equal inside c s t h =
    let (l, ls, e) = levels-cons s in let (m, ms, e') = levels-cons t in rw (e, e') (ground arith)

pub answer-differ :
    (inside : Bool) (c d : ℕ) (s t : Bytes)
    → is_wildcard c ≡ false
    → c ≢ d
    → answer inside (c ∷ s) (d ∷ t) ≡ false
unfolding answer levels match_rest match_levels same_text is_only
answer-differ inside c d s t h ne =
    let (l, ls, e) = levels-cons s in let (m, ms, e') = levels-cons t in rw (e, e') (ground arith)

-- The answer for a `+`, with what follows in both.
pub answer-plus :
    (s t u m : Bytes) (ms : List Bytes)
    → (next_char s == 0 || next_char s == slash) ≡ true
    → IsText s
    → levels t ≡ m ∷ ms
    → levels u ≡ [] ∷ ms
    → answer false (plus ∷ s) t ≡ answer true s u
unfolding answer levels match_rest match_levels same_text is_only
answer-plus [] t u m ms h ts e e' = rw (e, e') (ground arith)
answer-plus (c ∷ s) t u m ms h (hc, ts) e e' = let (l, ls, lv) = levels-cons s in ground arith

-- The answer for the end of a topic, where the filter goes on with no wildcard.
pub answer-end :
    (inside : Bool) (c : ℕ) (s : Bytes)
    → is_wildcard c ≡ false
    → fits inside (c ∷ s) ≡ true
    → IsText s
    → answer inside (c ∷ s) [] ≡ (c == slash && next_char s == hash)
unfolding answer levels match_rest match_levels same_text is_only
answer-end inside c [] h fit ts = unfold fits in ground arith
answer-end inside c (d ∷ []) h fit ts = unfold fits in ground arith
answer-end inside c (d ∷ e ∷ s) h fit (hd, (he, ts)) =
    let (l, ls, lv) = levels-cons s in
    let (ok, rest) = fits-step inside c (d ∷ e ∷ s) (hd, (he, ts)) fit in
    let (ok', rest') = fits-step (not (c == slash)) d (e ∷ s) (he, ts) rest in rw lv (ground arith)

pub answer-slash_hash :
    (inside : Bool) (s : Bytes) → IsText s → is_slash_hash s ≡ true → answer inside s [] ≡ true
unfolding answer levels match_rest match_levels same_text is_only
answer-slash_hash inside [] ts h = ground arith
answer-slash_hash inside (x ∷ []) ts h = ground arith
answer-slash_hash inside (x ∷ y ∷ []) ts h = ground arith
answer-slash_hash inside (x ∷ y ∷ z ∷ s) (hx, (hy, (hz, ts))) h = ground arith

pub answer-both_ends : (inside : Bool) → answer inside [] [] ≡ true
unfolding answer levels match_rest match_levels same_text is_only
answer-both_ends inside = ground arith

pub answer-empty : (inside : Bool) (d : ℕ) (t : Bytes) → answer inside [] (d ∷ t) ≡ false
unfolding answer levels match_rest match_levels same_text is_only
answer-empty inside d t = let (m, ms, e) = levels-cons t in rw e (ground arith)

pub answer-last_plus : (x : ℕ) → (x == plus) ≡ true → answer false (x ∷ []) [] ≡ true
unfolding answer levels match_rest match_levels same_text is_only
answer-last_plus x h = ground arith

pub answer-hash : (t : Bytes) → answer false (hash ∷ []) t ≡ true
unfolding answer levels match_levels is_only
answer-hash t = let (m, ms, e) = levels-cons t in rw e refl
