-- ===== src/Topic/Levels.antt =====
-- Topic filters as MQTT has them: levels between slashes, a `+` for a whole level, a `#` for the
-- last ones.
use artemisia.Base.{
  ℕ, Bool, true, false, not, ◌&&◌, ◌||◌, List, [], ◌∷◌, Bytes, ◌==◌, if◌then◌else◌,
}
use artemisia.Topic.{plus, hash, slash}

abbrev pub into_first : ℕ → List Bytes → List Bytes
into_first c [] = (c ∷ []) ∷ []
into_first c (l ∷ ls) = (c ∷ l) ∷ ls

-- The text between the slashes: one level more than slashes.
unfoldable pub levels : Bytes → List Bytes
levels [] = [] ∷ []
levels (c ∷ str) = if c == slash then [] ∷ levels str else into_first c (levels str)

unfoldable pub is_plain : Bytes → Bool
is_plain [] = true
is_plain (c ∷ l) = not (c == plus || c == hash) && is_plain l

-- A wildcard `w` that is the whole level.
unfoldable pub is_only : ℕ → Bytes → Bool
is_only w [] = false
is_only w (c ∷ []) = c == w
is_only w (c ∷ d ∷ l) = false

unfoldable pub is_filter : List Bytes → Bool
is_filter [] = true
is_filter (l ∷ []) = is_plain l || is_only plus l || is_only hash l
is_filter (l ∷ m ∷ ls) = (is_plain l || is_only plus l) && is_filter (m ∷ ls)

-- The rest of a level that began with something else than a wildcard.
unfoldable pub is_rest : List Bytes → Bool
is_rest [] = true
is_rest (l ∷ []) = is_plain l
is_rest (l ∷ m ∷ ls) = is_plain l && is_filter (m ∷ ls)

unfoldable pub same_text : Bytes → Bytes → Bool
same_text [] [] = true
same_text [] (d ∷ t) = false
same_text (c ∷ s) [] = false
same_text (c ∷ s) (d ∷ t) = c == d && same_text s t

-- A filter against a topic, level by level: a `#` stands for any number of levels, also for none,
-- and a `+` for one.
unfoldable pub match_levels : List Bytes → List Bytes → Bool
match_levels [] [] = true
match_levels [] (t ∷ ts) = false
match_levels (f ∷ fs) [] = is_only hash f
match_levels (f ∷ fs) (t ∷ ts) =
    is_only hash f || ((is_only plus f || same_text f t) && match_levels fs ts)
