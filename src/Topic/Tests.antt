-- ===== src/Topic/Tests.antt =====
-- Runs of util_topic.c, and its theorems at concrete inputs.
use artemisia.Topic.Tokens.{tokens, sub_topic_tokenise}
use artemisia.Topic.Tokens.Levelled.{as_token, sub_topic_tokenise_lem}
use artemisia.Base.{map}
use artemisia.Base.{◌≡◌, refl, arith, true, not, ◌&&◌, some, [], ◌∷◌, Bytes, Rc, length}
use artemisia.Topic.{plus, hash, slash, sub_topic_check, sub_loop, is_misplaced}
use artemisia.Topic.Levels.{levels, is_plain, is_filter, match_levels, is_only}
use artemisia.Topic.Match.{topic_matches_sub}
use artemisia.Topic.Match.Whole.{is_hidden, topic_matches_sub_lem}
use artemisia.Topic.CheckLaws.{verdict, IsText, sub_topic_check_lem}

-- a/+/#
abbrev filter_text : Bytes
filter_text = b'a' ∷ slash ∷ plus ∷ slash ∷ hash ∷ []

filter_text-IsText : IsText filter_text
filter_text-IsText = omega arith

-- a/b+
misplaced : sub_topic_check (some (b'a' ∷ slash ∷ b'b' ∷ plus ∷ [])) ≡ Rc.inval
unfolding sub_topic_check sub_loop is_misplaced
misplaced = refl

sub_topic_check_lem_example :
    sub_topic_check (some filter_text)
    ≡ verdict (is_filter (levels filter_text)) (length filter_text)
sub_topic_check_lem_example = sub_topic_check_lem filter_text filter_text-IsText

-- a/b/c
abbrev topic_text : Bytes
topic_text = b'a' ∷ slash ∷ b'b' ∷ slash ∷ b'c' ∷ []

topic_text-IsText : IsText topic_text
topic_text-IsText = omega arith

filter_text-fits : is_filter (levels filter_text) ≡ true
unfolding is_filter levels is_plain is_only
filter_text-fits = refl

topic_matches_sub_lem_example : topic_matches_sub (some filter_text) (some topic_text) ≡ (
  Rc.success,
  not (is_hidden filter_text topic_text) && match_levels (levels filter_text) (levels topic_text),
)
unfolding levels is_filter is_plain
topic_matches_sub_lem_example =
    topic_matches_sub_lem b'a' b'a' (slash ∷ plus ∷ slash ∷ hash ∷ [])
      (slash ∷ b'b' ∷ slash ∷ b'c' ∷ []) filter_text-IsText topic_text-IsText filter_text-fits refl

sub_topic_tokenise_lem_example :
    sub_topic_tokenise true (λ i. true) (some filter_text)
    ≡ tokens (map as_token (levels filter_text)) (length (levels filter_text))
sub_topic_tokenise_lem_example = sub_topic_tokenise_lem (λ i. true) filter_text (λ i. refl)
