-- ===== src/Topic/Match/Tests.antt =====
-- Runs of mosquitto_topic_matches_sub.
use artemisia.Base.{◌≡◌, refl, true, some, [], ◌∷◌, Rc}
use artemisia.Topic.{plus, hash, slash}
use artemisia.Topic.Match.{
  topic_matches_sub, topic_matches_sub2, matches_texts, match_loop, scan, skip_level, no_match,
  plus_round, hash_round, other_round, equal_round, wild_round,
}

-- +/b against a/b.
matched :
    topic_matches_sub (some (plus ∷ slash ∷ b'b' ∷ [])) (some (b'a' ∷ slash ∷ b'b' ∷ []))
    ≡ (Rc.success, true)
unfolding topic_matches_sub topic_matches_sub2 matches_texts match_loop scan skip_level no_match
    plus_round hash_round other_round equal_round wild_round
matched = refl

-- a/# matches a.
matched_parent :
    topic_matches_sub (some (b'a' ∷ slash ∷ hash ∷ [])) (some (b'a' ∷ [])) ≡ (Rc.success, true)
unfolding topic_matches_sub topic_matches_sub2 matches_texts match_loop scan skip_level no_match
    plus_round hash_round other_round equal_round wild_round
matched_parent = refl
