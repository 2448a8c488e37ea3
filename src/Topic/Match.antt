-- ===== src/Topic/Match.antt =====
-- `mosquitto_topic_matches_sub` and `mosquitto_topic_matches_sub2` of util_topic.c: the return code
-- and what `*result` is then. The two lengths are not used by the code.
pub mod Laws
pub mod Rounds
pub mod Whole
mod Tests
use artemisia.Base.{ℕ, Bool, true, false, not, ◌&&◌, ◌||◌, Option, none, some, [], ◌∷◌, Bytes}
use artemisia.Base.{Rc, ◌==◌, if◌then◌else◌}
use artemisia.Topic.{plus, hash, slash, next_char}

abbrev pub dollar : ℕ
dollar = b'$'

abbrev pub Answer : Type 0
Answer = Rc × Bool

abbrev pub is_wildcard : ℕ → Bool
is_wildcard c = c == plus || c == hash

abbrev pub behind_first : Bytes → Bytes
behind_first [] = []
behind_first (c ∷ s) = s

abbrev pub is_empty : Bytes → Bool
is_empty [] = true
is_empty (c ∷ s) = false

-- `while(topic[0] != 0)` with the test for wildcards, and the answer behind it.
pub scan : Bytes → Bool → Answer
scan [] r = (Rc.success, r)
scan (t ∷ topic) r = let rest = scan topic r in if is_wildcard t then (Rc.inval, false) else rest

-- The rest of the topic from the next slash on, or `none` where a wildcard stands before it.
pub skip_level : Bytes → Option Bytes
skip_level [] = some []
skip_level (t ∷ topic) =
    let rest = skip_level topic in
    if t == slash then some (t ∷ topic) else if is_wildcard t then none else rest

-- `spos > 0 && sub[-1] != '/'`, with `sub[-1]` if there is one.
abbrev pub is_inside : Option ℕ → Bool
is_inside none = false
is_inside (some c) = not (c == slash)

abbrev pub is_behind_plus : Option ℕ → Bool
is_behind_plus none = false
is_behind_plus (some c) = c == plus

-- No match: the rest of the subscription is looked through for a `#` before its end.
pub no_match : Bytes → Answer
no_match [] = (Rc.success, false)
no_match (c ∷ sub) =
    let rest = no_match sub in
    if c == hash && not (next_char sub == 0) then (Rc.inval, false) else rest

-- Behind a `+` and the level of the topic that it stands for; `go` is the rest of the loop.
abbrev pub after_level : Bytes → Option Bytes → (Bytes → Answer) → Answer
after_level sub none go = (Rc.inval, false)
after_level sub (some topic) go =
    if is_empty topic && is_empty sub then (Rc.success, true) else go topic

pub plus_round : Option ℕ → Bytes → Bytes → (Bytes → Answer) → Answer
plus_round prev sub topic go =
    if is_inside prev
    then (Rc.inval, false)
    else if not (next_char sub == 0) && not (next_char sub == slash)
    then (Rc.inval, false)
    else after_level sub (skip_level topic) go

pub hash_round : Option ℕ → Bytes → Bytes → Answer
hash_round prev sub topic =
    if is_inside prev
    then (Rc.inval, false)
    else if not (next_char sub == 0)
    then (Rc.inval, false)
    else scan topic true

pub other_round : Option ℕ → ℕ → Bytes → Bytes → Answer
other_round prev c sub topic =
    if next_char topic == 0 && is_behind_plus prev && c == slash && next_char sub == hash
    then (Rc.success, true)
    else no_match (c ∷ sub)

-- `sub[1] == '/' && sub[2] == '#' && sub[3] == 0`, from `sub[1]` on.
abbrev pub is_slash_hash : Bytes → Bool
is_slash_hash sub =
    next_char sub == slash
    && next_char (behind_first sub) == hash
    && next_char (behind_first (behind_first sub)) == 0

-- The byte `c` stands in both; `sub` and `topic` are what follows it.
pub equal_round : ℕ → Bytes → Bytes → (Bytes → Answer) → Answer
equal_round c sub topic go =
    if is_empty topic && is_slash_hash sub
    then (Rc.success, true)
    else if is_empty sub && is_empty topic
    then (Rc.success, true)
    else if is_empty topic && next_char sub == plus && is_empty (behind_first sub)
    then (if not (c == slash) then (Rc.inval, false) else (Rc.success, true))
    else go topic

-- The bytes differ or the topic has ended: `check for wildcard matches`.
pub wild_round : Option ℕ → ℕ → Bytes → Bytes → (Bytes → Answer) → Answer
wild_round prev c sub topic go =
    if c == plus
    then plus_round prev sub topic go
    else if c == hash
    then hash_round prev sub topic
    else other_round prev c sub topic

-- The loop, with the byte `sub[-1]` if there is one.
pub match_loop : Option ℕ → Bytes → Bytes → Answer
match_loop prev [] topic = scan topic false
match_loop prev (c ∷ sub) topic =
    let go = match_loop (some c) sub in
    if is_wildcard (next_char topic)
    then (Rc.inval, false)
    else if not (c == next_char topic) || next_char topic == 0
    then wild_round prev c sub topic go
    else equal_round c sub (behind_first topic) go

abbrev pub is_system : Bytes → Bool
is_system s = next_char s == dollar

pub matches_texts : Bytes → Bytes → Answer
matches_texts sub topic =
    if is_empty sub || is_empty topic
    then (Rc.inval, false)
    else if (is_system sub && not (is_system topic)) || (is_system topic && not (is_system sub))
    then (Rc.success, false)
    else match_loop none sub topic

-- A null pointer is MOSQ_ERR_INVAL.
pub topic_matches_sub2 : Option Bytes → Option Bytes → Answer
topic_matches_sub2 none topic = (Rc.inval, false)
topic_matches_sub2 (some sub) none = (Rc.inval, false)
topic_matches_sub2 (some sub) (some topic) = matches_texts sub topic

pub topic_matches_sub : Option Bytes → Option Bytes → Answer
topic_matches_sub sub topic = topic_matches_sub2 sub topic
