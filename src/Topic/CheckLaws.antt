-- ===== src/Topic/CheckLaws.antt =====
-- The checks of util_topic.c against the levels of a topic.
use artemisia.Base.{ℕ, ◌+◌, ◌≤◌, ◌<◌, ◌≡◌, ◌≢◌, refl, inl, inr, arith}
use artemisia.Base.{
  not, ◌&&◌, ◌||◌, Bool, Bool-cases, some, List, [], ◌∷◌, Bytes, Rc, ltb, leb, ◌==◌,
}
use artemisia.Base.{if◌then◌else◌, length, All}
use artemisia.Topic.{slash, pub_loop, pub_topic_check, pub_loop2, pub_topic_check2}
use artemisia.Topic.{
  is_misplaced, sub_loop, sub_topic_check, is_misplaced2, sub_loop2, sub_topic_check2,
}
use artemisia.Topic.Levels.{levels, is_plain, is_only, is_filter, is_rest}

-- A topic of at most 65535 bytes that passes a test.
abbrev pub verdict : Bool → ℕ → Rc
verdict good len = if good && leb len 65535 then Rc.success else Rc.inval

pub_loop_lem : (s : Bytes) (len : ℕ) → pub_loop s len ≡ verdict (is_plain s) (length s + len)
unfolding pub_loop is_plain
pub_loop_lem [] len = ground arith
pub_loop_lem (c ∷ s) len = ground (arith, pub_loop_lem s (len + 1))

-- `mosquitto_pub_topic_check` accepts a topic exactly if it holds no `+` and no `#` and has at most
-- 65535 bytes; otherwise it returns MOSQ_ERR_INVAL.
pub pub_topic_check_lem : (s : Bytes) → pub_topic_check (some s) ≡ verdict (is_plain s) (length s)
unfolding pub_topic_check
pub_topic_check_lem s =
    let here : length s + 0 ≡ length s = omega arith in rw (pub_loop_lem s 0, here)

pub_loop2_lem : (s : Bytes) → pub_loop2 s ≡ (if is_plain s then Rc.success else Rc.inval)
unfolding pub_loop2 is_plain
pub_loop2_lem [] = refl
pub_loop2_lem (c ∷ s) = ground (arith, pub_loop2_lem s)

-- `mosquitto_pub_topic_check2` gives the answer of `mosquitto_pub_topic_check`.
pub pub_topic_check2-eq : (s : Bytes) → pub_topic_check2 s ≡ pub_topic_check (some s)
unfolding pub_topic_check2
pub_topic_check2-eq s = rw (pub_topic_check_lem s, pub_loop2_lem s) (ground arith)

abbrev pub IsText : Bytes → Type 0
IsText s = All (λ (c : ℕ). c ≢ 0) s

is_misplaced2-eq : (c b : ℕ) (s : Bytes) → IsText s → is_misplaced2 c b s ≡ is_misplaced c b s
unfolding is_misplaced is_misplaced2
is_misplaced2-eq c b [] t = ground arith
is_misplaced2-eq c b (d ∷ s) t = ground arith

sub_loop2-eq :
    (c : ℕ) (s : Bytes) (len : ℕ)
    → IsText s
    → length s + len ≤ 65535
    → sub_loop2 c s ≡ sub_loop c s len
unfolding sub_loop sub_loop2
sub_loop2-eq c [] len t h = ground arith
sub_loop2-eq c (b ∷ s) len (tb, ts) h =
    rw (is_misplaced2-eq c b s ts, sub_loop2-eq b s (len + 1) ts (omega arith))

sub_loop_long : (c : ℕ) (s : Bytes) (len : ℕ) → 65535 < length s + len → sub_loop c s len ≡ Rc.inval
unfolding sub_loop
sub_loop_long c [] len h = ground arith
sub_loop_long c (b ∷ s) len h = ground (arith, sub_loop_long b s (len + 1))

-- `mosquitto_sub_topic_check2` gives the answer of `mosquitto_sub_topic_check`, for a topic
-- filter without a NUL.
pub sub_topic_check2-eq : (s : Bytes) → IsText s → sub_topic_check2 s ≡ sub_topic_check (some s)
unfolding sub_topic_check2 sub_topic_check
sub_topic_check2-eq s t = elim (Bool-cases (ltb 65535 (length s))) [
  | inl long ↦ rw (long, sub_loop_long 0 s 0 (ground arith))
  | inr short ↦ rw short (sub_loop2-eq 0 s 0 t (ground arith))
]

pub levels-cons : (s : Bytes) → (l : Bytes) × (ls : List Bytes) × (levels s ≡ l ∷ ls)
unfolding levels
levels-cons [] = ([], [], refl)
levels-cons (c ∷ s) = elim (Bool-cases (c == slash)) [
  | inl e ↦ ([], levels s, rw e)
  | inr e ↦ let (l, ls, h) = levels-cons s in (c ∷ l, ls, rw (e, h))
]

-- What the rest `s` of a filter has to be behind the byte `c`.
expected : ℕ → Bytes → Bool
expected c s = if c == 0 || c == slash then is_filter (levels s) else is_rest (levels s)

expected-end :
    (c b : ℕ) → b ≢ 0 → expected c (b ∷ []) ≡ (not (is_misplaced c b []) && expected b [])
unfolding expected is_misplaced levels is_filter is_rest is_plain is_only
expected-end c b hb = ground arith

expected-step :
    (c b d : ℕ) (t l : Bytes) (ls : List Bytes)
    → b ≢ 0
    → d ≢ 0
    → levels t ≡ l ∷ ls
    → expected c (b ∷ d ∷ t) ≡ (not (is_misplaced c b (d ∷ t)) && expected b (d ∷ t))
unfolding expected is_misplaced levels is_filter is_rest is_plain is_only
expected-step c b d t l [] hb hd e = ground arith
expected-step c b d t l (m ∷ ls) hb hd e = ground arith

sub_loop_lem :
    (c : ℕ) (s : Bytes) (len : ℕ)
    → IsText s
    → sub_loop c s len ≡ verdict (expected c s) (length s + len)
unfolding sub_loop
sub_loop_lem c [] len t = unfold expected levels is_filter is_rest is_plain is_only in ground arith
sub_loop_lem c (b ∷ []) len (hb, t) =
    rw (expected-end c b hb) (ground (arith, sub_loop_lem b [] (len + 1) t))
sub_loop_lem c (b ∷ d ∷ s) len (hb, t) =
    let (l, ls, e) = levels-cons s in
    rw (expected-step c b d s l ls hb t.0 e) (ground (arith, sub_loop_lem b (d ∷ s) (len + 1) t))

-- `mosquitto_sub_topic_check` accepts a topic filter without a NUL exactly if each of its levels
-- is a `+` or holds no wildcard, but for the last, which may be a `#`, and it has at most 65535
-- bytes; otherwise it returns MOSQ_ERR_INVAL. So it accepts the empty filter, which MQTT forbids, and
-- never looks at UTF-8.
pub sub_topic_check_lem :
    (s : Bytes) → IsText s → sub_topic_check (some s) ≡ verdict (is_filter (levels s)) (length s)
unfolding sub_topic_check
sub_topic_check_lem s t =
    let here : length s + 0 ≡ length s = omega arith in
    let first : expected 0 s ≡ is_filter (levels s) = unfold expected in refl in
    rw (sub_loop_lem 0 s 0 t, here, first)
