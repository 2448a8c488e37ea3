-- ===== src/Topic/Tokens.antt =====
-- `mosquitto_sub_topic_tokenise` of mosquitto.c.
pub mod Levelled
use artemisia.Base.{
  ℕ, suc, ◌+◌, ◌-◌, Bool, true, false, Option, none, some, List, [], ◌∷◌, Bytes, Rc, ◌==◌,
  if◌then◌else◌, take, drop,
}
use artemisia.Topic.{slash}

-- One more than the slashes: the test for a slash at the end of the line never holds.
pub hier_loop : Bytes → ℕ → ℕ
hier_loop [] hier_count = hier_count
hier_loop (c ∷ str) hier_count = hier_loop str (if c == slash then hier_count + 1 else hier_count)

-- The bytes from `start` to before `stop`; a null pointer for none of them. `mem` answers calloc.
abbrev pub token : Bool → Bytes → ℕ → ℕ → Option (Option Bytes)
token mem subtopic start stop =
    if start == stop
    then some none
    else if mem
    then some (some (take (stop - start) (drop start subtopic)))
    else none

abbrev pub with_token :
    Option (Option Bytes) → Option (List (Option Bytes)) → Option (List (Option Bytes))
with_token none rest = none
with_token (some t) none = none
with_token (some t) (some ts) = some (t ∷ ts)

-- The loop over the bytes from `i` on and the NUL behind them. Without memory, the tokens before
-- are freed.
pub token_loop : (ℕ → Bool) → Bytes → Bytes → ℕ → ℕ → ℕ → Option (List (Option Bytes))
token_loop mem subtopic [] i start hier = with_token (token (mem hier) subtopic start i) (some [])
token_loop mem subtopic (c ∷ str) i start hier =
    let split = token_loop mem subtopic str (i + 1) (i + 1) (hier + 1) in
    let on = token_loop mem subtopic str (i + 1) start hier in
    if c == slash then with_token (token (mem hier) subtopic start i) split else on

-- The return code, with `*topics` and `*count` for a success.
pub data Tokenised : Type 0 where
  tokens : List (Option Bytes) → ℕ → Tokenised
  refused : Rc → Tokenised

abbrev pub tokenised : ℕ → Option (List (Option Bytes)) → Tokenised
tokenised hier_count none = refused Rc.nomem
tokenised hier_count (some ts) = tokens ts hier_count

-- `none` stands for any null pointer among the arguments; `mem0` answers the calloc of the array.
pub sub_topic_tokenise : Bool → (ℕ → Bool) → Option Bytes → Tokenised
sub_topic_tokenise mem0 mem none = refused Rc.inval
sub_topic_tokenise mem0 mem (some subtopic) =
    if mem0
    then tokenised (hier_loop subtopic 1) (token_loop mem subtopic subtopic 0 0 0)
    else refused Rc.nomem
