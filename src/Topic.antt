-- ===== src/Topic.antt =====
-- util_topic.c: which topics may be published to and subscribed to. A C string is the list of its
-- bytes before the NUL. The blocks of WITH_BROKER are not part of this library.
pub mod Levels
pub mod Tokens
pub mod CheckLaws
pub mod Match
mod Tests
use artemisia.Base.{ℕ, zero, suc, ◌+◌, ◌<◌, Bool, true, false, not, ◌&&◌, ◌||◌, Option, none, some}
use artemisia.Base.{[], ◌∷◌, Bytes, Rc, ltb, ◌==◌, if◌then◌else◌, length}

abbrev pub plus : ℕ
plus = b'+'

abbrev pub hash : ℕ
hash = b'#'

abbrev pub slash : ℕ
slash = b'/'

-- `if(len > 65535) return MOSQ_ERR_INVAL;` and success behind it.
abbrev pub length_check : ℕ → Rc
length_check len = if ltb 65535 len then Rc.inval else Rc.success

unfoldable pub pub_loop : Bytes → ℕ → Rc
pub_loop [] len = length_check len
pub_loop (c ∷ str) len =
    let rest = pub_loop str (len + 1) in if c == plus || c == hash then Rc.inval else rest

-- A null pointer ends the loop at once.
unfoldable pub pub_topic_check : Option Bytes → Rc
pub_topic_check none = length_check 0
pub_topic_check (some str) = pub_loop str 0

-- The `for` over the bytes from `i` on.
pub pub_loop2 : Bytes → Rc
pub_loop2 [] = Rc.success
pub_loop2 (c ∷ str) = let rest = pub_loop2 str in if c == plus || c == hash then Rc.inval else rest

-- `str` is the array of `len` bytes.
pub pub_topic_check2 : Bytes → Rc
pub_topic_check2 str = if ltb 65535 (length str) then Rc.inval else pub_loop2 str

-- `str[1]`, which is the NUL at the end.
abbrev pub next_char : Bytes → ℕ
next_char [] = 0
next_char (c ∷ str) = c

-- The tests of one byte `str[0]` behind the byte `c`, with the bytes that follow it.
unfoldable pub is_misplaced : ℕ → ℕ → Bytes → Bool
is_misplaced c b str =
    if b == plus
    then (not (c == 0) && not (c == slash))
      || (not (next_char str == 0) && not (next_char str == slash))
    else if b == hash
    then (not (c == 0) && not (c == slash)) || not (next_char str == 0)
    else false

unfoldable pub sub_loop : ℕ → Bytes → ℕ → Rc
sub_loop c [] len = length_check len
sub_loop c (b ∷ str) len =
    let rest = sub_loop b str (len + 1) in if is_misplaced c b str then Rc.inval else rest

unfoldable pub sub_topic_check : Option Bytes → Rc
sub_topic_check none = length_check 0
sub_topic_check (some str) = sub_loop 0 str 0

-- `i<len-1 && str[i+1] != '/'` and `i<len-1`, with the bytes behind `str[i]`.
abbrev pub more_than_slash : Bytes → Bool
more_than_slash [] = false
more_than_slash (b ∷ str) = not (b == slash)

abbrev pub is_more : Bytes → Bool
is_more [] = false
is_more (b ∷ str) = true

pub is_misplaced2 : ℕ → ℕ → Bytes → Bool
is_misplaced2 c b str =
    if b == plus
    then (not (c == 0) && not (c == slash)) || more_than_slash str
    else if b == hash
    then (not (c == 0) && not (c == slash)) || is_more str
    else false

pub sub_loop2 : ℕ → Bytes → Rc
sub_loop2 c [] = Rc.success
sub_loop2 c (b ∷ str) =
    let rest = sub_loop2 b str in if is_misplaced2 c b str then Rc.inval else rest

pub sub_topic_check2 : Bytes → Rc
sub_topic_check2 str = if ltb 65535 (length str) then Rc.inval else sub_loop2 0 str
