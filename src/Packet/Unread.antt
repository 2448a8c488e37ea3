-- ===== src/Packet/Unread.antt =====
-- What a read function does, told by the bytes that a packet has left: `Reads m bs v` says that
-- `m` takes `bs` from the front, whatever follows, and stores `v`.
use artemisia.Base.{ℕ, ◌+◌, ◌-◌, ◌≤◌, ◌<◌, ◌≡◌, ◌∙◌, ap, [], ◌++◌, arith}
use artemisia.Base.{Bytes, length, get_elem?, take, drop, length-append, length-take, length-drop}
use artemisia.Base.{get_elem?-drop, get_elem?-take, drop-take, drop-drop, drop-append}
use artemisia.Packet.Defs.{Packet, done, M, ◌>>=◌, return, advance}
use artemisia.Packet.Defs.{IsReadable}
use mathlib.Core.List.{append_assoc}

-- The bytes between `pos` and `remaining_length`.
unfoldable pub unread : Packet → Bytes
unread p = take (p.remaining_length - p.pos) (drop p.pos p.payload)

pub length-unread : (p : Packet) → IsReadable p → length (unread p) ≡ p.remaining_length - p.pos
unfolding unread
length-unread p h = omega (
  arith,
  length-take (p.remaining_length - p.pos) (drop p.pos p.payload),
  length-drop p.pos p.payload,
)

pub get_elem?-unread :
    (p : Packet) (j : ℕ)
    → j < length (unread p)
    → get_elem? p.payload (p.pos + j) ≡ get_elem? (unread p) j
unfolding unread
get_elem?-unread p j h =
    rw (get_elem?-take (p.remaining_length - p.pos) j (drop p.pos p.payload) h)
      (rw (get_elem?-drop p.pos j p.payload))

pub unread-advance : (p : Packet) (n : ℕ) → unread (advance n p) ≡ drop n (unread p)
unfolding unread
unread-advance p n =
    let room : p.remaining_length - (p.pos + n) ≡ p.remaining_length - p.pos - n = omega arith in
    rw (drop-take n (p.remaining_length - p.pos) (drop p.pos p.payload), drop-drop p.pos n, room)

-- What follows is left after what was taken.
pub unread-advance_rest :
    (p : Packet) (bs r : Bytes) → unread p ≡ bs ++ r → unread (advance (length bs) p) ≡ r
unread-advance_rest p bs r h = rw (unread-advance p (length bs), h) (drop-append bs r)

pub advance-IsReadable :
    (p : Packet) (bs r : Bytes)
    → IsReadable p
    → unread p ≡ bs ++ r
    → IsReadable (advance (length bs) p)
advance-IsReadable p bs r h e =
    let fits : length bs ≤ p.remaining_length - p.pos =
      omega (arith, length-unread p h, ap length e, length-append bs r) in
    record { within = omega arith; backed = h.backed; bounded = h.bounded }

abbrev pub Reads : {A : Type 0} → M A → Bytes → A → Type 0
Reads m bs v =
    (p : Packet) (r : Bytes)
    → IsReadable p
    → unread p ≡ bs ++ r
    → m p ≡ done v (advance (length bs) p)

-- One read after another takes the bytes of both.
pub Reads-bind :
    {A B : Type 0} (m : M A) (f : A → M B) (bs cs : Bytes) (a : A) (b : B)
    → Reads m bs a
    → Reads (f a) cs b
    → Reads (m >>= f) (bs ++ cs) b
Reads-bind m f bs cs a b hm hf p r h e =
    let e' : unread p ≡ bs ++ (cs ++ r) = e ∙ append_assoc bs cs r in
    let split : p.pos + length (bs ++ cs) ≡ p.pos + length bs + length cs =
      omega (arith, length-append bs cs) in
    rw (hm p (cs ++ r) h e', ◌>>=◌, split)
      (hf (advance (length bs) p) r (advance-IsReadable p bs (cs ++ r) h e')
        (unread-advance_rest p bs (cs ++ r) e'))

pub Reads-return : {A : Type 0} (a : A) → Reads (return a) [] a
Reads-return a p r h e = let here : p.pos + 0 ≡ p.pos = omega arith in rw here

pub Reads-map :
    {A B : Type 0} (m : M A) (f : A → B) (bs : Bytes) (a : A)
    → Reads m bs a
    → Reads (do x ← m; return (f x)) bs (f a)
Reads-map m f bs a h p r ok e = rw (h p r ok e, ◌>>=◌)
