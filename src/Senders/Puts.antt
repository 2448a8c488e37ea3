-- ===== src/Senders/Puts.antt =====
-- A packet that is allocated, written and queued is a frame behind the stream.
use artemisia.Base.{
  ℕ, zero, suc, ◌+◌, ◌≤◌, ◌<◌, ◌≡◌, refl, ap, ◌∙◌, arith, true, Option, some, List, [], ◌∷◌, ◌++◌,
  Bytes, Rc, length, take,
}
use artemisia.Packet.Defs.{Packet, M}
use artemisia.Packet.Encode.{varint_encoding, varint_limit}
use artemisia.Packet.Write.{overwrite}
use artemisia.Packet.Write.Laws.{put, Writes, length-overwrite}
use artemisia.Outgoing.Defs.{Outgoing, Reply}
use artemisia.Outgoing.{packet_alloc, packet_queue}
use artemisia.Outgoing.Alloc.{packet_alloc-Allocated}
use artemisia.Outgoing.Stream.{pending, IsStream}
use artemisia.Outgoing.Queue.{IsBuilt, packet_queue-IsStream}
use artemisia.Incoming.Frame.{frame}
use artemisia.Senders.{fill_and_queue}

-- The call ends, and puts these bytes behind all that is sent and that waits.
abbrev pub Puts : Option (Outgoing × Rc) → Outgoing → Bytes → Type 0
Puts result o bs =
    (o' : Outgoing) × (rc : Rc) × (result ≡ some (o', rc))
    × (o'.wire ++ pending o' ≡ (o.wire ++ pending o) ++ bs)
    × IsStream o'

-- Bytes that fill a buffer to its end leave what was before them.
overwrite_end :
    (l : Bytes) (i : ℕ) (bs : Bytes) → i + length bs ≡ length l → overwrite l i bs ≡ take i l ++ bs
unfolding overwrite
overwrite_end [] zero [] h = refl
overwrite_end [] zero (b ∷ bs) h = absurd (omega arith)
overwrite_end [] (suc i) bs h = absurd (omega arith)
overwrite_end (x ∷ l) (suc i) bs h = ap (λ t. x ∷ t) (overwrite_end l i bs (omega arith))
overwrite_end (x ∷ l) zero [] h = absurd (omega arith)
overwrite_end (x ∷ l) zero (b ∷ bs) h = ap (λ t. b ∷ t) (overwrite_end l zero bs (omega arith))

-- The body is exactly as long as the packet says.
pub fill_and_queue-Puts :
    (p : Packet) (m : M (Unit {0})) (body : Bytes) (now : ℕ) (rs : List Reply) (o : Outgoing)
    → Writes m body
    → p.remaining_length ≡ length body
    → length body < varint_limit
    → IsStream o
    → Puts (fill_and_queue (packet_alloc p true) m now rs o) o (frame p.command body)
fill_and_queue-Puts p m body now rs o writes len fits h =
    let (q, allocated, a) = packet_alloc-Allocated p (omega arith) in
    let room : q.pos + length body ≡ length q.payload = omega (arith, a.room, a.backed) in
    let end_ : (put body q).payload ≡ take q.pos q.payload ++ body =
      unfold put in overwrite_end q.payload q.pos body room in
    let filled : (put body q).payload ≡ frame p.command body =
      end_ ∙ ap (λ t. t ++ body) a.header ∙ ap (λ n. p.command ∷ (varint_encoding n ++ body)) len in
    let size = length-overwrite q.payload q.pos body in
    let built : IsBuilt (put body q) =
      unfold put in (omega (arith, a.backed), omega (arith, a.writable.bounded, a.backed)) in
    let (stream, kept) = packet_queue-IsStream (put body q) now rs o built h in
    let fit : q.pos + length body ≤ q.packet_length = omega (arith, a.room) in
    (
      (packet_queue (put body q) now rs o).0,
      (packet_queue (put body q) now rs o).1,
      rw (allocated, writes q a.writable fit) refl,
      stream ∙ ap (λ t. (o.wire ++ pending o) ++ t) filled,
      kept,
    )

pub Puts-by :
    (result result' : Option (Outgoing × Rc)) (o : Outgoing) (bs : Bytes)
    → result ≡ result'
    → Puts result' o bs
    → Puts result o bs
Puts-by result result' o bs e (o', rc, e', stream, kept) = (o', rc, e ∙ e', stream, kept)
