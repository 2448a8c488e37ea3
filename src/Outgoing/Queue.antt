-- ===== src/Outgoing/Queue.antt =====
-- A packet that is queued comes behind the stream of those before it.
use artemisia.Base.{take-length}
use artemisia.Base.{
  ℕ, ◌+◌, ◌^◌, ◌≤◌, ◌<◌, ◌≡◌, sym, ap, ◌∙◌, arith, inl, inr, not, ◌&&◌, Bool-cases,
}
use artemisia.Base.{List, [], ◌∷◌, ◌++◌, length, take, All}
use artemisia.Packet.Defs.{Packet}
use artemisia.Outgoing.Defs.{Outgoing, Reply}
use artemisia.Outgoing.{packet_queue, queued_packet, append_packet}
use mathlib.Core.List.{append_assoc, append-nil}
use artemisia.Outgoing.Stream.{
  rest_of, rest_all, rest_current, pending, IsSendable, IsStream, packet_write-SameStream,
}

-- A packet with its bytes in its buffer.
abbrev pub IsBuilt : Packet → Type 0
IsBuilt p = (p.packet_length ≡ length p.payload) × (length p.payload < 2 ^ 32)

rest_all-append :
    (ps : List Packet) (p : Packet) → rest_all (ps ++ (p ∷ [])) ≡ rest_all ps ++ rest_of p
unfolding rest_all
rest_all-append [] p = append-nil (rest_of p)
rest_all-append (q ∷ ps) p =
    ap (λ t. rest_of q ++ t) (rest_all-append ps p)
    ∙ sym (append_assoc (rest_of q) (rest_all ps) (rest_of p))

All-append_one :
    (ps : List Packet) (p : Packet)
    → All IsSendable ps
    → IsSendable p
    → All IsSendable (ps ++ (p ∷ []))
All-append_one [] p h k = (k, tt)
All-append_one (q ∷ ps) p (hq, h) k = (hq, All-append_one ps p h k)

append_packet-IsStream :
    (p : Packet) (o : Outgoing)
    → IsBuilt p
    → IsStream o
    → ((append_packet p o).wire ++ pending (append_packet p o) ≡ (o.wire ++ pending o) ++ p.payload)
      × IsStream (append_packet p o)
unfolding pending rest_of
append_packet-IsStream p o (len, short) (hc, hs) =
    let cur = rest_current o.current_out_packet in
    let whole : take p.packet_length p.payload ≡ p.payload =
      ap (λ n. take n p.payload) len ∙ take-length p.payload in
    let inside : 0 + p.packet_length ≤ length p.payload = omega (arith, len) in
    (
      ap (λ t. o.wire ++ (cur ++ t)) (rest_all-append o.out_packet (queued_packet p))
          ∙ ap (λ t. o.wire ++ (cur ++ (rest_all o.out_packet ++ t))) whole
          ∙ ap (λ t. o.wire ++ t) (sym (append_assoc cur (rest_all o.out_packet) p.payload))
          ∙ sym (append_assoc o.wire (cur ++ rest_all o.out_packet) p.payload),
      (hc, All-append_one o.out_packet (queued_packet p) hs (inside, short)),
    )

-- `packet__queue` puts the bytes of a built packet behind all that is pending, whether it writes
-- at once or leaves that to another thread, and whatever the socket answers.
pub packet_queue-IsStream :
    (p : Packet) (now : ℕ) (rs : List Reply) (o : Outgoing)
    → IsBuilt p
    → IsStream o
    → ((packet_queue p now rs o).0.wire ++ pending (packet_queue p now rs o).0
        ≡ (o.wire ++ pending o) ++ p.payload)
      × IsStream (packet_queue p now rs o).0
unfolding packet_queue
packet_queue-IsStream p now rs o built h =
    let (added, kept) = append_packet-IsStream p o built h in
    let (same, kept') = packet_write-SameStream now rs (append_packet p o) kept in
    elim (Bool-cases (not o.in_callback && not o.threaded)) [
      | inl direct ↦ rw direct (same ∙ added, kept')
      | inr later ↦ rw later (added, kept)
    ]
