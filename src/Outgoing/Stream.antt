-- ===== src/Outgoing/Stream.antt =====
-- The outgoing packets are one stream of bytes: what `packet__write` hands to the socket is taken
-- off the front of what is pending, whatever the socket answers.
use artemisia.Base.{
  ℕ, zero, suc, ◌+◌, ◌-◌, ◌%◌, ◌^◌, ◌≤◌, ◌<◌, ◌≡◌, refl, sym, ap, ◌∙◌, arith, inl, inr, Bool, true,
  false, not, ◌||◌, Bool-cases,
}
use artemisia.Base.{
  Option, none, some, List, [], ◌∷◌, ◌++◌, Bytes, Rc, ltb, ◌==◌, if◌then◌else◌, length, take, drop,
  All, drop-drop, take-nil,
}
use artemisia.State.{is_connect_pending}
use artemisia.Packet.Defs.{Packet}
use artemisia.Outgoing.Defs.{Outgoing, Reply, accepts, again, conn_reset, failed}
use artemisia.Outgoing.{
  first, behind_first, take_up, advance_by, Sent, whole, partly, sent_before, write_loop,
  after_packet, do_client_disconnect, packet_loop, packet_write, is_publish_qos0, is_disconnect,
}
use mathlib.Core.List.{append_assoc, append-nil}

-- The bytes of a packet that are not sent.
unfoldable pub rest_of : Packet → Bytes
rest_of p = take p.to_process (drop p.pos p.payload)

unfoldable pub rest_all : List Packet → Bytes
rest_all [] = []
rest_all (p ∷ ps) = rest_of p ++ rest_all ps

unfoldable pub rest_current : Option Packet → Bytes
rest_current none = []
rest_current (some p) = rest_of p

-- All bytes that are still to be sent, in order.
unfoldable pub pending : Outgoing → Bytes
pending o = rest_current o.current_out_packet ++ rest_all o.out_packet

-- A packet whose bytes lie inside its buffer.
abbrev pub IsSendable : Packet → Type 0
IsSendable p = (p.pos + p.to_process ≤ length p.payload) × (length p.payload < 2 ^ 32)

abbrev pub IsCurrent : Option Packet → Type 0
IsCurrent none = Unit {0}
IsCurrent (some p) = IsSendable p

abbrev pub IsStream : Outgoing → Type 0
IsStream o = IsCurrent o.current_out_packet × All IsSendable o.out_packet

take-split : (n m : ℕ) (l : Bytes) → n ≤ m → take n l ++ take (m - n) (drop n l) ≡ take m l
take-split zero m l h = let same : m - 0 ≡ m = omega arith in rw same refl
take-split (suc n) zero l h = absurd (omega arith)
take-split (suc n) (suc m) [] h = take-nil (suc m - suc n)
take-split (suc n) (suc m) (x ∷ l) h =
    let down : suc m - suc n ≡ m - n = omega arith in
    rw down (ap (λ t. x ∷ t) (take-split n m l (omega arith)))

advance_by-rest_of :
    (n : ℕ) (p : Packet)
    → IsSendable p
    → n ≤ p.to_process
    → (take n (drop p.pos p.payload) ++ rest_of (advance_by n p) ≡ rest_of p)
      × IsSendable (advance_by n p)
unfolding rest_of advance_by
advance_by-rest_of n p (inside, short) h =
    let same : (p.pos + n) % 2 ^ 32 ≡ p.pos + n = omega arith in
    rw same (
      ap (λ t. take n (drop p.pos p.payload) ++ take (p.to_process - n) t)
            (sym (drop-drop p.pos n p.payload))
          ∙ take-split n p.to_process (drop p.pos p.payload) h,
      (omega arith, short),
    )

-- What one packet's loop keeps: bytes handed over and bytes left are the packet's bytes.
abbrev pub Conserves : Packet → Sent → Type 0
Conserves p (whole p' wire rs) = (wire ≡ rest_of p) × (p'.command ≡ p.command) × (p'.mid ≡ p.mid)
Conserves p (partly p' wire rs rc) = (wire ++ rest_of p' ≡ rest_of p) × IsSendable p'

Conserves-sent_before :
    (n : ℕ) (p : Packet) (r : Sent)
    → IsSendable p
    → n ≤ p.to_process
    → Conserves (advance_by n p) r
    → Conserves p (sent_before (take n (drop p.pos p.payload)) r)
unfolding advance_by
Conserves-sent_before n p (whole p' wire rs) ok h (e, c, m) =
    (ap (λ t. take n (drop p.pos p.payload) ++ t) e ∙ (advance_by-rest_of n p ok h).0, c, m)
Conserves-sent_before n p (partly p' wire rs rc) ok h (e, ok') = (
  append_assoc (take n (drop p.pos p.payload)) wire (rest_of p')
      ∙ ap (λ t. take n (drop p.pos p.payload) ++ t) e
      ∙ (advance_by-rest_of n p ok h).0,
  ok',
)

rest_of-none : (p : Packet) → (p.to_process == 0) ≡ true → [] ≡ rest_of p
unfolding rest_of
rest_of-none p e = let z : p.to_process ≡ 0 = ground arith in rw z

-- A round that hands nothing over.
Conserves-end :
    (p : Packet) (rs rs' : List Reply) (rc : Rc)
    → IsSendable p
    → Conserves p (if p.to_process == 0 then whole p [] rs else partly p [] rs' rc)
Conserves-end p rs rs' rc ok = elim (Bool-cases (p.to_process == 0)) [
  | inl e ↦ rw e (rest_of-none p e, refl, refl)
  | inr e ↦ rw e (refl, ok)
]

pub write_loop-Conserves :
    (rs : List Reply) (p : Packet) → IsSendable p → Conserves p (write_loop rs p)
unfolding write_loop
write_loop-Conserves [] p ok = Conserves-end p [] [] Rc.success ok
write_loop-Conserves (accepts k ∷ rs) p ok = elim (Bool-cases (p.to_process == 0)) [
  | inl e ↦ rw e (rest_of-none p e, refl, refl)
  | inr e ↦
      let n = if ltb p.to_process (suc k) then p.to_process else suc k in
      let h : n ≤ p.to_process = ground arith in
      rw e (
        Conserves-sent_before n p (write_loop rs (advance_by n p)) ok h
          (write_loop-Conserves rs (advance_by n p) (advance_by-rest_of n p ok h).1))
]
write_loop-Conserves (again ∷ rs) p ok = Conserves-end p (again ∷ rs) rs Rc.success ok
write_loop-Conserves (conn_reset ∷ rs) p ok = Conserves-end p (conn_reset ∷ rs) rs Rc.conn_lost ok
write_loop-Conserves (failed ∷ rs) p ok = Conserves-end p (failed ∷ rs) rs Rc.errno ok

-- Bytes handed over and bytes pending are the same stream as before.
abbrev pub SameStream : Outgoing → Outgoing → Type 0
SameStream o o' = (o'.wire ++ pending o' ≡ o.wire ++ pending o) × IsStream o'

rest-first :
    (ps : List Packet) → rest_current (first ps) ++ rest_all (behind_first ps) ≡ rest_all ps
unfolding rest_current rest_all
rest-first [] = refl
rest-first (p ∷ ps) = refl

IsStream-first :
    (ps : List Packet) → All IsSendable ps → IsCurrent (first ps) × All IsSendable (behind_first ps)
IsStream-first [] h = (tt, tt)
IsStream-first (p ∷ ps) h = h

-- A sent packet is followed by the rest of the queue.
after_packet-pending :
    (now : ℕ) (p : Packet) (o : Outgoing)
    → All IsSendable o.out_packet
    → ((after_packet now p o).0.wire ≡ o.wire)
      × (pending (after_packet now p o).0 ≡ rest_all o.out_packet)
      × IsStream (after_packet now p o).0
unfolding after_packet do_client_disconnect pending
after_packet-pending now p o h =
    let same = rest-first o.out_packet in
    let ok = IsStream-first o.out_packet h in
    elim (Bool-cases (is_publish_qos0 p.command)) [
      | inl e ↦ rw e (refl, same, ok)
      | inr e ↦ elim (Bool-cases (is_disconnect p.command)) [
        | inl d ↦ rw (e, d) (refl, same, ok)
        | inr d ↦ rw (e, d) (refl, same, ok)
      ]
    ]

-- Bytes that move from the front of what is pending to the end of the wire.
moved : (w bs r r' rest : Bytes) → bs ++ r ≡ r' → (w ++ bs) ++ (r ++ rest) ≡ w ++ (r' ++ rest)
moved w bs r r' rest e =
    append_assoc w bs (r ++ rest)
    ∙ ap (λ t. w ++ t) (sym (append_assoc bs r rest) ∙ ap (λ t. t ++ rest) e)

packet_loop-SameStream :
    (fuel now : ℕ) (rs : List Reply) (o : Outgoing)
    → IsStream o
    → SameStream o (packet_loop fuel now rs o).0
unfolding packet_loop pending rest_current
packet_loop-SameStream zero now rs o h = (refl, h)
packet_loop-SameStream (suc fuel) now rs o h =
    current o.current_out_packet h.0 (packet_loop-SameStream fuel now)
  where
    sent :
        (p : Packet) (r : Sent)
        → Conserves p r
        → ((rs : List Reply) (o : Outgoing)
            → IsStream o
            → SameStream o (packet_loop fuel now rs o).0)
        → (write_loop rs p ≡ r)
        → SameStream
            (record o { current_out_packet = some p })
            (packet_loop (suc fuel) now rs (record o { current_out_packet = some p })).0
    sent p (partly p' bs rs' rc) (e, ok) ih w =
        rw (w, packet_loop)
          (moved o.wire bs (rest_of p') (rest_of p) (rest_all o.out_packet) e, (ok, h.1))
    sent p (whole p' bs rs') (e, c, m) ih w =
        let o' = record o { current_out_packet = some p; wire = o.wire ++ bs } in
        let (wire, left, ok) = after_packet-pending now p' o' h.1 in
        let all = moved o.wire bs [] (rest_of p) (rest_all o.out_packet) (append-nil bs ∙ e) in
        let (o'', ends) = after_packet now p' o' in
        let joined : o''.wire ++ pending o'' ≡ o.wire ++ (rest_of p ++ rest_all o.out_packet) =
          ap (λ t. t ++ pending o'') wire ∙ ap (λ t. (o.wire ++ bs) ++ t) left ∙ all in
        rw (w, packet_loop)
          (elim (Bool-cases ends) [
            | inl stop ↦ rw (stop, packet_loop) (joined, ok)
            | inr go ↦
                rw (go, packet_loop) (let (same, kept) = ih rs' o'' ok in (same ∙ joined, kept))
          ])

    current :
        (cur : Option Packet)
        → IsCurrent cur
        → ((rs : List Reply) (o : Outgoing)
            → IsStream o
            → SameStream o (packet_loop fuel now rs o).0)
        → SameStream
            (record o { current_out_packet = cur })
            (packet_loop (suc fuel) now rs (record o { current_out_packet = cur })).0
    current none c ih = (refl, (tt, h.1))
    current (some p) c ih = sent p (write_loop rs p) (write_loop-Conserves rs p c) ih refl

take_up-SameStream : (o : Outgoing) → IsStream o → SameStream o (take_up o)
unfolding pending rest_current
take_up-SameStream o h = step o.current_out_packet h.0
  where
    step :
        (cur : Option Packet)
        → IsCurrent cur
        → SameStream
            (record o { current_out_packet = cur })
            (take_up (record o { current_out_packet = cur }))
    step none c = (ap (λ t. o.wire ++ t) (rest-first o.out_packet), IsStream-first o.out_packet h.1)
    step (some p) c = (refl, (c, h.1))

-- A property of both branches.
branch :
    (P : Outgoing → Type 0) (b : Bool) (x y : Outgoing × Rc)
    → P x.0
    → P y.0
    → P (if b then x else y).0
branch P true x y hx hy = hx
branch P false x y hx hy = hy

-- `packet__write` hands bytes to the socket off the front of what is pending, in order, and keeps
-- all others, whatever the socket answers: what was written and what is pending stay the same
-- stream of bytes, and the packets left lie inside their buffers.
pub packet_write-SameStream :
    (now : ℕ) (rs : List Reply) (o : Outgoing) → IsStream o → SameStream o (packet_write now rs o).0
unfolding packet_write
packet_write-SameStream now rs o h =
    let (same, kept) = take_up-SameStream o h in
    let (same', kept') =
      packet_loop-SameStream (suc (length (take_up o).out_packet)) now rs (take_up o) kept in
    branch (SameStream o) (not o.has_socket) _ _ (refl, h)
      (branch (SameStream o) (is_connect_pending o.state || o.want_connect) _ _ (same, kept)
        (same' ∙ same, kept'))
