-- ===== src/Outgoing/Drain.antt =====
-- A socket that takes bytes drains the queue.
use artemisia.Base.{
  ℕ, zero, suc, ◌+◌, ◌-◌, ◌≤◌, ◌≡◌, refl, sym, ap, ◌∙◌, arith, inl, inr, Bool, true, false,
  Bool-cases, not, ◌||◌,
}
use artemisia.Base.{
  Option, none, some, List, [], ◌∷◌, ◌++◌, Bytes, Rc, ltb, ◌==◌, if◌then◌else◌, length, drop, All,
  length-append, length-take, length-drop,
}
use artemisia.State.{is_connect_pending}
use artemisia.Packet.Defs.{Packet}
use artemisia.Outgoing.Defs.{Outgoing, Reply, accepts, again, conn_reset, failed}
use artemisia.Outgoing.{
  first, behind_first, take_up, advance_by, Sent, whole, partly, sent_before, write_loop,
  after_packet, packet_loop, packet_write, is_publish_qos0, is_disconnect,
}
use artemisia.Outgoing.Stream.{
  rest_of, rest_all, rest_current, pending, IsSendable, IsCurrent, IsStream,
  packet_write-SameStream,
}
use mathlib.Core.List.{append-nil}

abbrev pub IsAccept : Reply → Type 0
IsAccept (accepts k) = Unit {0}
IsAccept r = ⊥

-- The whole packet is sent, with at most one reply for each byte.
abbrev Finishes : ℕ → ℕ → ℕ → Sent → Type 0
Finishes command budget left (whole p wire rs) =
    (p.command ≡ command) × All IsAccept rs × (budget ≤ length rs + left)
Finishes command budget left (partly p wire rs rc) = ⊥

Finishes-sent_before :
    (c budget left : ℕ) (bs : Bytes) (r : Sent)
    → Finishes c budget left r
    → Finishes c (suc budget) (suc left) (sent_before bs r)
Finishes-sent_before c budget left bs (whole p wire rs) (e, ok, h) = (e, ok, omega arith)
Finishes-sent_before c budget left bs (partly p wire rs rc) h = elim h [ ]

Finishes-mono :
    (c budget left left' : ℕ) (r : Sent)
    → left ≤ left'
    → Finishes c budget left r
    → Finishes c budget left' r
Finishes-mono c budget left left' (whole p wire rs) le (e, ok, h) = (e, ok, omega arith)
Finishes-mono c budget left left' (partly p wire rs rc) le h = elim h [ ]

write_loop-Finishes :
    (rs : List Reply) (p : Packet)
    → All IsAccept rs
    → p.to_process ≤ length rs
    → Finishes p.command (length rs) p.to_process (write_loop rs p)
unfolding write_loop advance_by
write_loop-Finishes [] p ok h =
    let z : (p.to_process == 0) ≡ true = ground arith in rw z (refl, ok, omega arith)
write_loop-Finishes (accepts k ∷ rs) p (o, ok) h = elim (Bool-cases (p.to_process == 0)) [
  | inl e ↦ rw e (refl, (o, ok), omega arith)
  | inr e ↦
      let n = if ltb p.to_process (suc k) then p.to_process else suc k in
      let one : 1 ≤ n = ground arith in
      let fewer : p.to_process - n ≤ length rs = omega arith in
      let some_left : suc (p.to_process - n) ≤ p.to_process = ground arith in
      rw e (
        Finishes-mono p.command (suc (length rs)) (suc (p.to_process - n)) p.to_process _ some_left
          (Finishes-sent_before p.command (length rs) (p.to_process - n) _
            (write_loop rs (advance_by n p)) (write_loop-Finishes rs (advance_by n p) ok fewer)))
]
write_loop-Finishes (again ∷ rs) p (o, ok) h = elim o [ ]
write_loop-Finishes (conn_reset ∷ rs) p (o, ok) h = elim o [ ]
write_loop-Finishes (failed ∷ rs) p (o, ok) h = elim o [ ]

abbrev todo : List Packet → ℕ
todo [] = 0
todo (p ∷ ps) = p.to_process + todo ps

abbrev pub IsData : Packet → Type 0
IsData p = is_disconnect p.command ≡ false

after_packet-data :
    (now : ℕ) (p : Packet) (o : Outgoing)
    → IsData p
    → ((after_packet now p o).0.current_out_packet ≡ first o.out_packet)
      × ((after_packet now p o).0.out_packet ≡ behind_first o.out_packet)
      × ((after_packet now p o).1 ≡ false)
unfolding after_packet
after_packet-data now p o d = elim (Bool-cases (is_publish_qos0 p.command)) [
  | inl e ↦ rw e (refl, refl, refl)
  | inr e ↦ rw (e, d) (refl, refl, refl)
]

abbrev Drained : Outgoing × Rc → Type 0
Drained r = (r.0.current_out_packet ≡ none) × (r.0.out_packet ≡ []) × (r.1 ≡ Rc.success)

-- The loop, from the state in which `ps` are to be sent, the first of them the current packet.
packet_loop-Drained :
    (ps : List Packet) (now : ℕ) (rs : List Reply) (o : Outgoing) (fuel : ℕ)
    → o.current_out_packet ≡ first ps
    → o.out_packet ≡ behind_first ps
    → length ps ≤ fuel
    → All IsData ps
    → All IsAccept rs
    → todo ps ≤ length rs
    → Drained (packet_loop fuel now rs o)
unfolding packet_loop
packet_loop-Drained [] now rs o zero c q f d ok h = (c, q, refl)
packet_loop-Drained [] now rs o (suc fuel) c q f d ok h = rw (c, packet_loop) (c, q, refl)
packet_loop-Drained (p ∷ ps) now rs o zero c q f d ok h = absurd (omega arith)
packet_loop-Drained (p ∷ ps) now rs o (suc fuel) c q f (dp, d) ok h =
    sent (write_loop rs p) (write_loop-Finishes rs p ok (omega arith)) refl
      (λ rs' o' c' q' ok' h'. packet_loop-Drained ps now rs' o' fuel c' q' (omega arith) d ok' h')
  where
    sent :
        (r : Sent)
        → Finishes p.command (length rs) p.to_process r
        → write_loop rs p ≡ r
        → ((rs' : List Reply) (o' : Outgoing)
            → o'.current_out_packet ≡ first ps
            → o'.out_packet ≡ behind_first ps
            → All IsAccept rs'
            → todo ps ≤ length rs'
            → Drained (packet_loop fuel now rs' o'))
        → Drained (packet_loop (suc fuel) now rs o)
    sent (partly p' bs rs' rc) e w ih = elim e [ ]
    sent (whole p' bs rs') (same, ok', budget) w ih =
        let o' = record o { wire = o.wire ++ bs } in
        let dp' : IsData p' = ap is_disconnect same ∙ dp in
        let (cur, queue, ends) = after_packet-data now p' o' dp' in
        rw (c, packet_loop, w, packet_loop, ends, packet_loop)
          (ih rs' (after_packet now p' o').0 (cur ∙ ap first q) (queue ∙ ap behind_first q) ok'
            (omega arith))

length-rest_of : (p : Packet) → IsSendable p → length (rest_of p) ≡ p.to_process
unfolding rest_of
length-rest_of p (inside, short) =
    omega (arith, length-take p.to_process (drop p.pos p.payload), length-drop p.pos p.payload)

length-rest_all : (ps : List Packet) → All IsSendable ps → length (rest_all ps) ≡ todo ps
unfolding rest_all
length-rest_all [] h = refl
length-rest_all (p ∷ ps) (hp, h) =
    omega
      (arith, length-append (rest_of p) (rest_all ps), length-rest_of p hp, length-rest_all ps h)

abbrev pub with_current : Option Packet → List Packet → List Packet
with_current none ps = ps
with_current (some p) ps = p ∷ ps

packet_loop-All :
    (now : ℕ) (rs : List Reply) (o : Outgoing)
    → IsStream o
    → All IsData (with_current o.current_out_packet o.out_packet)
    → All IsAccept rs
    → length (pending o) ≤ length rs
    → Drained (packet_loop (suc (length (take_up o).out_packet)) now rs (take_up o))
unfolding pending rest_current
packet_loop-All now rs o h d ok room = step o.current_out_packet h.0 d room
  where
    none_left : (ps : List Packet) → length ps ≤ suc (length (behind_first ps))
    none_left [] = omega arith
    none_left (p ∷ ps) = omega arith

    step :
        (cur : Option Packet)
        → IsCurrent cur
        → All IsData (with_current cur o.out_packet)
        → length (rest_current cur ++ rest_all o.out_packet) ≤ length rs
        → let o' = record o { current_out_packet = cur } in
          Drained (packet_loop (suc (length (take_up o').out_packet)) now rs (take_up o'))
    step none c d room =
        let total = length-rest_all o.out_packet h.1 in
        packet_loop-Drained o.out_packet now rs
          (record o {
            current_out_packet = first o.out_packet;
            out_packet = behind_first o.out_packet;
          })
          (suc (length (behind_first o.out_packet))) refl refl (none_left o.out_packet) d ok
          (omega arith)
    step (some p) c d room =
        let total = length-rest_all (p ∷ o.out_packet) (c, h.1) in
        packet_loop-Drained (p ∷ o.out_packet) now rs (record o { current_out_packet = some p })
          (suc (length o.out_packet)) refl refl (omega arith) d ok (unfold rest_all in omega arith)

otherwise :
    (P : Outgoing × Rc → Type 0) (b : Bool) (x y : Outgoing × Rc)
    → b ≡ false
    → P y
    → P (if b then x else y)
otherwise P true x y h p = cc
otherwise P false x y h p = p

packet_write-Drained :
    (now : ℕ) (rs : List Reply) (o : Outgoing)
    → o.has_socket ≡ true
    → (is_connect_pending o.state || o.want_connect) ≡ false
    → Drained (packet_loop (suc (length (take_up o).out_packet)) now rs (take_up o))
    → Drained (packet_write now rs o)
unfolding packet_write
packet_write-Drained now rs o has go h =
    otherwise Drained (not o.has_socket) _ _ (ap not has)
      (otherwise Drained (is_connect_pending o.state || o.want_connect) _ _ go h)

pending-empty : (o : Outgoing) → o.current_out_packet ≡ none → o.out_packet ≡ [] → pending o ≡ []
unfolding pending rest_current rest_all
pending-empty o cur queue = λ i. rest_current (cur i) ++ rest_all (queue i)

-- With a connected socket that takes something at each write, at least as often as there are bytes
-- pending, and no DISCONNECT among the packets, one `packet__write` sends all of them: it succeeds,
-- nothing stays pending, and what the network got is what was pending, in order.
pub packet_write_drains :
    (now : ℕ) (rs : List Reply) (o : Outgoing)
    → o.has_socket ≡ true
    → (is_connect_pending o.state || o.want_connect) ≡ false
    → IsStream o
    → All IsData (with_current o.current_out_packet o.out_packet)
    → All IsAccept rs
    → length (pending o) ≤ length rs
    → ((packet_write now rs o).1 ≡ Rc.success)
      × (pending (packet_write now rs o).0 ≡ [])
      × ((packet_write now rs o).0.wire ≡ o.wire ++ pending o)
packet_write_drains now rs o has go h d ok room =
    let same = (packet_write-SameStream now rs o h).0 in
    let (cur, queue, rc) =
      packet_write-Drained now rs o has go (packet_loop-All now rs o h d ok room) in
    let empty : pending (packet_write now rs o).0 ≡ [] = pending-empty _ cur queue in
    (
      rc,
      empty,
      sym (append-nil _) ∙ ap (λ t. (packet_write now rs o).0.wire ++ t) (sym empty) ∙ same,
    )
