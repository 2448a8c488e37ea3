-- ===== src/Outgoing/Tests.antt =====
-- Runs of the sending part of packet_mosq.c, and its theorems at concrete inputs.
use artemisia.Base.{ℤ, ◌≡◌, refl, arith, true, false, some, [], ◌∷◌, ◌++◌, Rc}
use artemisia.State.{ClientState}
use artemisia.Packet.Defs.{Packet}
use artemisia.Outgoing.Defs.{Outgoing, accepts, again}
use artemisia.Outgoing.{
  packet_queue, packet_write, packet_loop, write_loop, advance_by, after_packet,
}
use artemisia.Outgoing.Stream.{
  pending, rest_current, rest_all, rest_of, SameStream, IsStream, packet_write-SameStream,
}
use artemisia.Outgoing.Queue.{packet_queue-IsStream}
use artemisia.Outgoing.Drain.{packet_write_drains}

-- A PINGREQ as `packet__alloc` builds it.
abbrev ping : Packet
ping = record {
  payload = 0xc0 ∷ 0 ∷ [];
  remaining_mult = 0;
  remaining_length = 0;
  packet_length = 2;
  to_process = 0;
  pos = 2;
  mid = 0;
  command = 0xc0;
  remaining_count = ℤ.pos 1;
}

-- One byte of a PINGREQ is sent, and another one waits.
abbrev halfway : Outgoing
halfway = record {
  has_socket = true;
  state = ClientState.active;
  want_connect = false;
  in_callback = false;
  threaded = false;
  keepalive = 60;
  next_msg_out = 0;
  current_out_packet = some (record ping { to_process = 1; pos = 1 });
  out_packet = record ping { to_process = 2; pos = 0 } ∷ [];
  wire = 0xc0 ∷ [];
  on_publish = [];
  on_disconnect = [];
}

halfway-IsStream : IsStream halfway
halfway-IsStream = omega arith

sent_all :
    (packet_write 7 (accepts 3 ∷ accepts 0 ∷ accepts 0 ∷ []) halfway).0.wire
    ≡ 0xc0 ∷ 0 ∷ 0xc0 ∷ 0 ∷ []
unfolding packet_write packet_loop write_loop advance_by after_packet
sent_all = refl

packet_write-SameStream_example :
    SameStream halfway (packet_write 7 (accepts 1 ∷ again ∷ []) halfway).0
packet_write-SameStream_example =
    packet_write-SameStream 7 (accepts 1 ∷ again ∷ []) halfway halfway-IsStream

packet_queue-IsStream_example :
    ((packet_queue ping 7 (again ∷ []) halfway).0.wire
        ++ pending (packet_queue ping 7 (again ∷ []) halfway).0
      ≡ (halfway.wire ++ pending halfway) ++ ping.payload)
    × IsStream (packet_queue ping 7 (again ∷ []) halfway).0
packet_queue-IsStream_example =
    packet_queue-IsStream ping 7 (again ∷ []) halfway (refl, omega arith) halfway-IsStream

packet_write_drains_example :
    ((packet_write 7 (accepts 0 ∷ accepts 0 ∷ accepts 0 ∷ []) halfway).1 ≡ Rc.success)
    × (pending (packet_write 7 (accepts 0 ∷ accepts 0 ∷ accepts 0 ∷ []) halfway).0 ≡ [])
    × ((packet_write 7 (accepts 0 ∷ accepts 0 ∷ accepts 0 ∷ []) halfway).0.wire
        ≡ halfway.wire ++ pending halfway)
packet_write_drains_example =
    packet_write_drains 7 (accepts 0 ∷ accepts 0 ∷ accepts 0 ∷ []) halfway refl refl
      halfway-IsStream (refl, (refl, tt)) (tt, (tt, (tt, tt)))
      (unfold pending rest_current rest_all rest_of in omega arith)
