-- ===== src/Incoming/Tests.antt =====
-- A packet that comes in over three reads and two calls.
use artemisia.Base.{ℕ, ◌+◌, ◌-◌, ◌≡◌, refl, arith, true, List, [], ◌∷◌, Bytes, Rc, ℤ}
use artemisia.State.{ClientState}
use artemisia.Packet.Defs.{Packet}
use artemisia.Incoming.{
  Incoming, handled, packet_read, receive, then_go, read_command, after_command, read_length,
  after_loop, length_loop, add_length, read_body, body_loop, begin_body, store,
}
use artemisia.Incoming.Socket.{Arrival, net_read, run}
use artemisia.Packet.Encode.{varint_encoding, varint_groups}
use artemisia.Incoming.Feeds.{Holds}
use artemisia.Incoming.Delivery.{Delivers, at, calls, packet_read-Delivers}

abbrev empty_packet : Packet
empty_packet = record {
  command = 0;
  mid = 0;
  pos = 0;
  to_process = 0;
  packet_length = 0;
  remaining_length = 0;
  remaining_mult = 1;
  remaining_count = ℤ.pos 0;
  payload = [];
}

-- A PUBLISH packet of six bytes, and the first byte of the next packet.
abbrev stream : List Arrival
stream =
    Arrival.byte 48
    ∷ Arrival.gap
    ∷ Arrival.byte 4
    ∷ Arrival.byte 0
    ∷ Arrival.pause
    ∷ Arrival.byte 1
    ∷ Arrival.byte 97
    ∷ Arrival.gap
    ∷ Arrival.byte 104
    ∷ Arrival.byte 208
    ∷ []

abbrev body : Bytes
body = 0 ∷ 1 ∷ 97 ∷ 104 ∷ []

abbrev client : Incoming ℕ
client = record {
  has_socket = true;
  state = ClientState.active;
  in_packet = empty_packet;
  socket = stream;
  last_msg_in = 5;
  client = 0;
}

abbrev count_packet : Incoming ℕ → Incoming ℕ × Rc
count_packet c = (record c { client = c.client + 1 }, Rc.success)

abbrev clock : ℕ → ℕ
clock w = 9 - w

one_pause : Delivers 1 (48 ∷ 4 ∷ body) stream (Arrival.byte 208 ∷ [])
one_pause = Delivers.came 48 (
    Delivers.cut (
      Delivers.came 4 (
        Delivers.came 0 (
          Delivers.waits (
            Delivers.came 1
              (Delivers.came 97 (Delivers.cut (Delivers.came 104 (Delivers.done refl)))))))))

two_calls : (calls count_packet clock 1 client).0.client ≡ 1
unfolding calls packet_read receive then_go read_command after_command read_length after_loop
    length_loop add_length read_body body_loop begin_body store net_read run
two_calls = refl

packet_read-Delivers_example :
    (q : Packet) × (t : ℕ) × Holds 48 body q
    × (calls count_packet clock 1 client
        ≡ handled count_packet 9 (record (at client q (Arrival.byte 208 ∷ [])) { last_msg_in = t }))
unfolding varint_encoding varint_groups
packet_read-Delivers_example =
    packet_read-Delivers count_packet clock 1 48 body (Arrival.byte 208 ∷ []) client
      (record { open_ = refl; settled = refl }) (λ e. absurd (omega arith))
      (record {
        command = refl;
        count = refl;
        multiplier = refl;
        remaining = refl;
        payload = refl;
        to_process = refl;
        start = refl;
      })
      (omega arith) one_pause
