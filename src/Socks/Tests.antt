-- ===== src/Socks/Tests.antt =====
-- A client that reaches its server over a proxy.
use artemisia.Base.{◌≡◌, refl, arith, true, false, none, some, [], ◌∷◌, ◌++◌, Bytes, Rc, ℤ}
use artemisia.State.{ClientState, Protocol}
use artemisia.Packet.Defs.{Packet}
use artemisia.Outgoing.Defs.{Outgoing, accepts, again}
use artemisia.Incoming.Socket.{Arrival}
use artemisia.Socks.{Proxied, World, Ended, through, socks5_read}
use artemisia.Socks.DomainName.{arriving, asked, socks5_read-through, domain_name_port_left}

abbrev sender : Outgoing
sender = record {
  has_socket = true;
  state = ClientState.socks5_auth_ok;
  want_connect = false;
  in_callback = false;
  threaded = false;
  keepalive = 60;
  next_msg_out = 0;
  current_out_packet = none;
  out_packet = [];
  wire = 5 ∷ 1 ∷ 0 ∷ [];
  on_publish = [];
  on_disconnect = [];
}

abbrev packet : Packet
packet = record {
  command = 0;
  mid = 0;
  pos = 0;
  to_process = 0;
  packet_length = 0;
  remaining_length = 0;
  remaining_mult = 1;
  remaining_count = ℤ.pos 0;
  payload = [];
}

-- The host "a.b" with port 1883.
abbrev client : Proxied
client = record {
  host = 97 ∷ 46 ∷ 98 ∷ [];
  port = 1883;
  socks5_username = none;
  socks5_password = none;
  in_packet = packet;
  socket = [];
  out = sender;
  protocol = Protocol.mqtt311;
  who = record { id = some (99 ∷ []); username = none; password = none; will = none };
  keepalive = 60;
  clean_start = true;
  messages = record {
    msgs_in = record { inflight = []; queue_len = 0; inflight_quota = 20; inflight_maximum = 20 };
    msgs_out = record { inflight = []; queue_len = 0; inflight_quota = 20; inflight_maximum = 20 };
    last_mid = 0;
  };
}

abbrev world : World
world = record {
  mem = λ i. true;
  inet4 = λ host. none;
  inet6 = λ host. none;
  now = 50;
  replies = accepts 3 ∷ again ∷ [];
  step3 = Rc.success;
}

abbrev read_on : Proxied → Ended
read_on x = some (x, Rc.success)

abbrev request : Bytes
request = 5 ∷ 1 ∷ 0 ∷ 3 ∷ 3 ∷ 97 ∷ 46 ∷ 98 ∷ 7 ∷ 91 ∷ []

-- An answer with an address of IPv4, and the first byte of a CONNACK.
socks5_read-through_example :
    (y : Proxied) × (z : Proxied) × (socks5_read read_on world (
        asked client packet (
          arriving
            (5 ∷ 0 ∷ 0 ∷ 1 ∷ 10 ∷ [])
            (arriving (0 ∷ 0 ∷ 1 ∷ 7 ∷ 91 ∷ []) (Arrival.byte 0x20 ∷ []))))
      ≡ some (y, Rc.success))
    × (socks5_read read_on world y ≡ through world z)
    × (z.socket ≡ Arrival.byte 0x20 ∷ [])
    × (z.out.state ≡ ClientState.new)
socks5_read-through_example =
    socks5_read-through read_on world client packet 1 10 0 (0 ∷ 1 ∷ 7 ∷ 91 ∷ [])
      (Arrival.byte 0x20 ∷ []) refl (omega arith) refl

domain_name_port_left_example :
    (y : Proxied) × (z : Proxied) × (socks5_read read_on world (
        asked client packet (
          arriving
            (5 ∷ 0 ∷ 0 ∷ 3 ∷ 1 ∷ [])
            (arriving ((97 ∷ []) ++ (7 ∷ 91 ∷ [])) (Arrival.byte 0x20 ∷ []))))
      ≡ some (y, Rc.success))
    × (socks5_read read_on world y ≡ through world z)
    × (z.socket ≡ Arrival.byte 7 ∷ Arrival.byte 91 ∷ Arrival.byte 0x20 ∷ [])
domain_name_port_left_example =
    domain_name_port_left read_on world client packet 97 [] 7 91 (Arrival.byte 0x20 ∷ [])
      (omega arith) refl
