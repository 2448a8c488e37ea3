-- ===== src/Senders/Request.antt =====
-- `send__subscribe` of send_subscribe.c and `send__unsubscribe` of send_unsubscribe.c: two packets
-- with an identifier and a list of topics.
pub mod Wire
use artemisia.Base.{ℕ, ◌+◌, ◌%◌, ◌^◌, Bool, true, Option, none, some, List, [], ◌∷◌, Bytes, Rc}
use artemisia.Base.{if◌then◌else◌, length}
use artemisia.State.{Protocol, is_mqtt5}
use artemisia.Packet.Defs.{Packet, M, ◌>>=◌, ◌>>◌, return}
use artemisia.Packet.Write.{write_byte, write_uint16, write_string, varint_bytes}
use artemisia.Property.Defs.{Property}
use artemisia.Property.Write.{get_length_all, property_write_all}
use artemisia.Messages.Defs.{Client}
use artemisia.Messages.{mid_generate}
use artemisia.Outgoing.Defs.{Outgoing, Reply}
use artemisia.Outgoing.{packet_alloc}
use artemisia.Senders.{new_packet, fill_and_queue, unchecked}

-- A topic takes two bytes for its length, and `extra` bytes behind it.
unfoldable pub topics_length : ℕ → List Bytes → ℕ
topics_length extra [] = 0
topics_length extra (t ∷ topics) = 2 + length t + extra + topics_length extra topics

abbrev pub request_length : Bool → List Property → ℕ → List Bytes → ℕ
request_length mqtt5 properties extra topics =
    let proplen = get_length_all properties in
    (2 + (if mqtt5 then proplen + varint_bytes proplen else 0) + topics_length extra topics)
    % 2 ^ 32

-- The loop over the topics; `behind` is what is written behind each.
unfoldable pub topics_body : M (Unit {0}) → List Bytes → M (Unit {0})
topics_body behind [] = return tt
topics_body behind (t ∷ topics) = do
  write_string t (length t % 2 ^ 16)
  behind
  topics_body behind topics

pub request_body : Bool → List Property → M (Unit {0}) → List Bytes → ℕ → M (Unit {0})
request_body mqtt5 properties behind topics mid = do
  write_uint16 mid
  if mqtt5 then unchecked (property_write_all properties true) else return tt
  topics_body behind topics

-- The identifier is taken once the packet is allocated. It is stored in `*mid` too.
abbrev pub numbered : Option Packet × Rc → Client → Client
numbered (none, rc) c = c
numbered (some p, rc) c = (mid_generate c).1

abbrev pub send_request :
    Packet
    → (ℕ → M (Unit {0}))
    → Bool
    → Bool
    → ℕ
    → List Reply
    → Outgoing
    → Client
    → Option (Outgoing × Rc) × Client
send_request p body mem1 mem2 now rs o c =
    if mem1
    then (
      fill_and_queue (packet_alloc p mem2) (body (mid_generate c).0) now rs o,
      numbered (packet_alloc p mem2) c,
    )
    else (some (o, Rc.nomem), c)

pub send_subscribe :
    Protocol
    → List Bytes
    → ℕ
    → List Property
    → Bool
    → Bool
    → ℕ
    → List Reply
    → Outgoing
    → Client
    → Option (Outgoing × Rc) × Client
send_subscribe protocol topics topic_qos properties mem1 mem2 now rs o c =
    let mqtt5 = is_mqtt5 protocol in
    send_request (new_packet 0x82 (request_length mqtt5 properties 1 topics))
      (request_body mqtt5 properties (write_byte (topic_qos % 256)) topics) mem1 mem2 now rs o c

pub send_unsubscribe :
    Protocol
    → List Bytes
    → List Property
    → Bool
    → Bool
    → ℕ
    → List Reply
    → Outgoing
    → Client
    → Option (Outgoing × Rc) × Client
send_unsubscribe protocol topics properties mem1 mem2 now rs o c =
    let mqtt5 = is_mqtt5 protocol in
    send_request (new_packet 0xa2 (request_length mqtt5 properties 0 topics))
      (request_body mqtt5 properties (return tt) topics) mem1 mem2 now rs o c
