-- ===== src/Senders/Tests.antt =====
-- The senders at concrete inputs, behind a packet that is half sent.
use artemisia.Base.{◌≡◌, refl, arith, true, false, some, List, [], ◌∷◌, ◌++◌, Bytes, Rc, length}
use artemisia.State.{ClientState, Protocol}
use artemisia.Packet.Encode.{varint_encoding, varint_groups}
use artemisia.Packet.Write.{varint_bytes}
use artemisia.Property.Ident
use artemisia.Property.Defs.{null_str, i16, Property, PropType, prop_type}
use artemisia.Property.Wire.{IsWire, EncodedAll}
use artemisia.Messages.Defs.{Client}
use artemisia.Messages.{mid_generate}
use artemisia.Outgoing.Defs.{Outgoing, accepts, again}
use artemisia.Outgoing.{check_oversize}
use artemisia.Outgoing.Stream.{IsStream}
use artemisia.Incoming.Frame.{frame}
use artemisia.Senders.{new_packet, send_command_with_mid}
use artemisia.Senders.Acknowledge.{ack_wire, send_command_with_mid-Puts}
use artemisia.Senders.Puts.{Puts}
use artemisia.Senders.Publish.{Args, send_publish}
use artemisia.Senders.Publish.Wire.{
  expiry_list, Listed, IsPublish, publish_header, publish_wire, send_publish-Puts,
}
use artemisia.Senders.Request.{send_subscribe}
use artemisia.Senders.Request.Wire.{IsRequest, topics_wire, request_wire, send_subscribe-Puts}
use artemisia.Senders.Connect.{Identity, send_connect}
use artemisia.Senders.Connect.Prepared.{Prepared}
use artemisia.Senders.Connect.Wire.{Props, IsConnect, connect_wire, send_connect-Puts}

abbrev halfway : Outgoing
halfway = record {
  has_socket = true;
  state = ClientState.active;
  want_connect = false;
  in_callback = false;
  threaded = false;
  keepalive = 60;
  next_msg_out = 0;
  current_out_packet = some (record (new_packet 0xc0 0) {
    payload = 0xc0 ∷ 0 ∷ [];
    packet_length = 2;
    to_process = 1;
    pos = 1;
  });
  out_packet = [];
  wire = 0xc0 ∷ [];
  on_publish = [];
  on_disconnect = [];
}

halfway-IsStream : IsStream halfway
halfway-IsStream = omega arith

abbrev alias : Property
alias = record {
  value = i16 7;
  name = null_str;
  identifier = Ident.topic_alias;
  client_generated = true;
}

alias-Encoded : EncodedAll (alias ∷ []) ((35 ∷ 0 ∷ 7 ∷ []) ++ [])
unfolding prop_type
alias-Encoded =
    EncodedAll.next alias [] (35 ∷ 0 ∷ 7 ∷ []) []
      (record {
        type = PropType.int16;
        known = refl;
        body = 0 ∷ 7 ∷ [];
        wire = IsWire.int16 7 (omega arith);
        whole = refl;
      })
      EncodedAll.end

-- A PUBACK with a reason and a property.
send_command_with_mid-Puts_example :
    Puts
      (send_command_with_mid Protocol.mqtt5 0x40 7 false 16
        (alias ∷ [])
        true
        true
        5
        (accepts 2 ∷ again ∷ [])
        halfway)
      halfway
      (frame 0x40 (ack_wire true 7 16 (alias ∷ []) (35 ∷ 0 ∷ 7 ∷ [])))
unfolding varint_encoding varint_groups
send_command_with_mid-Puts_example =
    send_command_with_mid-Puts Protocol.mqtt5 0x40 7 false 16 (alias ∷ []) (35 ∷ 0 ∷ 7 ∷ []) 5
      (accepts 2 ∷ again ∷ []) halfway alias-Encoded (omega arith) (omega arith) halfway-IsStream

-- A PUBLISH of QoS 1 with an alias and an expiry interval.
abbrev publish : Args
publish = record {
  mid = 9;
  topic = some (97 ∷ []);
  payloadlen = 2;
  payload = 104 ∷ 105 ∷ [];
  qos = 1;
  retain = true;
  dup = true;
  cmsg_props = alias ∷ [];
  store_props = [];
  expiry_interval = 5;
}

expiry-Encoded : EncodedAll (expiry_list 5) ((2 ∷ 0 ∷ 0 ∷ 0 ∷ 5 ∷ []) ++ [])
unfolding prop_type
expiry-Encoded =
    EncodedAll.next _ [] (2 ∷ 0 ∷ 0 ∷ 0 ∷ 5 ∷ []) []
      (record {
        type = PropType.int32;
        known = refl;
        body = 0 ∷ 0 ∷ 0 ∷ 5 ∷ [];
        wire = IsWire.int32 5 (omega arith);
        whole = refl;
      })
      EncodedAll.end

abbrev listed : Listed publish
listed = record {
  cmsg = 35 ∷ 0 ∷ 7 ∷ [];
  store = [];
  expiry = 2 ∷ 0 ∷ 0 ∷ 0 ∷ 5 ∷ [];
  cmsg_wire = alias-Encoded;
  store_wire = EncodedAll.end;
  expiry_wire = expiry-Encoded;
}

publish-IsPublish : IsPublish true publish listed
unfolding varint_encoding varint_groups
publish-IsPublish = record {
  topic = omega arith;
  payload = refl;
  fits = omega arith;
  few = omega arith;
}

publish-room : check_oversize 100 (length (publish_wire true publish listed)) ≡ Rc.success
unfolding check_oversize varint_bytes varint_encoding varint_groups
publish-room = refl

send_publish-Puts_example :
    Puts
      (send_publish Protocol.mqtt5 100 publish true true 5 (accepts 2 ∷ again ∷ []) halfway)
      halfway
      (frame (publish_header publish) (publish_wire true publish listed))
send_publish-Puts_example =
    send_publish-Puts Protocol.mqtt5 100 publish listed 5 (accepts 2 ∷ again ∷ []) halfway refl
      (omega arith) publish-IsPublish publish-room halfway-IsStream

-- Two topics.
abbrev topics : List Bytes
topics = (97 ∷ []) ∷ (98 ∷ 47 ∷ 35 ∷ []) ∷ []

abbrev client : Client
client = record {
  msgs_in = record { inflight = []; queue_len = 0; inflight_quota = 20; inflight_maximum = 20 };
  msgs_out = record { inflight = []; queue_len = 0; inflight_quota = 20; inflight_maximum = 20 };
  last_mid = 41;
}

topics-IsRequest : IsRequest true (alias ∷ []) (35 ∷ 0 ∷ 7 ∷ []) (1 ∷ []) topics
unfolding varint_encoding varint_groups topics_wire
topics-IsRequest = record {
  encoded = alias-Encoded;
  short = (omega arith, (omega arith, tt));
  few = omega arith;
  fits = omega arith;
}

send_subscribe-Puts_example :
    Puts
      (send_subscribe Protocol.mqtt5 topics 1
        (alias ∷ [])
        true
        true
        5
        (again ∷ [])
        halfway
        client).0
      halfway
      (frame 0x82 (request_wire true (mid_generate client).0 (35 ∷ 0 ∷ 7 ∷ []) (1 ∷ []) topics))
    × ((send_subscribe Protocol.mqtt5 topics 1
          (alias ∷ [])
          true
          true
          5
          (again ∷ [])
          halfway
          client).1
        ≡ (mid_generate client).1)
send_subscribe-Puts_example =
    send_subscribe-Puts Protocol.mqtt5 topics 1 (alias ∷ []) (35 ∷ 0 ∷ 7 ∷ []) 5 (again ∷ [])
      halfway client (omega arith) topics-IsRequest halfway-IsStream

-- A CONNECT with a will, a user name and a password.
abbrev identity : Identity
identity = record {
  id = some (99 ∷ []);
  username = some (117 ∷ []);
  password = some (112 ∷ []);
  will = some (record {
    topic = 119 ∷ [];
    payload = 98 ∷ 121 ∷ [];
    qos = 1;
    retain = true;
    properties = [];
  });
}

abbrev maximum : Property
maximum = record {
  value = i16 20;
  name = null_str;
  identifier = Ident.receive_maximum;
  client_generated = true;
}

maximum-Encoded : EncodedAll (maximum ∷ []) ((33 ∷ 0 ∷ 20 ∷ []) ++ [])
unfolding prop_type
maximum-Encoded =
    EncodedAll.next maximum [] (33 ∷ 0 ∷ 20 ∷ []) []
      (record {
        type = PropType.int16;
        known = refl;
        body = 0 ∷ 20 ∷ [];
        wire = IsWire.int16 20 (omega arith);
        whole = refl;
      })
      EncodedAll.end

abbrev props : Props
props = record { given = []; local = 33 ∷ 0 ∷ 20 ∷ []; will = [] }

identity-IsConnect : IsConnect Protocol.mqtt5 identity [] (maximum ∷ []) props
unfolding varint_encoding varint_groups
identity-IsConnect = record {
  id = omega arith;
  username = omega arith;
  password = omega arith;
  will = ((EncodedAll.end, omega arith), ((omega arith, omega arith), omega arith));
  given = EncodedAll.end;
  generated = maximum-Encoded;
  few = omega arith;
  fits = omega arith;
}

prepared : Prepared [] client Protocol.mqtt5 (maximum ∷ []) client
prepared = Prepared.added tt

send_connect-Puts_example :
    Puts
      (send_connect Protocol.mqtt5 identity 60 true [] true true true 5
        (again ∷ [])
        halfway
        client).0
      halfway
      (frame 0x10 (connect_wire Protocol.mqtt5 identity 60 true props))
    × ((send_connect Protocol.mqtt5 identity 60 true [] true true true 5
          (again ∷ [])
          halfway
          client).1
        ≡ client)
send_connect-Puts_example =
    send_connect-Puts Protocol.mqtt5 identity 60 true [] (maximum ∷ []) props 5 (again ∷ []) halfway
      client client refl prepared refl identity-IsConnect halfway-IsStream
