-- ===== src/Senders/Connect.antt =====
-- `send__connect` of send_connect.c, outside WITH_BROKER.
pub mod Prepared
pub mod Wire
use artemisia.Base.{
  ℕ, zero, suc, ◌+◌, ◌*◌, ◌%◌, ◌^◌, Bool, true, false, not, ◌&&◌, Option, none, some, List, [], ◌∷◌,
  ◌++◌, Bytes, Rc,
}
use artemisia.Base.{if◌then◌else◌, length, is_failure}
use artemisia.State.{Protocol, is_mqtt5, is_mqtt31}
use artemisia.Packet.Defs.{Packet, M, ◌>>=◌, ◌>>◌, return}
use artemisia.Packet.Write.{write_byte, write_uint16, write_string, write_varint, varint_bytes}
use artemisia.Property.Ident
use artemisia.Property.Defs.{i16, Property}
use artemisia.Property.Write.{bytes_of, get_length_all, property_write_all}
use artemisia.Property.Store.{read_int16_property, add_int16}
use artemisia.Will.{Will, is_null}
use artemisia.Messages.Defs.{Client}
use artemisia.Outgoing.Defs.{Outgoing, Reply}
use artemisia.Outgoing.{packet_alloc}
use artemisia.Senders.{new_packet, queue_built, unchecked, write_text}

-- The fields of `struct mosquitto` that say who connects.
pub record Identity : Type 0 where
  pub id : Option Bytes
  pub username : Option Bytes
  pub password : Option Bytes
  pub will : Option Will

-- `version`; the other protocols are refused.
abbrev pub version_of : Protocol → ℕ
version_of Protocol.mqtt5 = 5
version_of Protocol.mqtt311 = 4
version_of Protocol.mqtt31 = 3
version_of protocol = 0

-- "MQIsdp" and "MQTT".
abbrev pub protocol_name : Protocol → Bytes
protocol_name Protocol.mqtt31 = 77 ∷ 81 ∷ 73 ∷ 115 ∷ 100 ∷ 112 ∷ []
protocol_name protocol = 77 ∷ 81 ∷ 84 ∷ 84 ∷ []

abbrev pub received_maximum : ℕ → Client → Client
received_maximum w c = record c {
  msgs_in = record (c.msgs_in) { inflight_maximum = w; inflight_quota = w };
}

-- MQTT 5: the receive maximum is taken from the properties, or added to `local_props`. `mem` is
-- the answer of calloc.
unfoldable pub receive_properties :
    Bool → List Property → Client → Option (Rc × List Property × Client)
receive_properties mem properties c =
    let (rc, local) = add_int16 [] Ident.receive_maximum c.msgs_in.inflight_maximum mem in
    elim (read_int16_property properties Ident.receive_maximum false) [
      | none ↦ some (rc, local, c)
      | some p ↦ elim (p.value) [
        | i16 w ↦ some (Rc.success, [], received_maximum w c)
        | other ↦ none
      ]
    ]

-- The return code and `local_props`, by version.
abbrev pub local_properties :
    Protocol → Bool → List Property → Client → Option (Rc × List Property × Client)
local_properties Protocol.mqtt5 mem properties c = receive_properties mem properties c
local_properties Protocol.mqtt311 mem properties c = some (Rc.success, [], c)
local_properties Protocol.mqtt31 mem properties c = some (Rc.success, [], c)
local_properties protocol mem properties c = some (Rc.inval, [], c)

abbrev pub given_length : Option Bytes → ℕ
given_length none = 0
given_length (some text) = 2 + length text

abbrev pub will_length : Bool → Option Will → ℕ
will_length mqtt5 none = 0
will_length mqtt5 (some w) =
    let will_proplen = get_length_all w.properties in
    2
    + length w.topic
    + (2 + length w.payload)
    + (if mqtt5 then will_proplen + varint_bytes will_proplen else 0)

abbrev pub connect_proplen : List Property → List Property → ℕ
connect_proplen properties local = get_length_all properties + get_length_all local

-- `headerlen`.
abbrev pub header_length : Protocol → ℕ → ℕ
header_length protocol proplen =
    if is_mqtt5 protocol
    then 10 + (proplen + varint_bytes proplen)
    else if is_mqtt31 protocol
    then 12
    else 10

abbrev pub connect_length : Protocol → Identity → ℕ → ℕ
connect_length protocol who proplen =
    let payloadlen =
      2
      + length (bytes_of who.id)
      + will_length (is_mqtt5 protocol) who.will
      + given_length who.username
      + given_length who.password in
    (header_length protocol proplen + payloadlen) % 2 ^ 32

abbrev pub bit : Bool → ℕ
bit b = if b then 1 else 0

abbrev pub will_flags : Option Will → ℕ
will_flags none = 0
will_flags (some w) = 32 * bit w.retain + 8 * (w.qos % 4) + 4

abbrev pub connect_flags : Identity → Bool → ℕ
connect_flags who clean_session =
    2 * bit clean_session
    + will_flags who.will
    + 128 * bit (not (is_null who.username))
    + 64 * bit (not (is_null who.password))

-- `if(username) packet__write_string(...)`.
abbrev pub write_given : Option Bytes → M (Unit {0})
write_given none = return tt
write_given (some text) = write_string text (length text % 2 ^ 16)

abbrev pub write_will : Bool → Option Will → M (Unit {0})
write_will mqtt5 none = return tt
write_will mqtt5 (some w) = do
  if mqtt5 then unchecked (property_write_all w.properties true) else return tt
  write_string w.topic (length w.topic % 2 ^ 16)
  write_string w.payload (length w.payload % 2 ^ 16)

pub connect_body : Protocol → Identity → ℕ → Bool → List Property → List Property → M (Unit {0})
connect_body protocol who keepalive clean_session properties local = do
  write_string (protocol_name protocol) (length (protocol_name protocol))
  write_byte (version_of protocol)
  write_byte (connect_flags who clean_session)
  write_uint16 keepalive
  if is_mqtt5 protocol
      then unchecked (write_varint (connect_proplen properties local))
      else return tt
  if is_mqtt5 protocol then unchecked (property_write_all properties false) else return tt
  if is_mqtt5 protocol then unchecked (property_write_all local false) else return tt
  write_text who.id
  write_will (is_mqtt5 protocol) who.will
  write_given who.username
  write_given who.password

-- `mosq->keepalive` is set once the packet is written.
abbrev pub connect_queue :
    Option Packet × Rc → M (Unit {0}) → ℕ → ℕ → List Reply → Outgoing → Option (Outgoing × Rc)
connect_queue (none, rc) body keepalive now rs o = some (o, rc)
connect_queue (some p, rc) body keepalive now rs o =
    queue_built (body p) now rs (record o { keepalive = keepalive })

-- Behind the properties. `mem1` and `mem2` are the answers of calloc and of `packet__alloc`'s
-- malloc.
pub send_built :
    Protocol
    → Identity
    → ℕ
    → Bool
    → List Property
    → List Property
    → Bool
    → Bool
    → ℕ
    → List Reply
    → Outgoing
    → Option (Outgoing × Rc)
send_built protocol who keepalive clean_session properties local mem1 mem2 now rs o =
    let len = connect_length protocol who (connect_proplen properties local) in
    let body = connect_body protocol who keepalive clean_session properties local in
    if not mem1
    then some (o, Rc.nomem)
    else if not (is_mqtt5 protocol) && not (is_null who.password) && is_null who.username
    then some (o, Rc.inval)
    else connect_queue (packet_alloc (new_packet 0x10 len) mem2) body keepalive now rs o

-- `mem0` is the answer of the calloc of a property.
pub send_connect :
    Protocol
    → Identity
    → ℕ
    → Bool
    → List Property
    → Bool
    → Bool
    → Bool
    → ℕ
    → List Reply
    → Outgoing
    → Client
    → Option (Outgoing × Rc) × Client
send_connect protocol who keepalive clean_session properties mem0 mem1 mem2 now rs o c =
    if is_mqtt31 protocol && is_null who.id
    then (some (o, Rc.protocol), c)
    else elim (local_properties protocol mem0 properties c) [
      | none ↦ (none, c)
      | some (rc, local, c') ↦ if is_failure rc then (some (o, rc), c') else (
        send_built protocol who keepalive clean_session properties local mem1 mem2 now rs o,
        c',
      )
    ]
