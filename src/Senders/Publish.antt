-- ===== src/Senders/Publish.antt =====
-- `send__publish` and `send__real_publish` of send_publish.c, outside WITH_BROKER.
pub mod Wire
use artemisia.Base.{ℕ, zero, suc, ◌+◌, ◌*◌, ◌%◌, ◌^◌, Bool, true, false, not, ◌&&◌}
use artemisia.Base.{Option, some, List, [], ◌∷◌, Bytes, Rc, ltb, if◌then◌else◌, length, is_failure}
use artemisia.State.{Protocol, is_mqtt5}
use artemisia.Packet.Defs.{Packet, M, ◌>>=◌, ◌>>◌, return}
use artemisia.Packet.Write.{write_bytes, write_uint16, write_varint, varint_bytes}
use artemisia.Property.Ident
use artemisia.Property.Defs.{null_str, i32, Property}
use artemisia.Property.Write.{bytes_of, get_length_all, property_write_all}
use artemisia.Outgoing.Defs.{Outgoing, Reply}
use artemisia.Outgoing.{packet_alloc, check_oversize}
use artemisia.Senders.{new_packet, fill_and_queue, unchecked, write_text}

-- The arguments; `qos` is 0, 1 or 2.
pub record Args : Type 0 where
  pub mid : ℕ
  pub topic : Option Bytes
  pub payloadlen : ℕ
  pub payload : Bytes
  pub qos : ℕ
  pub retain : Bool
  pub dup : Bool
  pub cmsg_props : List Property
  pub store_props : List Property
  pub expiry_interval : ℕ

-- `expiry_prop`, whose name is not set and not read.
unfoldable pub expiry_props : ℕ → List Property
expiry_props zero = []
expiry_props (suc n) =
    record {
      value = i32 (suc n);
      name = null_str;
      identifier = Ident.message_expiry_interval;
      client_generated = false;
    }
    ∷ []

-- An int that does not overflow.
abbrev pub proplen : Args → ℕ
proplen a =
    get_length_all a.cmsg_props
    + get_length_all a.store_props
    + get_length_all (expiry_props a.expiry_interval)

abbrev pub is_too_big : Args → Bool
is_too_big a = ltb 4 (varint_bytes (proplen a))

-- The properties are too big: none are sent.
abbrev pub without_properties : Args → Args
without_properties a = record a { cmsg_props = []; store_props = []; expiry_interval = 0 }

-- The bits of `packetlen`, which packet__check_oversize and `remaining_length` take as a uint32_t.
abbrev pub publish_length : Bool → Args → ℕ
publish_length mqtt5 a =
    let plain = 2 + length (bytes_of a.topic) + a.payloadlen + (if ltb 0 a.qos then 2 else 0) in
    let listed = if mqtt5 && not (is_too_big a) then proplen a + varint_bytes (proplen a) else 0 in
    (plain + listed) % 2 ^ 32

abbrev pub bit : Bool → ℕ
bit b = if b then 1 else 0

-- `CMD_PUBLISH | ((dup&0x1)<<3) | (qos<<1) | retain`.
abbrev pub publish_command : Args → ℕ
publish_command a = 0x30 + 8 * bit a.dup + 2 * a.qos + bit a.retain

-- `len` is `proplen`, which is written even if the properties are too big.
pub publish_body : Bool → ℕ → Args → M (Unit {0})
publish_body mqtt5 len a = do
  write_text a.topic
  if ltb 0 a.qos then write_uint16 a.mid else return tt
  if mqtt5 then unchecked (write_varint len) else return tt
  if mqtt5 then unchecked (property_write_all a.cmsg_props false) else return tt
  if mqtt5 then unchecked (property_write_all a.store_props false) else return tt
  if mqtt5 then unchecked (property_write_all (expiry_props a.expiry_interval) false) else return tt
  if ltb 0 a.payloadlen then write_bytes a.payload a.payloadlen else return tt

pub send_real_publish :
    Protocol → ℕ → Args → Bool → Bool → ℕ → List Reply → Outgoing → Option (Outgoing × Rc)
send_real_publish protocol maximum_packet_size a mem1 mem2 now rs o =
    let mqtt5 = is_mqtt5 protocol in
    let len = publish_length mqtt5 a in
    let kept = if mqtt5 && is_too_big a then without_properties a else a in
    let p = record (new_packet (publish_command a) len) { mid = a.mid } in
    if is_failure (check_oversize maximum_packet_size len)
    then some (o, Rc.oversize_packet)
    else if mem1
    then fill_and_queue (packet_alloc p mem2) (publish_body mqtt5 (proplen a) kept) now rs o
    else some (o, Rc.nomem)

pub send_publish :
    Protocol → ℕ → Args → Bool → Bool → ℕ → List Reply → Outgoing → Option (Outgoing × Rc)
send_publish protocol maximum_packet_size a mem1 mem2 now rs o =
    if not o.has_socket
    then some (o, Rc.no_conn)
    else send_real_publish protocol maximum_packet_size a mem1 mem2 now rs o
