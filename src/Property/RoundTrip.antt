-- ===== src/Property/RoundTrip.antt =====
-- The properties that `property__write_all` sends, `property__read_all` receives.
use artemisia.Base.{ℕ, ◌+◌, ◌≤◌, ◌<◌, ◌≡◌, arith}
use artemisia.Base.{true, List, ◌++◌, map, Bytes, Rc, length, length-append}
use artemisia.Packet.Defs.{Packet, IsWritable}
use artemisia.Packet.Encode.{varint_encoding, varint_limit}
use artemisia.Packet.Write.{varint_bytes}
use artemisia.Packet.Write.Fields.{varint_bytes-length}
use artemisia.Packet.RoundTrip.{Carries, Writes-Reads}
use artemisia.Property.Defs.{Property}
use artemisia.Property.Check.{check_all}
use artemisia.Property.Wire.{EncodedAll, from_wire}
use artemisia.Property.Write.{get_length_all, property_write_all}
use artemisia.Property.Write.Laws.{property_write_all-Writes, get_length_all-length}
use artemisia.Property.Read.{property_read_all}
use artemisia.Property.Read.Laws.{property_read_all-Reads}

-- A list of complete properties that `mosquitto_property_check_all` allows for a command, and
-- whose length is below 268435456, is received by `property__read_all` as `property__write_all`
-- sent it, in the same order, if the packet has room and no allocation fails. Only
-- `client_generated` is false in each.
pub property_read_all-property_write_all :
    (command : ℕ) (ps : List Property) (bs : Bytes) (p : Packet)
    → EncodedAll ps bs
    → check_all command ps ≡ Rc.success
    → get_length_all ps < varint_limit
    → IsWritable p
    → p.pos + varint_bytes (get_length_all ps) + get_length_all ps ≤ p.packet_length
    → Carries
        (property_write_all ps true)
        (property_read_all command (λ _. true))
        p
        (map from_wire ps)
property_read_all-property_write_all command ps bs p e allowed h ok room =
    let len = get_length_all-length ps bs e in
    let head : varint_bytes (get_length_all ps) ≡ length (varint_encoding (length bs)) =
      rw len (varint_bytes-length (length bs) (omega arith)) in
    let short : length bs < varint_limit = omega arith in
    Writes-Reads (property_write_all ps true) (property_read_all command (λ _. true))
      (varint_encoding (length bs) ++ bs) (map from_wire ps)
      (property_write_all-Writes ps bs e short)
      (property_read_all-Reads command ps bs e allowed short) p ok
      (omega (arith, head, length-append (varint_encoding (length bs)) bs))
