-- ===== src/Property/Tests.antt =====
-- Runs of property_mosq.c, and its theorems at concrete inputs.
use artemisia.Base.{
  ℤ, ◌+◌, ◌≤◌, ◌≡◌, refl, arith, true, some, List, [], ◌∷◌, ◌++◌, map, Bytes, Rc, length,
}
use artemisia.Packet.Defs.{Packet}
use artemisia.Packet.RoundTrip.{Carries}
use artemisia.Packet.Write.{varint_bytes}
use artemisia.Utf8.{validate_utf8, loop, sequence, lead_byte, continuation, is_allowed}
use artemisia.Property.Ident
use artemisia.Property.Command
use artemisia.Property.Defs.{Str, null_str, i16, s, Property, PropType, prop_type}
use artemisia.Property.Check.{check_all, check_command, has_duplicate, is_bad_value}
use artemisia.Property.Wire.{IsWire, Encoded, EncodedAll, from_wire}
use artemisia.Property.Read.{property_read_all}
use artemisia.Property.Write.{get_length_all, get_length, value_length, property_write_all}
use artemisia.Property.Copy.{copied, copy_all}
use artemisia.Property.Copy.Laws.{bare, copy_all-IsCopyable}
use artemisia.Property.RoundTrip.{property_read_all-property_write_all}

abbrev alias : Property
alias = record {
  value = i16 7;
  name = null_str;
  identifier = Ident.topic_alias;
  client_generated = true;
}

abbrev text : Bytes → Str
text bs = record { v = some bs; len = length bs }

abbrev user : Property
user = record {
  value = s (text (98 ∷ 99 ∷ []));
  name = text (97 ∷ []);
  identifier = Ident.user_property;
  client_generated = true;
}

alias-Encoded : Encoded alias (35 ∷ 0 ∷ 7 ∷ [])
unfolding prop_type
alias-Encoded = record {
  type = PropType.int16;
  known = refl;
  body = 0 ∷ 7 ∷ [];
  wire = IsWire.int16 7 (omega arith);
  whole = refl;
}

user-Encoded : Encoded user (38 ∷ 0 ∷ 1 ∷ 97 ∷ 0 ∷ 2 ∷ 98 ∷ 99 ∷ [])
unfolding prop_type validate_utf8 loop sequence lead_byte continuation is_allowed
user-Encoded = record {
  type = PropType.string_pair;
  known = refl;
  body = 0 ∷ 1 ∷ 97 ∷ 0 ∷ 2 ∷ 98 ∷ 99 ∷ [];
  wire =
      IsWire.string_pair (text (97 ∷ [])) (text (98 ∷ 99 ∷ [])) (97 ∷ []) (98 ∷ 99 ∷ [])
        ((refl, omega arith), refl) ((refl, omega arith), refl);
  whole = refl;
}

abbrev both : List Property
both = alias ∷ user ∷ []

both-EncodedAll :
    EncodedAll both ((35 ∷ 0 ∷ 7 ∷ []) ++ (38 ∷ 0 ∷ 1 ∷ 97 ∷ 0 ∷ 2 ∷ 98 ∷ 99 ∷ []) ++ [])
both-EncodedAll =
    EncodedAll.next alias _ _ _ alias-Encoded
      (EncodedAll.next user _ _ _ user-Encoded EncodedAll.end)

abbrev buffer : Packet
buffer = record {
  payload = 0 ∷ 0 ∷ 0 ∷ 0 ∷ 0 ∷ 0 ∷ 0 ∷ 0 ∷ 0 ∷ 0 ∷ 0 ∷ 0 ∷ [];
  remaining_mult = 1;
  remaining_length = 0;
  packet_length = 12;
  to_process = 0;
  pos = 0;
  mid = 0;
  command = 0;
  remaining_count = ℤ.pos 0;
}

both-allowed : check_all Command.publish both ≡ Rc.success
unfolding check_all check_command has_duplicate is_bad_value
both-allowed = refl

both-length : get_length_all both ≡ 11
unfolding get_length_all get_length value_length prop_type
both-length = refl

both-room : 0 + varint_bytes (get_length_all both) + get_length_all both ≤ 12
unfolding varint_bytes
both-room = rw both-length (omega arith)

property_read_all-property_write_all_example :
    Carries
      (property_write_all both true)
      (property_read_all Command.publish (λ _. true))
      buffer
      (map from_wire both)
property_read_all-property_write_all_example =
    property_read_all-property_write_all Command.publish both _ buffer both-EncodedAll both-allowed
      (omega (arith, both-length)) (omega arith) both-room

copy_all-IsCopyable_example :
    copy_all (λ j. true) [] (alias ∷ user ∷ []) ≡ copied (map bare (alias ∷ user ∷ []))
unfolding prop_type
copy_all-IsCopyable_example =
    copy_all-IsCopyable (λ j. true) [] alias (user ∷ []) (λ j. refl)
      (
        (PropType.int16, refl, ((7, refl), refl)),
        (
          (
            PropType.string_pair,
            refl,
            (
              (
                text (98 ∷ 99 ∷ []),
                refl,
                (98 ∷ 99 ∷ [], refl, (λ e. absurd (omega arith), (λ e. absurd (omega arith), tt))),
              ),
              (97 ∷ [], refl, (λ e. absurd (omega arith), tt)),
            ),
          ),
          tt,
        ),
      )
