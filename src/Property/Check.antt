-- ===== src/Property/Check.antt =====
-- `mosquitto_property_check_command` and `mosquitto_property_check_all` of property_mosq.c.
pub mod Laws
use artemisia.Base.{
  ℕ, Bool, true, false, not, ◌&&◌, ◌||◌, List, [], ◌∷◌, Rc, ltb, ◌==◌, if◌then◌else◌, Option, none,
  some,
}
use artemisia.Property.Ident
use artemisia.Property.Command
use artemisia.Property.Defs.{Str, Value, i8, i16, i32, varint, bin, s, Property}

abbrev pub require_command : Bool → Rc
require_command true = Rc.success
require_command false = Rc.protocol

-- The switch of `mosquitto_property_check_command`, a test for each case.
unfoldable pub check_command : ℕ → ℕ → Rc
check_command command id =
    if id == Ident.payload_format_indicator
      || id == Ident.message_expiry_interval
      || id == Ident.content_type
      || id == Ident.response_topic
      || id == Ident.correlation_data
    then require_command (command == Command.publish || command == Command.will)
    else if id == Ident.subscription_identifier
    then require_command (command == Command.publish || command == Command.subscribe)
    else if id == Ident.session_expiry_interval
    then require_command
        (command == Command.connect || command == Command.connack || command == Command.disconnect)
    else if id == Ident.authentication_method || id == Ident.authentication_data
    then require_command
        (command == Command.connect || command == Command.connack || command == Command.auth)
    else if id == Ident.assigned_client_identifier
        || id == Ident.server_keep_alive
        || id == Ident.response_information
        || id == Ident.maximum_qos
        || id == Ident.retain_available
        || id == Ident.wildcard_sub_available
        || id == Ident.subscription_id_available
        || id == Ident.shared_sub_available
    then require_command (command == Command.connack)
    else if id == Ident.will_delay_interval
    then require_command (command == Command.will)
    else if id == Ident.request_problem_information || id == Ident.request_response_information
    then require_command (command == Command.connect)
    else if id == Ident.server_reference
    then require_command (command == Command.connack || command == Command.disconnect)
    else if id == Ident.reason_string
    then require_command (
        not (
          command == Command.connect
          || command == Command.publish
          || command == Command.subscribe
          || command == Command.unsubscribe))
    else if id == Ident.receive_maximum
        || id == Ident.topic_alias_maximum
        || id == Ident.maximum_packet_size
    then require_command (command == Command.connect || command == Command.connack)
    else if id == Ident.topic_alias
    then require_command (command == Command.publish)
    else if id == Ident.user_property
    then Rc.success
    else Rc.protocol

-- The members of the union that the validity checks read. The member was stored by the same
-- identifier, so another one is never met there; it passes.
i8_above_one : Value → Bool
i8_above_one (i8 b) = ltb 1 b
i8_above_one v = false

i32_zero : Value → Bool
i32_zero (i32 w) = w == 0
i32_zero v = false

i16_zero : Value → Bool
i16_zero (i16 w) = w == 0
i16_zero v = false

-- The validity checks of one property.
unfoldable pub is_bad_value : Property → Bool
unfolding i8_above_one i32_zero i16_zero
is_bad_value p =
    if p.identifier == Ident.request_problem_information
      || p.identifier == Ident.request_response_information
      || p.identifier == Ident.maximum_qos
      || p.identifier == Ident.retain_available
      || p.identifier == Ident.wildcard_sub_available
      || p.identifier == Ident.subscription_id_available
      || p.identifier == Ident.shared_sub_available
    then i8_above_one p.value
    else if p.identifier == Ident.maximum_packet_size
    then i32_zero p.value
    else if p.identifier == Ident.receive_maximum || p.identifier == Ident.topic_alias
    then i16_zero p.value
    else false

-- The loop over `tail`.
unfoldable pub has_duplicate : ℕ → List Property → Bool
has_duplicate id [] = false
has_duplicate id (q ∷ tail) =
    if id == q.identifier && not (id == Ident.user_property) then true else has_duplicate id tail

-- What follows `mosquitto_property_check_command`: its code, the search for a duplicate, the rest
-- of the list.
abbrev pub after_command : Rc → Bool → Rc → Rc
after_command Rc.success duplicate rest = if duplicate then Rc.duplicate_property else rest
after_command rc duplicate rest = rc

unfoldable pub check_all : ℕ → List Property → Rc
check_all command [] = Rc.success
check_all command (p ∷ next) =
    let rest = check_all command next in
    if is_bad_value p
    then Rc.protocol
    else after_command (check_command command p.identifier) (has_duplicate p.identifier next) rest
