-- ===== src/Property/Defs.antt =====
-- `struct mqtt5__property` of include/property_mosq.h, the property identifiers of
-- include/mqtt_protocol.h and the wire type that every switch of property_mosq.c gives them.
use artemisia.Property.Ident
use artemisia.Base.{ℕ, Bool, ◌||◌, Option, none, some, Bytes, ◌==◌, if◌then◌else◌}

-- `struct mqtt__string`; `none` is a null pointer. The NUL behind a string is left out.
pub record Str : Type 0 where
  pub v : Option Bytes
  pub len : ℕ

abbrev pub null_str : Str
null_str = record { v = none; len = 0 }

-- The union, by the member that was stored last. A member that was not stored last is read as a
-- fault.
pub data Value : Type 0 where
  i8 : ℕ → Value
  i16 : ℕ → Value
  i32 : ℕ → Value
  varint : ℕ → Value
  bin : Str → Value
  s : Str → Value

-- The list of properties is a list of these.
pub record Property : Type 0 where
  pub value : Value
  pub name : Str
  pub identifier : ℕ
  pub client_generated : Bool

-- `enum mqtt5_property_type`.
pub data PropType : Type 0 where
  byte int16 int32 varint_int binary string string_pair : PropType

-- The groups of identifiers, in the order of the cases of `property__read`.
abbrev pub is_byte : ℕ → Bool
is_byte id =
    id == Ident.payload_format_indicator
    || id == Ident.request_problem_information
    || id == Ident.request_response_information
    || id == Ident.maximum_qos
    || id == Ident.retain_available
    || id == Ident.wildcard_sub_available
    || id == Ident.subscription_id_available
    || id == Ident.shared_sub_available

abbrev pub is_int16 : ℕ → Bool
is_int16 id =
    id == Ident.server_keep_alive
    || id == Ident.receive_maximum
    || id == Ident.topic_alias_maximum
    || id == Ident.topic_alias

abbrev pub is_int32 : ℕ → Bool
is_int32 id =
    id == Ident.message_expiry_interval
    || id == Ident.session_expiry_interval
    || id == Ident.will_delay_interval
    || id == Ident.maximum_packet_size

abbrev pub is_varint_int : ℕ → Bool
is_varint_int id = id == Ident.subscription_identifier

abbrev pub is_string : ℕ → Bool
is_string id =
    id == Ident.content_type
    || id == Ident.response_topic
    || id == Ident.assigned_client_identifier
    || id == Ident.authentication_method
    || id == Ident.response_information
    || id == Ident.server_reference
    || id == Ident.reason_string

abbrev pub is_binary : ℕ → Bool
is_binary id = id == Ident.authentication_data || id == Ident.correlation_data

abbrev pub is_string_pair : ℕ → Bool
is_string_pair id = id == Ident.user_property

unfoldable pub prop_type : ℕ → Option PropType
prop_type id =
    if is_byte id
    then some PropType.byte
    else if is_int16 id
    then some PropType.int16
    else if is_int32 id
    then some PropType.int32
    else if is_varint_int id
    then some PropType.varint_int
    else if is_string id
    then some PropType.string
    else if is_binary id
    then some PropType.binary
    else if is_string_pair id
    then some PropType.string_pair
    else none
