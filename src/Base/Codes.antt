-- ===== src/Base/Codes.antt =====
-- `enum mosq_err_t` of include/mosquitto.h, and C strings.
use Prim.Native.Nat.{ℕ}
use mathlib.Core.List.{List}
use mathlib.Core.Bool.{Bool, true, false}
use mathlib.Core.Path.{◌≡◌, refl}

-- A C `char` or `uint8_t` is a number below 256.
abbrev pub Bytes : Type 0
Bytes = List ℕ

pub data Rc : Type 0 where
  auth_continue no_subscribers sub_exists conn_pending success nomem protocol inval no_conn : Rc
  conn_refused not_found conn_lost tls payload_size not_supported auth acl_denied unknown : Rc
  errno eai proxy plugin_defer malformed_utf8 keepalive lookup malformed_packet : Rc
  duplicate_property tls_handshake qos_not_supported oversize_packet ocsp : Rc

-- `if(rc)`.
abbrev pub is_failure : Rc → Bool
is_failure Rc.success = false
is_failure rc = true

pub is_failure-success : (rc : Rc) → is_failure rc ≡ false → rc ≡ Rc.success
is_failure-success Rc.success h = refl
is_failure-success _ h = cc
