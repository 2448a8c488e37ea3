-- ===== src/Options.antt =====
-- Options of a client, of options.c: the will, the name and the password, the delays between
-- attempts to connect, and numbers. A null client is left out.
pub mod Given
mod Tests
use artemisia.Base.{
  ℕ, zero, suc, Bool, true, false, not, ◌&&◌, ◌||◌, Option, none, some, List, [], ◌∷◌, ◌++◌, Bytes,
  Rc, ℤ, pos, negsuc, ltb, ◌==◌, if◌then◌else◌, length, is_failure,
}
use artemisia.State.{Protocol, is_mqtt5, is_mqtt31}
use artemisia.Utf8.{validate_utf8}
use artemisia.Property.Defs.{Property}
use artemisia.Property.Command
use artemisia.Property.Check.{check_all}
use artemisia.Will.{Client, Args, is_null, is_refused, will_set, will_clear}

pub will_set_v5 : Bool → Bool → Bool → Args → Client → Client × Rc
will_set_v5 mem1 mem2 mem3 a c =
    if is_failure (check_all Command.will a.properties)
    then (c, check_all Command.will a.properties)
    else will_set mem1 mem2 mem3 a c

pub mosquitto_will_clear : Client → Client × Rc
mosquitto_will_clear c = will_clear c

pub record Credentials : Type 0 where
  pub protocol : Protocol
  pub username : Option Bytes
  pub password : Option Bytes

abbrev pub is_old : Protocol → Bool
is_old Protocol.mqtt311 = true
is_old Protocol.mqtt31 = true
is_old protocol = false

-- Where the copy of the password fails, the name is given up too.
abbrev pub copy_password : Bool → Option Bytes → Credentials → Credentials × Rc
copy_password mem none c = (c, Rc.success)
copy_password true (some password) c = (record c { password = some password }, Rc.success)
copy_password false (some password) c = (record c { username = none }, Rc.nomem)

abbrev pub is_malformed : Bytes → Bool
is_malformed text = is_refused (validate_utf8 (some (text ++ (0 ∷ []))) (length text))

abbrev pub copy_username :
    Bool → Bool → Option Bytes → Option Bytes → Credentials → Credentials × Rc
copy_username mem1 mem2 none password c = copy_password mem2 password c
copy_username mem1 mem2 (some username) password c =
    if is_malformed username
    then (c, Rc.malformed_utf8)
    else if mem1
    then copy_password mem2 password (record c { username = some username })
    else (c, Rc.nomem)

-- `mem1` and `mem2` answer the copies. The old name and password are freed before anything else
-- can fail.
pub username_pw_set : Bool → Bool → Option Bytes → Option Bytes → Credentials → Credentials × Rc
username_pw_set mem1 mem2 username password c =
    if is_old c.protocol && not (is_null password) && is_null username
    then (c, Rc.inval)
    else copy_username mem1 mem2 username password (record c { username = none; password = none })

-- `enum mosq_opt_t`.
pub data Opt : Type 0 where
  protocol_version ssl_ctx ssl_ctx_with_defaults receive_maximum send_maximum : Opt
  tls_keyform tls_engine tls_engine_kpass_sha1 tls_ocsp_required tls_alpn : Opt

-- What the numbers of `mosquitto_int_option` go to, with TLS.
pub record Numbers : Type 0 where
  pub protocol : Protocol
  pub in_maximum : ℕ
  pub out_maximum : ℕ
  pub ssl_ctx_defaults : Bool
  pub tls_ocsp_required : Bool

-- A maximum of 0 stands for 65535; `none` is out of range.
abbrev pub maximum_of : ℤ → Option ℕ
maximum_of (pos zero) = some 65535
maximum_of (pos (suc n)) = if ltb 65535 (suc n) then none else some (suc n)
maximum_of (negsuc n) = none

abbrev pub version_number : ℤ → Option Protocol
version_number (pos value) =
    if value == 3
    then some Protocol.mqtt31
    else if value == 4
    then some Protocol.mqtt311
    else if value == 5
    then some Protocol.mqtt5
    else none
version_number (negsuc n) = none

abbrev pub is_nonzero : ℤ → Bool
is_nonzero (pos zero) = false
is_nonzero value = true

abbrev pub stored_number : {A : Type 0} → Option A → (A → Numbers) → Numbers → Numbers × Rc
stored_number none f c = (c, Rc.inval)
stored_number (some a) f c = (f a, Rc.success)

pub int_option : Opt → ℤ → Numbers → Numbers × Rc
int_option Opt.protocol_version value c =
    stored_number (version_number value) (λ v. record c { protocol = v }) c
int_option Opt.receive_maximum value c =
    stored_number (maximum_of value) (λ n. record c { in_maximum = n }) c
int_option Opt.send_maximum value c =
    stored_number (maximum_of value) (λ n. record c { out_maximum = n }) c
int_option Opt.ssl_ctx_with_defaults value c =
    (record c { ssl_ctx_defaults = is_nonzero value }, Rc.success)
int_option Opt.tls_ocsp_required value c =
    (record c { tls_ocsp_required = is_nonzero value }, Rc.success)
int_option option value c = (c, Rc.inval)
