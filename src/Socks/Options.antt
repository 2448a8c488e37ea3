-- ===== src/Socks/Options.antt =====
-- `mosquitto_socks5_set` of socks_mosq.c.
use artemisia.Base.{
  ℕ, ◌≡◌, refl, Bool, true, false, Option, none, some, Bytes, Rc, ℤ, pos, negsuc, ltb, ◌||◌, ◌==◌,
  if◌then◌else◌, length,
}

-- A pointer to a string: null, a string, or memory that has been freed.
pub data Pointer : Type 0 where
  null freed : Pointer
  text : Bytes → Pointer

pub record Proxy : Type 0 where
  pub socks5_host : Pointer
  pub socks5_port : ℕ
  pub socks5_username : Pointer
  pub socks5_password : Pointer

-- `port < 1 || port > 65535`.
abbrev pub is_bad_port : ℤ → Bool
is_bad_port (pos port) = port == 0 || ltb 65535 port
is_bad_port (negsuc n) = true

abbrev pub port_number : ℤ → ℕ
port_number (pos port) = port
port_number (negsuc n) = 0

-- Where the copy of the password fails, the name is freed, but its pointer stays.
abbrev pub set_password : Bool → Option Bytes → Proxy → Proxy × Rc
set_password mem none proxy = (proxy, Rc.success)
set_password true (some password) proxy =
    (record proxy { socks5_password = Pointer.text password }, Rc.success)
set_password false (some password) proxy =
    (record proxy { socks5_username = Pointer.freed }, Rc.nomem)

-- A password without a name is not kept.
abbrev pub set_username : Bool → Bool → Option Bytes → Option Bytes → Proxy → Proxy × Rc
set_username mem1 mem2 none password proxy = (proxy, Rc.success)
set_username false mem2 (some username) password proxy = (proxy, Rc.nomem)
set_username true mem2 (some username) password proxy =
    set_password mem2 password (record proxy { socks5_username = Pointer.text username })

abbrev pub set_host : (ℕ → Bool) → Bytes → ℕ → Option Bytes → Option Bytes → Proxy → Proxy × Rc
set_host mem host port username password proxy =
    if mem 0
    then set_username (mem 1) (mem 2) username password (record proxy {
      socks5_host = Pointer.text host;
      socks5_port = port;
      socks5_username = Pointer.null;
      socks5_password = Pointer.null;
    })
    else (record proxy { socks5_host = Pointer.null }, Rc.nomem)

-- `mem` answers the copies of the host, the name and the password.
pub socks5_set : (ℕ → Bool) → Option Bytes → ℤ → Option Bytes → Option Bytes → Proxy → Proxy × Rc
socks5_set mem none port username password proxy = (proxy, Rc.inval)
socks5_set mem (some host) port username password proxy =
    if ltb 256 (length host) || is_bad_port port
    then (proxy, Rc.inval)
    else set_host mem host (port_number port) username password proxy

-- Whatever the proxy was before, where only the copy of the password fails, the pointer to the name
-- points to memory that has been freed.
pub socks5_set_freed :
    (mem : ℕ → Bool) (host username password : Bytes) (port : ℤ) (proxy : Proxy)
    → (ltb 256 (length host) || is_bad_port port) ≡ false
    → mem 0 ≡ true
    → mem 1 ≡ true
    → mem 2 ≡ false
    → (socks5_set mem (some host) port (some username) (some password) proxy).0.socks5_username
      ≡ Pointer.freed
unfolding socks5_set
socks5_set_freed mem host username password port proxy good mem0 mem1 mem2 =
    rw (good, mem0, mem1, mem2) refl
