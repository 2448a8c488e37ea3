-- ===== src/Socks/Greeting.antt =====
-- What the client says to its proxy.
use artemisia.Base.{ℕ, ◌/◌, ◌%◌, ◌≤◌, ◌≡◌, none, some, [], ◌∷◌, ◌++◌, Bytes, Rc, length}
use artemisia.State.{ClientState}
use artemisia.Outgoing.Stream.{pending, IsStream}
use artemisia.Socks.{Proxied, World, Ended}

-- The call ends, puts these bytes behind all that is sent and that waits, and waits for `n` bytes.
abbrev pub Asks : Ended → Proxied → Bytes → ℕ → Type 0
Asks result x bs n =
    (x' : Proxied) × (rc : Rc) × (result ≡ some (x', rc))
    × (x'.out.wire ++ pending x'.out ≡ (x.out.wire ++ pending x.out) ++ bs)
    × IsStream x'.out
    × (x'.in_packet.to_process ≡ n)
    × (x'.in_packet.pos ≡ 0)

-- The type of an address of SOCKS5, and the address.
pub data Address (world : World) (x : Proxied) : Bytes → Type 0 where
  inet4 : (a : Bytes) → world.inet4 x.host ≡ some a → Address world x (1 ∷ a)
  inet6 :
      (a : Bytes)
      → world.inet4 x.host ≡ none
      → world.inet6 x.host ≡ some a
      → Address world x (4 ∷ a)
  name :
      world.inet4 x.host ≡ none
      → world.inet6 x.host ≡ none
      → length x.host ≤ 255
      → Address world x (3 ∷ length x.host ∷ x.host)

-- The messages of SOCKS5 by state, with the number of bytes of the answer's first part.
pub data Says (world : World) (x : Proxied) : ClientState → Bytes → ℕ → Type 0 where
  greets : x.socks5_username ≡ none → Says world x ClientState.socks5_new (5 ∷ 1 ∷ 0 ∷ []) 2
  greets_by_name :
      (username : Bytes)
      → x.socks5_username ≡ some username
      → Says world x ClientState.socks5_new (5 ∷ 2 ∷ 0 ∷ 2 ∷ []) 2
  requests :
      (address : Bytes)
      → Address world x address
      → Says world x ClientState.socks5_auth_ok
          ((5 ∷ 1 ∷ 0 ∷ []) ++ (address ++ (x.port / 256 % 256 ∷ x.port % 256 ∷ [])))
          5
  names :
      (username password : Bytes)
      → x.socks5_username ≡ some username
      → x.socks5_password ≡ some password
      → length username ≤ 255
      → length password ≤ 255
      → Says world x ClientState.socks5_send_userpass
          ((1 ∷ length username ∷ []) ++ (username ++ (length password ∷ password)))
          2
