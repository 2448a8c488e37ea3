-- ===== src/Packet/Defs.antt =====
-- `struct mosquitto__packet` of include/mosquitto_internal.h, and how a function that works on a
-- packet ends: with a value, with a return code, or in a fault.
use artemisia.Base.{ℕ, ℤ, ◌+◌, ◌≤◌, Bytes, Rc, length}

pub record Packet : Type 0 where
  pub payload : Bytes
  pub remaining_mult : ℕ
  pub remaining_length : ℕ
  pub packet_length : ℕ
  pub to_process : ℕ
  pub pos : ℕ
  pub mid : ℕ
  pub command : ℕ
  pub remaining_count : ℤ

-- `done` is MOSQ_ERR_SUCCESS with what the function stored, `fail` another return code. The
-- packet is the one that the function leaves behind. `fault` is what C leaves undefined, or an
-- `assert` that does not hold.
pub data Outcome (A : Type 0) : Type 0 where
  done : A → Packet → Outcome A
  fail : Rc → Packet → Outcome A
  fault : Outcome A

abbrev pub M : Type 0 → Type 0
M A = Packet → Outcome A

-- `if(rc) return rc;` after each call.
infixl 5 ◌>>=◌ ◌>>◌
abbrev pub ◌>>=◌ : {A B : Type 0} → M A → (A → M B) → M B
◌>>=◌ m f p = elim (m p) [ done a p' ↦ f a p' | fail rc p' ↦ fail rc p' | fault ↦ fault ]

abbrev pub ◌>>◌ : {B : Type 0} → M (Unit {0}) → M B → M B
m >> k = m >>= λ _. k

abbrev pub return : {A : Type 0} → A → M A
return a p = done a p

abbrev pub raise : {A : Type 0} → Rc → M A
raise rc p = fail rc p

abbrev pub stop : {A : Type 0} → M A
stop p = fault

-- The packet with `pos` moved on.
abbrev pub advance : ℕ → Packet → Packet
advance n p = record p { pos = p.pos + n }

-- A packet that is being read: the buffer holds `remaining_length` bytes, no more than the largest
-- packet, 268435455 bytes behind a fixed header of five.
pub record IsReadable (p : Packet) : Type 0 where
  pub within : p.pos ≤ p.remaining_length
  pub backed : p.remaining_length ≤ length p.payload
  pub bounded : p.remaining_length ≤ 268435460

-- A packet that is being built: the buffer holds `packet_length` bytes.
pub record IsWritable (p : Packet) : Type 0 where
  pub within : p.pos ≤ p.packet_length
  pub backed : p.packet_length ≤ length p.payload
  pub bounded : p.packet_length ≤ 268435460
