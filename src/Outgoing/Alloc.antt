-- ===== src/Outgoing/Alloc.antt =====
-- `packet__alloc`: the fixed header of an outgoing packet.
use artemisia.Base.{
  ℕ, zero, suc, ◌+◌, ◌*◌, ◌/◌, ◌%◌, ◌^◌, ◌≤◌, ◌<◌, ◌≡◌, refl, ap, ◌∙◌, arith, Bool, true, false,
}
use artemisia.Base.{none, some, ◌∷◌, Bytes, Rc, ◌==◌, length, take}
use artemisia.Packet.Defs.{Packet, IsWritable}
use artemisia.Packet.Encode.{varint_groups, varint_encoding, varint_limit}
use artemisia.Packet.Write.Laws.{length-overwrite, take-drop-overwrite}
use artemisia.Outgoing.{alloc_loop, block, allocated, packet_alloc}

-- 128 ^ k.
power : ℕ → ℕ
power zero = 1
power (suc k) = 128 * power k

alloc_loop-groups : (k w : ℕ) → w < power (suc k) → alloc_loop (suc (suc k)) w ≡ varint_groups k w
unfolding alloc_loop varint_groups power
alloc_loop-groups zero w h = ground arith
alloc_loop-groups (suc k) w h = ground (arith, alloc_loop-groups k (w / 128))

length-alloc_loop : (k w : ℕ) → power k ≤ w → length (alloc_loop (suc k) w) ≡ suc k
unfolding alloc_loop power
length-alloc_loop zero w h = ground arith
length-alloc_loop (suc k) w h = ground (arith, length-alloc_loop k (w / 128))

length-varint_groups : (k w : ℕ) → length (varint_groups k w) ≤ suc k
unfolding varint_groups
length-varint_groups zero w = omega arith
length-varint_groups (suc k) w = ground (arith, length-varint_groups k (w / 128))

length-block : (n : ℕ) → length (block n) ≡ n
unfolding block
length-block zero = refl
length-block (suc n) = ap suc (length-block n)

-- What `packet__alloc` gives for a remaining length that a fixed header can hold.
pub record Allocated (p q : Packet) : Type 0 where
  pub writable : IsWritable q
  pub header : take q.pos q.payload ≡ p.command ∷ varint_encoding p.remaining_length
  pub room : q.pos + p.remaining_length ≡ q.packet_length
  pub backed : length q.payload ≡ q.packet_length
  pub command : q.command ≡ p.command
  pub mid : q.mid ≡ p.mid

allocated-Allocated :
    (p : Packet) (bytes : Bytes)
    → bytes ≡ varint_encoding p.remaining_length
    → length bytes ≤ 4
    → p.remaining_length < varint_limit
    → Allocated p (allocated p bytes)
allocated-Allocated p bytes e short h =
    let n = (p.remaining_length + 1 + length bytes) % 2 ^ 32 in
    let exact : n ≡ p.remaining_length + 1 + length bytes = omega arith in
    let len = length-overwrite (block n) 0 (p.command ∷ bytes) in
    let size = length-block n in
    record {
      writable = record { within = omega arith; backed = omega arith; bounded = omega arith };
      header =
          (let one : 1 + length bytes ≡ suc (length bytes) = omega arith in
            rw one (
              take-drop-overwrite (block n) 0 (p.command ∷ bytes) (omega arith)
              ∙ ap (λ t. p.command ∷ t) e));
      room = omega arith;
      backed = len ∙ size;
      command = refl;
      mid = refl;
    }

-- `packet__alloc` gives a packet whose buffer begins with the command and the variable byte integer
-- of the remaining length, and has room behind it for exactly that many bytes, for a remaining
-- length below 268435456, where malloc gives the buffer.
pub packet_alloc-Allocated :
    (p : Packet)
    → p.remaining_length < varint_limit
    → (q : Packet) × (packet_alloc p true ≡ (some q, Rc.success)) × Allocated p q
unfolding packet_alloc power varint_encoding
packet_alloc-Allocated p h =
    let bytes = alloc_loop 5 p.remaining_length in
    let same : bytes ≡ varint_encoding p.remaining_length =
      alloc_loop-groups 3 p.remaining_length (omega arith) in
    let short : length bytes ≤ 4 =
      omega (arith, ap length same, length-varint_groups 3 p.remaining_length) in
    let right : (length bytes == 5) ≡ false = ground arith in
    (allocated p bytes, rw right refl, allocated-Allocated p bytes same short h)

-- A remaining length from 268435456 on is refused.
pub packet_alloc_oversize :
    (p : Packet) (mem : Bool)
    → varint_limit ≤ p.remaining_length
    → packet_alloc p mem ≡ (none, Rc.payload_size)
unfolding packet_alloc
packet_alloc_oversize p mem h =
    let five = length-alloc_loop 4 p.remaining_length (unfold power in omega arith) in rw five refl
