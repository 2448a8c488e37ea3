-- ===== src/Messages/Mid.antt =====
-- `mosquitto__mid_generate`.
use artemisia.Base.{ℕ, zero, suc, ◌+◌, ◌-◌, ◌%◌, ◌^◌, ◌<◌, ◌≡◌, ◌≢◌, ◌∙◌, arith}
use artemisia.Messages.Defs.{Client}
use artemisia.Messages.{mid_generate}

-- `mosquitto__mid_generate` gives a uint16_t other than 0 and keeps it as `last_mid`.
pub mid_generate_bounds :
    (c : Client)
    → (0 < (mid_generate c).0)
      × ((mid_generate c).0 < 2 ^ 16)
      × ((mid_generate c).1.last_mid ≡ (mid_generate c).0)
unfolding mid_generate
mid_generate_bounds c = ground arith

-- The identifier after `n` calls.
unfoldable pub generate_many : ℕ → Client → ℕ
generate_many zero c = c.last_mid
generate_many (suc n) c = generate_many n (mid_generate c).1

mid_next :
    (c : Client)
    → 0 < c.last_mid
    → c.last_mid < 2 ^ 16
    → (mid_generate c).1.last_mid ≡ c.last_mid % 65535 + 1
unfolding mid_generate
mid_next c lo hi = ground arith

generate_many_lem :
    (n : ℕ) (c : Client)
    → 0 < c.last_mid
    → c.last_mid < 2 ^ 16
    → generate_many n c ≡ (c.last_mid - 1 + n) % 65535 + 1
unfolding generate_many
generate_many_lem zero c lo hi = omega arith
generate_many_lem (suc n) c lo hi =
    let (pos, below, same) = mid_generate_bounds c in
    generate_many_lem n (mid_generate c).1 (omega arith) (omega arith)
    ∙ omega (arith, mid_next c lo hi)

-- The identifiers of `mosquitto__mid_generate` come round only after 65535 calls: two calls that
-- are less apart differ.
pub generate_many-ne :
    (m n : ℕ) (c : Client)
    → 0 < c.last_mid
    → c.last_mid < 2 ^ 16
    → m < n
    → n < m + 65535
    → generate_many m c ≢ generate_many n c
generate_many-ne m n c lo hi less near e =
    omega (arith, generate_many_lem m c lo hi, generate_many_lem n c lo hi)
