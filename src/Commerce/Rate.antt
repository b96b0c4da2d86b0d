-- ===== src/Commerce/Rate.antt =====
-- The multiplier of internal/commerce/quota.go, a `big.Rat`, and the two roundings it is used with.
use traffic_forwarding_panel.Prelude.{ℕ, ◌+◌, ◌-◌, ◌*◌, ◌/◌, Bool}
use traffic_forwarding_panel.Prelude.Int.{ℤ, pos, pos_part, ltb_ℤ}
pub mod Laws

-- A fraction as math/big keeps it: the sign is the numerator's, the denominator is positive.
pub record Rat : Type 0 where
  pub num : ℤ
  pub den : ℕ

-- `m.Sign() > 0`
unfoldable pub is_positive : Rat → Bool
is_positive m = ltb_ℤ (pos 0) m.num

-- `charge` and `ceil`: v * num / den, rounded up, at a positive multiplier.
unfoldable pub ceil_charge : ℕ → Rat → ℕ
ceil_charge v m = (v * pos_part m.num + (m.den - 1)) / m.den

-- The raw bytes that a budget pays for: budget * den / num, rounded down.
unfoldable pub floor_raw : ℕ → Rat → ℕ
floor_raw budget m = (budget * m.den) / pos_part m.num
