-- ===== src/Commerce/Rate/Laws.antt =====
-- The rounding of a charge and the rounding of a budget in internal/commerce/quota.go, side by side.
use traffic_forwarding_panel.Prelude.{ℕ, ◌+◌, ◌-◌, ◌*◌, ◌/◌, ◌≤◌, ◌<◌, ◌≡◌, true, arith}
use traffic_forwarding_panel.Prelude.Int.{pos_part}
use traffic_forwarding_panel.Commerce.Rate.{Rat, is_positive, ceil_charge, floor_raw}

-- Facts about the quotient by an unknown, in the form that `omega` multiplies out.
div_bounds : (a b : ℕ) → 0 < b → (a / b * b ≤ a) × (a < a / b * b + b)
div_bounds a b h = grind arith

pub le_div : (a b c : ℕ) → 0 < b → a * b ≤ c → a ≤ c / b
le_div a b c h p = grind arith

pub div_le : (a b c : ℕ) → 0 < b → a < (c + 1) * b → a / b ≤ c
div_le a b c h p = grind arith

pub positive_num : (m : Rat) → is_positive m ≡ true → 0 < pos_part m.num
unfolding is_positive
positive_num m h = ground arith

-- ceil(floor(budget * den / num) * num / den) <= budget
pub ceil_charge-floor_raw :
    (budget : ℕ) (m : Rat)
    → is_positive m ≡ true
    → 0 < m.den
    → ceil_charge (floor_raw budget m) m ≤ budget
unfolding ceil_charge floor_raw
ceil_charge-floor_raw budget m h d =
    let n = pos_part m.num in
    div_le (budget * m.den / n * n + (m.den - 1)) m.den budget d
      (omega (arith, (div_bounds (budget * m.den) n (positive_num m h)).0))

mul_mono : (u v : ℕ) (m : Rat) → u ≤ v → u * pos_part m.num ≤ v * pos_part m.num
mul_mono u v m h = grind arith

-- More bytes cost at least as much.
pub ceil_charge_mono : (u v : ℕ) (m : Rat) → 0 < m.den → u ≤ v → ceil_charge u m ≤ ceil_charge v m
unfolding ceil_charge
ceil_charge_mono u v m d h =
    let a = u * pos_part m.num + (m.den - 1) in
    let b = v * pos_part m.num + (m.den - 1) in
    le_div (a / m.den) m.den b d (omega (arith, (div_bounds a m.den d).0, mul_mono u v m h))

-- Nothing used costs nothing.
pub ceil_charge-zero : (m : Rat) → 0 < m.den → ceil_charge 0 m ≡ 0
unfolding ceil_charge
ceil_charge-zero m d =
    omega (arith, div_le (0 * pos_part m.num + (m.den - 1)) m.den 0 d (omega arith))
