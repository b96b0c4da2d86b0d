-- ===== src/Commerce/Duration.antt =====
-- internal/commerce/duration.go: how long a plan lasts, and when an entitlement bought at an instant
-- expires; `AddMonths` of internal/commerce/service.go. A Go `int` is an integer; the products here
-- are of checked values and do not overflow.
mod Laws
mod Examples
use traffic_forwarding_panel.Prelude.{
  ℕ, ◌+◌, ◌*◌, min, Bool, true, false, not, ◌&&◌, ◌||◌, ltb, ◌==◌, if◌then◌else◌,
}
use traffic_forwarding_panel.Prelude.Int.{ℤ, pos, negsuc, pos_part, neg_part, ltb_ℤ, ◌+ℤ◌}
use traffic_forwarding_panel.Prelude.Fallible.{Fallible, ok, err, ◌>>=◌, ◌>>◌, fail_if}

pub data Error : Type 0 where
  addon_duration invalid_kind invalid_unit invalid_value conflicting period_required : Error

-- `Plan.Kind`, with every other string as `other_kind`
pub data PlanKind : Type 0 where
  addon period other_kind : PlanKind

-- `Plan.DurationUnit`; `unset` is the empty string, and every other string is `other_unit`.
pub data DurationUnit : Type 0 where
  unset day week month year other_unit : DurationUnit

-- The fields of `Plan` that a duration reads and writes.
pub record Plan : Type 0 where
  pub kind : PlanKind
  pub months : ℤ
  pub duration_unit : DurationUnit
  pub duration_value : ℤ

abbrev pub is_zero : ℤ → Bool
is_zero v = pos_part v == 0 && neg_part v == 0

abbrev pub same_int : ℤ → ℤ → Bool
same_int a b = pos_part a == pos_part b && neg_part a == neg_part b

abbrev pub is_unset : DurationUnit → Bool
is_unset unset = true
is_unset u = false

-- The switch over the unit: the largest value, or an error.
unfoldable pub max_value : DurationUnit → Fallible Error ℕ
max_value unset = err invalid_unit
max_value day = ok 3650
max_value week = ok 520
max_value month = ok 120
max_value year = ok 10
max_value other_unit = err invalid_unit

-- The months that a value of the unit stands for, 0 for days and weeks.
unfoldable pub months_of : DurationUnit → ℤ → ℤ
months_of month v = v
months_of year v = pos (pos_part v * 12)
months_of u v = pos 0

-- A plan that gives neither the unit nor the value counts in months.
unfoldable pub with_unit : Plan → Plan
with_unit p =
    if is_unset p.duration_unit && is_zero p.duration_value
    then record p { duration_unit = month; duration_value = p.months }
    else p

-- The checks of a period plan whose unit is filled in.
unfoldable pub check_period : Plan → Fallible Error Plan
check_period p = do
  most ← max_value p.duration_unit
  fail_if (ltb_ℤ p.duration_value (pos 1) || ltb_ℤ (pos most) p.duration_value) invalid_value
  let months = months_of p.duration_unit p.duration_value
  fail_if (not (is_zero p.months) && not (same_int p.months months)) conflicting
  ok (record p { months = months })

unfoldable pub normalize_plan_duration : Plan → Fallible Error Plan
normalize_plan_duration p = elim p.kind [
  | addon ↦
      if not (is_zero p.months) || not (is_unset p.duration_unit) || not (is_zero p.duration_value)
      then err addon_duration
      else ok p
  | period ↦ check_period (with_unit p)
  | other_kind ↦ err invalid_kind
]

-- A date and the time of day in the zone Asia/Shanghai.
pub record Civil : Type 0 where
  pub years : ℕ
  pub month_of_year : ℤ
  pub day_of_month : ℤ
  pub clock : ℕ

-- The functions of the package time: `In` with `Date` and the time of day, `time.Date` (which
-- normalises months and days out of range), and `AddDate(0, 0, days)`, all in that zone.
pub record Calendar : Type 0 where
  pub civil : ℕ → Civil
  pub date : ℕ → ℤ → ℤ → ℕ → ℕ
  pub add_days : ℕ → ℤ → ℕ

module _ (c : Calendar) where
  unfoldable pub add_months : ℕ → ℤ → ℕ
  add_months t months =
      let here = c.civil t in
      let first = c.civil (c.date here.years (here.month_of_year +ℤ months) (pos 1) here.clock) in
      let last =
        (c.civil (c.date first.years (first.month_of_year +ℤ pos 1) (pos 0) 0)).day_of_month in
      let d = if ltb_ℤ last here.day_of_month then last else here.day_of_month in
      c.date first.years first.month_of_year d here.clock

  -- The end of a normalised period plan.
  unfoldable pub expiry_of : ℕ → Plan → ℕ
  expiry_of start p = elim p.duration_unit [
    | month ↦ add_months start p.months
    | year ↦ add_months start p.months
    | week ↦ c.add_days start (pos (pos_part p.duration_value * 7))
    | _ ↦ c.add_days start p.duration_value
  ]

  unfoldable pub plan_expiry : ℕ → Plan → Fallible Error ℕ
  plan_expiry start p = do
    q ← normalize_plan_duration p
    elim q.kind [ period ↦ ok (expiry_of start q) | _ ↦ err period_required ]
