-- ===== src/Commerce/Duration/Laws.antt =====
-- internal/commerce/duration.go: what a normalised plan looks like, and when it expires.
use traffic_forwarding_panel.Prelude.{
  ℕ, ◌*◌, ◌≤◌, ◌≡◌, ◌⊎◌, inl, inr, refl, ap, sym, ◌∙◌, arith, false, ◌&&◌, Bool-cases,
}
use traffic_forwarding_panel.Prelude.Int.{ℤ, pos, pos_part}
use traffic_forwarding_panel.Prelude.Fallible.{Fallible-cases, ok}
use traffic_forwarding_panel.Commerce.Duration.{
  PlanKind, addon, period, other_kind, DurationUnit, unset, day, week, month, year, other_unit,
  Plan, normalize_plan_duration, check_period, with_unit, max_value, months_of, Calendar,
  plan_expiry, expiry_of, is_unset, is_zero,
}

abbrev pub plan : PlanKind → ℤ → DurationUnit → ℤ → Plan
plan k m u v = record { kind = k; months = m; duration_unit = u; duration_value = v }

abbrev Checked : DurationUnit → Type 0
Checked u =
    (k : PlanKind) (m v : ℤ) (p' : Plan)
    → check_period (plan k m u v) ≡ ok p'
    → (p' ≡ plan k (months_of u v) u v) × (check_period p' ≡ ok p') × (is_unset u ≡ false)

check_period-day : Checked day
unfolding check_period max_value months_of
check_period-day k m v p' h = ground arith

check_period-week : Checked week
unfolding check_period max_value months_of
check_period-week k m v p' h = ground arith

check_period-month : Checked month
unfolding check_period max_value months_of
check_period-month k m v p' h = ground arith

check_period-year : Checked year
unfolding check_period max_value months_of
check_period-year k m v p' h = ground arith

check_period-unset : Checked unset
unfolding check_period max_value
check_period-unset k m v p' h = absurd (ground arith)

check_period-other : Checked other_unit
unfolding check_period max_value
check_period-other k m v p' h = absurd (ground arith)

checked : (u : DurationUnit) → Checked u
checked unset = check_period-unset
checked day = check_period-day
checked week = check_period-week
checked month = check_period-month
checked year = check_period-year
checked other_unit = check_period-other

with_unit-set : (p : Plan) → is_unset p.duration_unit ≡ false → with_unit p ≡ p
unfolding with_unit
with_unit-set p h = ground arith

with_unit-cases :
    (m v : ℤ) (u : DurationUnit)
    → (with_unit (plan period m u v) ≡ plan period m u v)
      ⊎ (with_unit (plan period m u v) ≡ plan period m month m)
unfolding with_unit
with_unit-cases m v u = elim (Bool-cases (is_unset u && is_zero v)) [
  | inl h ↦ inr (rw h refl)
  | inr h ↦ inl (rw h refl)
]

normalize-period :
    (p : Plan) → p.kind ≡ period → normalize_plan_duration p ≡ check_period (with_unit p)
unfolding normalize_plan_duration
normalize-period p h = ground arith

renormalize :
    (u : DurationUnit) (m v : ℤ) (p' : Plan)
    → check_period (plan period m u v) ≡ ok p'
    → normalize_plan_duration p' ≡ ok p'
renormalize u m v p' h =
    let (e, again, set) = checked u period m v p' h in
    let same : with_unit p' ≡ p' = with_unit-set p' (rw e set) in
    let k : p'.kind ≡ period = ap (λ (q : Plan). q.kind) e in
    normalize-period p' k ∙ ap check_period same ∙ again

normalize-addon :
    (m : ℤ) (u : DurationUnit) (v : ℤ) (p' : Plan)
    → normalize_plan_duration (plan addon m u v) ≡ ok p'
    → normalize_plan_duration p' ≡ ok p'
unfolding normalize_plan_duration
normalize-addon m u v p' h = ground arith

normalize-other :
    (m : ℤ) (u : DurationUnit) (v : ℤ) (p' : Plan)
    → ¬ (normalize_plan_duration (plan other_kind m u v) ≡ ok p')
unfolding normalize_plan_duration
normalize-other m u v p' h = ground arith

normalize_again :
    (k : PlanKind) (u : DurationUnit) (m v : ℤ) (p' : Plan)
    → normalize_plan_duration (plan k m u v) ≡ ok p'
    → normalize_plan_duration p' ≡ ok p'
normalize_again addon u m v p' h = normalize-addon m u v p' h
normalize_again other_kind u m v p' h = absurd (normalize-other m u v p' h)
normalize_again period u m v p' h = elim (with_unit-cases m v u) [
  | inl e ↦
      renormalize u m v p'
        (ap check_period (sym e) ∙ sym (normalize-period (plan period m u v) refl) ∙ h)
  | inr e ↦
      renormalize month m m p'
        (ap check_period (sym e) ∙ sym (normalize-period (plan period m u v) refl) ∙ h)
]

-- Normalising a plan that was accepted once is accepted again and changes nothing.
pub normalize_idempotent :
    (p p' : Plan) → normalize_plan_duration p ≡ ok p' → normalize_plan_duration p' ≡ ok p'
normalize_idempotent p p' h = normalize_again p.kind p.duration_unit p.months p.duration_value p' h

-- What a normalised period plan promises: a value from 1 to the largest of its unit, and the months
-- that this value stands for.
pub record InRange (p : Plan) : Type 0 where
  pub most : ℕ
  pub known : max_value p.duration_unit ≡ ok most
  pub value : p.duration_value ≡ pos (pos_part p.duration_value)
  pub at_least : 1 ≤ pos_part p.duration_value
  pub at_most : pos_part p.duration_value ≤ most
  pub counted : p.months ≡ months_of p.duration_unit p.duration_value

check_period-InRange : (p p' : Plan) → check_period p ≡ ok p' → InRange p'
unfolding check_period
check_period-InRange p p' h = elim (Fallible-cases (max_value p.duration_unit)) [
  | inl (why, e) ↦ absurd (ground arith)
  | inr (most, e) ↦ record {
    most = most;
    known = ground arith;
    value = ground arith;
    at_least = ground arith;
    at_most = ground arith;
    counted = ground arith;
  }
]

-- A period plan that is accepted lasts at least one and at most 3650 days, 520 weeks, 120 months or 10
-- years, the maximum of its unit, and its months are those that its unit and value stand for.
pub normalize-InRange :
    (p p' : Plan) → p.kind ≡ period → normalize_plan_duration p ≡ ok p' → InRange p'
normalize-InRange p p' k h = check_period-InRange (with_unit p) p' (sym (normalize-period p k) ∙ h)

-- A period plan that gives only its months, in the old way, expires at every start as the plan does
-- that gives the same number with the unit month; where one is refused, so is the other.
pub legacy_months :
    (c : Calendar) (start : ℕ) (n : ℤ)
    → plan_expiry c start (plan period n unset (pos 0))
      ≡ plan_expiry c start (plan period (pos 0) month n)
unfolding plan_expiry normalize_plan_duration with_unit check_period max_value months_of expiry_of
legacy_months c start n = ground arith

-- A plan of `n` years, for `n` from 0 to 10, expires at every start as a plan of 12 * `n` months does,
-- and is refused where that is refused.
pub years_are_months :
    (c : Calendar) (start n : ℕ)
    → n ≤ 10
    → plan_expiry c start (plan period (pos 0) year (pos n))
      ≡ plan_expiry c start (plan period (pos 0) month (pos (n * 12)))
unfolding plan_expiry normalize_plan_duration with_unit check_period max_value months_of expiry_of
years_are_months c start n h = ground arith

-- A plan of `n` weeks, for `n` from 0 to 520, expires at every start as a plan of 7 * `n` days does, and
-- is refused where that is refused.
pub weeks_are_days :
    (c : Calendar) (start n : ℕ)
    → n ≤ 520
    → plan_expiry c start (plan period (pos 0) week (pos n))
      ≡ plan_expiry c start (plan period (pos 0) day (pos (n * 7)))
unfolding plan_expiry normalize_plan_duration with_unit check_period max_value months_of expiry_of
weeks_are_days c start n h = ground arith
