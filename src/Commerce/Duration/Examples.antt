-- ===== src/Commerce/Duration/Examples.antt =====
-- `normalizePlanDuration` and `planExpiry` at concrete values, with a calendar of months of 30 days.
use traffic_forwarding_panel.Prelude.{◌+◌, ◌*◌, ◌/◌, ◌%◌, ◌≡◌, refl}
use traffic_forwarding_panel.Prelude.Int.{pos, pos_part}
use traffic_forwarding_panel.Prelude.Fallible.{ok, err}
use traffic_forwarding_panel.Commerce.Duration.{
  addon_duration, addon, period, unset, month, normalize_plan_duration, check_period, with_unit,
  max_value, months_of, Calendar,
}
use traffic_forwarding_panel.Commerce.Duration.Laws.{plan}

abbrev calendar : Calendar
calendar = record {
  civil = λ t. record {
    years = t / 360;
    month_of_year = pos (t % 360 / 30 + 1);
    day_of_month = pos (t % 30 + 1);
    clock = 0;
  };
  date = λ y m d clock. y * 360 + pos_part m * 30 + pos_part d;
  add_days = λ t d. t + pos_part d;
}

normalizes :
    normalize_plan_duration (plan period (pos 3) unset (pos 0))
    ≡ ok (plan period (pos 3) month (pos 3))
unfolding normalize_plan_duration check_period with_unit max_value months_of
normalizes = refl

addon_months : normalize_plan_duration (plan addon (pos 1) unset (pos 0)) ≡ err addon_duration
unfolding normalize_plan_duration
addon_months = refl
