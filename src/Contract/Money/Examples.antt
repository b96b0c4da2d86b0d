-- ===== src/Contract/Money/Examples.antt =====
-- Amounts at concrete texts. Only the blank is a space here.
use Prim.Native.Char.{code}
use Prim.Native.String.{String}
use traffic_forwarding_panel.Prelude.{
  ℕ, ◌≡◌, refl, Bool, true, false, none, some, List, [], ◌∷◌, all, arith, ◌==◌,
}
use traffic_forwarding_panel.Prelude.Int.{pos, negsuc, int64, ◌-ℤ◌, ◌+ℤ◌}
use traffic_forwarding_panel.Contract.Money.{
  is_digit, trim_left, trim_right, cut, value, padded, parse_amount, show_digits, show, quot_100,
  rem_100, format_amount,
}
use traffic_forwarding_panel.Contract.Money.Laws.{parse-format}

abbrev codes : String → List ℕ
codes String.[] = []
codes (String.◌∷◌ c s) = code c ∷ codes s

abbrev is_blank : ℕ → Bool
is_blank c = c == 32

accepts : parse_amount is_blank (codes " 12.5 ") ≡ some 1250
unfolding parse_amount trim_left trim_right cut value padded is_digit all
accepts = refl

rejects_three_places : parse_amount is_blank (codes "1.005") ≡ none
unfolding parse_amount trim_left trim_right cut value padded is_digit all
rejects_three_places = refl

rejects_bare_fraction : parse_amount is_blank (codes ".5") ≡ none
unfolding parse_amount trim_left trim_right cut value padded is_digit all
rejects_bare_fraction = refl

formats_debt : format_amount (negsuc 4) ≡ codes "-0.05"
unfolding format_amount show show_digits quot_100 rem_100 int64 ◌-ℤ◌ ◌+ℤ◌
formats_debt = refl

no_digit : (d : ℕ) → is_digit d ≡ true → is_blank d ≡ false
unfolding is_digit
no_digit d h = ground arith

parse-format_example : parse_amount is_blank (format_amount (pos 1205)) ≡ some 1205
parse-format_example = parse-format is_blank 1205 (omega arith) no_digit
