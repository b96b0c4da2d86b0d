-- ===== src/Contract/Money/Laws.antt =====
-- `ParseAmount` and `FormatAmount` of internal/contract/money.go together.
use traffic_forwarding_panel.Prelude.{
  ℕ, suc, ◌+◌, ◌*◌, ◌/◌, ◌%◌, ◌^◌, ◌≤◌, ◌<◌, ◌≡◌, sym, ap, ◌∙◌, Bool, true, false, some, List, [],
  ◌∷◌, ◌++◌, length, all, arith,
}
use mathlib.Core.List.{append_assoc}
use traffic_forwarding_panel.Prelude.Int.{pos, ltb_ℤ, ◌-ℤ◌, ◌+ℤ◌}
use traffic_forwarding_panel.Contract.Money.{
  max_amount_cents, point, digit_zero, is_digit, trim_left, trim_right, value, padded, parse_amount,
  show_digits, show, quot_100, rem_100, format_amount,
}
use traffic_forwarding_panel.Contract.Money.Digits.{
  value-show_digits, all-show_digits, length-show_digits, show_digits-pos, cut-digits,
  trim_left-keeps, trim_right-keeps,
}

-- The two digits of the cents.
abbrev cents_of : ℕ → List ℕ
cents_of r = (digit_zero + r / 10) ∷ (digit_zero + r % 10) ∷ []

show_cents : (r : ℕ) → r < 100 → show (pos (r + 100)) ≡ 49 ∷ cents_of r
unfolding show show_digits
show_cents r h = let e : r + 100 ≡ suc (suc (suc (r + 97))) = omega arith in ground arith

abbrev digits : ℕ → List ℕ
digits n = show_digits (suc n) n

quot_100-pos : (c : ℕ) → quot_100 (pos c) ≡ pos (c / 100)
unfolding quot_100 ◌-ℤ◌
quot_100-pos c = ground arith

rem_100-pos : (c : ℕ) → rem_100 (pos c) +ℤ pos 100 ≡ pos (c % 100 + 100)
unfolding rem_100 ◌-ℤ◌ ◌+ℤ◌
rem_100-pos c = ground arith

not_negative : (c : ℕ) → ltb_ℤ (pos c) (pos 0) ≡ false
not_negative c = ground arith

format_pos : (c : ℕ) → format_amount (pos c) ≡ digits (c / 100) ++ point ∷ cents_of (c % 100)
unfolding format_amount show
format_pos c =
    rw (not_negative c, quot_100-pos c, rem_100-pos c, show_cents (c % 100) (omega arith))

-- A text of digits, a point and two digits is not trimmed, since no digit is a space.
trimmed :
    (is_space : ℕ → Bool) (s : List ℕ) (r : ℕ)
    → all is_digit s ≡ true
    → 0 < length s
    → r < 100
    → ((d : ℕ) → is_digit d ≡ true → is_space d ≡ false)
    → trim_right is_space (trim_left is_space (s ++ point ∷ cents_of r)) ≡ s ++ point ∷ cents_of r
unfolding all is_digit
trimmed is_space [] r d l h plain = absurd (omega arith)
trimmed is_space (c ∷ s) r d l h plain =
    let a = digit_zero + r / 10 in
    let b = digit_zero + r % 10 in
    let split : (c ∷ s) ++ point ∷ a ∷ b ∷ [] ≡ ((c ∷ s) ++ point ∷ a ∷ []) ++ b ∷ [] =
      sym (append_assoc (c ∷ s) (point ∷ a ∷ []) (b ∷ [])) in
    ap (trim_right is_space)
      (trim_left-keeps is_space c (s ++ point ∷ a ∷ b ∷ []) (plain c (ground arith)))
    ∙ ap (trim_right is_space) split
    ∙ trim_right-keeps is_space ((c ∷ s) ++ point ∷ a ∷ []) b (plain b (ground arith))
    ∙ sym split

cents_of-digits : (r : ℕ) → r < 100 → all is_digit (cents_of r) ≡ true
unfolding all is_digit
cents_of-digits r h = ground arith

value-cents_of : (r : ℕ) → value 0 (padded (cents_of r)) ≡ r
unfolding value padded
value-cents_of r = omega arith

parse_shown :
    (is_space : ℕ → Bool) (n r : ℕ)
    → n < 10 ^ 11
    → r < 100
    → n * 100 + r ≤ max_amount_cents
    → ((d : ℕ) → is_digit d ≡ true → is_space d ≡ false)
    → parse_amount is_space (digits n ++ point ∷ cents_of r) ≡ some (n * 100 + r)
unfolding parse_amount
parse_shown is_space n r small h le plain =
    let d = all-show_digits (suc n) n in
    let p = show_digits-pos n n in
    rw
      (
        trimmed is_space (digits n) r d p h plain,
        cut-digits (digits n) (cents_of r) d,
        d,
        cents_of-digits r h,
        value-show_digits (suc n) n (omega arith),
        value-cents_of r,
      )
      (ground (arith, length-show_digits 10 (suc n) n small, p))

-- An amount of at most 10^12 cents that is formatted and parsed again is the same amount, whatever the
-- characters that are trimmed as spaces, as long as no digit is one.
pub parse-format :
    (is_space : ℕ → Bool) (cents : ℕ)
    → cents ≤ max_amount_cents
    → ((d : ℕ) → is_digit d ≡ true → is_space d ≡ false)
    → parse_amount is_space (format_amount (pos cents)) ≡ some cents
parse-format is_space cents h plain =
    let e : cents / 100 * 100 + cents % 100 ≡ cents = omega arith in
    ap (parse_amount is_space) (format_pos cents)
    ∙ parse_shown is_space (cents / 100) (cents % 100) (omega arith) (omega arith) (omega arith)
        plain
    ∙ ap some e

-- A text that is accepted is worth at most 10^12 cents.
pub parse_bound :
    (is_space : ℕ → Bool) (v : List ℕ) (cents : ℕ)
    → parse_amount is_space v ≡ some cents
    → cents ≤ max_amount_cents
unfolding parse_amount
parse_bound is_space v cents h = ground arith
