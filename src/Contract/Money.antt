-- ===== src/Contract/Money.antt =====
-- internal/contract/money.go: amounts of money as decimal texts and as numbers of cents. A text is a
-- list of code points; every refusal is the one error `ErrAmount`.
mod Digits
mod Laws
mod Examples
use traffic_forwarding_panel.Prelude.{
  ℕ, zero, suc, ◌+◌, ◌-◌, ◌*◌, ◌/◌, ◌%◌, ◌^◌, Bool, true, false, not, ◌&&◌, ◌||◌, Option, none,
  some, List, [], ◌∷◌, ◌++◌, length, all, ltb, leb, ◌==◌, if◌then◌else◌,
}
use traffic_forwarding_panel.Prelude.Int.{
  ℤ, pos, negsuc, pos_part, neg_part, ltb_ℤ, ◌-ℤ◌, ◌+ℤ◌, int64,
}

abbrev pub max_amount_cents : ℕ
max_amount_cents = 1000000000000

abbrev pub max_amount_digits : ℕ
max_amount_digits = 13

-- '.', '0' and '-'
abbrev pub point : ℕ
point = 46

abbrev pub digit_zero : ℕ
digit_zero = 48

abbrev pub minus : ℕ
minus = 45

unfoldable pub is_digit : ℕ → Bool
is_digit c = leb digit_zero c && leb c 57

-- `strings.TrimSpace`, for the predicate of the package unicode
unfoldable pub trim_left : (ℕ → Bool) → List ℕ → List ℕ
trim_left is_space [] = []
trim_left is_space (c ∷ s) = if is_space c then trim_left is_space s else c ∷ s

unfoldable pub trim_right : (ℕ → Bool) → List ℕ → List ℕ
trim_right is_space [] = []
trim_right is_space (c ∷ s) = elim (trim_right is_space s) [
  | [] ↦ if is_space c then [] else c ∷ []
  | d ∷ t ↦ c ∷ d ∷ t
]

-- `strings.Cut(s, ".")`: what stands before the first point, what stands after it, and whether there
-- is one
unfoldable pub cut : List ℕ → List ℕ × List ℕ × Bool
cut [] = ([], [], false)
cut (c ∷ s) =
    let (whole, frac, found) = cut s in
    if c == point then ([], s, true) else (c ∷ whole, frac, found)

-- `strconv.ParseInt(s, 10, 64)` on digits; the callers bound their number.
unfoldable pub value : ℕ → List ℕ → ℕ
value n [] = n
value n (c ∷ s) = value (n * 10 + (c - digit_zero)) s

-- `frac += strings.Repeat("0", 2-len(frac))`
unfoldable pub padded : List ℕ → List ℕ
padded [] = digit_zero ∷ digit_zero ∷ []
padded (a ∷ []) = a ∷ digit_zero ∷ []
padded (a ∷ b ∷ s) = a ∷ b ∷ s

unfoldable pub parse_amount : (ℕ → Bool) → List ℕ → Option ℕ
parse_amount is_space v =
    let (whole, frac, found) = cut (trim_right is_space (trim_left is_space v)) in
    let units = value 0 whole in
    let total = units * 100 + value 0 (padded frac) in
    if found && ltb 2 (length frac)
    then none
    else if length whole == 0 || ltb max_amount_digits (length whole)
    then none
    else if not (all is_digit whole) || not (all is_digit frac)
    then none
    else if ltb (max_amount_cents / 100) units
    then none
    else if ltb max_amount_cents total
    then none
    else some total

-- `strconv.FormatInt(n, 10)` of a natural number; the fuel is more than the number of its digits.
unfoldable pub show_digits : ℕ → ℕ → List ℕ
show_digits zero n = []
show_digits (suc f) n =
    let rest = show_digits f (n / 10) in
    if ltb n 10 then (digit_zero + n) ∷ [] else rest ++ (digit_zero + n % 10) ∷ []

unfoldable pub show : ℤ → List ℕ
show (pos n) = show_digits (suc n) n
show (negsuc n) = minus ∷ show_digits (suc (suc n)) (suc n)

-- The quotient and the remainder of Go, which round towards 0.
unfoldable pub quot_100 : ℤ → ℤ
quot_100 z = pos (pos_part z / 100) -ℤ pos (neg_part z / 100)

unfoldable pub rem_100 : ℤ → ℤ
rem_100 z = pos (pos_part z % 100) -ℤ pos (neg_part z % 100)

abbrev pub tail_of : List ℕ → List ℕ
tail_of [] = []
tail_of (c ∷ s) = s

unfoldable pub format_amount : ℤ → List ℕ
format_amount cents =
    let negative = ltb_ℤ cents (pos 0) in
    let c = if negative then int64 (pos 0 -ℤ cents) else cents in
    let s = show (quot_100 c) ++ point ∷ tail_of (show (rem_100 c +ℤ pos 100)) in
    if negative then minus ∷ s else s
