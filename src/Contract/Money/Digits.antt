-- ===== src/Contract/Money/Digits.antt =====
-- Decimal digits: what they are worth, and how many there are.
use traffic_forwarding_panel.Prelude.{
  ℕ, zero, suc, ◌+◌, ◌-◌, ◌*◌, ◌/◌, ◌%◌, ◌^◌, ◌≤◌, ◌<◌, ◌≡◌, refl, Bool, true, false, ◌&&◌, List,
  [], ◌∷◌, ◌++◌, length, length-append, all, arith, ltb, ◌==◌, Bool-cases, inl, inr,
}
use native.Mathlib.Nat.{pow-suc}
use traffic_forwarding_panel.Contract.Money.{
  point, digit_zero, is_digit, trim_left, trim_right, cut, value, show_digits,
}

value-append :
    (n : ℕ) (s : List ℕ) (c : ℕ) → value n (s ++ c ∷ []) ≡ value n s * 10 + (c - digit_zero)
unfolding value
value-append n [] c = refl
value-append n (d ∷ s) c = value-append (n * 10 + (d - digit_zero)) s c

-- Digits read back give the number.
pub value-show_digits : (f n : ℕ) → n < f → value 0 (show_digits f n) ≡ n
unfolding show_digits value
value-show_digits zero n h = absurd (omega arith)
value-show_digits (suc f) n h = elim (Bool-cases (ltb n 10)) [
  | inl small ↦ rw small (omega arith)
  | inr large ↦
      let ih = value-show_digits f (n / 10) (ground arith) in
      rw (large, value-append 0 (show_digits f (n / 10)) (digit_zero + n % 10), ih) (omega arith)
]

all-append : (p : ℕ → Bool) (s t : List ℕ) → all p (s ++ t) ≡ (all p s && all p t)
unfolding all
all-append p [] t = refl
all-append p (c ∷ s) t = ground (arith, all-append p s t)

pub all-show_digits : (f n : ℕ) → all is_digit (show_digits f n) ≡ true
unfolding show_digits all is_digit
all-show_digits zero n = refl
all-show_digits (suc f) n = ground (
  arith,
  all-append is_digit (show_digits f (n / 10)) ((digit_zero + n % 10) ∷ []),
  all-show_digits f (n / 10),
)

-- A number below 10^k has at most k digits, and every number has one.
pub length-show_digits : (k f n : ℕ) → n < 10 ^ suc k → length (show_digits f n) ≤ suc k
unfolding show_digits
length-show_digits k zero n h = omega arith
length-show_digits zero (suc f) n h = ground arith
length-show_digits (suc k) (suc f) n h = elim (Bool-cases (ltb n 10)) [
  | inl small ↦ rw small (omega arith)
  | inr large ↦
      let lt : n / 10 < 10 ^ suc k =
        let e : 10 ^ suc (suc k) ≡ 10 ^ suc k * 10 = pow-suc 10 (suc k) in ground arith in
      rw (large, length-append (show_digits f (n / 10)) ((digit_zero + n % 10) ∷ []))
        (omega (arith, length-show_digits k f (n / 10) lt))
]

pub show_digits-pos : (f n : ℕ) → 0 < length (show_digits (suc f) n)
unfolding show_digits
show_digits-pos f n =
    ground (arith, length-append (show_digits f (n / 10)) ((digit_zero + n % 10) ∷ []))

pub cut-digits : (s t : List ℕ) → all is_digit s ≡ true → cut (s ++ point ∷ t) ≡ (s, t, true)
unfolding cut all is_digit
cut-digits [] t h = refl
cut-digits (c ∷ s) t h =
    let ih = cut-digits s t (ground arith) in
    let ne : (c == point) ≡ false = ground arith in rw (ne, ih)

-- A text that starts and ends with a character that is no space is not trimmed.
pub trim_left-keeps :
    (is_space : ℕ → Bool) (c : ℕ) (s : List ℕ)
    → is_space c ≡ false
    → trim_left is_space (c ∷ s) ≡ c ∷ s
unfolding trim_left
trim_left-keeps is_space c s h = rw h

pub trim_right-keeps :
    (is_space : ℕ → Bool) (s : List ℕ) (c : ℕ)
    → is_space c ≡ false
    → trim_right is_space (s ++ c ∷ []) ≡ s ++ c ∷ []
unfolding trim_right
trim_right-keeps is_space [] c h = rw (h, trim_right)
trim_right-keeps is_space (d ∷ []) c h = rw (trim_right-keeps is_space [] c h, trim_right)
trim_right-keeps is_space (d ∷ e ∷ s) c h = rw (trim_right-keeps is_space (e ∷ s) c h, trim_right)
