-- ===== src/Prelude/Fallible.antt =====
-- A step that may be refused with a reason of the type `R`, which each part of the program declares
-- for itself.
use traffic_forwarding_panel.Prelude.{
  ◌≡◌, ◌≢◌, ◌⊎◌, inl, inr, refl, Bool, true, false, Option, none, some,
}

pub data Fallible {ℓ} (R : Type 0) (A : Type ℓ) : Type ℓ where
  err : R → Fallible R A
  ok : A → Fallible R A

infixl 5 ◌>>=◌ ◌>>◌
-- The next step of a do block runs on the value of this one; a refusal is passed on.
abbrev pub ◌>>=◌ {ℓ κ} :
    {R : Type 0} {A : Type ℓ} {B : Type κ} → Fallible R A → (A → Fallible R B) → Fallible R B
err why >>= step = err why
ok value >>= step = step value

abbrev pub ◌>>◌ {ℓ} :
    {R : Type 0} {B : Type ℓ} → Fallible R (Unit {0}) → Fallible R B → Fallible R B
err why >> step = err why
ok _ >> step = step

-- Goes on only where the test holds.
abbrev pub guard : {R : Type 0} → Bool → R → Fallible R (Unit {0})
guard false why = err why
guard true why = ok tt

-- Goes on only where the test does not hold.
abbrev pub fail_if : {R : Type 0} → Bool → R → Fallible R (Unit {0})
fail_if false why = ok tt
fail_if true why = err why

abbrev pub or_err {ℓ} : {R : Type 0} {A : Type ℓ} → Option A → R → Fallible R A
or_err (some value) why = ok value
or_err none why = err why

-- To split on the outcome of a step and keep the equation.
pub Fallible-cases {ℓ} :
    {R : Type 0} {A : Type ℓ} (x : Fallible R A)
    → ((why : R) × (x ≡ err why)) ⊎ ((value : A) × (x ≡ ok value))
Fallible-cases (err why) = inl (why, refl)
Fallible-cases (ok value) = inr (value, refl)

pub ok-injective {ℓ} :
    {R : Type 0} {A : Type ℓ} {a b : A} → Path (Fallible R A) (ok a) (ok b) → a ≡ b
ok-injective h = cc

pub err_ne {ℓ} : {R : Type 0} {A : Type ℓ} {why : R} {a : A} → err why ≢ Fallible.ok a
err_ne h = cc
