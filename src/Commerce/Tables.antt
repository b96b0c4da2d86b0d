-- ===== src/Commerce/Tables.antt =====
-- The rows of the tables that internal/commerce/quota.go and usage_batch.go read and write, each
-- table keyed by its primary key, and the result of a transaction: an error rolls all of it back.
use traffic_forwarding_panel.Prelude.{
  ℕ, ◌+◌, Bool, Option, none, some, [], ◌∷◌, ltb, ◌==◌, if◌then◌else◌,
}
use traffic_forwarding_panel.Prelude.Fallible.{Fallible, ok, err}
use traffic_forwarding_panel.Prelude.Assoc.{Assoc, lookup, insert}
use traffic_forwarding_panel.Commerce.Rate.{Rat}

-- What a transaction fails with.
pub data Error : Type 0 where
  budget_outside invalid_multiplier entitlement_unavailable no_rows conflict duplicate_key : Error
  invalid_used invalid_lease_multiplier invalid_reservation : Error
  batch_too_long invalid_metadata invalid_usage outside_lease lease_exceeded charge_overflow : Error

-- The outcome of a transaction.
abbrev pub Result {ℓ} : Type ℓ → Type ℓ
Result A = Fallible Error A

-- commerce_entitlements
pub record Entitlement : Type 0 where
  pub id : ℕ
  pub user : ℕ
  pub version : ℕ
  pub expires : ℕ
  pub quota : ℕ
  pub used : ℕ
  pub allocated : ℕ

-- commerce_leases; `mult` is the text column as `SetString` reads it, `none` where it fails
pub record LeaseRow : Type 0 where
  pub user : ℕ
  pub node : ℕ
  pub rule : ℕ
  pub ent : ℕ
  pub expires : ℕ
  pub bytes : ℕ
  pub used : ℕ
  pub mult : Option Rat

-- commerce_lease_reservations
pub record Reservation : Type 0 where
  pub budget : ℕ
  pub closed : Bool

-- commerce_usage
pub record UsageRow : Type 0 where
  pub lease : ℕ
  pub payload : ℕ
  pub charged : ℕ

pub record Db : Type 0 where
  pub entitlements : Assoc Entitlement
  pub leases : Assoc LeaseRow
  pub reservations : Assoc Reservation
  pub usage : Assoc UsageRow

-- SELECT … WHERE user_id=? ORDER BY version DESC LIMIT 1
unfoldable pub latest : ℕ → Assoc Entitlement → Option Entitlement
latest user [] = none
latest user ((k, e) ∷ es) =
    let rest = latest user es in
    if e.user == user
    then elim rest [ none ↦ some e | some b ↦ if ltb e.version b.version then some b else some e ]
    else rest

-- One reservation's part of the sum below.
unfoldable pub open_budget : ℕ → Assoc LeaseRow → ℕ → Reservation → ℕ
open_budget user leases k r = elim (lookup k leases) [
  | none ↦ 0
  | some l ↦ if l.user == user then (if r.closed then 0 else r.budget) else 0
]

-- SELECT COALESCE(SUM(r.budget),0) FROM reservations r JOIN leases l … WHERE l.user_id=? AND
-- r.closed=0
unfoldable pub outstanding : ℕ → Assoc LeaseRow → Assoc Reservation → ℕ
unfolding open_budget
outstanding user leases [] = 0
outstanding user leases ((k, r) ∷ rs) = open_budget user leases k r + outstanding user leases rs

-- INSERT INTO, which the primary key refuses where the key is taken.
abbrev pub insert_new {ℓ} : {V : Type ℓ} → ℕ → V → Assoc V → Result (Assoc V)
insert_new k v m = elim (lookup k m) [ none ↦ ok (insert k v m) | some _ ↦ err duplicate_key ]
