-- ===== src/Agent/Credits.antt =====
-- The credit windows of internal/agent/credits.go, the part of the store (state.go) that they stand
-- in, and the sums that the code takes over them.
pub mod Events
pub mod Checks
pub mod Bounds
pub mod Examples
use traffic_forwarding_panel.Prelude.{
  ℕ, ◌≡◌, ◌⊎◌, inl, inr, refl, ◌+◌, ◌-◌, ◌*◌, ◌%◌, ◌^◌, ◌&&◌, ◌||◌, max, Bool, true, false, not,
  Option, none, some, List, [], ◌∷◌, ◌++◌, length, ltb, leb, ◌==◌, if◌then◌else◌,
}
use traffic_forwarding_panel.Prelude.Fallible.{Fallible, ok, err}
use traffic_forwarding_panel.Prelude.Assoc.{Assoc, lookup, insert, erase, total_by}
use traffic_forwarding_panel.Contract.Usage.{
  UsageRecord, Texts, Kind, recovery, valid_window_metadata,
}

-- Sizes in bytes.
abbrev pub credit_window_size : ℕ
credit_window_size = 256 * 2 ^ 10

abbrev pub max_rule_credits : ℕ
max_rule_credits = 2 ^ 20

abbrev pub max_account_credits : ℕ
max_account_credits = 8 * 2 ^ 20

abbrev pub max_tcp_credit_window : ℕ
max_tcp_credit_window = 2 * 2 ^ 20

abbrev pub max_tcp_rule_credits : ℕ
max_tcp_rule_credits = 4 * 2 ^ 20

abbrev pub max_pending_records : ℕ
max_pending_records = 4096

abbrev pub max_retained_leases : ℕ
max_retained_leases = 16384

-- `contract.Lease`, without its limits: they play no part here.
pub record Lease : Type 0 where
  pub id : ℕ
  pub ent : ℕ
  pub bytes : ℕ
  pub expires : ℕ

-- `creditWindow`. An identifier is a number, 0 the empty one; the zero instant is 0.
pub record CreditWindow : Type 0 where
  pub id : ℕ
  pub user : ℕ
  pub rule : ℕ
  pub lease : ℕ
  pub upload : Bool
  pub capacity : ℕ
  pub confirmed : ℕ
  pub sequence : ℕ
  pub started : ℕ
  pub until : ℕ
  pub closed : Bool
  pub tcp : Bool

-- `limits`: the largest window, and the most that a rule may hold
unfoldable pub limits : CreditWindow → ℕ × ℕ
limits w =
    if w.tcp
    then (max_tcp_credit_window, max_tcp_rule_credits)
    else (credit_window_size, max_rule_credits)

-- `liveCredit`
pub record LiveCredit : Type 0 where
  pub window : CreditWindow
  pub used : ℕ
  pub last : ℕ
  pub closed : Bool

-- The part of the store that credit and usage events touch. `pools` holds the keys of `credits`, by
-- rule and direction; a lease is retired if `retired` has it as a key.
pub record Store : Type 0 where
  pub node : ℕ
  pub leases : Assoc Lease
  pub used : Assoc ℕ
  pub retired : Assoc Bool
  pub pending : List UsageRecord
  pub windows : Assoc CreditWindow
  pub credits : Assoc LiveCredit
  pub pools : ℕ → Bool → List ℕ
  pub expanded_credits : Bool

pub data Error : Type 0 where
  invalid_credit_window invalid_credit_reservation credit_lease_changed lease_unavailable : Error
  spool_full exceeds_responsibility exceeds_budget invalid_credit_progress : Error
  invalid_credit_usage unexpected_credit_usage : Error
  invalid_wal_usage usage_after_retirement wal_lease_missing invariant_violated : Error

-- The outcome of an event.
abbrev pub Result {ℓ} : Type ℓ → Type ℓ
Result A = Fallible Error A

-- What the window can still spend.
abbrev pub left : CreditWindow → ℕ
left w = w.capacity - w.confirmed

abbrev pub size {ℓ} : {V : Type ℓ} → Assoc V → ℕ
size m = length m

-- A missing key of a Go map of numbers reads as 0.
abbrev pub count_of : ℕ → Assoc ℕ → ℕ
count_of k m = elim (lookup k m) [ none ↦ 0 | some n ↦ n ]

abbrev pub is_key {ℓ} : {V : Type ℓ} → ℕ → Assoc V → Bool
is_key k m = elim (lookup k m) [ none ↦ false | some _ ↦ true ]

abbrev pub bool_eq : Bool → Bool → Bool
bool_eq true b = b
bool_eq false b = not b

-- The sums that the code takes over the windows: of a lease, of a rule, of an account, and the
-- number of windows of a rule in one direction.
abbrev pub on_lease : ℕ → CreditWindow → ℕ
on_lease lease w = if w.lease == lease then left w else 0

abbrev pub on_rule : ℕ → CreditWindow → ℕ
on_rule rule w = if w.rule == rule then left w else 0

abbrev pub on_user : ℕ → CreditWindow → ℕ
on_user user w = if w.user == user then left w else 0

abbrev pub in_pool : ℕ → Bool → CreditWindow → ℕ
in_pool rule upload w = if w.rule == rule && bool_eq w.upload upload then 1 else 0

unfoldable pub credit_liability : ℕ → Assoc CreditWindow → ℕ
credit_liability lease = total_by (on_lease lease)

unfoldable pub same_lease : Lease → Lease → Bool
same_lease a b = a.id == b.id && a.ent == b.ent && a.bytes == b.bytes && a.expires == b.expires

-- `validateLeaseCapacity` of durable_bounds.go, for one incoming lease
unfoldable pub lease_capacity_exceeded : Lease → Store → Bool
lease_capacity_exceeded l s =
    ltb max_retained_leases (if is_key l.id s.leases then size s.leases else size s.leases + 1)
