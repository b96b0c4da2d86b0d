-- ===== src/Commerce/Wallet/Tables.antt =====
-- The rows of the tables that the wallet of internal/commerce writes, and the statements on single rows.
use traffic_forwarding_panel.Prelude.{
  ℕ, ◌+◌, ◌&&◌, Bool, none, some, List, [], ◌∷◌, any, ◌==◌, if◌then◌else◌,
}
use traffic_forwarding_panel.Prelude.Int.{ℤ}
use traffic_forwarding_panel.Prelude.Fallible.{Fallible, ok, err}
use traffic_forwarding_panel.Prelude.Assoc.{Assoc, lookup, insert}

pub data Error : Type 0 where
  balance_overflow insufficient_funds no_rows duplicate_key : Error
  recharge_spent unverified_funding below_zero : Error

abbrev pub Result {ℓ} : Type ℓ → Type ℓ
Result A = Fallible Error A

-- The kinds of a posting that `trackFunds` tells apart.
pub data Kind : Type 0 where
  recharge refund_reserve refund_release purchase_refund other : Kind

-- What the code does with the prefixes of identifiers: "legacy:" + user, "release:" + reference, the
-- order of a "payment:", the refund of a "refund-reserve:", and the reserve of a "refund-release:".
-- `before` is the order of the rows, by created_at and id.
pub record Names : Type 0 where
  pub legacy : ℕ → ℕ
  pub release : ℕ → ℕ
  pub order_of : ℕ → ℕ
  pub refund_of : ℕ → ℕ
  pub reserve_of : ℕ → ℕ
  pub before : ℕ × ℕ → ℕ × ℕ → Bool

-- A row of commerce_fund_sources, under its id; the empty order is 0.
pub record Source : Type 0 where
  pub user : ℕ
  pub order : ℕ
  pub amount : ℕ
  pub remaining : ℕ
  pub created : ℕ

-- A row of commerce_fund_allocations.
pub record Allocation : Type 0 where
  pub reference : ℕ
  pub source : ℕ
  pub amount : ℕ
  pub restored : ℕ

pub record Wallet : Type 0 where
  pub balance : ℕ
  pub version : ℕ

-- A row of commerce_ledger, without its id and time; its reference is unique.
pub record Posting : Type 0 where
  pub user : ℕ
  pub amount : ℤ
  pub balance : ℕ
  pub kind : Kind
  pub reference : ℕ

-- The tables: the wallets by user, the users whose funds are tracked, the sources by id, and of
-- commerce_purchase_refunds and commerce_refunds the purchase and the order of a refund.
pub record Db : Type 0 where
  pub wallets : Assoc Wallet
  pub accounts : List ℕ
  pub sources : Assoc Source
  pub allocations : List Allocation
  pub ledger : List Posting
  pub purchase_refunds : Assoc ℕ
  pub refunds : Assoc ℕ

abbrev pub no_wallet : Wallet
no_wallet = record { balance = 0; version = 0 }

abbrev pub wallet_of : ℕ → Db → Wallet
wallet_of user db = elim (lookup user db.wallets) [ none ↦ no_wallet | some w ↦ w ]

abbrev pub is_tracked : ℕ → Db → Bool
is_tracked user db = any (λ u. user == u) db.accounts

-- INSERT INTO commerce_fund_sources
unfoldable pub add_source : ℕ → Source → Db → Result Db
add_source id s db = elim (lookup id db.sources) [
  | some _ ↦ err duplicate_key
  | none ↦ ok (record db { sources = insert id s db.sources })
]

abbrev pub new_source : ℕ → ℕ → ℕ → ℕ → Source
new_source user order amount now = record {
  user = user;
  order = order;
  amount = amount;
  remaining = amount;
  created = now;
}

-- INSERT INTO commerce_fund_allocations
unfoldable pub add_allocation : ℕ → ℕ → ℕ → Db → Result Db
add_allocation reference source amount db =
    if any (λ a. a.reference == reference && a.source == source) db.allocations
    then err duplicate_key
    else ok (record db {
      allocations =
          record { reference = reference; source = source; amount = amount; restored = 0 }
          ∷ db.allocations;
    })

-- An UPDATE of the rest of one source; it touches no row where the test fails.
unfoldable pub update_source : ℕ → (ℕ → Bool) → (ℕ → ℕ) → Db → Db
update_source id test change db = elim (lookup id db.sources) [
  | none ↦ db
  | some s ↦
      if test s.remaining
      then record db {
        sources = insert id (record s { remaining = change s.remaining }) db.sources;
      }
      else db
]

unfoldable pub restore_allocation : ℕ → ℕ → ℕ → List Allocation → List Allocation
restore_allocation reference source n [] = []
restore_allocation reference source n (a ∷ rows) =
    let rest = restore_allocation reference source n rows in
    if a.reference == reference && a.source == source
    then record a { restored = a.restored + n } ∷ rest
    else a ∷ rest
