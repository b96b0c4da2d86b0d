-- ===== src/Commerce/Wallet/Pays.antt =====
-- A debit that the balance covers finds enough sources, in `trackFunds` of
-- internal/commerce/funding.go.
use traffic_forwarding_panel.Prelude.{
  ℕ, ◌+◌, ◌-◌, ◌≤◌, ◌<◌, ◌≡◌, refl, ◌∙◌, ap, inl, inr, true, false, Bool-cases, none, ◌&&◌, List,
  [], ◌∷◌, All, any, min, leb, arith, ◌==◌, ==_refl,
}
use traffic_forwarding_panel.Prelude.Fallible.{ok}
use traffic_forwarding_panel.Prelude.Assoc.{Assoc, insert, IsDistinct, Absent, total_by}
use traffic_forwarding_panel.Commerce.Wallet.Tables.{
  Names, Source, Allocation, Db, update_source, add_allocation,
}
use traffic_forwarding_panel.Commerce.Wallet.{place, order_by, select_sources, spend, may_pay}
use traffic_forwarding_panel.Commerce.Wallet.Rows.{Row, ids, Passes}
use traffic_forwarding_panel.Commerce.Wallet.Funds.{part_of, update_source_found}
use traffic_forwarding_panel.Commerce.Wallet.Loops.{All-Passes-insert}

-- What the rows hold together.
abbrev pub total : List Row → ℕ
total [] = 0
total (r ∷ rs) = r.1 + total rs

total-place : (names : Names) (r : Row) (qs : List Row) → total (place names r qs) ≡ r.1 + total qs
unfolding place
total-place names r [] = refl
total-place names r (q ∷ qs) = elim (Bool-cases (names.before q.0 r.0)) [
  | inl first ↦ rw first (omega (arith, total-place names r qs))
  | inr last ↦ rw last refl
]

pub total-order_by : (names : Names) (rs : List Row) → total (order_by names rs) ≡ total rs
unfolding order_by
total-order_by names [] = refl
total-order_by names (r ∷ rs) =
    total-place names r (order_by names rs) ∙ ap (λ n. r.1 + n) (total-order_by names rs)

-- The sources that may pay hold all that is left of the user's funds.
pub total-select_sources :
    (user : ℕ) (m : Assoc Source)
    → total (select_sources (may_pay user none) m) ≡ total_by (part_of user) m
unfolding select_sources total_by
total-select_sources user [] = refl
total-select_sources user ((id, s) ∷ m) = elim (Bool-cases (may_pay user none s)) [
  | inl passes ↦ rw passes (ground (arith, passes, total-select_sources user m))
  | inr fails ↦ rw fails (ground (arith, fails, total-select_sources user m))
]

-- The reference has no allocation from the source of the row.
abbrev pub IsFree : ℕ → List Allocation → Row → Type 0
IsFree reference rows r = any (λ a. a.reference == reference && a.source == r.0.1) rows ≡ false

IsFree-later :
    (reference source amount : ℕ) (rows : List Allocation) (rs : List Row)
    → Absent source (ids rs)
    → All (IsFree reference rows) rs
    → All
        (IsFree reference
          (record { reference = reference; source = source; amount = amount; restored = 0 } ∷ rows))
        rs
unfolding any
IsFree-later reference source amount rows [] a h = tt
IsFree-later reference source amount rows (r ∷ rs) a h =
    (rw (a.0, ==_refl reference) h.0, IsFree-later reference source amount rows rs a.1 h.1)

may_pay_some : (user : ℕ) (s : Source) → may_pay user none s ≡ true → 0 < s.remaining
may_pay_some user s h = ground (arith, h)

add_allocation_fresh :
    (reference source amount : ℕ) (db : Db)
    → any (λ a. a.reference == reference && a.source == source) db.allocations ≡ false
    → add_allocation reference source amount db
      ≡ ok (record db {
        allocations =
            record { reference = reference; source = source; amount = amount; restored = 0 }
            ∷ db.allocations;
      })
unfolding add_allocation
add_allocation_fresh reference source amount db free = rw (add_allocation, free) refl

-- The loop pays in full where the rows hold enough.
pub spend_pays :
    (user reference : ℕ) (rows : List Row) (left : ℕ) (db : Db)
    → left ≤ total rows
    → IsDistinct (ids rows)
    → All (Passes (may_pay user none) db.sources) rows
    → All (IsFree reference db.allocations) rows
    → (db' : Db) × (spend reference rows left db ≡ ok (0, db'))
unfolding spend
spend_pays user reference [] left db enough rd ps free =
    let none_left : left ≡ 0 = omega (arith, enough) in (db, ap (λ n. ok (n, db)) none_left)
spend_pays user reference ((k, remaining) ∷ rows) left db enough rd ps free =
    let p = ps.0 in
    let more : 0 < remaining = omega (arith, may_pay_some user p.source p.passed, p.rest) in
    elim (Bool-cases (min left remaining == 0)) [
      | inl nothing ↦
          let none_left : left ≡ 0 = ground (arith, nothing, more) in
          (db, rw (spend, nothing) (ap (λ n. ok (n, db)) none_left))
      | inr some_left ↦
          let a = min left remaining in
          let new = record p.source { remaining = p.source.remaining - a } in
          let written : update_source k.1 (λ r. leb a r) (λ r. r - a) db
              ≡ record db { sources = insert k.1 new db.sources } =
            update_source_found k.1 (λ r. leb a r) (λ r. r - a) p.source db p.found
              (ground (arith, p.rest)) in
          let added =
            add_allocation_fresh reference k.1 a (record db { sources = insert k.1 new db.sources })
              free.0 in
          let mid : Db = record db {
            sources = insert k.1 new db.sources;
            allocations =
                record { reference = reference; source = k.1; amount = a; restored = 0 }
                ∷ db.allocations;
          } in
          let (db', paid) =
            spend_pays user reference rows (left - a) mid (omega (arith, enough)) rd.1
              (All-Passes-insert (may_pay user none) k.1 new db.sources rows rd.0 ps.1)
              (IsFree-later reference k.1 a db.allocations rows rd.0 free.1) in
          (db', rw (spend, some_left, written, added) paid)
    ]
