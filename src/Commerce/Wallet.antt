-- ===== src/Commerce/Wallet.antt =====
-- The wallet: `post` of internal/commerce/service.go, with `trackFunds` and `restoreFunds` of
-- internal/commerce/funding.go, which keep book of the payments that a balance comes from. A call is
-- one transaction; the event that `post` emits at its end is left out.
pub mod Tables
pub mod Rows
pub mod Funds
mod Loops
mod Books
mod Accounts
pub mod Sound
mod Pays
pub mod Posts
mod Accepts
mod Tied
mod Examples
use traffic_forwarding_panel.Prelude.{
  ℕ, suc, ◌+◌, ◌-◌, ◌^◌, ◌&&◌, ◌||◌, min, Bool, true, false, not, Option, none, some, List, [], ◌∷◌,
  ◌++◌, any, length, ltb, leb, ◌==◌, if◌then◌else◌,
}
use traffic_forwarding_panel.Prelude.Int.{ℤ, pos, negsuc}
use traffic_forwarding_panel.Prelude.Fallible.{Fallible, ok, err, ◌>>=◌, ◌>>◌, fail_if}
use traffic_forwarding_panel.Prelude.Assoc.{Assoc, lookup, insert}
use traffic_forwarding_panel.Commerce.Wallet.Tables.{
  Error, Result, Kind, Names, Source, Allocation, Wallet, Posting, Db, no_wallet, wallet_of,
  below_zero, is_tracked, add_source, new_source, add_allocation, update_source, restore_allocation,
  balance_overflow, insufficient_funds, no_rows, duplicate_key, recharge_spent, unverified_funding,
  recharge, refund_reserve, refund_release, purchase_refund, other,
}

-- ORDER BY created_at, id, on rows of an id, its time and a number
unfoldable pub place : Names → (ℕ × ℕ) × ℕ → List ((ℕ × ℕ) × ℕ) → List ((ℕ × ℕ) × ℕ)
place names r [] = r ∷ []
place names r (q ∷ qs) =
    let rest = place names r qs in if names.before q.0 r.0 then q ∷ rest else r ∷ q ∷ qs

unfoldable pub order_by : Names → List ((ℕ × ℕ) × ℕ) → List ((ℕ × ℕ) × ℕ)
order_by names [] = []
order_by names (r ∷ rs) = place names r (order_by names rs)

-- SELECT id, remaining of the sources that pass a test, with what is left of them
unfoldable pub select_sources : (Source → Bool) → Assoc Source → List ((ℕ × ℕ) × ℕ)
select_sources test [] = []
select_sources test ((id, s) ∷ m) =
    let rest = select_sources test m in
    if test s then ((s.created, id), s.remaining) ∷ rest else rest

-- SELECT a.source_id, a.amount-a.restored of the allocations of a reference, joined with the user's
-- sources; what was restored is at most what was taken, so that the difference does not stop short
unfoldable pub select_allocations : ℕ → ℕ → Assoc Source → List Allocation → List ((ℕ × ℕ) × ℕ)
select_allocations reference user sources [] = []
select_allocations reference user sources (a ∷ rows) =
    let rest = select_allocations reference user sources rows in
    elim (lookup a.source sources) [
      | none ↦ rest
      | some s ↦
          if a.reference == reference && s.user == user
          then ((s.created, a.source), a.amount - a.restored) ∷ rest
          else rest
    ]

-- The loop that spends; it returns what is left to pay.
unfoldable pub spend : ℕ → List ((ℕ × ℕ) × ℕ) → ℕ → Db → Result (ℕ × Db)
spend reference [] left db = ok (left, db)
spend reference ((k, remaining) ∷ rows) left db =
    let amount = min left remaining in
    elim (amount == 0) [
      | true ↦ ok (left, db)
      | false ↦ do
        db' ←
            add_allocation reference k.1 amount
              (update_source k.1 (λ r. leb amount r) (λ r. r - amount) db)
        spend reference rows (left - amount) db'
    ]

-- The loop that restores.
unfoldable pub restore : ℕ → List ((ℕ × ℕ) × ℕ) → ℕ → Db → ℕ × Db
restore reference [] left db = (left, db)
restore reference ((k, available) ∷ rows) left db =
    let n = min left available in
    elim (n == 0) [
      | true ↦ restore reference rows left db
      | false ↦
          let db' =
            update_source k.1 (λ r. true) (λ r. r + n)
              (record db { allocations = restore_allocation reference k.1 n db.allocations }) in
          elim (left - n == 0) [ true ↦ (0, db') | false ↦ restore reference rows (left - n) db' ]
    ]

abbrev pub is_release : Kind → Bool
is_release refund_release = true
is_release _ = false

abbrev pub may_pay : ℕ → Option ℕ → Source → Bool
may_pay user order s =
    s.user == user && ltb 0 s.remaining && elim order [ none ↦ true | some o ↦ s.order == o ]

-- The balance after a posting. The least int64 is its own negation, so that it passes the test for
-- funds, and the balance falls below zero, which a number of a wallet here is not: the posting ends
-- with `below_zero`, which is no error of the code.
unfoldable pub new_balance : ℕ → ℤ → Result ℕ
new_balance balance (pos n) =
    if ltb 0 n && ltb (2 ^ 63 - 1 - n) balance then err balance_overflow else ok (balance + n)
new_balance balance (negsuc n) =
    if leb (2 ^ 63) (suc n)
    then err below_zero
    else if ltb balance (suc n)
    then err insufficient_funds
    else ok (balance - suc n)

module _ (names : Names) where
  -- The reference whose allocations a credit restores; the id of a purchase is not empty.
  unfoldable pub restored_reference : Kind → ℕ → Db → Result (Option ℕ)
  restored_reference refund_release reference db = ok (some (names.reserve_of reference))
  restored_reference purchase_refund reference db = elim (lookup reference db.purchase_refunds) [
    | none ↦ err no_rows
    | some purchase ↦ ok (some purchase)
  ]
  restored_reference _ reference db = ok none

  abbrev pub order_paid : Kind → ℕ → ℕ
  order_paid recharge reference = names.order_of reference
  order_paid _ reference = 0

  -- The order whose sources a refund must take, where it has any.
  unfoldable pub tied_order : ℕ → Kind → ℕ → Db → Result (Option ℕ)
  tied_order user refund_reserve reference db =
      elim (lookup (names.refund_of reference) db.refunds) [
        | none ↦ err no_rows
        | some order ↦
            if any (λ e. e.1.user == user && e.1.order == order) db.sources
            then ok (some order)
            else ok none
      ]
  tied_order user _ reference db = ok none

  unfoldable pub track_debit : ℕ → ℕ → Kind → ℕ → Db → Result Db
  track_debit user amount kind reference db = do
    order ← tied_order user kind reference db
    (left, db') ←
        spend reference (order_by names (select_sources (may_pay user order) db.sources)) amount db
    fail_if (not (left == 0)) recharge_spent
    ok db'

  module _ (now : ℕ) where
    unfoldable pub restore_funds : ℕ → ℕ → ℕ → Bool → Db → Result Db
    restore_funds user reference amount legacy db =
        elim (order_by names (select_allocations reference user db.sources db.allocations)) [
          | [] ↦
              if legacy
              then add_source (names.release reference) (new_source user 0 amount now) db
              else if amount == 0
              then ok db
              else err unverified_funding
          | r ∷ rows ↦
              let (left, db') = restore reference (r ∷ rows) amount db in
              if left == 0 then ok db' else err unverified_funding
        ]

    -- The first part of `trackFunds`: the balance from before is one source of its own.
    unfoldable pub open_account : ℕ → ℕ → Db → Result Db
    open_account user balance db =
        if is_tracked user db
        then ok db
        else let db' = record db { accounts = user ∷ db.accounts } in
          if balance == 0
          then ok db'
          else add_source (names.legacy user) (new_source user 0 balance now) db'

    unfoldable pub track_credit : ℕ → ℕ → Kind → ℕ → Db → Result Db
    track_credit user amount kind reference db = do
      restored ← restored_reference kind reference db
      elim restored [
        | some k ↦ restore_funds user k amount (is_release kind) db
        | none ↦ add_source reference (new_source user (order_paid kind reference) amount now) db
      ]

    unfoldable pub track_funds : ℕ → ℕ → ℤ → Kind → ℕ → Db → Result Db
    track_funds user balance delta kind reference db = do
      db' ← open_account user balance db
      elim delta [
        | pos n ↦ if n == 0 then ok db' else track_credit user n kind reference db'
        | negsuc n ↦ track_debit user (suc n) kind reference db'
      ]

    -- `post`. The version of the wallet is the one that the same transaction has read.
    unfoldable pub post : ℕ → ℤ → Kind → ℕ → Db → Result Db
    post user delta kind reference db = do
      let w = wallet_of user db
      balance ← new_balance w.balance delta
      db' ← track_funds user w.balance delta kind reference db
      fail_if (any (λ p. p.reference == reference) db'.ledger) duplicate_key
      ok (record db' {
        wallets = insert user (record { balance = balance; version = w.version + 1 }) db'.wallets;
        ledger =
            record {
              user = user;
              amount = delta;
              balance = balance;
              kind = kind;
              reference = reference;
            }
            ∷ db'.ledger;
      })
