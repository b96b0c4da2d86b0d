-- ===== src/Commerce/Wallet/Books.antt =====
-- `trackFunds` and `restoreFunds` of internal/commerce/funding.go move what is left of a user's
-- sources by the amount of the posting.
use traffic_forwarding_panel.Prelude.{
  ℕ, ◌≡◌, refl, sym, inl, inr, Bool, true, Bool-cases, Option, Option-cases, List-cases, ◌∷◌, arith,
  ◌==◌,
}
use traffic_forwarding_panel.Prelude.Fallible.{ok, ok-injective, err_ne, Fallible-cases}
use traffic_forwarding_panel.Prelude.Assoc.{keys, IsDistinct}
use traffic_forwarding_panel.Commerce.Wallet.Tables.{Names, Source, Db, Kind, new_source}
use traffic_forwarding_panel.Commerce.Wallet.{
  spend, restore, order_by, select_sources, select_allocations, restore_funds, track_credit,
  track_debit, tied_order, may_pay, restored_reference, is_release, order_paid,
}
use traffic_forwarding_panel.Commerce.Wallet.Rows.{
  Passes, IsOwned, order_by-All, order_by-IsDistinct, select-IsDistinct, select-Passes,
  select-IsOwned,
}
use traffic_forwarding_panel.Commerce.Wallet.Funds.{Moved, Moved-end, add_source-Moved}
use traffic_forwarding_panel.Commerce.Wallet.Loops.{spend-Moved, restore-Moved}

may_pay_owner :
    (user : ℕ) (order : Option ℕ) (s : Source) → may_pay user order s ≡ true → s.user ≡ user
may_pay_owner user order s h = ground (arith, h)

module _ (names : Names) (now : ℕ) where
  pub debit-Moved :
      (user amount : ℕ) (kind : Kind) (reference : ℕ) (db db' : Db)
      → IsDistinct (keys db.sources)
      → track_debit names user amount kind reference db ≡ ok db'
      → Moved user amount 0 db db'
  unfolding track_debit
  debit-Moved user amount kind reference db db' d run =
      elim (Fallible-cases (tied_order names user kind reference db)) [
        | inl (why, failed) ↦ absurd (err_ne (rw (track_debit, failed) at run))
        | inr (order, tied) ↦
            let found = select_sources (may_pay user order) db.sources in
            let rows = order_by names found in
            elim (Fallible-cases (spend reference rows amount db)) [
              | inl (why, failed) ↦ absurd (err_ne (rw (track_debit, tied, failed) at run))
              | inr ((left, db''), spent) ↦ elim (Bool-cases (left == 0)) [
                | inr short ↦ absurd (err_ne (rw (track_debit, tied, spent, short) at run))
                | inl paid ↦
                    let e = rw (track_debit, tied, spent, paid) at run in
                    let zero_left : left ≡ 0 = ground arith in
                    let m =
                      spend-Moved user (may_pay user order) reference rows amount left db db''
                        (may_pay_owner user order)
                        (order_by-IsDistinct names found
                          (select-IsDistinct (may_pay user order) db.sources d))
                        (order_by-All names (Passes (may_pay user order) db.sources) found
                          (select-Passes (may_pay user order) db.sources d))
                        d spent in
                    rw (sym (ok-injective e), sym zero_left) m
              ]
            ]
      ]

  restore_funds-Moved :
      (user reference amount : ℕ) (legacy : Bool) (db db' : Db)
      → IsDistinct (keys db.sources)
      → restore_funds names now user reference amount legacy db ≡ ok db'
      → Moved user 0 amount db db'
  unfolding restore_funds
  restore_funds-Moved user reference amount legacy db db' d run =
      let found = select_allocations reference user db.sources db.allocations in
      elim (List-cases (order_by names found)) [
        | inl nothing ↦ elim (Bool-cases legacy) [
          | inl released ↦
              add_source-Moved (names.release reference) (new_source user 0 amount now) db db'
                (rw (restore_funds, nothing, released) at run) d
          | inr other ↦ elim (Bool-cases (amount == 0)) [
            | inr some_left ↦ absurd (err_ne (rw (restore_funds, nothing, other, some_left) at run))
            | inl none_left ↦
                Moved-end user 0 amount db db' (ground (arith, none_left))
                  (ok-injective (rw (restore_funds, nothing, other, none_left) at run)) d
          ]
        ]
        | inr (r, (rows, some_rows)) ↦
            let p : ℕ × Db = restore reference (r ∷ rows) amount db in
            elim (Bool-cases (p.0 == 0)) [
              | inr short ↦ absurd (err_ne (rw (restore_funds, some_rows, short) at run))
              | inl whole ↦
                  let e = rw (restore_funds, some_rows, whole) at run in
                  let zero_left : 0 ≡ p.0 = ground (arith, whole) in
                  rw (sym (ok-injective e), zero_left)
                    (restore-Moved user reference (r ∷ rows) amount p.0 db p.1
                      (rw some_rows at (
                        order_by-All names (IsOwned user db.sources) found
                          (select-IsOwned reference user db.sources db.allocations)))
                      d refl)
            ]
      ]

  pub credit-Moved :
      (user amount : ℕ) (kind : Kind) (reference : ℕ) (db db' : Db)
      → IsDistinct (keys db.sources)
      → track_credit names now user amount kind reference db ≡ ok db'
      → Moved user 0 amount db db'
  unfolding track_credit
  credit-Moved user amount kind reference db db' d run =
      elim (Fallible-cases (restored_reference names kind reference db)) [
        | inl (why, failed) ↦ absurd (err_ne (rw (track_credit, failed) at run))
        | inr (restored, looked) ↦ elim (Option-cases restored) [
          | inl fresh ↦
              add_source-Moved reference
                (new_source user (order_paid names kind reference) amount now) db db'
                (rw (track_credit, looked, fresh) at run) d
          | inr (k, old) ↦
              restore_funds-Moved user k amount (is_release kind) db db' d
                (rw (track_credit, looked, old) at run)
        ]
      ]
