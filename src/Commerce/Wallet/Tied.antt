-- ===== src/Commerce/Wallet/Tied.antt =====
-- What the debit of a refund leaves alone, in `trackFunds` of internal/commerce/funding.go.
use traffic_forwarding_panel.Prelude.{
  ℕ, suc, ◌-◌, ◌≡◌, refl, sym, ◌∙◌, ap, inl, inr, Bool, true, false, Bool-cases, some, ◌&&◌, List,
  [], ◌∷◌, All, any, min, leb, arith, ◌==◌, some_inj, true_ne_false,
}
use traffic_forwarding_panel.Prelude.Int.{negsuc}
use traffic_forwarding_panel.Prelude.Fallible.{Fallible-cases, err_ne, ok, ok-injective}
use traffic_forwarding_panel.Prelude.Assoc.{lookup, insert, lookup-insert, IsDistinct, keys}
use traffic_forwarding_panel.Commerce.Wallet.Tables.{
  Names, Source, Db, refund_reserve, update_source, add_allocation, wallet_of, is_tracked,
}
use traffic_forwarding_panel.Commerce.Wallet.{
  post, new_balance, track_funds, track_debit, tied_order, open_account, select_sources, order_by,
  spend, may_pay,
}
use traffic_forwarding_panel.Commerce.Wallet.Rows.{
  Row, ids, Passes, order_by-All, order_by-IsDistinct, select-IsDistinct, select-Passes,
}
use traffic_forwarding_panel.Commerce.Wallet.Funds.{add_allocation_keeps, update_source_found}
use traffic_forwarding_panel.Commerce.Wallet.Loops.{All-Passes-insert}
use traffic_forwarding_panel.Commerce.Wallet.Sound.{IsSound}

module _ (test : Source → Bool) (j : ℕ) (s : Source) (spared : test s ≡ false) where
  -- A source that fails the test is none of the rows.
  other_id :
      (db : Db) (r : Row)
      → lookup j db.sources ≡ some s
      → Passes test db.sources r
      → (r.0.1 == j) ≡ false
  other_id db r there p = elim (Bool-cases (r.0.1 == j)) [
    | inr ne ↦ ne
    | inl same ↦
        let at : r.0.1 ≡ j = ground (arith, same) in
        let one : p.source ≡ s =
          some_inj (sym p.found ∙ ap (λ k. lookup k db.sources) at ∙ there) in
        absurd (true_ne_false (sym p.passed ∙ ap test one ∙ spared))
  ]

  -- The loop of a debit leaves it as it is.
  spend_spares :
      (reference : ℕ) (rows : List Row) (left rest : ℕ) (db db' : Db)
      → IsDistinct (ids rows)
      → All (Passes test db.sources) rows
      → lookup j db.sources ≡ some s
      → spend reference rows left db ≡ ok (rest, db')
      → lookup j db'.sources ≡ some s
  unfolding spend
  spend_spares reference [] left rest db db' rd ps there run =
      let e : Path (ℕ × Db) (left, db) (rest, db') = ok-injective run in
      ap (λ p. lookup j p.1.sources) (sym e) ∙ there
  spend_spares reference ((k, remaining) ∷ rows) left rest db db' rd ps there run =
      elim (Bool-cases (min left remaining == 0)) [
        | inl nothing ↦
            let e : Path (ℕ × Db) (left, db) (rest, db') =
              ok-injective (rw (spend, nothing) at run) in
            ap (λ p. lookup j p.1.sources) (sym e) ∙ there
        | inr some_left ↦
            let a = min left remaining in
            let p = ps.0 in
            let new = record p.source { remaining = p.source.remaining - a } in
            let mid : Db = record db { sources = insert k.1 new db.sources } in
            let written : update_source k.1 (λ r. leb a r) (λ r. r - a) db ≡ mid =
              update_source_found k.1 (λ r. leb a r) (λ r. r - a) p.source db p.found
                (ground (arith, p.rest)) in
            let still : lookup j mid.sources ≡ some s =
              rw (lookup-insert k.1 j new db.sources, other_id db (k, remaining) there p) there in
            elim (Fallible-cases (add_allocation reference k.1 a mid)) [
              | inl (why, failed) ↦ absurd (err_ne (rw (spend, some_left, written, failed) at run))
              | inr (next, added) ↦
                  let (kept, e) = add_allocation_keeps reference k.1 a mid next added in
                  let later = rw (spend, some_left, written, added) at run in
                  spend_spares reference rows (left - a) rest (record mid { allocations = kept })
                    db' rd.1 (All-Passes-insert test k.1 new db.sources rows rd.0 ps.1) still
                    (rw e at later)
            ]
      ]

tied_spared : (user o : ℕ) (s : Source) → (s.order == o) ≡ false → may_pay user (some o) s ≡ false
tied_spared user o s ne = ground (arith, ne)

module _ (names : Names) (now user : ℕ) where
  debit_spares :
      (amount reference o j : ℕ) (s : Source) (db db' : Db)
      → IsDistinct (keys db.sources)
      → tied_order names user refund_reserve reference db ≡ ok (some o)
      → lookup j db.sources ≡ some s
      → (s.order == o) ≡ false
      → track_debit names user amount refund_reserve reference db ≡ ok db'
      → lookup j db'.sources ≡ some s
  unfolding track_debit
  debit_spares amount reference o j s db db' d tied there other run =
      let test = may_pay user (some o) in
      let found = select_sources test db.sources in
      let rows = order_by names found in
      elim (Fallible-cases (spend reference rows amount db)) [
        | inl (why, failed) ↦ absurd (err_ne (rw (track_debit, tied, failed) at run))
        | inr ((left, next), spent) ↦ elim (Bool-cases (left == 0)) [
          | inr short ↦ absurd (err_ne (rw (track_debit, tied, spent, short) at run))
          | inl paid ↦
              let e = ok-injective (rw (track_debit, tied, spent, paid) at run) in
              ap (λ x. lookup j x.sources) (sym e)
              ∙ spend_spares test j s (tied_spared user o s other) reference rows amount left db
                  next (order_by-IsDistinct names found (select-IsDistinct test db.sources d))
                  (order_by-All names (Passes test db.sources) found
                    (select-Passes test db.sources d))
                  there spent
        ]
      ]

  tied_found :
      (reference o : ℕ) (db : Db)
      → lookup (names.refund_of reference) db.refunds ≡ some o
      → any (λ e. e.1.user == user && e.1.order == o) db.sources ≡ true
      → tied_order names user refund_reserve reference db ≡ ok (some o)
  unfolding tied_order
  tied_found reference o db refund paid_by = rw (tied_order, refund, paid_by) refl

  open_known :
      (balance : ℕ) (db : Db)
      → is_tracked user db ≡ true
      → open_account names now user balance db ≡ ok db
  unfolding open_account
  open_known balance db known = rw (open_account, known) refl

  -- A refund to the payer of an order is reserved from what is left of that order's own payments: where
  -- the books agree, the user is tracked, the refund is one of the order `o`, and some source of the user
  -- is a payment of `o`, then an accepted `post` of the reserve leaves every source of another order
  -- as it was.
  pub reserve_spares_others :
      (n reference o j : ℕ) (s : Source) (db db' : Db)
      → IsSound db
      → is_tracked user db ≡ true
      → lookup (names.refund_of reference) db.refunds ≡ some o
      → any (λ e. e.1.user == user && e.1.order == o) db.sources ≡ true
      → lookup j db.sources ≡ some s
      → (s.order == o) ≡ false
      → post names now user (negsuc n) refund_reserve reference db ≡ ok db'
      → lookup j db'.sources ≡ some s
  unfolding post track_funds track_debit
  reserve_spares_others n reference o j s db db' i known refund paid_by there other run =
      let w = wallet_of user db in
      elim (Fallible-cases (new_balance w.balance (negsuc n))) [
        | inl (why, failed) ↦ absurd (err_ne (rw (post, failed) at run))
        | inr (balance, counted) ↦
            elim (Fallible-cases
              (track_funds names now user w.balance (negsuc n) refund_reserve reference db)) [
                | inl (why, failed) ↦ absurd (err_ne (rw (post, counted, failed) at run))
                | inr (next, tracked) ↦
                    elim (Bool-cases (any (λ p. p.reference == reference) next.ledger)) [
                      | inl taken ↦ absurd (err_ne (rw (post, counted, tracked, taken) at run))
                      | inr free ↦
                          let e = ok-injective (rw (post, counted, tracked, free) at run) in
                          let debit = rw (track_funds, open_known w.balance db known) at tracked in
                          ap (λ x. lookup j x.sources) (sym e)
                          ∙ debit_spares (suc n) reference o j s db next i.funded.distinct
                              (tied_found reference o db refund paid_by) there other debit
                    ]
              ]
      ]
