-- ===== src/Commerce/Wallet/Accepts.antt =====
-- A payment that the balance covers is accepted by `post` of internal/commerce/service.go.
use traffic_forwarding_panel.Prelude.{
  ℕ, suc, ◌-◌, ◌≤◌, ◌≡◌, refl, sym, ◌∙◌, ◌⊎◌, inl, inr, true, false, Bool-cases, none, ◌&&◌, List,
  [], ◌∷◌, All, any, ltb, leb, ◌^◌, arith, ◌==◌, true_ne_false,
}
use traffic_forwarding_panel.Prelude.Int.{negsuc}
use traffic_forwarding_panel.Prelude.Fallible.{Fallible-cases, err_ne, ok}
use traffic_forwarding_panel.Prelude.Assoc.{lookup, insert, total_by}
use traffic_forwarding_panel.Commerce.Wallet.Tables.{
  Names, Allocation, Db, other, add_source, new_source, wallet_of, is_tracked,
}
use traffic_forwarding_panel.Commerce.Wallet.{
  post, new_balance, track_funds, track_debit, tied_order, open_account, select_sources, order_by,
  may_pay,
}
use traffic_forwarding_panel.Commerce.Wallet.Rows.{
  Row, Passes, order_by-All, order_by-IsDistinct, select-IsDistinct, select-Passes,
}
use traffic_forwarding_panel.Commerce.Wallet.Funds.{funds}
use traffic_forwarding_panel.Commerce.Wallet.Accounts.{
  IsFunded, open_account-Opened, wallet_of_same,
}
use traffic_forwarding_panel.Commerce.Wallet.Pays.{
  total, total-order_by, total-select_sources, IsFree, spend_pays,
}
use traffic_forwarding_panel.Commerce.Wallet.Sound.{IsSound}
use traffic_forwarding_panel.Commerce.Wallet.Posts.{track_funds_moves}

-- A reference without allocations has none from any source.
free_of_all :
    (reference source : ℕ) (rows : List Allocation)
    → any (λ a. a.reference == reference) rows ≡ false
    → any (λ a. a.reference == reference && a.source == source) rows ≡ false
unfolding any
free_of_all reference source [] free = refl
free_of_all reference source (a ∷ rows) free =
    ground (arith, free, free_of_all reference source rows)

All-IsFree :
    (reference : ℕ) (rows : List Allocation) (rs : List Row)
    → any (λ a. a.reference == reference) rows ≡ false
    → All (IsFree reference rows) rs
All-IsFree reference rows [] free = tt
All-IsFree reference rows (r ∷ rs) free =
    (free_of_all reference r.0.1 rows free, All-IsFree reference rows rs free)

module _ (names : Names) (now user : ℕ) where
  -- The account opens where the id of its first source is free.
  opens :
      (db : Db)
      → (is_tracked user db ≡ true) ⊎ (lookup (names.legacy user) db.sources ≡ none)
      → (mid : Db) × ((open_account names now user (wallet_of user db).balance db ≡ ok mid)
          × (mid.allocations ≡ db.allocations))
  unfolding open_account add_source
  opens db free =
      let named : Db = record db { accounts = user ∷ db.accounts } in
      let first = new_source user 0 (wallet_of user db).balance now in
      elim (Bool-cases (is_tracked user db)) [
        | inl known ↦ (db, (rw (open_account, known) refl, refl))
        | inr new ↦ elim (Bool-cases ((wallet_of user db).balance == 0)) [
          | inl empty ↦ (named, (rw (open_account, new, empty) refl, refl))
          | inr some_there ↦ elim free [
            | inl known ↦ absurd (true_ne_false (sym known ∙ new))
            | inr fresh ↦ (
              record named { sources = insert (names.legacy user) first db.sources },
              (rw (open_account, new, some_there, add_source, fresh) refl, refl),
            )
          ]
        ]
      ]

  -- A tracked user's sources pay any part of the balance.
  debit_pays :
      (n reference : ℕ) (db : Db)
      → IsFunded db
      → is_tracked user db ≡ true
      → n ≤ (wallet_of user db).balance
      → any (λ a. a.reference == reference) db.allocations ≡ false
      → (db' : Db) × (track_debit names user n other reference db ≡ ok db')
  unfolding track_debit tied_order funds total_by
  debit_pays n reference db i known enough free =
      let found = select_sources (may_pay user none) db.sources in
      let rows = order_by names found in
      let held : funds user db ≡ (wallet_of user db).balance = rw known at (i.held user) in
      let all_funds : total rows ≡ funds user db =
        total-order_by names found ∙ total-select_sources user db.sources in
      let (db', paid) =
        spend_pays user reference rows n db (omega (arith, held, all_funds, enough))
          (order_by-IsDistinct names found
            (select-IsDistinct (may_pay user none) db.sources i.distinct))
          (order_by-All names (Passes (may_pay user none) db.sources) found
            (select-Passes (may_pay user none) db.sources i.distinct))
          (All-IsFree reference db.allocations rows free) in
      (db', rw (track_debit, paid) refl)

  -- Where the books agree, `post` accepts each payment that the balance covers: the sources never run
  -- short of it. The kind is one that is not tied to an order, neither the ledger nor an allocation has
  -- the reference yet, and a user whose funds are not tracked so far has no source under the id that
  -- the first one gets.
  pub post_pays :
      (n reference : ℕ) (db : Db)
      → IsSound db
      → (is_tracked user db ≡ true) ⊎ (lookup (names.legacy user) db.sources ≡ none)
      → suc n ≤ (wallet_of user db).balance
      → any (λ a. a.reference == reference) db.allocations ≡ false
      → any (λ p. p.reference == reference) db.ledger ≡ false
      → (db' : Db) × (post names now user (negsuc n) other reference db ≡ ok db')
  unfolding post track_funds new_balance
  post_pays n reference db i known enough unallocated unposted =
      let w = wallet_of user db in
      let (mid, (opened, same_allocations)) = opens db known in
      let o = open_account-Opened names now user db mid i.funded opened in
      let same = wallet_of_same user db mid o.same_wallets in
      let (next, paid) =
        debit_pays (suc n) reference mid o.funded o.tracked (rw same enough)
          (rw same_allocations unallocated) in
      let covered : ltb w.balance (suc n) ≡ false = ground (arith, enough) in
      let above : leb (2 ^ 63) (suc n) ≡ false = ground (arith, enough, i.bounded user) in
      let counted : new_balance w.balance (negsuc n) ≡ ok (w.balance - suc n) =
        rw (new_balance, above, covered) refl in
      let tracked : track_funds names now user w.balance (negsuc n) other reference db ≡ ok next =
        rw (track_funds, opened) paid in
      let (_, (o', m)) =
        track_funds_moves names now user (negsuc n) other reference db next i.funded tracked in
      let free : any (λ p. p.reference == reference) next.ledger ≡ false =
        rw (m.same_ledger, o'.same_ledger) unposted in
      elim (Fallible-cases (post names now user (negsuc n) other reference db)) [
        | inl (why, failed) ↦ absurd (err_ne (sym (rw (post, counted, tracked, free) at failed)))
        | inr done ↦ done
      ]
