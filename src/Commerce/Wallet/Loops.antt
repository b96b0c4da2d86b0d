-- ===== src/Commerce/Wallet/Loops.antt =====
-- The loops of `trackFunds` and `restoreFunds` of internal/commerce/funding.go.
use traffic_forwarding_panel.Prelude.{
  ℕ, ◌+◌, ◌-◌, ◌≡◌, refl, sym, ap, inl, inr, Bool, true, false, Bool-cases, min, leb, List, [], ◌∷◌,
  All, All-weaken, arith, ◌==◌,
}
use traffic_forwarding_panel.Prelude.Fallible.{ok, ok-injective, err_ne, Fallible-cases}
use traffic_forwarding_panel.Prelude.Assoc.{
  Assoc, insert, keys, Absent, IsDistinct, lookup-insert, insert-IsDistinct,
}
use traffic_forwarding_panel.Commerce.Wallet.Tables.{
  Source, Db, add_allocation, update_source, restore_allocation,
}
use traffic_forwarding_panel.Commerce.Wallet.{spend, restore}
use traffic_forwarding_panel.Commerce.Wallet.Rows.{Row, ids, Passes, IsOwned}
use traffic_forwarding_panel.Commerce.Wallet.Funds.{
  Moved, Moved-end, Moved-then, Moved-allocations, update-Moved, add_allocation_keeps,
  update_source_found,
}

-- A row of another source still passes after a write.
Passes-insert :
    (test : Source → Bool) (id : ℕ) (v : Source) (m : Assoc Source) (r : Row)
    → (id == r.0.1) ≡ false
    → Passes test m r
    → Passes test (insert id v m) r
Passes-insert test id v m r ne p = record {
  source = p.source;
  found = rw (lookup-insert id r.0.1 v m, ne) p.found;
  passed = p.passed;
  rest = p.rest;
}

pub All-Passes-insert :
    (test : Source → Bool) (id : ℕ) (v : Source) (m : Assoc Source) (rs : List Row)
    → Absent id (ids rs)
    → All (Passes test m) rs
    → All (Passes test (insert id v m)) rs
All-Passes-insert test id v m [] a h = tt
All-Passes-insert test id v m (r ∷ rs) a h =
    (Passes-insert test id v m r a.0 h.0, All-Passes-insert test id v m rs a.1 h.1)

module _ (user : ℕ) where
  IsOwned-insert :
      (id : ℕ) (v : Source) (m : Assoc Source) (r : Row)
      → v.user ≡ user
      → IsOwned user m r
      → IsOwned user (insert id v m) r
  IsOwned-insert id v m r owner p = elim (Bool-cases (id == r.0.1)) [
    | inl same ↦ record {
      source = v;
      found = rw (lookup-insert id r.0.1 v m, same) refl;
      owner = owner;
    }
    | inr ne ↦ record {
      source = p.source;
      found = rw (lookup-insert id r.0.1 v m, ne) p.found;
      owner = p.owner;
    }
  ]

  -- What the loop of a debit takes is gone from the user's sources.
  pub spend-Moved :
      (test : Source → Bool) (reference : ℕ) (rows : List Row) (left rest : ℕ) (db db' : Db)
      → ((s : Source) → test s ≡ true → s.user ≡ user)
      → IsDistinct (ids rows)
      → All (Passes test db.sources) rows
      → IsDistinct (keys db.sources)
      → spend reference rows left db ≡ ok (rest, db')
      → Moved user left rest db db'
  unfolding spend
  spend-Moved test reference [] left rest db db' owned rd ps d run =
      let e : Path (ℕ × Db) (left, db) (rest, db') = ok-injective run in
      Moved-end user left rest db db' (ap (λ p. p.0) e) (ap (λ p. p.1) e) d
  spend-Moved test reference ((k, remaining) ∷ rows) left rest db db' owned rd ps d run =
      elim (Bool-cases (min left remaining == 0)) [
        | inl nothing ↦
            let e : Path (ℕ × Db) (left, db) (rest, db') =
              ok-injective (rw (spend, nothing) at run) in
            Moved-end user left rest db db' (ap (λ p. p.0) e) (ap (λ p. p.1) e) d
        | inr some_left ↦
            let a = min left remaining in
            let p = ps.0 in
            let new = record p.source { remaining = p.source.remaining - a } in
            let enough : leb a p.source.remaining ≡ true = ground (arith, p.rest) in
            let written : update_source k.1 (λ r. leb a r) (λ r. r - a) db
                ≡ record db { sources = insert k.1 new db.sources } =
              update_source_found k.1 (λ r. leb a r) (λ r. r - a) p.source db p.found enough in
            elim (Fallible-cases (
              add_allocation reference k.1 a (record db { sources = insert k.1 new db.sources }))) [
                | inl (why, failed) ↦
                    absurd (err_ne (rw (spend, some_left, written, failed) at run))
                | inr (mid, added) ↦
                    let later = rw (spend, some_left, written, added) at run in
                    let (kept, e) = add_allocation_keeps reference k.1 a _ mid added in
                    Moved-then user left rest a 0 (left - a) rest db _ db' (omega arith)
                      (Moved-allocations user a 0 db _ kept (
                        update-Moved user k.1 a 0 (p.source.remaining - a) p.source db p.found
                          (owned p.source p.passed) (omega (arith, p.rest)) d))
                      (spend-Moved test reference rows (left - a) rest _ db' owned rd.1
                        (All-Passes-insert test k.1 new db.sources rows rd.0 ps.1)
                        (insert-IsDistinct k.1 new db.sources d) (rw e at later))
              ]
      ]

  -- What the loop of a restoration gives back is on the user's sources.
  pub restore-Moved :
      (reference : ℕ) (rows : List Row) (left rest : ℕ) (db db' : Db)
      → All (IsOwned user db.sources) rows
      → IsDistinct (keys db.sources)
      → Path (ℕ × Db) (restore reference rows left db) (rest, db')
      → Moved user rest left db db'
  unfolding restore
  restore-Moved reference [] left rest db db' ps d run =
      Moved-end user rest left db db' (sym (ap (λ p. p.0) run)) (ap (λ p. p.1) run) d
  restore-Moved reference ((k, available) ∷ rows) left rest db db' ps d run =
      elim (Bool-cases (min left available == 0)) [
        | inl nothing ↦
            restore-Moved reference rows left rest db db' ps.1 d (rw (restore, nothing) at run)
        | inr some_left ↦
            let n = min left available in
            let p = ps.0 in
            let new = record p.source { remaining = p.source.remaining + n } in
            let kept = restore_allocation reference k.1 n db.allocations in
            let mid : Db = record db { sources = insert k.1 new db.sources; allocations = kept } in
            let written : update_source k.1 (λ r. true) (λ r. r + n)
                  (record db { allocations = kept })
                ≡ mid =
              update_source_found k.1 (λ r. true) (λ r. r + n) p.source
                (record db { allocations = kept }) p.found refl in
            let step = Moved-allocations user 0 n db _ kept (
              update-Moved user k.1 0 n (p.source.remaining + n) p.source db p.found p.owner
                (omega arith) d) in
            elim (Bool-cases (left - n == 0)) [
              | inl done ↦
                  let e = rw (restore, some_left, done, written) at run in
                  Moved-then user rest left 0 n rest (left - n) db mid db' (omega arith) step (
                    Moved-end user rest (left - n) mid db' (ground (arith, ap (λ p. p.0) e, done))
                      (ap (λ p. p.1) e) step.distinct)
              | inr not_done ↦
                  let later = rw (restore, some_left, not_done, written) at run in
                  Moved-then user rest left 0 n rest (left - n) db mid db' (omega arith) step (
                    restore-Moved reference rows (left - n) rest mid db'
                      (All-weaken (IsOwned user db.sources) (IsOwned user mid.sources) rows
                        (λ r q. IsOwned-insert k.1 new db.sources r p.owner q) ps.1)
                      step.distinct later)
            ]
      ]
