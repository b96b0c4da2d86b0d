-- ===== src/Commerce/Quota/RoundTrip.antt =====
-- `AllocateBudgetWithMultiplier` followed by `RetireLease`, both of internal/commerce/quota.go.
use traffic_forwarding_panel.Prelude.{
  ℕ, ◌+◌, ◌-◌, ◌^◌, ◌<◌, ◌≡◌, ◌≢◌, refl, ap, inl, inr, Bool-cases, ==_iff, some, true, arith, ◌==◌,
}
use traffic_forwarding_panel.Prelude.Int.{pos}
use traffic_forwarding_panel.Prelude.Assoc.{lookup, lookup-insert}
use traffic_forwarding_panel.Commerce.Rate.{Rat, is_positive, ceil_charge}
use traffic_forwarding_panel.Commerce.Rate.Laws.{ceil_charge-zero}
use traffic_forwarding_panel.Prelude.Fallible.{ok}
use traffic_forwarding_panel.Commerce.Tables.{Entitlement, Db}
use traffic_forwarding_panel.Commerce.Quota.{
  Lease, Request, retire_lease, allocate_budget_with_multiplier,
}
use traffic_forwarding_panel.Commerce.Quota.Allocation.{
  granted, fresh_row, published, publish-published, grant,
}
use traffic_forwarding_panel.Commerce.Quota.Retirement.{Retirable, retire_refunds}

module _ (rq : Request) (m : Rat) (b : ℕ) (l : Lease) (row : Entitlement) (db : Db) where
  fresh_Retirable :
      is_positive m ≡ true
      → 0 < m.den
      → b < 2 ^ 63
      → Retirable (published rq m row b l db) l.id (fresh_row rq m l) m b
  fresh_Retirable p d f = record {
    row = simp lookup-insert (ground arith);
    multiplier = refl;
    is_positive_m = p;
    reserved = simp lookup-insert (ground arith);
    covered = omega (arith, ceil_charge-zero m d);
    fits = f;
  }

  -- The entitlement rows before an allocation and after the retirement agree.
  restored :
      (db'' : Db)
      → 0 < m.den
      → lookup l.ent db.entitlements ≡ some row
      → lookup l.ent db''.entitlements
        ≡ some (record row { allocated = row.allocated + b - (b - ceil_charge 0 m) })
      → ((j : ℕ)
          → j ≢ l.ent
          → lookup j db''.entitlements ≡ lookup j (published rq m row b l db).entitlements)
      → (j : ℕ) → lookup j db''.entitlements ≡ lookup j db.entitlements
  restored db'' d found self others j = elim (Bool-cases (j == l.ent)) [
    | inl e ↦ rw ((==_iff j l.ent).0 e, found, self) (ground (arith, ceil_charge-zero m d))
    | inr ne ↦
        let apart : j ≢ l.ent = ground arith in
        rw (others j apart) (simp lookup-insert (ground arith))
  ]

  undo :
      is_positive m ≡ true
      → 0 < m.den
      → b < 2 ^ 63
      → lookup l.ent db.entitlements ≡ some row
      → (db'' : Db) × (retire_lease rq.node l.id (pos 0) (published rq m row b l db) ≡ ok db'')
        × ((j : ℕ) → lookup j db''.entitlements ≡ lookup j db.entitlements)
  undo p d f found =
      let grown : Entitlement = record row { allocated = row.allocated + b } in
      let r =
        retire_refunds (published rq m row b l db) l.id (fresh_row rq m l) m b grown
          (fresh_Retirable p d f) (simp lookup-insert (ground arith)) (omega arith) in
      (r.0, r.1, restored r.0 d found r.3 r.4)

-- A lease that was allocated at the multiplier `m`, with a positive denominator, and never used can
-- be retired at once, and then every entitlement is as it was before the allocation.
pub retire-allocate :
    (rq : Request) (m : Rat) (requested : ℕ) (db : Db) (l : Lease) (db' : Db)
    → 0 < m.den
    → allocate_budget_with_multiplier rq (some m) requested db ≡ ok (l, db')
    → (db'' : Db) × (retire_lease rq.node l.id (pos 0) db' ≡ ok db'')
      × ((j : ℕ) → lookup j db''.entitlements ≡ lookup j db.entitlements)
retire-allocate rq m requested db l db' d h =
    let g = grant rq (some m) requested db l db' h in
    let b = granted rq requested g.e g.row.allocated db in
    let same : l.ent ≡ g.e.id = ap (λ (x : Lease). x.ent) g.lease in
    let p = publish-published rq g.m b l db g.row (rw same g.stored) g.written in
    let e : g.m ≡ m = cc g.multiplier in
    let small : b < 2 ^ 63 = ground (arith, g.bounded) in
    rw p.0 (undo rq g.m b l g.row db g.is_positive_m (rw e d) small (rw same g.stored))
