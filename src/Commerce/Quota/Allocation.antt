-- ===== src/Commerce/Quota/Allocation.antt =====
-- `AllocateBudgetWithMultiplier` of internal/commerce/quota.go: what a call that succeeds has checked and
-- written.
use traffic_forwarding_panel.Prelude.{
  ℕ, ◌+◌, ◌-◌, ◌^◌, ◌≤◌, ◌<◌, ◌≡◌, ◌≢◌, refl, min, ap, inl, inr, Option-cases, true, false, Option,
  none, some, arith,
}
use traffic_forwarding_panel.Prelude.Assoc.{lookup, insert, lookup-insert}
use traffic_forwarding_panel.Commerce.Rate.{Rat, is_positive, ceil_charge, floor_raw}
use traffic_forwarding_panel.Commerce.Rate.Laws.{ceil_charge-floor_raw}
use traffic_forwarding_panel.Prelude.Fallible.{ok}
use traffic_forwarding_panel.Commerce.Tables.{
  Entitlement, LeaseRow, Reservation, Db, latest, outstanding,
}
use traffic_forwarding_panel.Commerce.Quota.{
  Lease, Request, remaining, deadline, publish, set_allocated, max_outstanding, max_budget,
  allocate_budget_with_multiplier,
}

-- The budget that an allocation reserves.
abbrev pub granted : Request → ℕ → Entitlement → ℕ → Db → ℕ
granted rq requested e allocated db =
    min (min requested (max_outstanding - outstanding rq.user db.leases db.reservations))
      (remaining e allocated requested)

-- The lease that is handed out.
abbrev pub granted_lease : Request → Rat → ℕ → Entitlement → ℕ → Db → Lease
granted_lease rq m requested e allocated db = record {
  id = rq.new_id;
  ent = e.id;
  bytes = floor_raw (granted rq requested e allocated db) m;
  expires = deadline rq.now e;
}

-- The row of a fresh lease.
abbrev pub fresh_row : Request → Rat → Lease → LeaseRow
fresh_row rq m l = record {
  user = rq.user;
  node = rq.node;
  rule = rq.rule;
  ent = l.ent;
  expires = l.expires;
  bytes = l.bytes;
  used = 0;
  mult = some m;
}

-- The tables after the three writes of an allocation.
abbrev pub published : Request → Rat → Entitlement → ℕ → Lease → Db → Db
published rq m row budget l db = record db {
  entitlements = insert l.ent (record row { allocated = row.allocated + budget }) db.entitlements;
  leases = insert l.id (fresh_row rq m l) db.leases;
  reservations = insert l.id (record { budget = budget; closed = false }) db.reservations;
}

pub publish-published :
    (rq : Request) (m : Rat) (budget : ℕ) (l : Lease) (db : Db) (row : Entitlement) {db' : Db}
    → lookup l.ent db.entitlements ≡ some row
    → publish rq m row.allocated budget l db ≡ ok (l, db')
    → (db' ≡ published rq m row budget l db)
      × (lookup l.id db.leases ≡ none)
      × (lookup l.id db.reservations ≡ none)
unfolding publish set_allocated
publish-published rq m budget l db row er h = ground arith

-- The facts that every guard of the allocation has established.
pub record Grant (rq : Request) (mult : Option Rat) (requested : ℕ) (db : Db) (l : Lease) (db' : Db)
    : Type 0 where
  pub m : Rat
  pub e : Entitlement
  pub row : Entitlement
  pub multiplier : mult ≡ some m
  pub is_positive_m : is_positive m ≡ true
  pub newest : latest rq.user db.entitlements ≡ some e
  pub stored : lookup e.id db.entitlements ≡ some row
  pub alive : rq.now < e.expires
  pub bounded : requested ≤ max_budget
  pub positive : 0 < granted rq requested e row.allocated db
  pub bytes_positive : 0 < l.bytes
  pub bytes_int64 : l.bytes < 2 ^ 63
  pub lease : l ≡ granted_lease rq m requested e row.allocated db
  pub written :
      publish rq m row.allocated (granted rq requested e row.allocated db) l db ≡ ok (l, db')

publish-lease :
    (rq : Request) (m : Rat) (allocated budget : ℕ) (l : Lease) (db : Db) {l' : Lease} {db' : Db}
    → publish rq m allocated budget l db ≡ ok (l', db')
    → (l' ≡ l) × (publish rq m allocated budget l' db ≡ ok (l', db'))
unfolding publish
publish-lease rq m allocated budget l db h = ground arith

-- What the guards have established once the multiplier, the entitlement and its row are known.
module _ (rq : Request) (m : Rat) (requested : ℕ) (db : Db) (e row : Entitlement) where
  Checked : Type 0
  Checked =
      (is_positive m ≡ true)
      × (rq.now < e.expires)
      × (requested ≤ max_budget)
      × (0 < granted rq requested e row.allocated db)
      × (0 < (granted_lease rq m requested e row.allocated db).bytes)
      × ((granted_lease rq m requested e row.allocated db).bytes < 2 ^ 63)

  checked :
      {l : Lease} {db' : Db}
      → latest rq.user db.entitlements ≡ some e
      → lookup e.id db.entitlements ≡ some row
      → allocate_budget_with_multiplier rq (some m) requested db ≡ ok (l, db')
      → Checked
        × (publish rq m row.allocated
              (granted rq requested e row.allocated db)
              (granted_lease rq m requested e row.allocated db)
              db
            ≡ ok (l, db'))
  unfolding allocate_budget_with_multiplier Checked
  checked el er h = ground arith

pub grant :
    (rq : Request) (mult : Option Rat) (requested : ℕ) (db : Db) (l : Lease) (db' : Db)
    → allocate_budget_with_multiplier rq mult requested db ≡ ok (l, db')
    → Grant rq mult requested db l db'
unfolding allocate_budget_with_multiplier Checked
grant rq none requested db l db' h = absurd (ground arith)
grant rq (some m) requested db l db' h = elim (Option-cases (latest rq.user db.entitlements)) [
  | inl missing ↦ absurd (ground arith)
  | inr (e, el) ↦ elim (Option-cases (lookup e.id db.entitlements)) [
    | inl missing ↦ absurd (ground arith)
    | inr (row, er) ↦
        let c = checked rq m requested db e row el er h in
        let p =
          publish-lease rq m row.allocated (granted rq requested e row.allocated db) _ db c.1 in
        record {
          m = m;
          e = e;
          row = row;
          multiplier = refl;
          is_positive_m = c.0.0;
          newest = el;
          stored = er;
          alive = c.0.1;
          bounded = c.0.2;
          positive = c.0.3;
          bytes_positive = ground (arith, c, p);
          bytes_int64 = ground (arith, c, p);
          lease = p.0;
          written = p.1;
        }
  ]
]

-- The rows that an allocation leaves, and the three bounds of its budget.
pub record Bounds (rq : Request) (requested : ℕ) (e row : Entitlement) (budget : ℕ) (l : Lease)
    (db db' : Db) : Type 0 where
  pub reserved : lookup l.id db'.reservations ≡ some (record { budget = budget; closed = false })
  pub charged :
      lookup e.id db'.entitlements ≡ some (record row { allocated = row.allocated + budget })
  pub positive : 0 < budget
  pub within_request : budget ≤ requested
  pub within_account : budget + outstanding rq.user db.leases db.reservations ≤ max_outstanding
  pub within_quota : e.quota ≢ 0 → row.allocated + budget ≤ e.quota

pub Bounds-granted :
    (rq : Request) (m : Rat) (requested : ℕ) (e row : Entitlement) (l : Lease) (db db' : Db)
    → l.ent ≡ e.id
    → 0 < granted rq requested e row.allocated db
    → db' ≡ published rq m row (granted rq requested e row.allocated db) l db
    → Bounds rq requested e row (granted rq requested e row.allocated db) l db db'
unfolding remaining
Bounds-granted rq m requested e row l db db' same positive p = record {
  reserved = rw p (simp lookup-insert (ground arith));
  charged = rw (p, same) (simp lookup-insert (ground arith));
  positive = positive;
  within_request = ground arith;
  within_account = ground arith;
  within_quota = λ q. ground arith;
}

-- A successful allocation, on behalf of a user whose newest entitlement is `e`, with the stored row
-- `row`, reserves a positive budget: at most what was requested, at most what is left of the 512 MiB
-- that the user may have outstanding, and, unless the quota is 0 (unlimited), at most what the quota
-- leaves. The reservation is recorded as open, and the row's allocation grows by exactly the budget.
pub allocation-Bounds :
    (rq : Request) (mult : Option Rat) (requested : ℕ) (db : Db) (l : Lease) (db' : Db)
    → allocate_budget_with_multiplier rq mult requested db ≡ ok (l, db')
    → (e : Entitlement) × (row : Entitlement) × (budget : ℕ) × (latest rq.user db.entitlements
        ≡ some e)
      × (lookup e.id db.entitlements ≡ some row)
      × Bounds rq requested e row budget l db db'
allocation-Bounds rq mult requested db l db' h =
    let g = grant rq mult requested db l db' h in
    let b = granted rq requested g.e g.row.allocated db in
    let same : l.ent ≡ g.e.id = ap (λ (x : Lease). x.ent) g.lease in
    let p = publish-published rq g.m b l db g.row (rw same g.stored) g.written in
    (
      g.e,
      g.row,
      b,
      g.newest,
      g.stored,
      Bounds-granted rq g.m requested g.e g.row l db db' same g.positive p.0,
    )

covers_at :
    (b bytes : ℕ) (m n : Rat) (r : Reservation)
    → n ≡ m
    → bytes ≡ floor_raw b n
    → is_positive n ≡ true
    → 0 < m.den
    → r ≡ record { budget = b; closed = false }
    → ceil_charge bytes m ≤ r.budget
covers_at b bytes m n r e f p d h = rw (f, h, e) (ceil_charge-floor_raw b m (rw e at p) d)

-- What the lease of a successful allocation can spend never costs more than the reserved budget, at
-- the multiplier of the request, whose denominator is positive.
pub allocation_covers :
    (rq : Request) (m : Rat) (requested : ℕ) (db : Db) (l : Lease) (db' : Db) (r : Reservation)
    → 0 < m.den
    → allocate_budget_with_multiplier rq (some m) requested db ≡ ok (l, db')
    → lookup l.id db'.reservations ≡ some r
    → ceil_charge l.bytes m ≤ r.budget
allocation_covers rq m requested db l db' r d h found =
    let g = grant rq (some m) requested db l db' h in
    let b = granted rq requested g.e g.row.allocated db in
    let same : l.ent ≡ g.e.id = ap (λ (x : Lease). x.ent) g.lease in
    let p = publish-published rq g.m b l db g.row (rw same g.stored) g.written in
    let o = Bounds-granted rq g.m requested g.e g.row l db db' same g.positive p.0 in
    covers_at b l.bytes m g.m r (cc g.multiplier) (ap (λ (x : Lease). x.bytes) g.lease)
      g.is_positive_m d (cc (o.reserved, found))
