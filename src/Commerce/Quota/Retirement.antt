-- ===== src/Commerce/Quota/Retirement.antt =====
-- `RetireLease` of internal/commerce/quota.go: its refund, its refusals and a second call.
use traffic_forwarding_panel.Prelude.{
  ℕ, ◌-◌, ◌^◌, ◌≤◌, ◌<◌, ◌≡◌, ◌≢◌, refl, ap, ◌⊎◌, inl, inr, ◌∙◌, Bool-cases, Option-cases, true,
  false, some, arith, ◌==◌, if◌then◌else◌,
}
use traffic_forwarding_panel.Prelude.Int.{ℤ, pos, pos_part, ltb_ℤ, ◌-ℤ◌, int64, int64-pos}
use traffic_forwarding_panel.Prelude.Assoc.{lookup, insert, lookup-insert}
use traffic_forwarding_panel.Commerce.Rate.{Rat, is_positive, ceil_charge}
use traffic_forwarding_panel.Prelude.Fallible.{ok, err}
use traffic_forwarding_panel.Commerce.Tables.{conflict, Entitlement, LeaseRow, Reservation, Db}
use traffic_forwarding_panel.Commerce.Quota.{
  charge, reservation_of, release, retire_lease, set_allocated,
}

-- The state in which a lease can be retired: its row and open reservation, and a charge that the
-- budget covers.
pub record Retirable (db : Db) (k : ℕ) (l : LeaseRow) (m : Rat) (budget : ℕ) : Type 0 where
  pub row : lookup k db.leases ≡ some l
  pub multiplier : l.mult ≡ some m
  pub is_positive_m : is_positive m ≡ true
  pub reserved : lookup k db.reservations ≡ some (record { budget = budget; closed = false })
  pub covered : ceil_charge l.used m ≤ budget
  pub fits : budget < 2 ^ 63

sub_pos : (b c : ℕ) → c ≤ b → pos b -ℤ pos c ≡ pos (b - c)
unfolding ◌-ℤ◌
sub_pos b c h = ground arith

-- b - c is computed without overflow
refund_exact : (b c : ℕ) → c ≤ b → b < 2 ^ 63 → int64 (pos b -ℤ int64 (pos c)) ≡ pos (b - c)
refund_exact b c h f =
    rw (int64-pos c (omega arith), sub_pos b c h) (int64-pos (b - c) (omega arith))

retire_open :
    (db : Db) (k : ℕ) (l : LeaseRow) (m : Rat) (budget : ℕ)
    → Retirable db k l m budget
    → retire_lease l.node k (pos l.used) db
      ≡ release k l (pos budget) (pos (budget - ceil_charge l.used m)) db
unfolding retire_lease reservation_of charge
retire_open db k l m budget h =
    ground (arith, refund_exact budget (ceil_charge l.used m) h.covered h.fits)

-- The tables after the refund `n` of the lease `k`.
abbrev pub refunded : ℕ → LeaseRow → ℕ → ℕ → Entitlement → Db → Db
refunded k l budget n e db = record db {
  entitlements =
      if n == 0
      then db.entitlements
      else insert l.ent (record e { allocated = e.allocated - n }) db.entitlements;
  reservations = insert k (record { budget = budget; closed = true }) db.reservations;
}

release-refunded :
    (k : ℕ) (l : LeaseRow) (budget n : ℕ) (e : Entitlement) (db : Db)
    → lookup l.ent db.entitlements ≡ some e
    → n ≤ e.allocated
    → release k l (pos budget) (pos n) db ≡ ok (refunded k l budget n e db)
unfolding release set_allocated
release-refunded k l budget n e db h le = ground arith

refunded-allocated :
    (k : ℕ) (l : LeaseRow) (budget n : ℕ) (e : Entitlement) (db : Db)
    → lookup l.ent db.entitlements ≡ some e
    → lookup l.ent (refunded k l budget n e db).entitlements
      ≡ some (record e { allocated = e.allocated - n })
refunded-allocated k l budget n e db h = elim (Bool-cases (n == 0)) [
  | inl z ↦ rw z (ground arith)
  | inr p ↦ rw p (simp lookup-insert (ground arith))
]

refunded-others :
    (k : ℕ) (l : LeaseRow) (budget n : ℕ) (e : Entitlement) (db : Db) (j : ℕ)
    → j ≢ l.ent
    → lookup j (refunded k l budget n e db).entitlements ≡ lookup j db.entitlements
refunded-others k l budget n e db j ne = elim (Bool-cases (n == 0)) [
  | inl z ↦ rw z
  | inr p ↦ rw p (simp lookup-insert (ground arith))
]

-- A lease with an open reservation that covers its charge, whose unused part the entitlement still
-- has allocated, is retired with its persisted usage: the reservation is closed, the entitlement
-- gives back the budget less the rounded-up charge of what was used, and no other entitlement
-- changes.
pub retire_refunds :
    (db : Db) (k : ℕ) (l : LeaseRow) (m : Rat) (budget : ℕ) (e : Entitlement)
    → Retirable db k l m budget
    → lookup l.ent db.entitlements ≡ some e
    → budget - ceil_charge l.used m ≤ e.allocated
    → (db' : Db) × (retire_lease l.node k (pos l.used) db ≡ ok db')
      × (lookup k db'.reservations ≡ some (record { budget = budget; closed = true }))
      × (lookup l.ent db'.entitlements
          ≡ some (record e { allocated = e.allocated - (budget - ceil_charge l.used m) }))
      × ((j : ℕ) → j ≢ l.ent → lookup j db'.entitlements ≡ lookup j db.entitlements)
retire_refunds db k l m budget e h found le =
    let n = budget - ceil_charge l.used m in
    (
      refunded k l budget n e db,
      retire_open db k l m budget h ∙ release-refunded k l budget n e db found le,
      simp lookup-insert (ground arith),
      refunded-allocated k l budget n e db found,
      λ j ne. refunded-others k l budget n e db j ne,
    )

-- A retirement whose used bytes differ from the persisted usage of the lease is refused as a
-- conflict.
pub retire_mismatch :
    (db : Db) (node k : ℕ) (used : ℕ) (l : LeaseRow)
    → lookup k db.leases ≡ some l
    → used ≢ l.used
    → retire_lease node k (pos used) db ≡ err conflict
unfolding retire_lease
retire_mismatch db node k used l h ne = ground arith

release-closes :
    (k : ℕ) (l : LeaseRow) (b n : ℤ) (db : Db) {db' : Db}
    → release k l b n db ≡ ok db'
    → (db'.leases ≡ db.leases)
      × (lookup k db'.reservations ≡ some (record { budget = pos_part b; closed = true }))
unfolding release
release-closes k l b n db h =
    ground
      (arith, lookup-insert k k (record { budget = pos_part b; closed = true }) db.reservations)

module _ (node k : ℕ) (used : ℤ) (l : LeaseRow) (m : Rat) where
  -- The checks that stand before the test of the reservation.
  Accepted : Db → Type 0
  Accepted db =
      (ltb_ℤ used (pos 0) ≡ false)
      × (lookup k db.leases ≡ some l)
      × (l.node ≡ node)
      × (l.used ≡ pos_part used)
      × (l.mult ≡ some m)
      × (is_positive m ≡ true)

  retire_closed :
      (db : Db) (r : Reservation)
      → Accepted db
      → lookup k db.reservations ≡ some r
      → r.closed ≡ true
      → retire_lease node k used db ≡ ok db
  unfolding Accepted retire_lease reservation_of
  retire_closed db r a found c = ground arith

  retire-Accepted :
      (db : Db) {db' : Db}
      → lookup k db.leases ≡ some l
      → l.mult ≡ some m
      → retire_lease node k used db ≡ ok db'
      → Accepted db
  unfolding Accepted retire_lease
  retire-Accepted db f e h = ground arith

  -- What a successful retirement has done: nothing, or the writes of a release.
  retire_outcome :
      (db : Db) {db' : Db}
      → Accepted db
      → retire_lease node k used db ≡ ok db'
      → (db' ≡ db) ⊎ ((b : ℤ) × (n : ℤ) × (release k l b n db ≡ ok db'))
  unfolding Accepted retire_lease
  retire_outcome db a h = elim (Bool-cases (reservation_of k l m db.reservations).1) [
    | inl closed ↦ inl (ground arith)
    | inr unclosed ↦
        let budget = (reservation_of k l m db.reservations).0 in
        inr (budget, int64 (budget -ℤ charge l.used m), ground arith)
  ]

  Accepted-leases : (db db' : Db) → db'.leases ≡ db.leases → Accepted db → Accepted db'
  unfolding Accepted
  Accepted-leases db db' e a = ground arith

  retire_again :
      (db db' : Db)
      → lookup k db.leases ≡ some l
      → l.mult ≡ some m
      → retire_lease node k used db ≡ ok db'
      → retire_lease node k used db' ≡ ok db'
  retire_again db db' f e h =
      let a = retire-Accepted db f e h in
      elim (retire_outcome db a h) [
        | inl same ↦ rw (same, h) (ap (λ (x : Db). ok x) same)
        | inr (b, n, r) ↦
            let c = release-closes k l b n db r in
            retire_closed db' _ (Accepted-leases db db' c.0 a) c.1 refl
      ]

-- A retirement that succeeded may be repeated and then changes nothing more.
pub retire_idempotent :
    (db db' : Db) (node k : ℕ) (used : ℤ)
    → retire_lease node k used db ≡ ok db'
    → retire_lease node k used db' ≡ ok db'
unfolding retire_lease
retire_idempotent db db' node k used h = elim (Option-cases (lookup k db.leases)) [
  | inl missing ↦ absurd (ground arith)
  | inr (l, f) ↦ elim (Option-cases l.mult) [
    | inl broken ↦ absurd (ground arith)
    | inr (m, e) ↦ retire_again node k used l m db db' f e h
  ]
]
