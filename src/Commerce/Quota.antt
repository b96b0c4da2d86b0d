-- ===== src/Commerce/Quota.antt =====
-- internal/commerce/quota.go: leases are allocated against an entitlement's quota, checked, and
-- retired with a refund. A transaction is a function of the tables; identifiers and instants are
-- numbers, an instant in nanoseconds.
pub mod Allocation
pub mod Retirement
pub mod RoundTrip
mod Examples
use traffic_forwarding_panel.Prelude.{
  ℕ, ◌+◌, ◌-◌, ◌*◌, ◌^◌, ◌&&◌, min, Bool, true, false, not, Option, none, some, ltb, leb, ◌==◌,
  if◌then◌else◌,
}
use traffic_forwarding_panel.Prelude.Int.{ℤ, pos, pos_part, ltb_ℤ, int64, ◌-ℤ◌}
use traffic_forwarding_panel.Prelude.Assoc.{Assoc, lookup, insert}
use traffic_forwarding_panel.Commerce.Rate.{Rat, is_positive, ceil_charge, floor_raw}
use traffic_forwarding_panel.Prelude.Fallible.{ok, err, ◌>>=◌, ◌>>◌, guard, or_err}
use traffic_forwarding_panel.Commerce.Tables.{
  Error, budget_outside, invalid_multiplier, entitlement_unavailable, conflict, invalid_used,
  no_rows, invalid_lease_multiplier, invalid_reservation, Result, Entitlement, LeaseRow,
  Reservation, Db, latest, outstanding, insert_new,
}

-- 256<<20, 512<<20, 16<<20, and five minutes in nanoseconds
abbrev pub max_budget : ℕ
max_budget = 256 * 2 ^ 20

abbrev pub max_outstanding : ℕ
max_outstanding = 512 * 2 ^ 20

abbrev pub default_budget : ℕ
default_budget = 16 * 2 ^ 20

abbrev pub lease_life : ℕ
lease_life = 5 * 60 * 10 ^ 9

-- `contract.Lease`; its limits are left at their zero value here
pub record Lease : Type 0 where
  pub id : ℕ
  pub ent : ℕ
  pub bytes : ℕ
  pub expires : ℕ

-- `SetString`, which may fail, and then the test of the sign
abbrev pub positive_rat : Option Rat → Error → Result Rat
positive_rat none e = err e
positive_rat (some m) e = if is_positive m then ok m else err e

-- UPDATE commerce_entitlements SET allocated=… WHERE id=? AND <test>, which must affect one row
unfoldable pub set_allocated :
    ℕ → (ℕ → Bool) → (ℕ → ℕ) → Assoc Entitlement → Result (Assoc Entitlement)
set_allocated k test f es = elim (lookup k es) [
  | none ↦ err conflict
  | some e ↦
      if test e.allocated
      then ok (insert k (record e { allocated = f e.allocated }) es)
      else err conflict
]

-- Who asks, and what `id()` and `s.Now()` return.
pub record Request : Type 0 where
  pub now : ℕ
  pub new_id : ℕ
  pub user : ℕ
  pub rule : ℕ
  pub node : ℕ

-- `remaining`, where a negative difference and 0 are refused alike
unfoldable pub remaining : Entitlement → ℕ → ℕ → ℕ
remaining e allocated requested = if e.quota == 0 then requested else e.quota - allocated

unfoldable pub deadline : ℕ → Entitlement → ℕ
deadline now e = if ltb e.expires (now + lease_life) then e.expires else now + lease_life

-- The three writes of an allocation.
unfoldable pub publish : Request → Rat → ℕ → ℕ → Lease → Db → Result (Lease × Db)
publish rq m allocated budget lease db = do
  entitlements ← set_allocated lease.ent (λ a. a == allocated) (λ a. a + budget) db.entitlements
  leases ←
      insert_new lease.id
        (record {
          user = rq.user;
          node = rq.node;
          rule = rq.rule;
          ent = lease.ent;
          expires = lease.expires;
          bytes = lease.bytes;
          used = 0;
          mult = some m;
        })
        db.leases
  reservations ← insert_new lease.id (record { budget = budget; closed = false }) db.reservations
  ok (
    lease,
    record db { entitlements = entitlements; leases = leases; reservations = reservations },
  )

unfoldable pub allocate_budget_with_multiplier : Request → Option Rat → ℕ → Db → Result (Lease × Db)
allocate_budget_with_multiplier rq multiplier requested db = do
  guard (ltb 0 requested && leb requested max_budget) budget_outside
  m ← positive_rat multiplier invalid_multiplier
  e ← or_err (latest rq.user db.entitlements) entitlement_unavailable
  guard (ltb rq.now e.expires) entitlement_unavailable
  row ← or_err (lookup e.id db.entitlements) no_rows
  let left = remaining e row.allocated requested
  guard (ltb 0 left) entitlement_unavailable
  let room = min requested (max_outstanding - outstanding rq.user db.leases db.reservations)
  guard (ltb 0 room) entitlement_unavailable
  let budget = min room left
  let raw = floor_raw budget m
  guard (ltb 0 raw && ltb raw (2 ^ 63)) entitlement_unavailable
  publish rq m row.allocated budget
      (record { id = rq.new_id; ent = e.id; bytes = raw; expires = deadline rq.now e }) db

unfoldable pub allocate_with_multiplier : Request → Option Rat → Db → Result (Lease × Db)
allocate_with_multiplier rq multiplier =
    allocate_budget_with_multiplier rq multiplier default_budget

-- the multiplier "1"
unfoldable pub allocate : Request → Db → Result (Lease × Db)
allocate rq = allocate_with_multiplier rq (some (record { num = pos 1; den = 1 }))

-- `LeaseCurrent`: whether a lease may still be spent
unfoldable pub lease_current : ℕ → ℕ → Option Lease → Db → Bool
lease_current now user none db = false
lease_current now user (some l) db =
    if ltb now l.expires
    then elim (latest user db.entitlements) [
      | none ↦ false
      | some e ↦
          if e.id == l.ent
          then elim (lookup l.id db.reservations) [ none ↦ true | some r ↦ not r.closed ]
          else false
    ]
    else false

-- `charge(v)` of a retirement, as an int64
unfoldable pub charge : ℕ → Rat → ℤ
charge v m = int64 (pos (ceil_charge v m))

-- The reservation of a lease, made up for one that predates reservations.
unfoldable pub reservation_of : ℕ → LeaseRow → Rat → Assoc Reservation → ℤ × Bool
reservation_of k l m rs = elim (lookup k rs) [
  | none ↦ (charge l.bytes m, false)
  | some r ↦ (pos r.budget, r.closed)
]

-- The writes of a retirement: the reservation is closed, and a positive refund is released.
unfoldable pub release : ℕ → LeaseRow → ℤ → ℤ → Db → Result Db
release k l budget refund db =
    let reservations =
      insert k (record { budget = pos_part budget; closed = true }) db.reservations in
    let n = pos_part refund in
    if n == 0 then ok (record db { reservations = reservations }) else do
      entitlements ← set_allocated l.ent (λ a. leb n a) (λ a. a - n) db.entitlements
      ok (record db { entitlements = entitlements; reservations = reservations })

unfoldable pub retire_lease : ℕ → ℕ → ℤ → Db → Result Db
retire_lease node k used_bytes db = do
  guard (not (ltb_ℤ used_bytes (pos 0))) invalid_used
  l ← or_err (lookup k db.leases) no_rows
  guard (l.node == node && l.used == pos_part used_bytes) conflict
  m ← positive_rat l.mult invalid_lease_multiplier
  let (budget, closed) = reservation_of k l m db.reservations
  if closed then ok db else do
    let refund = int64 (budget -ℤ charge l.used m)
    guard (not (ltb_ℤ refund (pos 0))) invalid_reservation
    release k l budget refund db
