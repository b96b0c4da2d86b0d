-- ===== src/Commerce/Quota/Examples.antt =====
-- The quota theorems at concrete tables, and runs of the transactions.
use traffic_forwarding_panel.Prelude.{
  ℕ, ◌-◌, ◌^◌, ◌≤◌, ◌≡◌, ◌≢◌, refl, true, false, some, [], ◌∷◌, arith,
}
use traffic_forwarding_panel.Prelude.Int.{pos, negsuc, int64, ◌-ℤ◌}
use traffic_forwarding_panel.Prelude.Assoc.{lookup}
use traffic_forwarding_panel.Commerce.Rate.{Rat, is_positive, ceil_charge, floor_raw}
use traffic_forwarding_panel.Prelude.Fallible.{ok, err}
use traffic_forwarding_panel.Commerce.Tables.{
  invalid_used, entitlement_unavailable, Entitlement, LeaseRow, Reservation, Db, latest,
  outstanding,
}
use traffic_forwarding_panel.Commerce.Quota.{
  Lease, Request, remaining, deadline, publish, set_allocated, charge, reservation_of, release,
  retire_lease, allocate_budget_with_multiplier, lease_current,
}
use traffic_forwarding_panel.Commerce.Quota.Allocation.{
  Bounds, allocation-Bounds, allocation_covers,
}
use traffic_forwarding_panel.Commerce.Quota.Retirement.{Retirable, retire_refunds}
use traffic_forwarding_panel.Commerce.Quota.RoundTrip.{retire-allocate}

abbrev plan : Entitlement
plan = record {
  id = 1;
  user = 7;
  version = 4;
  expires = 10 ^ 15;
  quota = 10 ^ 8;
  used = 0;
  allocated = 600;
}

abbrev empty_db : Db
empty_db = record { entitlements = (1, plan) ∷ []; leases = []; reservations = []; usage = [] }

abbrev three_halves : Rat
three_halves = record { num = pos 3; den = 2 }

abbrev asked : Request
asked = record { now = 0; new_id = 5; user = 7; rule = 3; node = 2 }

abbrev lease : Lease
lease = record { id = 5; ent = 1; bytes = 11184810; expires = 300000000000 }

abbrev row : LeaseRow
row = record {
  user = 7;
  node = 2;
  rule = 3;
  ent = 1;
  expires = 300000000000;
  bytes = 11184810;
  used = 0;
  mult = some three_halves;
}

abbrev reserved : Reservation
reserved = record { budget = 16777216; closed = false }

abbrev allocated_db : Db
allocated_db = record {
  entitlements = (1, record plan { allocated = 16777816 }) ∷ [];
  leases = (5, row) ∷ [];
  reservations = (5, reserved) ∷ [];
  usage = [];
}

allocates :
    allocate_budget_with_multiplier asked (some three_halves) 16777216 empty_db
    ≡ ok (lease, allocated_db)
unfolding allocate_budget_with_multiplier is_positive latest outstanding remaining deadline publish
    set_allocated floor_raw
allocates = refl

no_plan :
    allocate_budget_with_multiplier asked
      (some three_halves)
      1
      (record empty_db { entitlements = [] })
    ≡ err entitlement_unavailable
unfolding allocate_budget_with_multiplier is_positive latest
no_plan = refl

-- The same lease after some use.
abbrev spent : LeaseRow
spent = record row { used = 1001 }

abbrev spent_db : Db
spent_db = record allocated_db { leases = (5, spent) ∷ [] }

abbrev closed_db : Db
closed_db = record spent_db {
  entitlements = (1, record plan { allocated = 2102 }) ∷ [];
  reservations = (5, record { budget = 16777216; closed = true }) ∷ [];
}

retires : retire_lease 2 5 (pos 1001) spent_db ≡ ok closed_db
unfolding retire_lease is_positive reservation_of charge ceil_charge release set_allocated int64
    ◌-ℤ◌
retires = refl

negative_use : retire_lease 2 5 (negsuc 0) spent_db ≡ err invalid_used
unfolding retire_lease
negative_use = refl

current : lease_current 9 7 (some lease) allocated_db ≡ true
unfolding lease_current latest
current = refl

spent-Retirable : Retirable spent_db 5 spent three_halves 16777216
unfolding is_positive ceil_charge
spent-Retirable = record {
  row = refl;
  multiplier = refl;
  is_positive_m = refl;
  reserved = refl;
  covered = omega arith;
  fits = omega arith;
}

allocation-Bounds_example :
    (e : Entitlement) × (r : Entitlement) × (budget : ℕ) × (latest 7 empty_db.entitlements ≡ some e)
    × (lookup e.id empty_db.entitlements ≡ some r)
    × Bounds asked 16777216 e r budget lease empty_db allocated_db
allocation-Bounds_example =
    allocation-Bounds asked (some three_halves) 16777216 empty_db lease allocated_db allocates

allocation_covers_example : ceil_charge 11184810 three_halves ≤ 16777216
allocation_covers_example =
    allocation_covers asked three_halves 16777216 empty_db lease allocated_db reserved (omega arith)
      allocates refl

retire_refunds_example :
    (db' : Db) × (retire_lease 2 5 (pos 1001) spent_db ≡ ok db')
    × (lookup 5 db'.reservations ≡ some (record { budget = 16777216; closed = true }))
    × (lookup 1 db'.entitlements
        ≡ some (record plan { allocated = 16777816 - (16777216 - ceil_charge 1001 three_halves) }))
    × ((j : ℕ) → j ≢ 1 → lookup j db'.entitlements ≡ lookup j spent_db.entitlements)
retire_refunds_example =
    retire_refunds spent_db 5 spent three_halves 16777216 (record plan { allocated = 16777816 })
      spent-Retirable refl (omega arith)

retire-allocate_example :
    (db'' : Db) × (retire_lease 2 5 (pos 0) allocated_db ≡ ok db'')
    × ((j : ℕ) → lookup j db''.entitlements ≡ lookup j empty_db.entitlements)
retire-allocate_example =
    retire-allocate asked three_halves 16777216 empty_db lease allocated_db (omega arith) allocates
