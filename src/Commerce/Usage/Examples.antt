-- ===== src/Commerce/Usage/Examples.antt =====
-- The usage theorems at a concrete batch.
use traffic_forwarding_panel.Prelude.{ℕ, ◌+◌, ◌≡◌, refl, false, some, List, [], ◌∷◌, arith}
use traffic_forwarding_panel.Prelude.Int.{pos}
use traffic_forwarding_panel.Commerce.Rate.{Rat, is_positive, ceil_charge}
use traffic_forwarding_panel.Prelude.Fallible.{ok, err}
use traffic_forwarding_panel.Commerce.Tables.{lease_exceeded, Entitlement, LeaseRow, Db}
use traffic_forwarding_panel.Contract.Usage.{UsageRecord, unset, Texts, valid_window_metadata}
use traffic_forwarding_panel.Commerce.Usage.{
  Live, Tally, valid_usage, distinct, unrecorded, scan, load, within, settle_one, settle_all,
  write_leases, write_charges, write_usage, settle_usage_batch,
}
use traffic_forwarding_panel.Commerce.Usage.Charges.{
  charged, IsFunded, settle_all-charged, settle_all-IsFunded,
}
use traffic_forwarding_panel.Commerce.Usage.Replay.{settle_idempotent}

abbrev texts : Texts
texts = record {
  len = λ n. 1;
  window_usage_id = λ w s. w + s;
  marshal = λ u. u.id + u.upload + u.download;
}

abbrev three_halves : Rat
three_halves = record { num = pos 3; den = 2 }

abbrev plan : Entitlement
plan = record {
  id = 1;
  user = 7;
  version = 4;
  expires = 1000;
  quota = 1000;
  used = 0;
  allocated = 600;
}

abbrev row : LeaseRow
row = record {
  user = 7;
  node = 2;
  rule = 3;
  ent = 1;
  expires = 900;
  bytes = 100;
  used = 0;
  mult = some three_halves;
}

abbrev db : Db
db = record {
  entitlements = (1, plan) ∷ [];
  leases = (5, row) ∷ [];
  reservations = (5, record { budget = 150; closed = false }) ∷ [];
  usage = [];
}

abbrev fact : ℕ → ℕ → UsageRecord
fact id n = record {
  id = id;
  node = 2;
  rule = 3;
  lease = 5;
  ent = 1;
  started = 10;
  ended = 20;
  upload = n;
  download = 0;
  kind = unset;
  window = 0;
  sequence = 0;
}

abbrev batch : List UsageRecord
batch = fact 11 1 ∷ fact 12 1 ∷ fact 11 1 ∷ []

-- Two records of one byte each cost 2 and 1 at the multiplier 3/2, the charge of two bytes.
abbrev db' : Db
db' = record db {
  entitlements = (1, record plan { used = 3 }) ∷ [];
  leases = (5, record row { used = 2 }) ∷ [];
  usage =
      (11, record { lease = 5; payload = 12; charged = 2 })
      ∷ (12, record { lease = 5; payload = 13; charged = 1 })
      ∷ [];
}

settles : settle_usage_batch texts batch db ≡ ok db'
unfolding settle_usage_batch distinct valid_window_metadata valid_usage unrecorded scan load
    is_positive settle_all settle_one within ceil_charge write_leases write_charges write_usage
settles = refl

too_much : settle_usage_batch texts (fact 11 101 ∷ []) db ≡ err lease_exceeded
unfolding settle_usage_batch distinct valid_window_metadata valid_usage unrecorded scan load
    is_positive settle_all settle_one within
too_much = refl

settle_idempotent_example : settle_usage_batch texts batch db' ≡ ok db'
settle_idempotent_example = settle_idempotent texts batch db db' settles

abbrev live : Live
live = record {
  node = 2;
  rule = 3;
  ent = 1;
  expiry = 900;
  budget = 100;
  before = 0;
  used = 0;
  closed = false;
  mult = three_halves;
}

abbrev start : Tally
start = record { leases = (5, live) ∷ []; charges = []; inserts = [] }

abbrev finish : Tally
finish = record {
  leases = (5, record live { used = 1 }) ∷ [];
  charges = (1, 2) ∷ [];
  inserts = (11, record { lease = 5; payload = 12; charged = 2 }) ∷ [];
}

settles_one : settle_all texts (fact 11 1 ∷ []) start ≡ ok finish
unfolding settle_all settle_one within ceil_charge
settles_one = refl

settle_all-charged_example : 2 + charged 1 start.leases ≡ 0 + charged 1 finish.leases
settle_all-charged_example = settle_all-charged texts (fact 11 1 ∷ []) 1 start finish settles_one

start-IsFunded : IsFunded start.leases
start-IsFunded k l h = ground arith

settle_all-IsFunded_example : IsFunded finish.leases
settle_all-IsFunded_example =
    settle_all-IsFunded texts (fact 11 1 ∷ []) start finish settles_one start-IsFunded
