-- ===== src/Agent/Credits/Examples.antt =====
-- A log of three events against a concrete store.
use traffic_forwarding_panel.Prelude.{◌+◌, ◌*◌, ◌≡◌, refl, true, false, some, List, [], ◌∷◌, arith}
use traffic_forwarding_panel.Prelude.Assoc.{total_by}
use traffic_forwarding_panel.Contract.Usage.{
  UsageRecord, normal, unset, Texts, valid_window_metadata,
}
use traffic_forwarding_panel.Prelude.Fallible.{ok, err}
use traffic_forwarding_panel.Agent.Credits.{
  Lease, CreditWindow, limits, Store, Result, exceeds_budget, credit_liability, same_lease,
  lease_capacity_exceeded,
}
use traffic_forwarding_panel.Agent.Credits.Events.{
  CreditEvent, usage, credit_reserve, credit_progress, validate_reserve, same_window, add_live,
  update_live, add_usage, write_window, usage_lease, apply_usage, window_is_invalid,
  usage_is_invalid, validate_usage, validate_progress, apply_reserve, apply_progress, apply_event,
  apply_all,
}
use traffic_forwarding_panel.Agent.Credits.Bounds.{IsSound, apply_event-IsSound}

abbrev pub texts : Texts
texts = record { len = λ n. 32; window_usage_id = λ w s. 1000 * w + s; marshal = λ u. u.id }

abbrev pub lease : Lease
lease = record { id = 5; ent = 1; bytes = 1000; expires = 900 }

abbrev pub start : Store
start = record {
  node = 2;
  leases = [];
  used = [];
  retired = [];
  pending = [];
  windows = [];
  credits = [];
  pools = λ rule upload. [];
  expanded_credits = false;
}

abbrev window : CreditWindow
window = record {
  id = 9;
  user = 7;
  rule = 3;
  lease = 5;
  upload = true;
  capacity = 400;
  confirmed = 0;
  sequence = 0;
  started = 10;
  until = 800;
  closed = false;
  tcp = true;
}

abbrev spent : CreditWindow
spent = record window { confirmed = 150; sequence = 1; closed = true }

abbrev pub fact : UsageRecord
fact = record {
  id = 9001;
  node = 2;
  rule = 3;
  lease = 5;
  ent = 1;
  started = 10;
  ended = 20;
  upload = 150;
  download = 0;
  kind = normal;
  window = 9;
  sequence = 1;
}

abbrev pub plain_fact : UsageRecord
plain_fact = record fact { id = 1; kind = unset; window = 0; sequence = 0 }

abbrev log : List CreditEvent
log =
    usage plain_fact (some lease)
    ∷ credit_reserve window (some lease)
    ∷ credit_progress spent (some fact)
    ∷ []

abbrev store_of : Result Store → Store
store_of (ok s) = s
store_of (err e) = start

abbrev pub one_step : Store
one_step = store_of (apply_event texts (usage plain_fact (some lease)) start)

abbrev finish : Store
finish = store_of (apply_all texts log start)

pub steps : apply_event texts (usage plain_fact (some lease)) start ≡ ok one_step
unfolding apply_event apply_usage usage_lease credit_liability total_by
steps = refl

runs : apply_all texts log start ≡ ok finish
unfolding apply_all apply_event apply_usage usage_lease apply_reserve window_is_invalid limits
    validate_reserve same_lease lease_capacity_exceeded credit_liability total_by add_live
    apply_progress validate_progress same_window validate_usage usage_is_invalid
    valid_window_metadata add_usage write_window update_live
runs = refl

spends : (finish.used ≡ (5, 300) ∷ []) × (finish.windows ≡ [])
unfolding apply_all apply_event apply_usage usage_lease apply_reserve window_is_invalid limits
    validate_reserve same_lease lease_capacity_exceeded credit_liability total_by add_live
    apply_progress validate_progress same_window validate_usage usage_is_invalid
    valid_window_metadata add_usage write_window update_live
spends = (refl, refl)

too_much :
    apply_event texts (credit_reserve (record window { capacity = 1001 }) (some lease)) start
    ≡ err exceeds_budget
unfolding apply_event apply_reserve window_is_invalid limits validate_reserve
    lease_capacity_exceeded credit_liability total_by
too_much = refl

pub start-IsSound : IsSound start
unfolding total_by
start-IsSound = record {
  budget = λ k l found. ground arith;
  account = λ user. omega arith;
  pool = λ rule upload. omega arith;
}

apply_event-IsSound_example : IsSound one_step
apply_event-IsSound_example =
    apply_event-IsSound texts (usage plain_fact (some lease)) start one_step steps start-IsSound
