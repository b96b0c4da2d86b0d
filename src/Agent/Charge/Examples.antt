-- ===== src/Agent/Charge/Examples.antt =====
-- Charges against a concrete pool.
use traffic_forwarding_panel.Prelude.{
  ℕ, ◌+◌, ◌^◌, ◌≤◌, ◌<◌, ◌≡◌, ◌↔◌, refl, any, true, false, some, none, [], ◌∷◌, arith,
}
use traffic_forwarding_panel.Agent.Credits.{Lease, CreditWindow, LiveCredit}
use traffic_forwarding_panel.Agent.Charge.{
  Rule, Pool, Call, admitted, credit_unavailable, rule_leases, largest, is_eligible, grown, observe,
  survey, debit, starting_target, charge_pool, try_credit_charge,
}
use traffic_forwarding_panel.Agent.Charge.Debit.{
  available, eligible_count, used_total, others, AllFit,
}
use traffic_forwarding_panel.Agent.Charge.Admission.{try_credit_charge_iff, charge_debits}

abbrev lease : Lease
lease = record { id = 5; ent = 1; bytes = 1000; expires = 10 ^ 12 }

abbrev rule : Rule
rule = record { owner = 7; tcp = true; lease = some lease; standby = none }

abbrev window : ℕ → ℕ → CreditWindow
window id user = record {
  id = id;
  user = user;
  rule = 3;
  lease = 5;
  upload = true;
  capacity = 100;
  confirmed = 0;
  sequence = 0;
  started = 10;
  until = 10 ^ 12;
  closed = false;
  tcp = true;
}

abbrev live : ℕ → ℕ → ℕ → LiveCredit
live id user used = record { window = window id user; used = used; last = 10; closed = false }

-- The second window is another account's.
abbrev pool : Pool
pool = record {
  credits = live 1 7 40 ∷ live 2 8 0 ∷ live 3 7 90 ∷ [];
  target_size = 0;
  target_last = 0;
  refilling = false;
}

abbrev call : Call
call = record {
  failed = false;
  pause_growth = false;
  now = 10 ^ 10;
  until = 10 ^ 11;
  queue_open = true;
}

pays : (try_credit_charge rule call 65 pool).0 ≡ admitted
unfolding try_credit_charge rule_leases largest charge_pool starting_target survey observe
    is_eligible any grown debit
pays = refl

too_large : (try_credit_charge rule call 71 pool).0 ≡ credit_unavailable
unfolding try_credit_charge rule_leases largest charge_pool starting_target survey observe
    is_eligible any grown debit
too_large = refl

refills : (try_credit_charge rule call 71 pool).2 ≡ some 262144
unfolding try_credit_charge rule_leases largest charge_pool starting_target survey observe
    is_eligible any grown debit
refills = refl

try_credit_charge_iff_example : ((try_credit_charge rule call 65 pool).0 ≡ admitted) ↔ (
    (0 < eligible_count rule (10 ^ 10) pool.credits) × (65 ≤ available rule (10 ^ 10) pool.credits))
unfolding rule_leases largest
try_credit_charge_iff_example =
    try_credit_charge_iff rule call 65 pool refl (λ e. ground arith) refl (omega arith)

charge_debits_example :
    let p' = (try_credit_charge rule call 65 pool).1 in
    (used_total p'.credits ≡ used_total pool.credits + 65)
    × (others rule (10 ^ 10) p'.credits ≡ others rule (10 ^ 10) pool.credits)
    × AllFit p'.credits
charge_debits_example = charge_debits rule call 65 pool (ground arith) pays
