-- ===== src/Agent/Charge/Admission.antt =====
-- `TryCreditCharge` of internal/agent/credits.go as a whole: its answer, its debit and its refill.
use traffic_forwarding_panel.Prelude.{
  ℕ, ◌+◌, ◌≤◌, ◌<◌, ◌≡◌, ◌≢◌, ◌↔◌, false, not, ◌&&◌, none, some, arith, ltb,
}
use traffic_forwarding_panel.Agent.Charge.{
  Rule, Pool, Call, admitted, rule_leases, largest, Survey, Counters, survey, starting_target,
  after_refill, charge_pool, try_credit_charge,
}
use traffic_forwarding_panel.Agent.Charge.Debit.{
  available, eligible_count, used_total, others, AllFit, survey-counts, debit-used_total,
  debit-AllFit, debit-others,
}

module _ (r : Rule) (call : Call) (n : ℕ) (p : Pool) where
  -- The survey that the call starts from.
  first : Survey
  first = record {
    remaining = 0;
    spendable = 0;
    eligible = 0;
    target = starting_target (r.tcp && not call.pause_growth) call.now p;
  }

  surveyed :
      let v = survey r call.now (r.tcp && not call.pause_growth) p.credits first in
      (v.remaining ≡ available r call.now p.credits)
      × (v.eligible ≡ eligible_count r call.now p.credits)
  unfolding first
  surveyed =
      omega (arith, survey-counts r call.now (r.tcp && not call.pause_growth) p.credits first)

  charge_pool_admits :
      ((charge_pool r call n p).0 ≡ admitted)
      ↔ ((0 < eligible_count r call.now p.credits) × (n ≤ available r call.now p.credits))
  unfolding charge_pool first
  charge_pool_admits = (λ h. ground (arith, surveyed), λ h. ground (arith, surveyed))

  -- The guards before the lock passed.
  reached :
      call.failed ≡ false
      → r.lease ≢ none
      → (r.tcp && ltb (largest (rule_leases r)) n) ≡ false
      → call.now < call.until
      → try_credit_charge r call n p ≡ charge_pool r call n p
  unfolding try_credit_charge
  reached f l s t = ground arith

  reached_if_admitted :
      (try_credit_charge r call n p).0 ≡ admitted
      → try_credit_charge r call n p ≡ charge_pool r call n p
  unfolding try_credit_charge
  reached_if_admitted h = ground arith

  charge_pool_debits :
      (charge_pool r call n p).0 ≡ admitted
      → let p' = (charge_pool r call n p).1 in
        (used_total p'.credits ≡ used_total p.credits + n)
        × (others r call.now p'.credits ≡ others r call.now p.credits)
        × (AllFit p.credits → AllFit p'.credits)
  unfolding charge_pool first
  charge_pool_debits h =
      let adaptive = r.tcp && not call.pause_growth in
      let v = survey r call.now adaptive p.credits first in
      let start : Counters = record { spendable = v.spendable; target = v.target } in
      let enough : n ≤ available r call.now p.credits = (charge_pool_admits.0 h).1 in
      (
        ground (arith, debit-used_total r call.now adaptive p.credits n start enough),
        ground (arith, debit-others r call.now adaptive p.credits n start),
        λ f. ground (arith, debit-AllFit r call.now adaptive p.credits n start f),
      )

-- A call with working storage, a rule that has a lease, a payload within the rule's largest lease
-- where the rule is TCP, and an instant before the end of its validity is admitted exactly when some
-- window is eligible and the eligible windows together can pay for the payload.
pub try_credit_charge_iff :
    (r : Rule) (call : Call) (n : ℕ) (p : Pool)
    → call.failed ≡ false
    → r.lease ≢ none
    → (r.tcp && ltb (largest (rule_leases r)) n) ≡ false
    → call.now < call.until
    → ((try_credit_charge r call n p).0 ≡ admitted)
      ↔ ((0 < eligible_count r call.now p.credits) × (n ≤ available r call.now p.credits))
try_credit_charge_iff r call n p f l s t =
    rw (reached r call n p f l s t) (charge_pool_admits r call n p)

debits_if_admitted :
    (r : Rule) (call : Call) (n : ℕ) (p : Pool)
    → (try_credit_charge r call n p).0 ≡ admitted
    → let p' = (try_credit_charge r call n p).1 in
      (used_total p'.credits ≡ used_total p.credits + n)
      × (others r call.now p'.credits ≡ others r call.now p.credits)
      × (AllFit p.credits → AllFit p'.credits)
debits_if_admitted r call n p h =
    let e = reached_if_admitted r call n p h in rw e (charge_pool_debits r call n p (rw e at h))

-- On a pool without overdrawn windows, an admitted charge of `n` bytes debits exactly `n` bytes from
-- the pool, leaves every window that is not eligible as it was, and overdraws no window.
pub charge_debits :
    (r : Rule) (call : Call) (n : ℕ) (p : Pool)
    → AllFit p.credits
    → (try_credit_charge r call n p).0 ≡ admitted
    → let p' = (try_credit_charge r call n p).1 in
      (used_total p'.credits ≡ used_total p.credits + n)
      × (others r call.now p'.credits ≡ others r call.now p.credits)
      × AllFit p'.credits
charge_debits r call n p f h = let d = debits_if_admitted r call n p h in (d.0, d.1, d.2 f)

-- A refill is requested only while none is on its way, and it is on its way afterwards exactly when
-- the writer's queue took the request.
pub refill_once :
    (r : Rule) (call : Call) (n size : ℕ) (p : Pool)
    → (try_credit_charge r call n p).2 ≡ some size
    → (p.refilling ≡ false) × ((try_credit_charge r call n p).1.refilling ≡ call.queue_open)
unfolding try_credit_charge charge_pool after_refill
refill_once r call n size p h = ground arith
