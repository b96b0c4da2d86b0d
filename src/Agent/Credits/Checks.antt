-- ===== src/Agent/Credits/Checks.antt =====
-- What the checks of each event (internal/agent/credits.go, state.go) establish, and what the event
-- writes to the leases, the windows and the usage.
use traffic_forwarding_panel.Prelude.{
  ℕ, ◌+◌, ◌-◌, ◌≤◌, ◌<◌, ◌≡◌, inl, inr, true, false, Option-cases, Option, none, some, arith, ◌==◌,
  if◌then◌else◌,
}
use traffic_forwarding_panel.Prelude.Assoc.{Assoc, lookup, insert, erase, lookup-insert, total_by}
use traffic_forwarding_panel.Contract.Usage.{UsageRecord, Texts}
use traffic_forwarding_panel.Prelude.Fallible.{ok, Fallible-cases}
use traffic_forwarding_panel.Agent.Credits.{
  max_account_credits, Lease, CreditWindow, Store, count_of, on_user, in_pool, credit_liability,
}
use traffic_forwarding_panel.Agent.Credits.Events.{
  window_is_invalid, validate_reserve, usage_is_invalid, validate_usage, same_window,
  validate_progress, add_live, update_live, add_usage, write_window, apply_reserve, apply_progress,
  usage_lease, apply_usage,
}

pub count_of-insert :
    (j k n : ℕ) (m : Assoc ℕ) → count_of j (insert k n m) ≡ (if k == j then n else count_of j m)
count_of-insert j k n m = ground (arith, lookup-insert k j n m)

module _ (t : Texts) where
  -- What the checks of a reservation establish, and what it writes.
  pub record Reserved (w : CreditWindow) (s s' : Store) : Type 0 where
    pub l : Lease
    pub fresh : lookup w.id s.windows ≡ none
    pub unspent : w.confirmed ≡ 0
    pub fits : count_of w.lease s.used + credit_liability w.lease s.windows + w.capacity ≤ l.bytes
    pub one_more : total_by (in_pool w.rule w.upload) s.windows < 2
    pub funded : total_by (on_user w.user) s.windows + w.capacity ≤ max_account_credits
    pub windows : s'.windows ≡ insert w.id w s.windows
    pub leases : s'.leases ≡ insert w.lease l s.leases
    pub used : s'.used ≡ s.used

  validate_reserve_fits :
      (w : CreditWindow) (lease : Option Lease) (s : Store) {l : Lease}
      → 0 < w.capacity
      → validate_reserve w lease s ≡ ok l
      → (lookup w.id s.windows ≡ none)
        × (w.confirmed ≡ 0)
        × (count_of w.lease s.used + credit_liability w.lease s.windows + w.capacity ≤ l.bytes)
        × (total_by (in_pool w.rule w.upload) s.windows < 2)
        × (total_by (on_user w.user) s.windows + w.capacity ≤ max_account_credits)
  unfolding validate_reserve
  validate_reserve_fits w none s p h = absurd (ground arith)
  validate_reserve_fits w (some l) s p h = ground arith

  window_capacity :
      (w : CreditWindow)
      → window_is_invalid t w ≡ false
      → (0 < w.capacity) × (w.confirmed ≤ w.capacity)
  unfolding window_is_invalid
  window_capacity w h = ground arith

  pub reserved :
      (w : CreditWindow) (lease : Option Lease) (s s' : Store)
      → apply_reserve t w lease s ≡ ok s'
      → Reserved w s s'
  unfolding apply_reserve add_live
  reserved w lease s s' h = elim (Fallible-cases (validate_reserve w lease s)) [
    | inl (e, failed) ↦ absurd (ground arith)
    | inr (l, good) ↦
        let c = window_capacity w (ground arith) in
        let f = validate_reserve_fits w lease s c.0 good in
        record {
          l = l;
          fresh = f.0;
          unspent = f.1;
          fits = f.2;
          one_more = f.3;
          funded = f.4;
          windows = ground arith;
          leases = ground arith;
          used = ground arith;
        }
  ]

  -- What the checks of a progress event establish, and what it writes.
  pub record Progressed (w : CreditWindow) (s s' : Store) : Type 0 where
    pub old : CreditWindow
    pub found : lookup w.id s.windows ≡ some old
    pub same : same_window w old ≡ true
    pub grows : old.confirmed ≤ w.confirmed
    pub whole : w.confirmed ≤ w.capacity
    pub windows : s'.windows ≡ (if w.closed then erase w.id s.windows else insert w.id w s.windows)
    pub leases : s'.leases ≡ s.leases
    pub used :
        (k : ℕ)
        → count_of k s'.used
          ≡ count_of k s.used + (if w.lease == k then w.confirmed - old.confirmed else 0)

  usage_exact :
      (w : CreditWindow) (delta : ℕ) (u : UsageRecord) (s : Store)
      → usage_is_invalid t w delta u s ≡ false
      → u.upload + u.download ≡ delta
  unfolding usage_is_invalid
  usage_exact w delta u s h = ground arith

  used_after :
      (w : CreditWindow) (delta : ℕ) (u : Option UsageRecord) (s : Store) (k : ℕ)
      → validate_usage t w delta u s ≡ ok tt
      → count_of k (add_usage u w s).used ≡ count_of k s.used + (if w.lease == k then delta else 0)
  unfolding validate_usage add_usage
  used_after w delta none s k h = ground arith
  used_after w delta (some u) s k h =
      rw (count_of-insert k w.lease (count_of w.lease s.used + (u.upload + u.download)) s.used)
        (ground (arith, usage_exact w delta u s))

  -- The steps behind the checks leave the ledger fields as the first two wrote them.
  progress_writes :
      (w : CreditWindow) (u : Option UsageRecord) (s s' : Store)
      → apply_progress t w u s ≡ ok s'
      → (s'.windows ≡ (if w.closed then erase w.id s.windows else insert w.id w s.windows))
        × (s'.leases ≡ s.leases)
        × (s'.used ≡ (add_usage u w s).used)
        × (window_is_invalid t w ≡ false)
        × (validate_progress t w u s ≡ ok tt)
  unfolding apply_progress update_live write_window add_usage
  progress_writes w none s s' h = ground arith
  progress_writes w (some u) s s' h = ground arith

  validate_progress_checks :
      (w old : CreditWindow) (u : Option UsageRecord) (s : Store)
      → lookup w.id s.windows ≡ some old
      → validate_progress t w u s ≡ ok tt
      → (same_window w old ≡ true)
        × (old.confirmed ≤ w.confirmed)
        × (validate_usage t w (w.confirmed - old.confirmed) u s ≡ ok tt)
  unfolding validate_progress
  validate_progress_checks w old u s f h = ground arith

  pub progressed :
      (w : CreditWindow) (u : Option UsageRecord) (s s' : Store)
      → apply_progress t w u s ≡ ok s'
      → Progressed w s s'
  unfolding validate_progress
  progressed w u s s' h =
      let (windows, leases, used, valid, checks) = progress_writes w u s s' h in
      elim (Option-cases (lookup w.id s.windows)) [
        | inl missing ↦ absurd (ground arith)
        | inr (old, f) ↦
            let c = validate_progress_checks w old u s f checks in
            record {
              old = old;
              found = f;
              same = c.0;
              grows = c.1;
              whole = (window_capacity w valid).1;
              windows = windows;
              leases = leases;
              used = λ k. rw used (used_after w (w.confirmed - old.confirmed) u s k c.2);
            }
      ]

-- What the checks of a usage event establish, and what it writes.
pub record Used (u : UsageRecord) (s s' : Store) : Type 0 where
  pub l : Lease
  pub held : (old : Lease) → lookup u.lease s.leases ≡ some old → l ≡ old
  pub fits :
      count_of u.lease s.used + credit_liability u.lease s.windows + (u.upload + u.download)
      ≤ l.bytes
  pub leases : s'.leases ≡ insert u.lease l s.leases
  pub windows : s'.windows ≡ s.windows
  pub used : s'.used ≡ insert u.lease (count_of u.lease s.used + (u.upload + u.download)) s.used

usage_lease-held :
    (u : UsageRecord) (incoming : Option Lease) (s : Store) {l : Lease}
    → usage_lease u incoming s ≡ ok l
    → (old : Lease) → lookup u.lease s.leases ≡ some old
    → l ≡ old
unfolding usage_lease
usage_lease-held u incoming s h old f = ground arith

pub used :
    (u : UsageRecord) (incoming : Option Lease) (s s' : Store)
    → apply_usage u incoming s ≡ ok s'
    → Used u s s'
unfolding apply_usage
used u incoming s s' h = elim (Fallible-cases (usage_lease u incoming s)) [
  | inl (e, failed) ↦ absurd (ground arith)
  | inr (l, good) ↦ record {
    l = l;
    held = usage_lease-held u incoming s good;
    fits = ground arith;
    leases = ground arith;
    windows = ground arith;
    used = ground arith;
  }
]
