-- ===== src/Agent/Charge/Debit.antt =====
-- The two loops of `TryCreditCharge` in internal/agent/credits.go: the survey and the debit.
use traffic_forwarding_panel.Prelude.{
  ℕ, ◌+◌, ◌-◌, ◌≤◌, ◌≡◌, refl, min, Bool, List, [], ◌∷◌, All, arith, if◌then◌else◌,
}
use traffic_forwarding_panel.Agent.Credits.{LiveCredit}
use traffic_forwarding_panel.Agent.Charge.{
  Rule, Survey, Counters, unspent, is_eligible, observe, survey, debited, counted, debit,
}

-- What the eligible windows of a pool can still pay, and how many there are.
unfoldable pub available : Rule → ℕ → List LiveCredit → ℕ
available r now [] = 0
available r now (c ∷ cs) = (if is_eligible r now c then unspent c else 0) + available r now cs

unfoldable pub eligible_count : Rule → ℕ → List LiveCredit → ℕ
eligible_count r now [] = 0
eligible_count r now (c ∷ cs) = (if is_eligible r now c then 1 else 0) + eligible_count r now cs

-- The bytes that were debited from the windows of a pool.
unfoldable pub used_total : List LiveCredit → ℕ
used_total [] = 0
used_total (c ∷ cs) = c.used + used_total cs

-- The windows that may not pay.
unfoldable pub others : Rule → ℕ → List LiveCredit → List LiveCredit
others r now [] = []
others r now (c ∷ cs) = let rest = others r now cs in if is_eligible r now c then rest else c ∷ rest

-- No window is overdrawn.
abbrev pub AllFit : List LiveCredit → Type 0
AllFit = All (λ c. c.used ≤ c.window.capacity)

module _ (r : Rule) (now : ℕ) (adaptive : Bool) where
  observe-counts :
      (c : LiveCredit) (v : Survey)
      → ((observe r now adaptive c v).remaining
          ≡ v.remaining + (if is_eligible r now c then unspent c else 0))
        × ((observe r now adaptive c v).eligible
            ≡ v.eligible + (if is_eligible r now c then 1 else 0))
  unfolding observe
  observe-counts c v = ground arith

  pub survey-counts :
      (cs : List LiveCredit) (v : Survey)
      → ((survey r now adaptive cs v).remaining ≡ v.remaining + available r now cs)
        × ((survey r now adaptive cs v).eligible ≡ v.eligible + eligible_count r now cs)
  unfolding survey available eligible_count
  survey-counts [] v = ground arith
  survey-counts (c ∷ cs) v =
      ground (arith, observe-counts c v, survey-counts cs (observe r now adaptive c v))

  pub debit-used_total :
      (cs : List LiveCredit) (n : ℕ) (v : Counters)
      → n ≤ available r now cs
      → used_total (debit r now adaptive cs n v).0 ≡ used_total cs + n
  unfolding debit available used_total
  debit-used_total [] n v h = ground arith
  debit-used_total (c ∷ cs) n v h =
      let m = min n (unspent c) in
      ground
        (arith, debit-used_total cs n v, debit-used_total cs (n - m) (counted now adaptive c m v))

  pub debit-AllFit :
      (cs : List LiveCredit) (n : ℕ) (v : Counters)
      → AllFit cs
      → AllFit (debit r now adaptive cs n v).0
  unfolding debit
  debit-AllFit [] n v h = tt
  debit-AllFit (c ∷ cs) n v h =
      let m = min n (unspent c) in
      ground
        (arith, debit-AllFit cs n v h.1, debit-AllFit cs (n - m) (counted now adaptive c m v) h.1)

  same_eligible :
      (c : LiveCredit) (n : ℕ) → is_eligible r now (debited now c n) ≡ is_eligible r now c
  unfolding is_eligible
  same_eligible c n = refl

  pub debit-others :
      (cs : List LiveCredit) (n : ℕ) (v : Counters)
      → others r now (debit r now adaptive cs n v).0 ≡ others r now cs
  unfolding debit others
  debit-others [] n v = refl
  debit-others (c ∷ cs) n v =
      let m = min n (unspent c) in
      ground (
        arith,
        same_eligible c m,
        debit-others cs n v,
        debit-others cs (n - m) (counted now adaptive c m v),
      )
