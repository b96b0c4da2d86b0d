-- ===== src/Agent/Failover/Scores.antt =====
-- The scores of the round robin of internal/agent/failover.go.
use traffic_forwarding_panel.Prelude.{
  none_ne, ℕ, ◌+◌, ◌-◌, ◌%◌, ◌^◌, ◌≤◌, ◌<◌, ◌≡◌, refl, sym, ◌∙◌, inl, inr, none, Option-cases, List,
  [], ◌∷◌, arith,
}
use traffic_forwarding_panel.Prelude.Assoc.{
  Assoc, lookup, insert, total_by, total_by-insert, total_by-insert_new,
}
use traffic_forwarding_panel.Agent.Failover.{
  RouteCandidate, Rule, BackendState, fresh, backend_key, state_at, word, Scan, raise, touch, visit,
  scan_candidates, candidates, select_candidate, at_least_one,
}
use traffic_forwarding_panel.Agent.Failover.Round.{visit-cases}
use traffic_forwarding_panel.Agent.Failover.Best.{touch-best, raise-cases, settle-cases}
use traffic_forwarding_panel.Agent.Failover.Chosen.{begin}

abbrev pub scores : Assoc BackendState → ℕ
scores m = total_by (λ b. b.current) m

scores-insert :
    (k : ℕ) (b : BackendState) (m : Assoc BackendState)
    → scores (insert k b m) + (state_at k m).current ≡ scores m + b.current
scores-insert k b m = elim (Option-cases (lookup k m)) [
  | inl e ↦ rw (state_at, e) (omega (arith, total_by-insert_new (λ x. x.current) k b m e))
  | inr (old, e) ↦ rw (state_at, e) (total_by-insert (λ x. x.current) k old b m e)
]

touch-scores : (k : ℕ) (s : Scan) → scores (touch k s).states ≡ scores s.states
unfolding touch
touch-scores k s = elim (Option-cases (lookup k s.states)) [
  | inl e ↦ rw (touch, e) (omega (arith, total_by-insert_new (λ x. x.current) k fresh s.states e))
  | inr (b, e) ↦ rw (touch, e) refl
]

touch-total : (k : ℕ) (s : Scan) → (touch k s).total ≡ s.total
unfolding touch
touch-total k s = elim (Option-cases (lookup k s.states)) [
  | inl e ↦ rw (touch, e) refl
  | inr (b, e) ↦ rw (touch, e) refl
]

mod_below : (a : ℕ) → a % 2 ^ 64 < 2 ^ 64
mod_below a = omega arith

-- What the loop has added to the scores is its total.
record Balanced (before : ℕ) (s : Scan) : Type 0 where
  sum : scores s.states % word ≡ (before + s.total) % word
  bounded : s.total < word
  unmoved : s.best ≡ none → s.total ≡ 0

raise_sum :
    (a a' t w old before : ℕ)
    → a' + old ≡ a + (old + w) % 2 ^ 64
    → a % 2 ^ 64 ≡ (before + t) % 2 ^ 64
    → a' % 2 ^ 64 ≡ (before + (t + w) % 2 ^ 64) % 2 ^ 64
raise_sum a a' t w old before h i = omega arith

settle_sum :
    (a a' t old before : ℕ)
    → t ≤ 2 ^ 64
    → a' + old ≡ a + (old + (2 ^ 64 - t)) % 2 ^ 64
    → a % 2 ^ 64 ≡ (before + t) % 2 ^ 64
    → a' % 2 ^ 64 ≡ before % 2 ^ 64
settle_sum a a' t old before le h i = omega arith

module _ (before : ℕ) (r : Rule) (tried : List ℕ) (now : ℕ) where
  touch-Balanced : (k : ℕ) (s : Scan) → Balanced before s → Balanced before (touch k s)
  touch-Balanced k s i = record {
    sum = rw (touch-scores k s, touch-total k s) i.sum;
    bounded = rw (touch-total k s) i.bounded;
    unmoved = λ h. touch-total k s ∙ i.unmoved (sym (touch-best r tried now k s) ∙ h);
  }

  raise-Balanced :
      (k : ℕ) (c : RouteCandidate) (s : Scan) → Balanced before s → Balanced before (raise k c s)
  unfolding raise
  raise-Balanced k c s i = record {
    sum =
        raise_sum (scores s.states) _ s.total (at_least_one c.weight) (state_at k s.states).current
          before (scores-insert k _ s.states) i.sum;
    bounded = mod_below (s.total + at_least_one c.weight);
    unmoved = λ h. absurd (elim (raise-cases r tried now k c s) [
      | inl e ↦ none_ne (sym h ∙ e)
      | inr (p, _, e) ↦ none_ne (sym h ∙ e)
    ]);
  }

  scan_candidates-Balanced :
      (cs : List RouteCandidate) (s : Scan)
      → Balanced before s
      → Balanced before (scan_candidates r tried now cs s)
  unfolding scan_candidates
  scan_candidates-Balanced [] s i = i
  scan_candidates-Balanced (c ∷ cs) s i =
      let k = backend_key r c.id in
      scan_candidates-Balanced cs (visit r tried now c s) (elim (visit-cases r tried now c s) [
        | inl (_, inl e) ↦ rw e i
        | inl (_, inr e) ↦ rw e (touch-Balanced k s i)
        | inr (_, e) ↦ rw e (raise-Balanced k c (touch k s) (touch-Balanced k s i))
      ])

-- A selection leaves the sum of all scores as it was, as the 64-bit additions of the code count it.
pub select-scores :
    (r : Rule) (tried : List ℕ) (now : ℕ) (m : Assoc BackendState)
    → scores (select_candidate r tried now m).1 % 2 ^ 64 ≡ scores m % 2 ^ 64
unfolding select_candidate
select-scores r tried now m =
    let s = scan_candidates r tried now (candidates r) (begin m) in
    let i =
      scan_candidates-Balanced (scores m) r tried now (candidates r) (begin m)
        (record { sum = omega arith; bounded = omega arith; unmoved = λ _. refl }) in
    elim (settle-cases r tried now s) [
      | inl (none_best, e) ↦ rw e (omega (arith, i.sum, i.unmoved none_best))
      | inr (p, _, e) ↦ rw e (
          settle_sum (scores s.states) _ s.total (state_at p.0 s.states).current (scores m)
            (omega (arith, i.bounded)) (scores-insert p.0 _ s.states) i.sum)
    ]
