-- ===== src/Agent/Failover/Chosen.antt =====
-- Which candidate `selectCandidate` of internal/agent/failover.go takes.
use traffic_forwarding_panel.Prelude.{
  none_ne, some_inj, ℕ, ◌≡◌, ◌↔◌, refl, sym, ◌∙◌, ap, inl, inr, true, false, none, some, List, All,
}
use mathlib.Core.List.{Memᴰ}
use traffic_forwarding_panel.Prelude.Assoc.{Assoc, insert}
use traffic_forwarding_panel.Agent.Failover.{
  RouteCandidate, Rule, BackendState, backend_key, state_at, Scan, scan_candidates, candidates,
  select_candidate, chosen,
}
use traffic_forwarding_panel.Agent.Failover.Round.{Kept, selectable}
use traffic_forwarding_panel.Agent.Failover.Best.{
  scan_candidates-Kept, scan_candidates-Better, best_stays, no_best, settle-cases, settle-none,
}

abbrev pub begin : Assoc BackendState → Scan
begin m = record { states = m; total = 0; best = none }

-- A selection takes no candidate just where each of the rule's was tried, or its key is cooling down
-- or being probed.
pub select_candidate-none :
    (r : Rule) (tried : List ℕ) (now : ℕ) (m : Assoc BackendState)
    → ((select_candidate r tried now m).0 ≡ none)
      ↔ All (λ c. selectable r tried now m c ≡ false) (candidates r)
unfolding select_candidate
select_candidate-none r tried now m = (
  λ h. (best_stays r tried now (candidates r) (begin m) (settle-none r tried now _ h)).1,
  λ a.
      let b = no_best r tried now (candidates r) (begin m) refl a in
      elim (settle-cases r tried now (scan_candidates r tried now (candidates r) (begin m))) [
        | inl (_, e) ↦ ap (λ y. y.0) e
        | inr (p, i, e) ↦ absurd (none_ne (sym b ∙ i))
      ],
)

-- The best of the scan that a selection ends with.
pub select-cases :
    (r : Rule) (tried : List ℕ) (now : ℕ) (m : Assoc BackendState) (c : RouteCandidate)
    → (select_candidate r tried now m).0 ≡ some c
    → let s = scan_candidates r tried now (candidates r) (begin m) in
      let k = backend_key r c.id in
      Memᴰ c (candidates r)
      × (selectable r tried now m c ≡ true)
      × Kept m s.states
      × ((select_candidate r tried now m).1
          ≡ insert k (chosen s.total (state_at k s.states)) s.states)
unfolding select_candidate
select-cases r tried now m c h =
    let s = scan_candidates r tried now (candidates r) (begin m) in
    elim (settle-cases r tried now s) [
      | inl (_, e) ↦ absurd (none_ne (sym (ap (λ y. y.0) e) ∙ h))
      | inr (p, i, e) ↦
          let q : p.1 ≡ c = some_inj (sym (ap (λ y. y.0) e) ∙ h) in
          elim (scan_candidates-Better r tried now (candidates r) (begin m) p i) [
            | inl old ↦ absurd (none_ne old)
            | inr (within, up, k) ↦
                let key : p.0 ≡ backend_key r c.id = k ∙ ap (λ d. backend_key r d.id) q in
                rw (sym q) (
                  within,
                  up,
                  scan_candidates-Kept r tried now (candidates r) (begin m),
                  rw (sym k) (ap (λ y. y.1) e),
                )
          ]
    ]

-- A candidate that a selection takes is one of the rule's, was not tried, and its key is neither
-- cooling down nor being probed.
pub select_candidate_fit :
    (r : Rule) (tried : List ℕ) (now : ℕ) (m : Assoc BackendState) (c : RouteCandidate)
    → (select_candidate r tried now m).0 ≡ some c
    → Memᴰ c (candidates r) × (selectable r tried now m c ≡ true)
select_candidate_fit r tried now m c h =
    let (within, up, _, _) = select-cases r tried now m c h in (within, up)

pub select_none-Kept :
    (r : Rule) (tried : List ℕ) (now : ℕ) (m : Assoc BackendState)
    → (select_candidate r tried now m).0 ≡ none
    → Kept m (select_candidate r tried now m).1
unfolding select_candidate
select_none-Kept r tried now m h =
    elim (settle-cases r tried now (scan_candidates r tried now (candidates r) (begin m))) [
      | inl (_, e) ↦ rw e (scan_candidates-Kept r tried now (candidates r) (begin m))
      | inr (p, _, e) ↦ absurd (none_ne (sym h ∙ ap (λ y. y.0) e))
    ]
