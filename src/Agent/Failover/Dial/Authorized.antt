-- ===== src/Agent/Failover/Dial/Authorized.antt =====
-- Which exit a dial of `dialCandidates` (internal/agent/failover.go) may end at.
use traffic_forwarding_panel.Prelude.{
  ℕ, zero, suc, ◌+◌, ◌≡◌, refl, ◌⊎◌, inl, inr, false, Bool-cases, Option, none, Option-cases, List,
  [], length, arith, ltb, ◌==◌,
}
use mathlib.Core.List.{Memᴰ}
use traffic_forwarding_panel.Prelude.Assoc.{Assoc}
use traffic_forwarding_panel.Agent.Failover.{
  code, EffectivePolicy, RouteCandidate, Rule, BackendState, candidates, select_candidate,
}
use traffic_forwarding_panel.Agent.Failover.Chosen.{select-cases}
use traffic_forwarding_panel.Agent.Failover.Dial.{
  Attempt, Result, Turn, done, again, dialed, is_mismatch, mark_tried, release_probe, dial, attempt,
  dial_loop, follow, take_turn, dial_candidates,
}

-- The candidate is one of the rule's, bills as the rule does, belongs to the rule's group of exits or
-- to none, and its policy passes the check.
pub record IsAuthorized (check : Option EffectivePolicy → Option ℕ) (r : Rule) (c : RouteCandidate)
    : Type 0 where
  pub listed : Memᴰ c (candidates r)
  pub billed : c.billing_multiplier ≡ r.billing_multiplier
  pub grouped : (c.exit_group_id ≡ 0) ⊎ (c.exit_group_id ≡ r.exit_group_id)
  pub checked : check c.effective_policy ≡ none

module _ (check : Option EffectivePolicy → Option ℕ) (r : Rule) where
  attempt-dialed :
      (a : Attempt) (c d : RouteCandidate) (m : Assoc BackendState)
      (p : Result × Assoc BackendState)
      → attempt check r a c m ≡ done p
      → p.0 ≡ dialed d
      → (c ≡ d) × (is_mismatch r c ≡ false) × (check c.effective_policy ≡ none)
  unfolding attempt dial release_probe
  attempt-dialed a c d m p h e = ground arith

  matching :
      (c : RouteCandidate)
      → is_mismatch r c ≡ false
      → (c.billing_multiplier ≡ r.billing_multiplier)
        × ((c.exit_group_id ≡ 0) ⊎ (c.exit_group_id ≡ r.exit_group_id))
  matching c h = elim (Bool-cases (c.exit_group_id == 0)) [
    | inl e ↦ (ground (arith, h), inl (ground (arith, e)))
    | inr e ↦ (ground (arith, h), inr (ground (arith, h, e)))
  ]

  authorized :
      (a : Attempt) (c d : RouteCandidate) (m : Assoc BackendState)
      (p : Result × Assoc BackendState)
      → Memᴰ c (candidates r)
      → attempt check r a c m ≡ done p
      → p.0 ≡ dialed d
      → IsAuthorized check r d
  authorized a c d m p within h e =
      let (same, good, passed) = attempt-dialed a c d m p h e in
      let (billed, grouped) = matching c good in
      let all : IsAuthorized check r c = record {
        listed = within;
        billed = billed;
        grouped = grouped;
        checked = passed;
      } in
      rw same at all

  follow-dialed :
      (t : Turn) (next : Assoc BackendState → Result × Assoc BackendState) (d : RouteCandidate)
      → ((p : Result × Assoc BackendState) → t ≡ done p → p.0 ≡ dialed d → IsAuthorized check r d)
      → ((m : Assoc BackendState) → (next m).0 ≡ dialed d → IsAuthorized check r d)
      → (follow t next).0 ≡ dialed d
      → IsAuthorized check r d
  unfolding follow
  follow-dialed (done p) next d now later h = now p refl h
  follow-dialed (again m) next d now later h = later m h

  loop-dialed :
      (w : ℕ → Attempt) (fuel n : ℕ) (tried : List ℕ) (m : Assoc BackendState) (d : RouteCandidate)
      → (dial_loop fuel check r w n tried m).0 ≡ dialed d
      → IsAuthorized check r d
  unfolding dial_loop take_turn
  loop-dialed w zero n tried m d h = absurd cc
  loop-dialed w (suc fuel) n tried m d h =
      elim (Bool-cases (ltb (length tried) (length (candidates r)))) [
        | inr over ↦ absurd (ground (arith, rw (dial_loop, over) at h))
        | inl some_left ↦
            let a = w n in
            let m1 = (select_candidate r tried a.chosen_at m).1 in
            elim (Option-cases (select_candidate r tried a.chosen_at m).0) [
              | inl e ↦ absurd (ground (arith, rw (dial_loop, some_left, e) at h))
              | inr (c, e) ↦
                  let (within, _, _, _) = select-cases r tried a.chosen_at m c e in
                  follow-dialed (attempt check r a c m1) _ d (λ p. authorized a c d m1 p within)
                    (λ m'. loop-dialed w fuel (n + 1) (mark_tried (code c.id) tried) m' d)
                    (rw (dial_loop, some_left, e) at h)
            ]
      ]

-- A dial that succeeds, whatever happens to the states meanwhile, ends at a candidate of the rule that
-- bills as the rule does, belongs to the rule's group of exits or to none, and whose policy passes the
-- check.
pub dial_candidates-IsAuthorized :
    (check : Option EffectivePolicy → Option ℕ) (r : Rule) (w : ℕ → Attempt)
    (m : Assoc BackendState) (c : RouteCandidate)
    → (dial_candidates check r w m).0 ≡ dialed c
    → IsAuthorized check r c
unfolding dial_candidates
dial_candidates-IsAuthorized check r w m c h =
    loop-dialed check r w (suc (length (candidates r))) 0 [] m c h
