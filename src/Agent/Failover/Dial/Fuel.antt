-- ===== src/Agent/Failover/Dial/Fuel.antt =====
-- How many turns the loop of `dialCandidates` (internal/agent/failover.go) takes.
use traffic_forwarding_panel.Prelude.{
  ℕ, zero, suc, ◌+◌, ◌≤◌, ◌≡◌, ◌≢◌, refl, sym, ◌∙◌, ap, inl, inr, false, Bool-cases, Option, some,
  Option-cases, List, [], ◌∷◌, length, arith, ltb,
}
use traffic_forwarding_panel.Prelude.Assoc.{Assoc}
use traffic_forwarding_panel.Agent.Failover.{
  code, member, EffectivePolicy, RouteCandidate, Rule, BackendState, candidates, select_candidate,
}
use traffic_forwarding_panel.Agent.Failover.Chosen.{select_candidate_fit}
use traffic_forwarding_panel.Agent.Failover.Dial.{
  Attempt, Result, Turn, done, again, failed, out_of_fuel, mark_tried, release_probe, dial, attempt,
  dial_loop, follow, take_turn, dial_candidates,
}

zero_add : (a : ℕ) → 0 + a ≡ a
zero_add a = omega arith

suc_add : (a b : ℕ) → suc a + b ≡ suc (a + b)
suc_add a b = omega arith

add_suc : (a b : ℕ) → a + suc b ≡ suc (a + b)
add_suc a b = omega arith

-- A candidate that is chosen was not tried before, so that the tried ones become more.
pub mark_tried_chosen :
    (r : Rule) (tried : List ℕ) (now : ℕ) (m : Assoc BackendState) (c : RouteCandidate)
    → (select_candidate r tried now m).0 ≡ some c
    → mark_tried (code c.id) tried ≡ code c.id ∷ tried
unfolding mark_tried
mark_tried_chosen r tried now m c h =
    let (_, up) = select_candidate_fit r tried now m c h in
    let new : member (code c.id) tried ≡ false = ground (arith, up) in rw new refl

attempt_ends :
    (check : Option EffectivePolicy → Option ℕ) (r : Rule) (a : Attempt) (c : RouteCandidate)
    (m : Assoc BackendState) (p : Result × Assoc BackendState)
    → attempt check r a c m ≡ done p
    → p.0 ≢ failed out_of_fuel
unfolding attempt dial release_probe
attempt_ends check r a c m p h = ground arith

follow_ends :
    (t : Turn) (next : Assoc BackendState → Result × Assoc BackendState)
    → ((p : Result × Assoc BackendState) → t ≡ done p → p.0 ≢ failed out_of_fuel)
    → ((m : Assoc BackendState) → (next m).0 ≢ failed out_of_fuel)
    → (follow t next).0 ≢ failed out_of_fuel
unfolding follow
follow_ends (done p) next ends rest = ends p refl
follow_ends (again m) next ends rest = rest m

module _ (check : Option EffectivePolicy → Option ℕ) (r : Rule) (w : ℕ → Attempt) where
  pub one_more :
      (fuel n : ℕ) (tried : List ℕ) (m : Assoc BackendState)
      → length (candidates r) ≤ length tried + fuel
      → dial_loop (suc (suc fuel)) check r w n tried m ≡ dial_loop (suc fuel) check r w n tried m
  unfolding dial_loop take_turn
  one_more zero n tried m h =
      let over : ltb (length tried) (length (candidates r)) ≡ false = ground arith in rw over refl
  one_more (suc fuel) n tried m h = elim (Bool-cases (ltb (length tried) (length (candidates r)))) [
    | inr over ↦ rw over refl
    | inl some_left ↦ elim (Option-cases (select_candidate r tried (w n).chosen_at m).0) [
      | inl e ↦ rw (some_left, e) refl
      | inr (c, e) ↦
          let grown = mark_tried_chosen r tried (w n).chosen_at m c e in
          rw (some_left, e, grown)
            (ap (follow (attempt check r (w n) c _))
              (λ i m'. one_more fuel (n + 1) (code c.id ∷ tried) m' (omega (arith, h)) i))
    ]
  ]

  enough :
      (extra fuel n : ℕ) (tried : List ℕ) (m : Assoc BackendState)
      → length (candidates r) ≤ length tried + fuel
      → dial_loop (extra + suc fuel) check r w n tried m ≡ dial_loop (suc fuel) check r w n tried m
  enough zero fuel n tried m h = rw (zero_add (suc fuel)) refl
  enough (suc extra) fuel n tried m h =
      rw (suc_add extra (suc fuel), add_suc extra fuel)
        (one_more (extra + fuel) n tried m (omega (arith, h))
          ∙ rw (sym (add_suc extra fuel)) (enough extra fuel n tried m h))

  -- With as much fuel the loop ends.
  loop_ends :
      (fuel n : ℕ) (tried : List ℕ) (m : Assoc BackendState)
      → length (candidates r) ≤ length tried + fuel
      → (dial_loop (suc fuel) check r w n tried m).0 ≢ failed out_of_fuel
  unfolding dial_loop take_turn
  loop_ends zero n tried m h =
      let over : ltb (length tried) (length (candidates r)) ≡ false = ground arith in
      rw over (λ e. cc)
  loop_ends (suc fuel) n tried m h =
      elim (Bool-cases (ltb (length tried) (length (candidates r)))) [
        | inr over ↦ rw over (λ e. cc)
        | inl some_left ↦
            let a = w n in
            let m1 = (select_candidate r tried a.chosen_at m).1 in
            elim (Option-cases (select_candidate r tried a.chosen_at m).0) [
              | inl e ↦ rw (some_left, e) (λ e. cc)
              | inr (c, e) ↦
                  let grown = mark_tried_chosen r tried a.chosen_at m c e in
                  rw (some_left, e, grown)
                    (follow_ends (attempt check r a c m1) _ (λ p. attempt_ends check r a c m1 p)
                      (λ m'. loop_ends fuel (n + 1) (code c.id ∷ tried) m' (omega (arith, h))))
            ]
      ]

-- The loop over the candidates ends, within one turn for each candidate of the rule and one more test
-- of its condition: it does not run out of fuel, and with any more of it the result is the same.
pub dial_candidates_total :
    (check : Option EffectivePolicy → Option ℕ) (r : Rule) (w : ℕ → Attempt)
    (m : Assoc BackendState) (extra : ℕ)
    → ((dial_candidates check r w m).0 ≢ failed out_of_fuel)
      × (dial_loop (extra + suc (length (candidates r))) check r w 0 [] m
          ≡ dial_candidates check r w m)
unfolding dial_candidates
dial_candidates_total check r w m extra =
    let n = length (candidates r) in
    (loop_ends check r w n 0 [] m (omega arith), enough check r w extra n 0 [] m (omega arith))
