-- ===== src/Agent/Failover/Dial.antt =====
-- `dialCandidates` of internal/agent/failover.go: the exits of a rule are tried one after another.
-- The lock is free while an exit is checked and dialed: what the other holders of the lock do to the
-- states meanwhile is an argument, and so are the clock and the outcome of each dial.
pub mod Fuel
pub mod Safe
pub mod Authorized
mod Examples
use traffic_forwarding_panel.Prelude.{
  ℕ, zero, suc, ◌+◌, any, Bool, true, false, not, ◌&&◌, ◌||◌, Option, none, some, List, [], ◌∷◌,
  length, ltb, ◌==◌, if◌then◌else◌,
}
use traffic_forwarding_panel.Prelude.Assoc.{Assoc, lookup, insert}
use traffic_forwarding_panel.Agent.Failover.{
  Text, code, EffectivePolicy, RouteCandidate, Rule, BackendState, backend_key, candidates,
  select_candidate, mark_candidate, member,
}

-- `expired`: the dial failed and the context of the whole call is over.
pub data Outcome : Type 0 where
  connected refused expired : Outcome

-- One turn of the loop: the two readings of the clock, what happens to the states while the exit is
-- checked and while it is dialed, and the outcome.
pub record Attempt : Type 0 where
  pub chosen_at : ℕ
  pub checking : Assoc BackendState → Assoc BackendState
  pub dialing : Assoc BackendState → Assoc BackendState
  pub outcome : Outcome
  pub marked_at : ℕ

-- `panicked`: a nil pointer is followed, and the process ends. `out_of_fuel`: the loop is still running.
pub data Error : Type 0 where
  mismatch call_over all_candidates_unavailable panicked out_of_fuel : Error
  denied : ℕ → Error

pub data Result : Type 0 where
  dialed : RouteCandidate → Result
  failed : Error → Result

abbrev pub is_mismatch : Rule → RouteCandidate → Bool
is_mismatch r c =
    not (c.billing_multiplier == r.billing_multiplier)
    || not (c.exit_group_id == 0) && not (c.exit_group_id == r.exit_group_id)

-- `b.backends[b.backendKey(v, c.ID)].probing = false`, and the return of the error
unfoldable pub release_probe :
    Rule → RouteCandidate → Error → Assoc BackendState → Result × Assoc BackendState
release_probe r c e m = elim (lookup (backend_key r c.id) m) [
  | none ↦ (failed panicked, m)
  | some b ↦ (failed e, insert (backend_key r c.id) (record b { probing = false }) m)
]

-- A turn of the loop with the candidate it has chosen: a result, or the states for the next turn.
pub data Turn : Type 0 where
  done : Result × Assoc BackendState → Turn
  again : Assoc BackendState → Turn

unfoldable pub dial : Rule → Attempt → RouteCandidate → Assoc BackendState → Turn
dial r a c m = elim a.outcome [
  | connected ↦ done (dialed c, mark_candidate r c.id false a.marked_at (a.dialing m))
  | refused ↦ again (mark_candidate r c.id true a.marked_at (a.dialing m))
  | expired ↦ done (release_probe r c call_over (a.dialing m))
]

unfoldable pub attempt :
    (Option EffectivePolicy → Option ℕ)
    → Rule
    → Attempt
    → RouteCandidate
    → Assoc BackendState
    → Turn
attempt check r a c m =
    if is_mismatch r c then done (failed mismatch, m) else elim (check c.effective_policy) [
      | some e ↦ done (release_probe r c (denied e) (a.checking m))
      | none ↦ dial r a c (a.checking m)
    ]

-- What is left of the loop after a selection; `next` is the loop from the next turn on.
unfoldable pub follow :
    Turn → (Assoc BackendState → Result × Assoc BackendState) → Result × Assoc BackendState
follow (done result) next = result
follow (again m) next = next m

unfoldable pub take_turn :
    (Option EffectivePolicy → Option ℕ)
    → Rule
    → Attempt
    → Option RouteCandidate
    → Assoc BackendState
    → (RouteCandidate → Assoc BackendState → Result × Assoc BackendState)
    → Result × Assoc BackendState
take_turn check r a none m next = (failed all_candidates_unavailable, m)
take_turn check r a (some c) m next = follow (attempt check r a c m) (next c)

-- `tried[id] = true`, on a set of ids
unfoldable pub mark_tried : ℕ → List ℕ → List ℕ
mark_tried id tried = if member id tried then tried else id ∷ tried

-- The loop on fuel, in its turn `n`: it runs while fewer ids are tried than the rule has candidates.
unfoldable pub dial_loop :
    ℕ
    → (Option EffectivePolicy → Option ℕ)
    → Rule
    → (ℕ → Attempt)
    → ℕ
    → List ℕ
    → Assoc BackendState
    → Result × Assoc BackendState
dial_loop zero check r w n tried m = (failed out_of_fuel, m)
dial_loop (suc fuel) check r w n tried m =
    if not (ltb (length tried) (length (candidates r)))
    then (failed all_candidates_unavailable, m)
    else let a = w n in
      let chosen = select_candidate r tried a.chosen_at m in
      take_turn check r a chosen.0 chosen.1
        (λ c m'. dial_loop fuel check r w (n + 1) (mark_tried (code c.id) tried) m')

-- A `check` of nil is one that refuses nothing.
unfoldable pub dial_candidates :
    (Option EffectivePolicy → Option ℕ)
    → Rule
    → (ℕ → Attempt)
    → Assoc BackendState
    → Result × Assoc BackendState
dial_candidates check r w m = dial_loop (suc (length (candidates r))) check r w 0 [] m

unfoldable pub dial_backends :
    Rule → (ℕ → Attempt) → Assoc BackendState → Result × Assoc BackendState
dial_backends r w m = dial_candidates (λ _. none) r w m
