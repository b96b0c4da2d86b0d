-- ===== src/Agent/Failover/Examples.antt =====
-- A rule with two exits, of the weights 3 and 1.
use traffic_forwarding_panel.Prelude.{
  ℕ, ◌+◌, ◌%◌, ◌^◌, ◌≡◌, ◌≢◌, refl, ap, not, true, false, Option, none, some, [], ◌∷◌, ◌==◌, ◌*◌,
  ◌-◌, any, arith,
}
use traffic_forwarding_panel.Prelude.Assoc.{Assoc, lookup}
use traffic_forwarding_panel.Agent.Failover.{
  code, RouteCandidate, Rule, BackendState, backend_key, policy_hash, enabled, from_backends,
  recovering, state_at, candidates, plain, contest, raise, touch, weigh, visit, scan_candidates,
  settle, select_candidate, marked, mark_candidate,
}
use traffic_forwarding_panel.Agent.Failover.Excluded.{
  here, picked, reported, released, probed_once, cools_down,
}
use traffic_forwarding_panel.Agent.Failover.Dial.{call_over, release_probe}
use traffic_forwarding_panel.Agent.Failover.Scores.{scores, select-scores}

abbrev pub rule : Rule
rule = record {
  id = 114 ∷ [];
  target = 116 ∷ [];
  transport = 1;
  tunnel = 0;
  exit_group_id = 0;
  effective_policy = none;
  billing_multiplier = 1;
  route_candidates = [];
  backends =
      record { target = 97 ∷ []; weight = 3; disabled = false }
      ∷ record { target = 98 ∷ []; weight = 1; disabled = false }
      ∷ record { target = 99 ∷ []; weight = 9; disabled = true }
      ∷ [];
}

abbrev pub heavy : RouteCandidate
heavy = plain rule (97 ∷ []) 3

abbrev pub light : RouteCandidate
light = plain rule (98 ∷ []) 1

abbrev picks : Assoc BackendState → Option RouteCandidate
picks m = (select_candidate rule [] 5 m).0

abbrev turn : Assoc BackendState → Assoc BackendState
turn m = (select_candidate rule [] 5 m).1

first_turns : (picks [] ≡ some heavy) × (picks (turn []) ≡ some heavy)
unfolding code backend_key policy_hash enabled from_backends candidates contest raise touch weigh
    visit scan_candidates settle select_candidate any
first_turns = (refl, refl)

later_turns : (picks (turn (turn [])) ≡ some light) × (picks (turn (turn (turn []))) ≡ some heavy)
unfolding code backend_key policy_hash enabled from_backends candidates contest raise touch weigh
    visit scan_candidates settle select_candidate any
later_turns = (refl, refl)

-- The heavy exit fails at 10 ns, and rests for 10 s; then it is probed.
abbrev pub down : Assoc BackendState
down = mark_candidate rule (97 ∷ []) true 10 (turn [])

abbrev pub after : ℕ
after = 10 ^ 10 + 10

abbrev probe : Assoc BackendState
probe = (select_candidate rule [] after down).1

down_first : (select_candidate rule [] (10 ^ 10) down).0 ≡ some light
unfolding code backend_key policy_hash enabled from_backends candidates contest raise touch weigh
    visit scan_candidates settle select_candidate any marked mark_candidate
down_first = refl

probe_first : (select_candidate rule [] after down).0 ≡ some heavy
unfolding code backend_key policy_hash enabled from_backends candidates contest raise touch weigh
    visit scan_candidates settle select_candidate any marked mark_candidate
probe_first = refl

select-scores_example :
    scores (select_candidate rule [] 5 (turn [])).1 % 2 ^ 64 ≡ scores (turn []) % 2 ^ 64
select-scores_example = select-scores rule [] 5 (turn [])

probe_recovers : recovering (state_at (backend_key rule heavy.id) down) ≡ true
unfolding code backend_key policy_hash enabled from_backends candidates contest raise touch weigh
    visit scan_candidates settle select_candidate any marked mark_candidate
probe_recovers = refl

-- Between the probe and the next choice another caller takes the light exit, and it fails; a third one
-- gives up a probe of it.
abbrev failed_too : Assoc BackendState
failed_too = mark_candidate rule light.id true after (select_candidate rule [] after probe).1

abbrev meanwhile : Assoc BackendState
meanwhile = (release_probe rule light call_over failed_too).1

other_key : (backend_key rule light.id == backend_key rule heavy.id) ≡ false
unfolding code backend_key policy_hash
other_key = refl

probed_once_example : (select_candidate rule [] (after * 2) meanwhile).0 ≢ some heavy
probed_once_example =
    probed_once rule [] [] after (after * 2) down meanwhile heavy probe_first probe_recovers (
      released rule light call_over (ap not other_key)
        (reported rule light.id true after other_key (picked rule [] after here)))

abbrev serving : BackendState
serving = record { current = 2 ^ 64 - 1; failures = 0; until = 0; probing = false }

turn-serving : lookup (backend_key rule heavy.id) (turn []) ≡ some serving
unfolding code backend_key policy_hash enabled from_backends candidates contest raise touch weigh
    visit scan_candidates settle select_candidate any
turn-serving = refl

-- The failed exit is not taken, and its probe is given up.
abbrev given_up : Assoc BackendState
given_up = (release_probe rule heavy call_over (select_candidate rule [] 20 down).1).1

cools_down_example : (select_candidate rule [] (10 ^ 10) given_up).0 ≢ some heavy
cools_down_example =
    cools_down rule [] 10 (10 ^ 10) (turn []) given_up heavy serving turn-serving refl (omega arith)
      (omega arith) (released rule heavy call_over refl (picked rule [] 20 here))
