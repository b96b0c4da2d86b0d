-- ===== src/Agent/Failover/Dial/Examples.antt =====
-- Dials of a rule with two exits, of which the heavy one has failed and is due for a probe.
use traffic_forwarding_panel.Prelude.{
  ℕ, suc, ◌+◌, ◌≡◌, ◌≢◌, refl, Option, none, some, [], length, any, ◌==◌, if◌then◌else◌,
}
use traffic_forwarding_panel.Agent.Failover.{
  code, EffectivePolicy, backend_key, policy_hash, enabled, from_backends, candidates, contest,
  raise, touch, weigh, visit, scan_candidates, settle, select_candidate, marked, mark_candidate,
}
use traffic_forwarding_panel.Agent.Failover.Examples.{rule, heavy, light, down, after}
use traffic_forwarding_panel.Agent.Failover.Dial.{
  Outcome, connected, refused, expired, Attempt, dialed, failed, panicked, release_probe, dial,
  attempt, follow, take_turn, mark_tried, out_of_fuel, dial_loop, dial_candidates, dial_backends,
}
use traffic_forwarding_panel.Agent.Failover.Dial.Fuel.{dial_candidates_total}
use traffic_forwarding_panel.Agent.Failover.Dial.Authorized.{
  IsAuthorized, dial_candidates-IsAuthorized,
}
use traffic_forwarding_panel.Agent.Failover.Dial.Safe.{
  Steady, dial_candidates-IsSafe, dial_backends_panics,
}

-- Nobody else touches the states.
abbrev quiet : Outcome → Attempt
quiet o = record {
  chosen_at = after;
  checking = λ m. m;
  dialing = λ m. m;
  outcome = o;
  marked_at = after;
}

-- The probe is refused, and the second exit answers.
abbrev second_answers : ℕ → Attempt
second_answers n = quiet (if n == 0 then refused else connected)

-- Only exits without a policy pass.
abbrev allow : Option EffectivePolicy → Option ℕ
allow none = none
allow (some p) = some 403

second_dialed : (dial_candidates allow rule second_answers down).0 ≡ dialed light
unfolding code backend_key policy_hash enabled from_backends candidates contest raise touch weigh
    visit scan_candidates settle select_candidate any marked mark_candidate release_probe dial
    attempt follow take_turn mark_tried dial_loop dial_candidates dial_backends
second_dialed = refl

dial_candidates-IsAuthorized_example : IsAuthorized allow rule light
dial_candidates-IsAuthorized_example =
    dial_candidates-IsAuthorized allow rule second_answers down light second_dialed

dial_candidates_total_example :
    ((dial_candidates allow rule second_answers down).0 ≢ failed out_of_fuel)
    × (dial_loop (5 + suc (length (candidates rule))) allow rule second_answers 0 [] down
        ≡ dial_candidates allow rule second_answers down)
dial_candidates_total_example = dial_candidates_total allow rule second_answers down 5

second_answers-Steady : Steady second_answers
second_answers-Steady = record {
  checks = λ n k m b found. (b, found);
  dials = λ n k m b found. (b, found);
}

dial_candidates-IsSafe_example :
    (dial_candidates allow rule second_answers down).0 ≢ failed panicked
dial_candidates-IsSafe_example =
    dial_candidates-IsSafe allow rule second_answers down second_answers-Steady

-- A new configuration empties the states and ends the call while the first exit is dialed.
abbrev reconfigured : ℕ → Attempt
reconfigured n = record (quiet expired) { dialing = λ m. [] }

probe_chosen : (select_candidate rule [] after down).0 ≡ some heavy
unfolding code backend_key policy_hash enabled from_backends candidates contest raise touch weigh
    visit scan_candidates settle select_candidate any marked mark_candidate
probe_chosen = refl

dial_backends_panics_example : (dial_backends rule reconfigured down).0 ≡ failed panicked
dial_backends_panics_example =
    dial_backends_panics rule reconfigured down heavy probe_chosen refl refl refl
