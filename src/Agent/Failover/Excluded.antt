-- ===== src/Agent/Failover/Excluded.antt =====
-- How long a candidate of internal/agent/failover.go is left alone: while it is probed, and while its
-- cooldown lasts.
use traffic_forwarding_panel.Prelude.{
  true_ne_false, ℕ, ◌+◌, ◌*◌, ◌%◌, ◌^◌, ◌≤◌, ◌<◌, ◌≡◌, ◌≢◌, refl, sym, ◌∙◌, ap, inl, inr, Bool,
  true, false, not, ◌||◌, Bool-cases, some, Option-cases, List, arith, ltb, lt→ltb, ◌==◌, ==_refl,
}
use traffic_forwarding_panel.Prelude.Assoc.{Assoc, lookup}
use traffic_forwarding_panel.Agent.Failover.{
  Text, RouteCandidate, Rule, BackendState, backend_key, state_at, resting, member, code, below,
  select_candidate, mark_candidate, recovering, chosen, candidates, scan_candidates, max_fail_of,
  cooldown_of, at_least_one, add_duration, marked, word,
}
use traffic_forwarding_panel.Agent.Failover.Dial.{Error, release_probe}
use traffic_forwarding_panel.Agent.Failover.Round.{Kept, state_at-insert, selectable}
use traffic_forwarding_panel.Agent.Failover.Chosen.{
  begin, select-cases, select_none-Kept, select_candidate_fit,
}

-- What may happen to the states besides: selections, marks of other keys, and probes that are given
-- up, those of the key itself only where `own` says so.
pub data Others (own : Bool) (k : ℕ) (m : Assoc BackendState) : Assoc BackendState → Type 0 where
  here : Others own k m m
  picked :
      {m' : Assoc BackendState} (r : Rule) (tried : List ℕ) (now : ℕ)
      → Others own k m m'
      → Others own k m (select_candidate r tried now m').1
  reported :
      {m' : Assoc BackendState} (r : Rule) (id : Text) (failed : Bool) (now : ℕ)
      → (backend_key r id == k) ≡ false
      → Others own k m m'
      → Others own k m (mark_candidate r id failed now m')
  released :
      {m' : Assoc BackendState} (r : Rule) (c : RouteCandidate) (e : Error)
      → (own || not (backend_key r c.id == k)) ≡ true
      → Others own k m m'
      → Others own k m (release_probe r c e m').1

-- A state is left as it is in what keeps a candidate from being taken: the end of its cooldown, and
-- its probe unless that may be given up.
record Held (own : Bool) (b b' : BackendState) : Type 0 where
  until : b'.until ≡ b.until
  probing : own ≡ false → b.probing ≡ true → b'.probing ≡ true

mark_other :
    (k : ℕ) (r : Rule) (id : Text) (failed : Bool) (now : ℕ) (m : Assoc BackendState)
    → (backend_key r id == k) ≡ false
    → state_at k (mark_candidate r id failed now m) ≡ state_at k m
unfolding mark_candidate
mark_other k r id failed now m ne = elim (Option-cases (lookup (backend_key r id) m)) [
  | inl e ↦ rw (mark_candidate, e) refl
  | inr (b, e) ↦ rw (mark_candidate, e) (state_at-insert (backend_key r id) k _ m ∙ rw ne refl)
]

mark_self :
    (r : Rule) (id : Text) (failed : Bool) (now : ℕ) (m : Assoc BackendState) (b : BackendState)
    → lookup (backend_key r id) m ≡ some b
    → state_at (backend_key r id) (mark_candidate r id failed now m) ≡ marked r failed now b
unfolding mark_candidate
mark_self r id failed now m b found =
    let k = backend_key r id in
    rw (mark_candidate, found) (state_at-insert k k (marked r failed now b) m ∙ rw (==_refl k) refl)

rest_unselectable :
    (r : Rule) (tried : List ℕ) (now : ℕ) (m : Assoc BackendState) (c : RouteCandidate)
    → resting now (state_at (backend_key r c.id) m) ≡ true
    → selectable r tried now m c ≡ false
rest_unselectable r tried now m c rest = elim (Bool-cases (member (code c.id) tried)) [
  | inl old ↦ rw old refl
  | inr new ↦ rw (new, rest) refl
]

not_selectable :
    (r : Rule) (tried : List ℕ) (now : ℕ) (m : Assoc BackendState) (c : RouteCandidate)
    → resting now (state_at (backend_key r c.id) m) ≡ true
    → (select_candidate r tried now m).0 ≢ some c
not_selectable r tried now m c rest h =
    let (_, up) = select_candidate_fit r tried now m c h in
    true_ne_false (sym up ∙ rest_unselectable r tried now m c rest)

Held-then : {own : Bool} {a b c : BackendState} → Held own a b → Held own b c → Held own a c
Held-then h i = record { until = i.until ∙ h.until; probing = λ o p. i.probing o (h.probing o p) }

Kept-Held :
    (own : Bool) (k : ℕ) (m m' : Assoc BackendState)
    → Kept m m'
    → Held own (state_at k m) (state_at k m')
Kept-Held own k m m' kept = record {
  until = ap (λ b. b.until) (kept k);
  probing = λ o p. ap (λ b. b.probing) (kept k) ∙ p;
}

chosen-Held : (own : Bool) (total : ℕ) (b : BackendState) → Held own b (chosen total b)
chosen-Held own total b = record {
  until = refl;
  probing =
      λ o p. elim (Bool-cases (recovering b)) [ inl new ↦ rw new refl | inr same ↦ rw same p ];
}

select-Held :
    (own : Bool) (k : ℕ) (r : Rule) (tried : List ℕ) (now : ℕ) (m : Assoc BackendState)
    → Held own (state_at k m) (state_at k (select_candidate r tried now m).1)
select-Held own k r tried now m = elim (Option-cases (select_candidate r tried now m).0) [
  | inl e ↦ Kept-Held own k m _ (select_none-Kept r tried now m e)
  | inr (c, e) ↦
      let (_, _, kept, after) = select-cases r tried now m c e in
      let j = backend_key r c.id in
      let s = scan_candidates r tried now (candidates r) (begin m) in
      rw (after, state_at-insert j k (chosen s.total (state_at j s.states)) s.states)
        (elim (Bool-cases (j == k)) [
          | inl same ↦
              let i : j ≡ k = ground arith in
              rw same (
                rw (sym i) (
                  Held-then (Kept-Held own j m s.states kept)
                    (chosen-Held own s.total (state_at j s.states))))
          | inr ne ↦ rw ne (Kept-Held own k m s.states kept)
        ])
]

found_at :
    (k : ℕ) (m : Assoc BackendState) (b : BackendState) → lookup k m ≡ some b → state_at k m ≡ b
found_at k m b e = rw (state_at, e) refl

-- A probe that is given up leaves the cooldown as it is, and the other keys altogether.
release-Held :
    (own : Bool) (k : ℕ) (r : Rule) (c : RouteCandidate) (e : Error) (m : Assoc BackendState)
    → (own || not (backend_key r c.id == k)) ≡ true
    → Held own (state_at k m) (state_at k (release_probe r c e m).1)
unfolding release_probe
release-Held own k r c e m may = elim (Option-cases (lookup (backend_key r c.id) m)) [
  | inl none_there ↦ rw (release_probe, none_there) (record { until = refl; probing = λ o p. p })
  | inr (b, found) ↦
      let j = backend_key r c.id in
      rw (release_probe, found, state_at-insert j k (record b { probing = false }) m)
        (elim (Bool-cases (j == k)) [
          | inr ne ↦ rw ne (record { until = refl; probing = λ o p. p })
          | inl same ↦
              let i : j ≡ k = ground (arith, same) in
              let there : state_at k m ≡ b =
                ap (λ x. state_at x m) (sym i) ∙ found_at j m b found in
              rw same (record {
                until = sym (ap (λ x. x.until) there);
                probing = λ o p. absurd (ground (arith, may, o, same));
              })
        ])
]

Others-Held :
    (own : Bool) (k : ℕ) (m m' : Assoc BackendState)
    → Others own k m m'
    → Held own (state_at k m) (state_at k m')
Others-Held own k m _ here = record { until = refl; probing = λ o p. p }
Others-Held own k m _ (picked {m'} r tried now o) =
    Held-then (Others-Held own k m m' o) (select-Held own k r tried now m')
Others-Held own k m _ (reported {m'} r id failed now ne o) =
    rw (mark_other k r id failed now m' ne) (Others-Held own k m m' o)
Others-Held own k m _ (released {m'} r c e may o) =
    Held-then (Others-Held own k m m' o) (release-Held own k r c e m' may)

probing-resting : (now : ℕ) (b : BackendState) → b.probing ≡ true → resting now b ≡ true
probing-resting now b p = elim (Bool-cases (ltb now b.until)) [
  | inl early ↦ rw early refl
  | inr late ↦ rw late p
]

-- The state under the key of the candidate that is taken.
taken-probing :
    (r : Rule) (tried : List ℕ) (now : ℕ) (m : Assoc BackendState) (c : RouteCandidate)
    → (select_candidate r tried now m).0 ≡ some c
    → recovering (state_at (backend_key r c.id) m) ≡ true
    → (state_at (backend_key r c.id) (select_candidate r tried now m).1).probing ≡ true
taken-probing r tried now m c h failed =
    let (_, _, kept, after) = select-cases r tried now m c h in
    let k = backend_key r c.id in
    let s = scan_candidates r tried now (candidates r) (begin m) in
    rw (after, state_at-insert k k (chosen s.total (state_at k s.states)) s.states, ==_refl k)
      (rw (ap recovering (kept k) ∙ failed) refl)

-- A candidate that failed before and is taken to probe it is not taken again until its key is marked
-- or its probe is given up, whatever selections there are meanwhile, whatever other keys are marked and
-- whatever other probes are given up, while no configuration and no change of routes removes states.
pub probed_once :
    (r : Rule) (tried tried' : List ℕ) (now now' : ℕ) (m m' : Assoc BackendState)
    (c : RouteCandidate)
    → (select_candidate r tried now m).0 ≡ some c
    → recovering (state_at (backend_key r c.id) m) ≡ true
    → Others false (backend_key r c.id) (select_candidate r tried now m).1 m'
    → (select_candidate r tried' now' m').0 ≢ some c
probed_once r tried tried' now now' m m' c h failed o =
    let k = backend_key r c.id in
    let held = Others-Held false k _ m' o in
    not_selectable r tried' now' m' c (
      probing-resting now' (state_at k m')
        (held.probing refl (taken-probing r tried now m c h failed)))

short_duration : (now c : ℕ) → c ≤ 86400 → add_duration now (c * 10 ^ 9 % word) ≡ now + c * 10 ^ 9
short_duration now c short =
    let small : c * 10 ^ 9 % word ≡ c * 10 ^ 9 = omega arith in rw small (ground arith)

failed_until :
    (r : Rule) (now : ℕ) (b : BackendState)
    → below ((b.failures + 1) % word) (max_fail_of r) ≡ false
    → at_least_one (cooldown_of r) ≤ 86400
    → (marked r true now b).until ≡ now + at_least_one (cooldown_of r) * 10 ^ 9
unfolding marked
failed_until r now b often short =
    rw often (short_duration now (at_least_one (cooldown_of r)) short)

-- A candidate that has failed as often as the policy of its rule allows is not taken before its
-- cooldown, of at most a day, has passed, whatever selections there are meanwhile, whatever other
-- keys are marked and whatever probes are given up, its own included, while no configuration and no
-- change of routes removes states.
pub cools_down :
    (r : Rule) (tried : List ℕ) (now now' : ℕ) (m m' : Assoc BackendState) (c : RouteCandidate)
    (b : BackendState)
    → lookup (backend_key r c.id) m ≡ some b
    → below ((b.failures + 1) % word) (max_fail_of r) ≡ false
    → at_least_one (cooldown_of r) ≤ 86400
    → now' < now + at_least_one (cooldown_of r) * 10 ^ 9
    → Others true (backend_key r c.id) (mark_candidate r c.id true now m) m'
    → (select_candidate r tried now' m').0 ≢ some c
cools_down r tried now now' m m' c b found often short early o =
    let k = backend_key r c.id in
    let after = mark_self r c.id true now m b found in
    let end =
      (Others-Held true k _ m' o).until
      ∙ ap (λ x. x.until) after
      ∙ failed_until r now b often short in
    not_selectable r tried now' m' c (rw (end, lt→ltb now' _ early) refl)
