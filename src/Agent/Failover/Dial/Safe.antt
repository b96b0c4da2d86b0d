-- ===== src/Agent/Failover/Dial/Safe.antt =====
-- When `dialCandidates` of internal/agent/failover.go follows a nil pointer.
use traffic_forwarding_panel.Prelude.{
  ℕ, zero, suc, ◌+◌, ◌≡◌, ◌≢◌, refl, ◌∙◌, ap, ◌⊎◌, inl, inr, true, false, Bool-cases, Option, none,
  some, Option-cases, List, [], ◌∷◌, length, arith, ltb, ==_refl,
}
use mathlib.Core.List.{Memᴰ}
use traffic_forwarding_panel.Prelude.Assoc.{Assoc, lookup, lookup-insert}
use traffic_forwarding_panel.Agent.Failover.{
  scan_candidates, chosen, state_at, code, EffectivePolicy, RouteCandidate, Rule, BackendState,
  backend_key, candidates, select_candidate,
}
use traffic_forwarding_panel.Agent.Failover.Chosen.{begin, select-cases}
use traffic_forwarding_panel.Agent.Failover.Dial.{
  Outcome, Attempt, Error, Result, Turn, failed, panicked, call_over, done, again, connected,
  refused, expired, denied, is_mismatch, release_probe, dial, attempt, dial_loop, take_turn, follow,
  dial_candidates, dial_backends, mark_tried,
}

-- The other holders of the lock remove no state.
abbrev pub Keeps : (Assoc BackendState → Assoc BackendState) → Type 0
Keeps f =
    (k : ℕ) (m : Assoc BackendState) (b : BackendState)
    → lookup k m ≡ some b
    → (b' : BackendState) × (lookup k (f m) ≡ some b')

abbrev IsSafe : Result × Assoc BackendState → Type 0
IsSafe p = p.0 ≢ failed panicked

outcome_cases : (o : Outcome) → (o ≡ connected) ⊎ (o ≡ refused) ⊎ (o ≡ expired)
outcome_cases connected = inl refl
outcome_cases refused = inr (inl refl)
outcome_cases expired = inr (inr refl)

release_probe-IsSafe :
    (r : Rule) (c : RouteCandidate) (e : Error) (m : Assoc BackendState) (b : BackendState)
    → e ≢ panicked
    → lookup (backend_key r c.id) m ≡ some b
    → IsSafe (release_probe r c e m)
unfolding release_probe
release_probe-IsSafe r c e m b ne found = rw (release_probe, found) (λ h. ne cc)

IsSafeTurn : Turn → Type 0
IsSafeTurn (done p) = IsSafe p
IsSafeTurn (again m) = Unit {0}

dial-IsSafeTurn :
    (r : Rule) (a : Attempt) (c : RouteCandidate) (m : Assoc BackendState) (b : BackendState)
    → Keeps a.dialing
    → lookup (backend_key r c.id) m ≡ some b
    → IsSafeTurn (dial r a c m)
unfolding IsSafeTurn dial
dial-IsSafeTurn r a c m b keeps found = elim (outcome_cases a.outcome) [
  | inl e ↦ rw (dial, e) (λ h. cc)
  | inr (inl e) ↦ rw (dial, e) tt
  | inr (inr e) ↦
      let (b', still) = keeps (backend_key r c.id) m b found in
      rw (dial, e) (release_probe-IsSafe r c call_over (a.dialing m) b' (λ h. cc) still)
]

attempt-IsSafeTurn :
    (check : Option EffectivePolicy → Option ℕ) (r : Rule) (a : Attempt) (c : RouteCandidate)
    (m : Assoc BackendState) (b : BackendState)
    → Keeps a.checking
    → Keeps a.dialing
    → lookup (backend_key r c.id) m ≡ some b
    → IsSafeTurn (attempt check r a c m)
unfolding IsSafeTurn attempt
attempt-IsSafeTurn check r a c m b checks dials found =
    let (b', still) = checks (backend_key r c.id) m b found in
    elim (Bool-cases (is_mismatch r c)) [
      | inl bad ↦ rw bad (λ h. cc)
      | inr good ↦ elim (Option-cases (check c.effective_policy)) [
        | inl e ↦ rw (attempt, good, e) (dial-IsSafeTurn r a c (a.checking m) b' dials still)
        | inr (why, e) ↦
            rw (attempt, good, e)
              (release_probe-IsSafe r c (denied why) (a.checking m) b' (λ h. cc) still)
      ]
    ]

-- The key of the candidate that is taken has a state.
taken-lookup :
    (r : Rule) (tried : List ℕ) (now : ℕ) (m : Assoc BackendState) (c : RouteCandidate)
    → (select_candidate r tried now m).0 ≡ some c
    → (b : BackendState) × (lookup (backend_key r c.id) (select_candidate r tried now m).1 ≡ some b)
taken-lookup r tried now m c h =
    let (_, _, _, after) = select-cases r tried now m c h in
    let k = backend_key r c.id in
    let s = scan_candidates r tried now (candidates r) (begin m) in
    let b = chosen s.total (state_at k s.states) in
    (b, ap (lookup k) after ∙ lookup-insert k k b s.states ∙ rw (==_refl k) refl)

pub record Steady (w : ℕ → Attempt) : Type 0 where
  pub checks : (n : ℕ) → Keeps (w n).checking
  pub dials : (n : ℕ) → Keeps (w n).dialing

follow-IsSafe :
    (t : Turn) (next : Assoc BackendState → Result × Assoc BackendState)
    → IsSafeTurn t
    → ((m : Assoc BackendState) → IsSafe (next m))
    → IsSafe (follow t next)
unfolding IsSafeTurn follow
follow-IsSafe (done p) next safe rest = safe
follow-IsSafe (again m) next safe rest = rest m

loop-IsSafe :
    (check : Option EffectivePolicy → Option ℕ) (r : Rule) (w : ℕ → Attempt) (steady : Steady w)
    (fuel n : ℕ) (tried : List ℕ) (m : Assoc BackendState)
    → IsSafe (dial_loop fuel check r w n tried m)
unfolding dial_loop take_turn
loop-IsSafe check r w steady zero n tried m = λ h. cc
loop-IsSafe check r w steady (suc fuel) n tried m =
    elim (Bool-cases (ltb (length tried) (length (candidates r)))) [
      | inr over ↦ rw over (λ h. cc)
      | inl some_left ↦
          let a = w n in
          elim (Option-cases (select_candidate r tried a.chosen_at m).0) [
            | inl e ↦ rw (some_left, e) (λ h. cc)
            | inr (c, e) ↦
                let (b, found) = taken-lookup r tried a.chosen_at m c e in
                let m1 = (select_candidate r tried a.chosen_at m).1 in
                rw (some_left, e)
                  (follow-IsSafe (attempt check r a c m1) _
                    (attempt-IsSafeTurn check r a c m1 b (steady.checks n) (steady.dials n) found)
                    (λ m'.
                      loop-IsSafe check r w steady fuel (n + 1) (mark_tried (code c.id) tried) m'))
          ]
    ]

-- While the other holders of the lock remove no state, no nil pointer is followed.
pub dial_candidates-IsSafe :
    (check : Option EffectivePolicy → Option ℕ) (r : Rule) (w : ℕ → Attempt)
    (m : Assoc BackendState)
    → Steady w
    → (dial_candidates check r w m).0 ≢ failed panicked
unfolding dial_candidates
dial_candidates-IsSafe check r w m steady =
    loop-IsSafe check r w steady (suc (length (candidates r))) 0 [] m

mem_length : {c : RouteCandidate} (cs : List RouteCandidate) → Memᴰ c cs → ltb 0 (length cs) ≡ true
mem_length [] m = elim m [ ]
mem_length (d ∷ cs) m = ground arith

release_probe-none :
    (r : Rule) (c : RouteCandidate) (e : Error) (m : Assoc BackendState)
    → lookup (backend_key r c.id) m ≡ none
    → (release_probe r c e m).0 ≡ failed panicked
unfolding release_probe
release_probe-none r c e m gone = rw (release_probe, gone) refl

first_turn :
    (check : Option EffectivePolicy → Option ℕ) (r : Rule) (w : ℕ → Attempt)
    (m : Assoc BackendState) (c : RouteCandidate)
    → (select_candidate r [] (w 0).chosen_at m).0 ≡ some c
    → (next : Assoc BackendState → Result × Assoc BackendState) × (dial_candidates check r w m
        ≡ follow (attempt check r (w 0) c (select_candidate r [] (w 0).chosen_at m).1) next)
unfolding dial_candidates dial_loop take_turn
first_turn check r w m c h =
    let (within, _, _, _) = select-cases r [] (w 0).chosen_at m c h in
    let n = length (candidates r) in
    (
      λ m'. dial_loop n check r w 1 (mark_tried (code c.id) []) m',
      rw (mem_length (candidates r) within, h) refl,
    )

-- Where the state of the first exit is removed while it is dialed, and the call is over when its dial
-- fails, a nil pointer is followed.
pub dial_backends_panics :
    (r : Rule) (w : ℕ → Attempt) (m : Assoc BackendState) (c : RouteCandidate)
    → (select_candidate r [] (w 0).chosen_at m).0 ≡ some c
    → is_mismatch r c ≡ false
    → (w 0).outcome ≡ expired
    → lookup
        (backend_key r c.id)
        ((w 0).dialing ((w 0).checking (select_candidate r [] (w 0).chosen_at m).1))
      ≡ none
    → (dial_backends r w m).0 ≡ failed panicked
unfolding dial_backends attempt dial follow
dial_backends_panics r w m c h good over gone =
    let (next, first) = first_turn (λ _. none) r w m c h in
    ap (λ p. p.0) first ∙ rw (attempt, good, dial, over) (release_probe-none r c call_over _ gone)
