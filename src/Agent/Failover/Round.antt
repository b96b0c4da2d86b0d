-- ===== src/Agent/Failover/Round.antt =====
-- What the loop of `selectCandidate` (internal/agent/failover.go) does to the states: it moves scores,
-- and nothing else.
use traffic_forwarding_panel.Prelude.{
  ℕ, ◌≡◌, refl, sym, ◌∙◌, ap, ◌⊎◌, inl, inr, Bool, true, false, Bool-cases, Option-cases, List,
  arith, ◌==◌, if◌then◌else◌,
}
use traffic_forwarding_panel.Prelude.Assoc.{Assoc, lookup, insert, lookup-insert}
use traffic_forwarding_panel.Agent.Failover.{
  code, RouteCandidate, Rule, BackendState, fresh, backend_key, member, state_at, resting, Scan,
  raise, touch, weigh, visit,
}

-- A state without its score
abbrev pub idle : BackendState → BackendState
idle b = record b { current = 0 }

-- The second map differs from the first in scores only.
abbrev pub Kept : Assoc BackendState → Assoc BackendState → Type 0
Kept m m' = (j : ℕ) → idle (state_at j m') ≡ idle (state_at j m)

pub state_at-insert :
    (k j : ℕ) (b : BackendState) (m : Assoc BackendState)
    → state_at j (insert k b m) ≡ (if k == j then b else state_at j m)
state_at-insert k j b m = rw (state_at, lookup-insert k j b m) (ground arith)

pub insert-Kept :
    (k : ℕ) (b : BackendState) (m : Assoc BackendState)
    → idle b ≡ idle (state_at k m)
    → Kept m (insert k b m)
insert-Kept k b m h j = rw (state_at-insert k j b m) (elim (Bool-cases (k == j)) [
  | inl same ↦ let i : k ≡ j = ground arith in rw same (rw (sym i) h)
  | inr ne ↦ rw ne refl
])

pub touch-Kept : (k : ℕ) (s : Scan) → Kept s.states (touch k s).states
unfolding touch
touch-Kept k s = elim (Option-cases (lookup k s.states)) [
  | inl e ↦ rw (touch, e) (insert-Kept k fresh s.states (rw (state_at, e) refl))
  | inr (b, e) ↦ rw (touch, e) (λ j. refl)
]

pub raise-Kept : (k : ℕ) (c : RouteCandidate) (s : Scan) → Kept s.states (raise k c s).states
unfolding raise
raise-Kept k c s = insert-Kept k _ s.states refl

pub resting-Kept :
    (now j : ℕ) (m m' : Assoc BackendState)
    → Kept m m'
    → resting now (state_at j m') ≡ resting now (state_at j m)
resting-Kept now j m m' h = ap (resting now) (h j)

abbrev pub selectable : Rule → List ℕ → ℕ → Assoc BackendState → RouteCandidate → Bool
selectable r tried now m c =
    if member (code c.id) tried
    then false
    else if resting now (state_at (backend_key r c.id) m)
    then false
    else true

module _ (r : Rule) (tried : List ℕ) (now : ℕ) where
  -- A candidate is passed over, after a new state was made perhaps, or it is raised.
  pub visit-cases :
      (c : RouteCandidate) (s : Scan)
      → let k = backend_key r c.id in
        ((selectable r tried now s.states c ≡ false)
          × ((visit r tried now c s ≡ s) ⊎ (visit r tried now c s ≡ touch k s)))
        ⊎ ((selectable r tried now s.states c ≡ true)
            × (visit r tried now c s ≡ raise k c (touch k s)))
  unfolding visit weigh
  visit-cases c s = elim (Bool-cases (member (code c.id) tried)) [
    | inl old ↦ rw old (inl (refl, inl refl))
    | inr new ↦
        let k = backend_key r c.id in
        let same = resting-Kept now k s.states (touch k s).states (touch-Kept k s) in
        elim (Bool-cases (resting now (state_at k s.states))) [
          | inl rest ↦ rw (new, rest, same ∙ rest) (inl (refl, inr refl))
          | inr up ↦ rw (new, up, same ∙ up) (inr (refl, refl))
        ]
  ]
