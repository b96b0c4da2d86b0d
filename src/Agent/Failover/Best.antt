-- ===== src/Agent/Failover/Best.antt =====
-- The best candidate that the loop of `selectCandidate` (internal/agent/failover.go) ends with.
use traffic_forwarding_panel.Prelude.{
  none_ne, ℕ, ◌≡◌, refl, sym, ◌∙◌, ap, ◌⊎◌, inl, inr, true, false, Bool-cases, Option, none, some,
  Option-cases, List, [], ◌∷◌, All,
}
use mathlib.Core.List.{Memᴰ}
use traffic_forwarding_panel.Prelude.Assoc.{Assoc, lookup, insert}
use traffic_forwarding_panel.Agent.Failover.{
  RouteCandidate, Rule, BackendState, backend_key, state_at, below, contest, Scan, raise, touch,
  visit, scan_candidates, settle, chosen,
}
use traffic_forwarding_panel.Agent.Failover.Round.{
  Kept, touch-Kept, raise-Kept, resting-Kept, selectable, visit-cases,
}

in_front : {c d : RouteCandidate} (cs : List RouteCandidate) → Memᴰ c (d ∷ []) → Memᴰ c (d ∷ cs)
in_front cs (Memᴰ.head e) = Memᴰ.head e
in_front cs (Memᴰ.tail m) = elim m [ ]

module _ (r : Rule) (tried : List ℕ) (now : ℕ) where
  pub visit-Kept : (c : RouteCandidate) (s : Scan) → Kept s.states (visit r tried now c s).states
  visit-Kept c s = elim (visit-cases r tried now c s) [
    | inl (_, inl e) ↦ rw e (λ j. refl)
    | inl (_, inr e) ↦ rw e (touch-Kept (backend_key r c.id) s)
    | inr (_, e) ↦
        let k = backend_key r c.id in rw e (λ j. raise-Kept k c (touch k s) j ∙ touch-Kept k s j)
  ]

  pub scan_candidates-Kept :
      (cs : List RouteCandidate) (s : Scan)
      → Kept s.states (scan_candidates r tried now cs s).states
  unfolding scan_candidates
  scan_candidates-Kept [] s j = refl
  scan_candidates-Kept (c ∷ cs) s j =
      scan_candidates-Kept cs (visit r tried now c s) j ∙ visit-Kept c s j

  pub selectable-Kept :
      (c : RouteCandidate) (m m' : Assoc BackendState)
      → Kept m m'
      → selectable r tried now m' c ≡ selectable r tried now m c
  selectable-Kept c m m' h = rw (resting-Kept now (backend_key r c.id) m m' h) refl

  -- A key and a candidate that a loop over the list may take.
  abbrev pub Fits : Assoc BackendState → List RouteCandidate → ℕ × RouteCandidate → Type 0
  Fits m cs p = Memᴰ p.1 cs × (selectable r tried now m p.1 ≡ true) × (p.0 ≡ backend_key r p.1.id)

  pub touch-best : (k : ℕ) (s : Scan) → (touch k s).best ≡ s.best
  unfolding touch
  touch-best k s = elim (Option-cases (lookup k s.states)) [
    | inl e ↦ rw (touch, e) refl
    | inr (b, e) ↦ rw (touch, e) refl
  ]

  contest-cases :
      (k : ℕ) (c : RouteCandidate) (m : Assoc BackendState) (o : Option (ℕ × RouteCandidate))
      → (contest k c m o ≡ some (k, c))
        ⊎ ((p : ℕ × RouteCandidate) × (o ≡ some p) × (contest k c m o ≡ some p))
  unfolding contest
  contest-cases k c m none = inl refl
  contest-cases k c m (some p) =
      elim (Bool-cases (below (state_at p.0 m).current (state_at k m).current)) [
        | inl better ↦ rw better (inl refl)
        | inr same ↦ rw same (inr (p, refl, refl))
      ]

  pub raise-cases :
      (k : ℕ) (c : RouteCandidate) (s : Scan)
      → ((raise k c s).best ≡ some (k, c))
        ⊎ ((p : ℕ × RouteCandidate) × (s.best ≡ some p) × ((raise k c s).best ≡ some p))
  unfolding raise
  raise-cases k c s = contest-cases k c _ s.best

  -- What is best after a loop was best before, or it fits.
  abbrev pub Better : List RouteCandidate → Scan → Scan → Type 0
  Better cs s s' =
      (p : ℕ × RouteCandidate) → s'.best ≡ some p → (s.best ≡ some p) ⊎ Fits s.states cs p

  visit-Better : (c : RouteCandidate) (s : Scan) → Better (c ∷ []) s (visit r tried now c s)
  visit-Better c s p h = elim (visit-cases r tried now c s) [
    | inl (_, inl e) ↦ inl cc
    | inl (_, inr e) ↦ inl (sym (touch-best _ s) ∙ ap (λ x. x.best) (sym e) ∙ h)
    | inr (f, e) ↦
        let k = backend_key r c.id in
        elim (raise-cases k c (touch k s)) [
          | inl i ↦ let q : p ≡ (k, c) = cc in inr (rw q (Memᴰ.head refl, f, refl))
          | inr (q, old, i) ↦
              inl (sym (touch-best k s) ∙ old ∙ sym i ∙ ap (λ x. x.best) (sym e) ∙ h)
        ]
  ]

  pub scan_candidates-Better :
      (cs : List RouteCandidate) (s : Scan) → Better cs s (scan_candidates r tried now cs s)
  unfolding scan_candidates
  scan_candidates-Better [] s p h = inl h
  scan_candidates-Better (c ∷ cs) s p h =
      elim (scan_candidates-Better cs (visit r tried now c s) p h) [
        | inr (within, f, i) ↦
            inr (Memᴰ.tail within, sym (selectable-Kept p.1 s.states _ (visit-Kept c s)) ∙ f, i)
        | inl before ↦ elim (visit-Better c s p before) [
          | inl old ↦ inl old
          | inr (within, f, i) ↦ inr (in_front cs within, f, i)
        ]
      ]

  untouched :
      (cs : List RouteCandidate) (m m' : Assoc BackendState)
      → Kept m m'
      → All (λ c. selectable r tried now m' c ≡ false) cs
      → All (λ c. selectable r tried now m c ≡ false) cs
  untouched [] m m' k a = tt
  untouched (c ∷ cs) m m' k a = (sym (selectable-Kept c m m' k) ∙ a.0, untouched cs m m' k a.1)

  visit-none :
      (c : RouteCandidate) (s : Scan)
      → (visit r tried now c s).best ≡ none
      → (s.best ≡ none) × (selectable r tried now s.states c ≡ false)
  visit-none c s h = elim (visit-cases r tried now c s) [
    | inl (f, inl e) ↦ (ap (λ x. x.best) (sym e) ∙ h, f)
    | inl (f, inr e) ↦ (sym (touch-best _ s) ∙ ap (λ x. x.best) (sym e) ∙ h, f)
    | inr (f, e) ↦
        let k = backend_key r c.id in
        elim (raise-cases k c (touch k s)) [
          | inl i ↦ absurd (none_ne (sym h ∙ ap (λ y. y.best) e ∙ i))
          | inr (q, old, i) ↦ absurd (none_ne (sym h ∙ ap (λ y. y.best) e ∙ i))
        ]
  ]

  -- Once there is a best, there is one.
  pub best_stays :
      (cs : List RouteCandidate) (s : Scan)
      → (scan_candidates r tried now cs s).best ≡ none
      → (s.best ≡ none) × All (λ c. selectable r tried now s.states c ≡ false) cs
  unfolding scan_candidates
  best_stays [] s h = (h, tt)
  best_stays (c ∷ cs) s h =
      let (before, off) = best_stays cs (visit r tried now c s) h in
      let (start, here) = visit-none c s before in
      (start, (here, untouched cs s.states _ (visit-Kept c s) off))

  pub visit_off :
      (c : RouteCandidate) (s : Scan)
      → selectable r tried now s.states c ≡ false
      → (visit r tried now c s).best ≡ s.best
  visit_off c s off = elim (visit-cases r tried now c s) [
    | inl (f, inl e) ↦ rw e refl
    | inl (f, inr e) ↦ rw e (touch-best _ s)
    | inr (f, e) ↦ cc
  ]

  -- With no candidate to take, no best.
  pub no_best :
      (cs : List RouteCandidate) (s : Scan)
      → s.best ≡ none
      → All (λ c. selectable r tried now s.states c ≡ false) cs
      → (scan_candidates r tried now cs s).best ≡ none
  unfolding scan_candidates
  no_best [] s h _ = h
  no_best (c ∷ cs) s h (here, off) =
      no_best cs (visit r tried now c s) (visit_off c s here ∙ h)
        (untouched cs _ s.states (λ j. sym (visit-Kept c s j)) off)

  pub settle-cases :
      (s : Scan)
      → ((s.best ≡ none) × (settle s ≡ (none, s.states)))
        ⊎ ((p : ℕ × RouteCandidate) × (s.best ≡ some p)
            × (settle s ≡ (some p.1, insert p.0 (chosen s.total (state_at p.0 s.states)) s.states)))
  unfolding settle
  settle-cases s = elim (Option-cases s.best) [
    | inl e ↦ inl (e, rw (settle, e) refl)
    | inr (p, e) ↦ inr (p, e, rw (settle, e) refl)
  ]

  pub settle-none : (s : Scan) → (settle s).0 ≡ none → s.best ≡ none
  settle-none s h = elim (settle-cases s) [
    | inl (b, e) ↦ b
    | inr (p, b, e) ↦ absurd (none_ne (sym h ∙ ap (λ y. y.0) e))
  ]
