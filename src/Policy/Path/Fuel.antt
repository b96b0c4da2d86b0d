-- ===== src/Policy/Path/Fuel.antt =====
-- How much fuel the loop of `MatchPath` (internal/policy/match.go) needs, measured on what remains of
-- the pattern and of the path.
use traffic_forwarding_panel.Prelude.{
  ℕ, zero, suc, ◌+◌, ◌*◌, ◌≤◌, ◌<◌, ◌≢◌, none, some, [], ◌∷◌, arith, length,
}
use traffic_forwarding_panel.Policy.Path.{Bytes, Back, again, loop, match_path}

-- The bytes left to retry bound the path, and the fuel pays for every retry and the pattern.
abbrev pub Bounded : ℕ → ℕ → ℕ → Bytes → Bytes → Back → Type 0
Bounded k f m p s none = (length s ≤ m) × (length p ≤ k) × (m * (k + 1) + length p < f)
Bounded k f m p s (some (bp, bs)) =
    (length s ≤ m)
    × (length p ≤ k)
    × (m * (k + 1) + length p < f)
    × (length bs ≤ m)
    × (length s ≤ length bs)
    × (length bp ≤ k)

-- How the bounds go on in each step of a round.
module _ (k f m x c : ℕ) (p s : Bytes) where
  pub Bounded-same :
      (back : Back) → Bounded k (suc f) m (x ∷ p) (c ∷ s) back → Bounded k f m p s back
  Bounded-same none b = omega arith
  Bounded-same (some (bp, bs)) b = omega arith

  pub Bounded-wild :
      (back : Back)
      → Bounded k (suc f) m (x ∷ p) (c ∷ s) back
      → Bounded k f m p (c ∷ s) (some (p, c ∷ s))
  Bounded-wild none b = omega arith
  Bounded-wild (some (bp, bs)) b = omega arith

pub Bounded-again :
    (k f m c x : ℕ) (p s : Bytes) (bp bs : Bytes)
    → Bounded k (suc f) (suc m) p (c ∷ s) (some (bp, x ∷ bs))
    → Bounded k f m bp bs (some (bp, bs))
Bounded-again k f m c x p s bp bs b = omega arith

module _ (k : ℕ) where
  again_total :
      (f m : ℕ) (p : Bytes) (c : ℕ) (s : Bytes) (back : Back)
      → ((m' : ℕ) (p' s' : Bytes) (b : Back) → Bounded k f m' p' s' b → loop f p' s' b ≢ none)
      → Bounded k (suc f) m p (c ∷ s) back
      → again back (loop f) ≢ none
  unfolding again
  again_total f m p c s none ih b = ground arith
  again_total f m p c s (some (bp, [])) ih b = absurd (omega arith)
  again_total f zero p c s (some (bp, x ∷ bs)) ih b = absurd (omega arith)
  again_total f (suc m) p c s (some (bp, x ∷ bs)) ih b =
      ih m bp bs (some (bp, bs)) (Bounded-again k f m c x p s bp bs b)

  loop_total :
      (f m : ℕ) (p s : Bytes) (back : Back) → Bounded k f m p s back → loop f p s back ≢ none
  unfolding loop
  loop_total zero m p s none b = absurd (omega arith)
  loop_total zero m p s (some (bp, bs)) b = absurd (omega arith)
  loop_total (suc f) m p [] back b = ground arith
  loop_total (suc f) m [] (c ∷ s) back b = again_total f m [] c s back (loop_total f) b
  loop_total (suc f) m (x ∷ p) (c ∷ s) back b = ground (
    arith,
    loop_total f m p s back (Bounded-same k f m x c p s back b),
    loop_total f m p (c ∷ s) (some (p, c ∷ s)) (Bounded-wild k f m x c p s back b),
    again_total f m (x ∷ p) c s back (loop_total f) b,
  )

pub Bounded-start :
    (p s : Bytes) → Bounded (length p) ((length s + 1) * (length p + 1)) (length s) p s none
Bounded-start p s = omega arith

-- The matcher returns an answer for every pattern and path.
pub match_path_total : (pattern path : Bytes) → match_path pattern path ≢ none
unfolding match_path
match_path_total pattern path =
    loop_total (length pattern) _ (length path) pattern path none (Bounded-start pattern path)
