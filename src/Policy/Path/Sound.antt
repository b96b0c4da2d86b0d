-- ===== src/Policy/Path/Sound.antt =====
-- The loop of `MatchPath` (internal/policy/match.go) from its answer back to the grammar.
use traffic_forwarding_panel.Prelude.{
  ℕ, zero, suc, ◌≡◌, ◌⊎◌, inl, inr, refl, ◌||◌, Bool, true, Option, none, some, [], ◌∷◌, arith,
  ◌==◌, ==_iff, Bool-cases,
}
use traffic_forwarding_panel.Policy.Path.{
  Bytes, Back, star, question, next, again, loop, match_path,
}
use traffic_forwarding_panel.Policy.Path.Glob.{Matches, one, leave, take, only_stars→Matches}

-- What is left to try behind the last star.
abbrev pub Later : Back → Type 0
Later none = ⊥
Later (some (bp, bs)) = Matches (star ∷ bp) (next bs)

Later-next : (bp s : Bytes) → Matches bp s ⊎ Later (some (bp, s)) → Matches (star ∷ bp) s
Later-next bp s (inl d) = leave refl d
Later-next bp [] (inr d) = d
Later-next bp (c ∷ s) (inr d) = take refl d

again_sound :
    (go : Bytes → Bytes → Back → Option Bool) (back : Back)
    → ((p s : Bytes) (b : Back) → go p s b ≡ some true → Matches p s ⊎ Later b)
    → again back go ≡ some true
    → Later back
unfolding again
again_sound go none ih h = ground arith
again_sound go (some (bp, bs)) ih h = Later-next bp (next bs) (ih bp (next bs) _ h)

step_same :
    {x c : ℕ} {p s : Bytes}
    → (x == question || x == c) ≡ true
    → Matches p s
    → Matches (x ∷ p) (c ∷ s)
step_same {x} {c} h d = elim (Bool-cases (x == star)) [
  | inl e ↦ take ((==_iff x star).0 e) (leave ((==_iff x star).0 e) d)
  | inr ne ↦ one (ground arith) h d
]

loop_sound :
    (f : ℕ) (p s : Bytes) (back : Back) → loop f p s back ≡ some true → Matches p s ⊎ Later back
unfolding loop
loop_sound zero p s back h = absurd (ground arith)
loop_sound (suc f) p [] back h = inl (only_stars→Matches p (ground arith))
loop_sound (suc f) [] (c ∷ s) back h = inr (again_sound (loop f) back (loop_sound f) h)
loop_sound (suc f) (x ∷ p) (c ∷ s) back h = elim (Bool-cases (x == question || x == c)) [
  | inl same ↦ elim (loop_sound f p s back (ground arith)) [
    | inl d ↦ inl (step_same same d)
    | inr l ↦ inr l
  ]
  | inr other ↦ elim (Bool-cases (x == star)) [
    | inl e ↦
        let found =
          Later-next p (c ∷ s) (loop_sound f p (c ∷ s) (some (p, c ∷ s)) (ground arith)) in
        inl (rw ((==_iff x star).0 e) found)
    | inr ne ↦ inr (again_sound (loop f) back (loop_sound f) (ground arith))
  ]
]

-- If the matcher accepts a path, the path matches the pattern, whatever bytes the two hold.
pub match_path_sound :
    (pattern path : Bytes) → match_path pattern path ≡ some true → Matches pattern path
unfolding match_path
match_path_sound pattern path h = elim (loop_sound _ pattern path none h) [
  | inl d ↦ d
  | inr l ↦ absurd l
]
