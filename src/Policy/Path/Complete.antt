-- ===== src/Policy/Path/Complete.antt =====
-- The loop of `MatchPath` (internal/policy/match.go) from the side of the grammar: from a match of what
-- remains to the answer of the loop.
use traffic_forwarding_panel.Prelude.{
  ℕ, zero, suc, ◌≡◌, ◌≢◌, ◌↔◌, ◌⊎◌, inl, inr, refl, ap, ◌||◌, Bool, true, false, none, some, [],
  ◌∷◌, arith, ◌==◌, ==_iff, Bool-cases, length, All,
}
use traffic_forwarding_panel.Policy.Path.{
  Bytes, Back, star, question, next, again, loop, match_path,
}
use traffic_forwarding_panel.Policy.Path.Glob.{
  Matches, take, one_inv, star_inv, end_inv, no_pattern, collapse, drop_one, Matches→only_stars,
}
use traffic_forwarding_panel.Policy.Path.Sound.{Later, match_path_sound}
use traffic_forwarding_panel.Policy.Path.Fuel.{
  Bounded, Bounded-same, Bounded-wild, Bounded-again, Bounded-start,
}

-- The path holds no '*'.
abbrev pub IsPlain : Bytes → Type 0
IsPlain = All (λ c. c ≢ star)

-- The path behind the last star holds no '*', and nothing that this star could still give is lost by
-- going on from here.
abbrev Covers : Bytes → Bytes → Back → Type 0
Covers p s none = Unit
Covers p s (some (bp, bs)) = IsPlain bs × (Matches (star ∷ bp) (next bs) → Matches (star ∷ p) s)

covered : (p s : Bytes) (back : Back) → Covers p s back → Later back → Matches (star ∷ p) s
covered p s none cov l = absurd l
covered p s (some (bp, bs)) cov l = cov.1 l

Covers-same :
    (x c : ℕ) (p s : Bytes) (back : Back) → x ≢ star → Covers (x ∷ p) (c ∷ s) back → Covers p s back
Covers-same x c p s none ne cov = tt
Covers-same x c p s (some (bp, bs)) ne cov = (cov.0, λ l. drop_one ne (cov.1 l))

module _ (k : ℕ) where
  -- The statement that the induction proves.
  Accepts : ℕ → Type 0
  Accepts f =
      (m : ℕ) (p s : Bytes) (back : Back)
      → Bounded k f m p s back
      → IsPlain s
      → Covers p s back
      → Matches p s ⊎ Later back
      → loop f p s back ≡ some true

  again_complete :
      (f m : ℕ) (p : Bytes) (c : ℕ) (s : Bytes) (back : Back)
      → Accepts f
      → Bounded k (suc f) m p (c ∷ s) back
      → Covers p (c ∷ s) back
      → Later back
      → again back (loop f) ≡ some true
  unfolding Accepts again
  again_complete f m p c s none ih b cov l = absurd l
  again_complete f m p c s (some (bp, [])) ih b cov l = absurd (omega arith)
  again_complete f zero p c s (some (bp, x ∷ bs)) ih b cov l = absurd (omega arith)
  again_complete f (suc m) p c s (some (bp, x ∷ [])) ih b cov l =
      ih m bp [] (some (bp, [])) (Bounded-again k f m c x p s bp [] b) tt (tt, λ d. d)
        (inl (end_inv l).1)
  again_complete f (suc m) p c s (some (bp, x ∷ y ∷ bs)) ih b cov l =
      ih m bp (y ∷ bs) (some (bp, y ∷ bs)) (Bounded-again k f m c x p s bp (y ∷ bs) b) cov.0.1
        (cov.0.1, λ d. take refl d) (star_inv l refl)

  -- One step of a round, in each of the three ways it can go on.
  module _ (f m x c : ℕ) (p s : Bytes) (back : Back) (ih : Accepts f) where
    same_complete :
        Bounded k (suc f) m (x ∷ p) (c ∷ s) back
        → IsPlain (c ∷ s)
        → Covers (x ∷ p) (c ∷ s) back
        → (x == question || x == c) ≡ true
        → Matches (x ∷ p) (c ∷ s) ⊎ Later back
        → loop f p s back ≡ some true
    unfolding Accepts
    same_complete b plain cov h d =
        let ne : x ≢ star = ground arith in
        ih m p s back (Bounded-same k f m x c p s back b) plain.1 (Covers-same x c p s back ne cov)
          (elim d [ inl e ↦ inl (one_inv e ne).1 | inr l ↦ inr l ])

    wild_complete :
        Bounded k (suc f) m (x ∷ p) (c ∷ s) back
        → IsPlain (c ∷ s)
        → Covers (x ∷ p) (c ∷ s) back
        → x ≡ star
        → Matches (x ∷ p) (c ∷ s) ⊎ Later back
        → loop f p (c ∷ s) (some (p, c ∷ s)) ≡ some true
    unfolding Accepts
    wild_complete b plain cov e d =
        let here : Matches (x ∷ p) (c ∷ s) = elim d [
          | inl g ↦ g
          | inr l ↦ rw e (collapse (rw e at (covered (x ∷ p) (c ∷ s) back cov l)))
        ] in
        ih m p (c ∷ s) (some (p, c ∷ s)) (Bounded-wild k f m x c p s back b) plain
          (plain, λ g. take refl g) (star_inv (rw e at here) refl)

    Later-complete :
        Bounded k (suc f) m (x ∷ p) (c ∷ s) back
        → Covers (x ∷ p) (c ∷ s) back
        → (x == question || x == c) ≡ false
        → x ≢ star
        → Matches (x ∷ p) (c ∷ s) ⊎ Later back
        → again back (loop f) ≡ some true
    Later-complete b cov h ne (inl d) = absurd (ground (arith, one_inv d ne))
    Later-complete b cov h ne (inr l) = again_complete f m (x ∷ p) c s back ih b cov l

  loop_complete : (f : ℕ) → Accepts f
  unfolding Accepts loop
  loop_complete zero m p s none b plain cov d = absurd (omega arith)
  loop_complete zero m p s (some (bp, bs)) b plain cov d = absurd (omega arith)
  loop_complete (suc f) m p [] back b plain cov (inl d) =
      ap (λ (x : Bool). some x) (Matches→only_stars p d)
  loop_complete (suc f) m p [] back b plain cov (inr l) =
      ap (λ (x : Bool). some x) (Matches→only_stars p (end_inv (covered p [] back cov l)).1)
  loop_complete (suc f) m [] (c ∷ s) back b plain cov (inl d) = absurd (no_pattern d)
  loop_complete (suc f) m [] (c ∷ s) back b plain cov (inr l) =
      again_complete f m [] c s back (loop_complete f) b cov l
  loop_complete (suc f) m (x ∷ p) (c ∷ s) back b plain cov d =
      elim (Bool-cases (x == question || x == c)) [
        | inl h ↦ ground (arith, same_complete f m x c p s back (loop_complete f) b plain cov h d)
        | inr h ↦ elim (Bool-cases (x == star)) [
          | inl e ↦ ground (
            arith,
            wild_complete f m x c p s back (loop_complete f) b plain cov ((==_iff x star).0 e) d,
          )
          | inr n ↦
              let ne : x ≢ star = ground arith in
              ground (arith, Later-complete f m x c p s back (loop_complete f) b cov h ne d)
        ]
      ]

-- On a path that holds no '*' the matcher accepts exactly the paths that match the pattern.
pub match_path_iff :
    (pattern path : Bytes)
    → IsPlain path
    → (match_path pattern path ≡ some true) ↔ Matches pattern path
unfolding match_path Accepts
match_path_iff pattern path plain = (
  match_path_sound pattern path,
  λ d.
      loop_complete (length pattern) _ (length path) pattern path none (Bounded-start pattern path)
        plain tt (inl d),
)
