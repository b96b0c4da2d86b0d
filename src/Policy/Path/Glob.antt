-- ===== src/Policy/Path/Glob.antt =====
-- The matching that `MatchPath` is meant to decide, as a grammar: '*' stands for any bytes and '?' for
-- one byte.
use traffic_forwarding_panel.Prelude.{
  ℕ, ◌≡◌, ◌≢◌, ◌⊎◌, inl, inr, refl, ◌||◌, true, [], ◌∷◌, arith, ◌==◌,
}
use traffic_forwarding_panel.Policy.Path.{Bytes, star, question, only_stars}

pub data Matches : Bytes → Bytes → Type 0 where
  empty : Matches [] []
  one :
      {x c : ℕ} {p s : Bytes}
      → x ≢ star
      → (x == question || x == c) ≡ true
      → Matches p s
      → Matches (x ∷ p) (c ∷ s)
  leave : {x : ℕ} {p s : Bytes} → x ≡ star → Matches p s → Matches (x ∷ p) s
  take : {x c : ℕ} {p s : Bytes} → x ≡ star → Matches (x ∷ p) s → Matches (x ∷ p) (c ∷ s)

-- Inversion of a derivation at each shape.
pub one_inv :
    {x c : ℕ} {p s : Bytes}
    → Matches (x ∷ p) (c ∷ s)
    → x ≢ star
    → ((x == question || x == c) ≡ true) × Matches p s
one_inv (one n h d) ne = (h, d)
one_inv (leave e d) ne = absurd (ne e)
one_inv (take e d) ne = absurd (ne e)

pub star_inv :
    {x c : ℕ} {p s : Bytes}
    → Matches (x ∷ p) (c ∷ s)
    → x ≡ star
    → Matches p (c ∷ s) ⊎ Matches (x ∷ p) s
star_inv (one n h d) e = absurd (n e)
star_inv (leave _ d) e = inl d
star_inv (take _ d) e = inr d

pub end_inv : {x : ℕ} {p : Bytes} → Matches (x ∷ p) [] → (x ≡ star) × Matches p []
end_inv (leave e d) = (e, d)

pub no_pattern : {c : ℕ} {s : Bytes} → ¬ Matches [] (c ∷ s)
no_pattern d = elim d [ ]

-- Two stars are one.
pub collapse : {p s : Bytes} → Matches (star ∷ star ∷ p) s → Matches (star ∷ p) s
collapse (one n h d) = absurd (n refl)
collapse (leave e d) = d
collapse (take e d) = take refl (collapse d)

-- Behind a star, an item that takes one byte can be dropped together with the first byte.
pub drop_one :
    {x c : ℕ} {p s : Bytes} → x ≢ star → Matches (star ∷ x ∷ p) (c ∷ s) → Matches (star ∷ p) s
drop_one {s} ne (one n h d) = absurd (n refl)
drop_one {s} ne (leave e d) = leave refl (one_inv d ne).1
drop_one {s = []} ne (take e d) = absurd (ne (end_inv (end_inv d).1).0)
drop_one {s = c' ∷ s} ne (take e d) = take refl (drop_one ne d)

pub only_stars→Matches : (p : Bytes) → only_stars p ≡ true → Matches p []
unfolding only_stars
only_stars→Matches [] h = empty
only_stars→Matches (x ∷ p) h = leave (ground arith) (only_stars→Matches p (ground arith))

pub Matches→only_stars : (p : Bytes) → Matches p [] → only_stars p ≡ true
unfolding only_stars
Matches→only_stars [] d = refl
Matches→only_stars (x ∷ p) d = ground (arith, end_inv d, Matches→only_stars p (end_inv d).1)
