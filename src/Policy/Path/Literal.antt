-- ===== src/Policy/Path/Literal.antt =====
-- `MatchPath` (internal/policy/match.go) where the path itself holds a '*': the test on line 88 compares
-- it with a '*' of the pattern as a literal, before line 93 reads that as a wildcard.
use traffic_forwarding_panel.Prelude.{
  ℕ, zero, suc, ◌+◌, ◌*◌, ◌≤◌, ◌≡◌, ◌≢◌, refl, false, none, some, [], ◌∷◌, ◌++◌, arith, ==_refl,
  length, length-append, All,
}
use traffic_forwarding_panel.Policy.Path.{Bytes, star, question, again, loop, match_path}
use traffic_forwarding_panel.Policy.Path.Glob.{Matches, empty, one, leave, take}

-- No '*' and no '?'.
abbrev pub IsLiteral : Bytes → Type 0
IsLiteral = All (λ c. (c ≢ star) × (c ≢ question))

loop_literal :
    (w : Bytes) (c : ℕ) (s : Bytes) (f : ℕ)
    → length w + 2 ≤ f
    → loop f (w ++ star ∷ []) (w ++ star ∷ c ∷ s) none ≡ some false
unfolding loop again
loop_literal w c s zero h = absurd (omega arith)
loop_literal [] c s (suc zero) h = absurd (omega arith)
loop_literal [] c s (suc (suc f)) h = refl
loop_literal (x ∷ w) c s (suc f) h = ground (arith, loop_literal w c s f, ==_refl x)

enough : (n a b : ℕ) → 2 ≤ a → b ≡ n + 1 → n + 2 ≤ (a + 1) * (b + 1)
enough n a b h e = grind arith

all_bytes : (s : Bytes) → Matches (star ∷ []) s
all_bytes [] = leave refl empty
all_bytes (c ∷ s) = take refl (all_bytes s)

literal_then_star : (w s : Bytes) → IsLiteral w → Matches (w ++ star ∷ []) (w ++ s)
literal_then_star [] s h = all_bytes s
literal_then_star (x ∷ w) s h = one h.0.0 (ground (arith, ==_refl x)) (literal_then_star w s h.1)

-- A pattern of a literal prefix and a final star matches every path that begins with the prefix, and
-- yet the matcher rejects each such path in which a '*' and at least one more byte follow the prefix.
pub match_path_misses :
    (w : Bytes) (c : ℕ) (s : Bytes)
    → IsLiteral w
    → (match_path (w ++ star ∷ []) (w ++ star ∷ c ∷ s) ≡ some false)
      × Matches (w ++ star ∷ []) (w ++ star ∷ c ∷ s)
unfolding match_path
match_path_misses w c s h = (
  loop_literal w c s _ (
      enough (length w) (length (w ++ star ∷ c ∷ s)) (length (w ++ star ∷ []))
        (omega (arith, length-append w (star ∷ c ∷ s)))
        (omega (arith, length-append w (star ∷ [])))),
  literal_then_star w (star ∷ c ∷ s) h,
)
