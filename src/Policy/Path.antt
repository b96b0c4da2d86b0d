-- ===== src/Policy/Path.antt =====
-- `MatchPath` of internal/policy/match.go, on byte strings. An index is kept as the suffix that it
-- leaves: `i` is pattern[i:], `j` is path[j:], and `star`, `retry` are pattern[star+1:], path[retry:].
pub mod Glob
pub mod Fuel
pub mod Sound
pub mod Complete
pub mod Literal
mod Examples
use traffic_forwarding_panel.Prelude.{
  ℕ, zero, suc, ◌+◌, ◌*◌, ◌&&◌, ◌||◌, Bool, true, false, Option, none, some, List, [], ◌∷◌, length,
  ◌==◌, if◌then◌else◌,
}

abbrev pub Bytes : Type 0
Bytes = List ℕ

-- '*' and '?'
abbrev pub star : ℕ
star = b'*'

abbrev pub question : ℕ
question = b'?'

-- `star` and `retry`, once a star was passed
abbrev pub Back : Type 0
Back = Option (Bytes × Bytes)

abbrev pub next : Bytes → Bytes
next [] = []
next (c ∷ s) = s

-- The trailing loop and the test `i == len(pattern)`.
unfoldable pub only_stars : Bytes → Bool
only_stars [] = true
only_stars (x ∷ p) = x == star && only_stars p

-- The last two steps of a round: fail, or let the last star take one more byte.
unfoldable pub again : Back → (Bytes → Bytes → Back → Option Bool) → Option Bool
again none go = some false
again (some (bp, bs)) go = go bp (next bs) (some (bp, next bs))

-- The loop on fuel; `none` means that the fuel ran out.
unfoldable pub loop : ℕ → Bytes → Bytes → Back → Option Bool
unfolding only_stars again
loop zero p s back = none
loop (suc f) p [] back = some (only_stars p)
loop (suc f) [] (c ∷ s) back = again back (loop f)
loop (suc f) (x ∷ p) (c ∷ s) back =
    let same = loop f p s back in
    let wild = loop f p (c ∷ s) (some (p, c ∷ s)) in
    let later = again back (loop f) in
    if x == question || x == c then same else if x == star then wild else later

unfoldable pub match_path : Bytes → Bytes → Option Bool
unfolding loop
match_path pattern path = loop ((length path + 1) * (length pattern + 1)) pattern path none
