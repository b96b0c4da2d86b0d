-- ===== src/Policy/Path/Examples.antt =====
-- The matcher at concrete patterns and paths.
use Prim.Native.Char.{code}
use Prim.Native.String.{String}
use traffic_forwarding_panel.Prelude.{◌≡◌, ◌≢◌, ◌↔◌, refl, true, false, none, some, [], ◌∷◌, arith}
use traffic_forwarding_panel.Policy.Path.{Bytes, match_path}
use traffic_forwarding_panel.Policy.Path.Glob.{Matches}
use traffic_forwarding_panel.Policy.Path.Fuel.{match_path_total}
use traffic_forwarding_panel.Policy.Path.Complete.{match_path_iff}
use traffic_forwarding_panel.Policy.Path.Literal.{match_path_misses}

-- The bytes of an ASCII text.
abbrev codes : String → Bytes
codes String.[] = []
codes (String.◌∷◌ c s) = code c ∷ codes s

crosses_slashes : match_path (codes "/a*/c?e") (codes "/a/b/cde") ≡ some true
unfolding match_path
crosses_slashes = refl

rejects : match_path (codes "/a*/c") (codes "/a/b/cde") ≡ some false
unfolding match_path
rejects = refl

match_path_total_example : match_path (codes "/a*") (codes "/a/b") ≢ none
match_path_total_example = match_path_total (codes "/a*") (codes "/a/b")

match_path_iff_example :
    (match_path (codes "/a*") (codes "/ab") ≡ some true) ↔ Matches (codes "/a*") (codes "/ab")
match_path_iff_example = match_path_iff (codes "/a*") (codes "/ab") (ground arith)

match_path_misses_example :
    (match_path (codes "/a*") (codes "/a*b") ≡ some false) × Matches (codes "/a*") (codes "/a*b")
match_path_misses_example = match_path_misses (codes "/a") b'b' [] (ground arith)
