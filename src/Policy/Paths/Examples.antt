-- ===== src/Policy/Paths/Examples.antt =====
-- Request paths at concrete spellings, without escapes.
use traffic_forwarding_panel.Prelude.{◌↔◌, ◌≡◌, refl, some, [], ◌∷◌}
use traffic_forwarding_panel.Prelude.Fallible.{ok}
use traffic_forwarding_panel.Policy.Path.{Bytes}
use traffic_forwarding_panel.Policy.Paths.{
  same_bytes, contains, has_control, starts, ends, split, join, drop_last, step, resolve, canonical,
  paths,
}
use traffic_forwarding_panel.Policy.Paths.Spelling.{IsCanonical, canonical_iff}

-- "/a/./../b"
abbrev raw_path : Bytes
raw_path = 47 ∷ 97 ∷ 47 ∷ 46 ∷ 47 ∷ 46 ∷ 46 ∷ 47 ∷ 98 ∷ []

-- "/b"
abbrev short_path : Bytes
short_path = 47 ∷ 98 ∷ []

accepts : paths some raw_path ≡ ok (raw_path ∷ raw_path ∷ short_path ∷ [])
unfolding paths canonical resolve step drop_last join split ends starts has_control contains
    same_bytes
accepts = refl

canonical_iff_example : (canonical raw_path ≡ short_path) ↔ IsCanonical raw_path short_path
canonical_iff_example = canonical_iff raw_path short_path

-- "/a/../b/" keeps its last slash, and "/.." is the root.
ends_kept :
    (canonical (47 ∷ 97 ∷ 47 ∷ 46 ∷ 46 ∷ 47 ∷ 98 ∷ 47 ∷ []) ≡ 47 ∷ 98 ∷ 47 ∷ [])
    × (canonical (47 ∷ 46 ∷ 46 ∷ []) ≡ 47 ∷ [])
unfolding canonical resolve step drop_last join split ends same_bytes
ends_kept = (refl, refl)
