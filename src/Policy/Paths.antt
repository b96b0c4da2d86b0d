-- ===== src/Policy/Paths.antt =====
-- `Paths` of internal/policy/match.go, on byte strings: the three spellings of a request path that
-- the access policies are tested against. `url.PathUnescape` is a parameter.
mod Canonical
mod Reduced
mod Spelling
mod Examples
use traffic_forwarding_panel.Prelude.{
  ℕ, Bool, true, false, not, ◌&&◌, ◌||◌, Option, List, [], ◌∷◌, ◌++◌, ltb, ◌==◌, if◌then◌else◌,
  length,
}
use traffic_forwarding_panel.Prelude.Fallible.{Fallible, ok, ◌>>=◌, ◌>>◌, fail_if, or_err}
use traffic_forwarding_panel.Policy.Path.{Bytes}

pub data Error : Type 0 where
  invalid_path invalid_encoded double_encoded : Error

abbrev pub slash : ℕ
slash = 47

abbrev pub dot : Bytes
dot = 46 ∷ []

abbrev pub dot_dot : Bytes
dot_dot = 46 ∷ 46 ∷ []

unfoldable pub same_bytes : Bytes → Bytes → Bool
same_bytes [] [] = true
same_bytes (x ∷ s) (y ∷ t) = x == y && same_bytes s t
same_bytes s t = false

unfoldable pub contains : ℕ → Bytes → Bool
contains x [] = false
contains x (c ∷ s) = x == c || contains x s

-- `strings.ContainsAny(decoded, "\x00\r\n\\")`
unfoldable pub has_control : Bytes → Bool
has_control s = contains 0 s || contains 13 s || contains 10 s || contains 92 s

-- `strings.HasPrefix(s, "/")` and `strings.HasSuffix(s, "/")`
unfoldable pub starts : Bytes → Bool
starts [] = false
starts (c ∷ s) = c == slash

unfoldable pub ends : Bytes → Bool
ends [] = false
ends (c ∷ []) = c == slash
ends (c ∷ d ∷ s) = ends (d ∷ s)

abbrev pub extend : ℕ → List Bytes → List Bytes
extend c [] = (c ∷ []) ∷ []
extend c (w ∷ ws) = (c ∷ w) ∷ ws

-- `strings.Split(s, "/")`
unfoldable pub split : Bytes → List Bytes
split [] = [] ∷ []
split (c ∷ s) = if c == slash then [] ∷ split s else extend c (split s)

-- `strings.Join(ws, "/")`
unfoldable pub join : List Bytes → Bytes
join [] = []
join (w ∷ []) = w
join (w ∷ v ∷ ws) = w ++ slash ∷ join (v ∷ ws)

-- `segments[:len(segments)-1]`, where there is one
unfoldable pub drop_last : List Bytes → List Bytes
drop_last [] = []
drop_last (w ∷ []) = []
drop_last (w ∷ v ∷ ws) = w ∷ drop_last (v ∷ ws)

-- The switch over a segment.
unfoldable pub step : List Bytes → Bytes → List Bytes
step segments p =
    if same_bytes p [] || same_bytes p dot
    then segments
    else if same_bytes p dot_dot
    then drop_last segments
    else segments ++ p ∷ []

unfoldable pub resolve : List Bytes → List Bytes → List Bytes
resolve segments [] = segments
resolve segments (p ∷ ps) = resolve (step segments p) ps

unfoldable pub canonical : Bytes → Bytes
canonical decoded =
    let c = slash ∷ join (resolve [] (split decoded)) in
    if ends decoded && not (same_bytes c (slash ∷ [])) then c ++ slash ∷ [] else c

unfoldable pub paths : (Bytes → Option Bytes) → Bytes → Fallible Error (List Bytes)
paths unescape raw = do
  fail_if (ltb 8192 (length raw) || not (starts raw)) invalid_path
  decoded ← or_err (unescape raw) invalid_encoded
  fail_if (has_control decoded) invalid_encoded
  fail_if (contains 37 decoded) double_encoded
  ok (raw ∷ decoded ∷ canonical decoded ∷ [])
