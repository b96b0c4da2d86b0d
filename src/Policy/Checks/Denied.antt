-- ===== src/Policy/Checks/Denied.antt =====
-- What a request that passes `CheckHTTP` (internal/policy/match.go) cannot be.
use traffic_forwarding_panel.Prelude.{
  ◌≡◌, ◌≢◌, ◌⊎◌, inl, inr, refl, Bool, true, false, Option, some, List, [], ◌∷◌, length, any, arith,
  ◌==◌, Bool-cases,
}
use traffic_forwarding_panel.Prelude.Fallible.{ok}
use traffic_forwarding_panel.Policy.Path.{Bytes, match_path}
use traffic_forwarding_panel.Policy.Path.Glob.{Matches}
use traffic_forwarding_panel.Policy.Path.Complete.{IsPlain, match_path_iff}
use traffic_forwarding_panel.Policy.Paths.{paths}
use traffic_forwarding_panel.Policy.Hosts.{Names, host, match_host}
use traffic_forwarding_panel.Policy.Hosts.Wildcard.{StandsFor, match_host_iff}
use traffic_forwarding_panel.Policy.Checks.{
  Layer, host_hit, check_layers, check_host, path_hit, any_path_hit, check_paths, check_http,
}

-- The value is one of the list.
abbrev pub Among : {A : Type 0} → A → List A → Type 0
Among x [] = ⊥
Among x (y ∷ ys) = (x ≡ y) ⊎ Among x ys

any-false :
    {A : Type 0} (p : A → Bool) (x : A) (xs : List A) → any p xs ≡ false → Among x xs → p x ≡ false
unfolding any
any-false p x [] h m = absurd m
any-false p x (y ∷ ys) h (inl e) = rw e (ground arith)
any-false p x (y ∷ ys) h (inr m) = any-false p x ys (ground arith) m

no_patterns :
    (patterns : List Bytes)
    → length patterns ≡ 0
    → (spellings : List Bytes) → any_path_hit patterns spellings ≡ false
unfolding any_path_hit any
no_patterns [] h spellings = refl
no_patterns (p ∷ ps) h spellings = absurd (omega arith)

-- A layer of an accepted list has let the spellings of the path pass.
layer_passes :
    (unescape : Bytes → Option Bytes) (q : Layer) (layers : List Layer) (raw : Bytes)
    (upgrade : Bool) (spellings : List Bytes)
    → check_paths unescape (q ∷ layers) raw upgrade ≡ ok tt
    → paths unescape raw ≡ ok spellings
    → any_path_hit q.blocked_paths spellings ≡ false
unfolding check_paths
layer_passes unescape q layers raw upgrade spellings h s =
    elim (Bool-cases (length q.blocked_paths == 0)) [
      | inl none_blocked ↦ no_patterns q.blocked_paths (ground arith) spellings
      | inr some_blocked ↦ ground (arith, s)
    ]

rest_passes :
    (unescape : Bytes → Option Bytes) (q : Layer) (layers : List Layer) (raw : Bytes)
    (upgrade : Bool)
    → check_paths unescape (q ∷ layers) raw upgrade ≡ ok tt
    → check_paths unescape layers raw upgrade ≡ ok tt
unfolding check_paths
rest_passes unescape q layers raw upgrade h = ground arith

check_paths-layer :
    (unescape : Bytes → Option Bytes) (layers : List Layer) (raw : Bytes) (upgrade : Bool)
    (p : Layer) (spellings : List Bytes)
    → check_paths unescape layers raw upgrade ≡ ok tt
    → paths unescape raw ≡ ok spellings
    → Among p layers
    → any_path_hit p.blocked_paths spellings ≡ false
check_paths-layer unescape [] raw upgrade p spellings h s m = absurd m
check_paths-layer unescape (q ∷ layers) raw upgrade p spellings h s (inl e) =
    rw e (layer_passes unescape q layers raw upgrade spellings h s)
check_paths-layer unescape (q ∷ layers) raw upgrade p spellings h s (inr m) =
    check_paths-layer unescape layers raw upgrade p spellings
      (rest_passes unescape q layers raw upgrade h) s m

path_hit-match_path :
    (pattern path : Bytes) → path_hit pattern path ≡ false → match_path pattern path ≢ some true
unfolding path_hit
path_hit-match_path pattern path h e = ground arith

-- A request that passes has, for every layer, no blocked path pattern that one of the spellings of its
-- path matches, as long as that spelling holds no '*'.
pub check_http-Matches :
    (n : Names) (unescape : Bytes → Option Bytes) (layers : List Layer) (value raw : Bytes)
    (upgrade : Bool) (p : Layer) (spellings : List Bytes) (pattern spelling : Bytes)
    → check_http n unescape layers value raw upgrade ≡ ok tt
    → paths unescape raw ≡ ok spellings
    → Among p layers
    → Among pattern p.blocked_paths
    → Among spelling spellings
    → IsPlain spelling
    → ¬ Matches pattern spelling
unfolding check_http any_path_hit
check_http-Matches n unescape layers value raw upgrade p spellings pattern spelling h s layer
      blocked spelled plain m =
    let passed : check_paths unescape layers raw upgrade ≡ ok tt = ground arith in
    let missed = check_paths-layer unescape layers raw upgrade p spellings passed s layer in
    let each = any-false (λ q. any (path_hit q) spellings) pattern p.blocked_paths missed blocked in
    let one = any-false (path_hit pattern) spelling spellings each spelled in
    path_hit-match_path pattern spelling one ((match_path_iff pattern spelling plain).1 m)

layer_host :
    (h : Option Bytes) (q : Layer) (layers : List Layer)
    → check_layers h (q ∷ layers) ≡ ok tt
    → ((length q.allowed_hosts ≡ 0) ⊎ (host_hit h q.allowed_hosts ≡ true))
      × (host_hit h q.blocked_hosts ≡ false)
      × (check_layers h layers ≡ ok tt)
unfolding check_layers
layer_host h q layers e = ground arith

hit-Among :
    (h : Bytes) (patterns : List Bytes)
    → host_hit (some h) patterns ≡ true
    → (pattern : Bytes) × Among pattern patterns × StandsFor pattern h
unfolding host_hit any
hit-Among h [] e = cc
hit-Among h (q ∷ patterns) e = elim (Bool-cases (match_host q h)) [
  | inl hit ↦ (q, inl refl, (match_host_iff q h).0 hit)
  | inr ne ↦ let (pattern, m, s) = hit-Among h patterns (rw ne at e) in (pattern, inr m, s)
]

layers_host :
    (h : Bytes) (layers : List Layer) (p : Layer)
    → check_layers (some h) layers ≡ ok tt
    → Among p layers
    → ((length p.allowed_hosts ≡ 0) ⊎ (host_hit (some h) p.allowed_hosts ≡ true))
      × (host_hit (some h) p.blocked_hosts ≡ false)
layers_host h [] p e m = absurd m
layers_host h (q ∷ layers) p e (inl same) =
    let l = layer_host (some h) q layers e in rw same (l.0, l.1)
layers_host h (q ∷ layers) p e (inr m) = layers_host h layers p (layer_host (some h) q layers e).2 m

host_passes :
    (n : Names) (unescape : Bytes → Option Bytes) (layers : List Layer) (value raw h : Bytes)
    (upgrade : Bool)
    → check_http n unescape layers value raw upgrade ≡ ok tt
    → host n value ≡ ok h
    → check_layers (some h) layers ≡ ok tt
unfolding check_http check_host
host_passes n unescape layers value raw h upgrade e found = ground (arith, found)

not_blocked :
    (pattern h : Bytes) (patterns : List Bytes)
    → host_hit (some h) patterns ≡ false
    → Among pattern patterns
    → match_host pattern h ≢ true
unfolding host_hit
not_blocked pattern h patterns e m hit =
    cc (any-false (λ q. match_host q h) pattern patterns e m, hit)

-- A request that passes, with a value that is a host, has for every layer no blocked host pattern that
-- stands for this host, and one allowed host pattern that does if the layer has any.
pub check_http-StandsFor :
    (n : Names) (unescape : Bytes → Option Bytes) (layers : List Layer) (value raw h : Bytes)
    (upgrade : Bool) (p : Layer)
    → check_http n unescape layers value raw upgrade ≡ ok tt
    → host n value ≡ ok h
    → Among p layers
    → ((length p.allowed_hosts ≡ 0)
        ⊎ ((pattern : Bytes) × Among pattern p.allowed_hosts × StandsFor pattern h))
      × ((pattern : Bytes) → Among pattern p.blocked_hosts → ¬ StandsFor pattern h)
check_http-StandsFor n unescape layers value raw h upgrade p e found m =
    let (allowed, blocked) =
      layers_host h layers p (host_passes n unescape layers value raw h upgrade e found) m in
    (
      elim allowed [
        | inl none_allowed ↦ inl none_allowed
        | inr hit ↦ inr (hit-Among h p.allowed_hosts hit)
      ],
      λ pattern among s.
          not_blocked pattern h p.blocked_hosts blocked among ((match_host_iff pattern h).1 s),
    )
