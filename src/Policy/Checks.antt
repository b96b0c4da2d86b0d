-- ===== src/Policy/Checks.antt =====
-- The access policy of a request: `CheckHost`, `CheckHTTP`, `NeedsHTTP` and `NeedsInspect` of
-- internal/policy/match.go, over the layers of internal/contract/group_policy.go.
pub mod Denied
mod Examples
use traffic_forwarding_panel.Prelude.{
  ℕ, ◌+◌, Bool, true, false, not, ◌&&◌, ◌||◌, Option, none, some, List, [], ◌∷◌, length, any, ltb,
  ◌==◌, if◌then◌else◌,
}
use traffic_forwarding_panel.Prelude.Fallible.{Fallible, ok, err, ◌>>=◌, ◌>>◌, fail_if, guard}
use traffic_forwarding_panel.Policy.Path.{Bytes, match_path}
use traffic_forwarding_panel.Policy.Paths
use traffic_forwarding_panel.Policy.Paths.{paths}
use traffic_forwarding_panel.Policy.Hosts.{Names, host, match_host}

-- `InboundPolicy`: whether it has an inspection, its patterns, and how many applications it blocks
pub record Layer : Type 0 where
  pub inspection : Bool
  pub allowed_hosts : List Bytes
  pub blocked_hosts : List Bytes
  pub blocked_paths : List Bytes
  pub blocked_apps : ℕ
  pub tls_required : Bool
  pub reject_empty_sni : Bool

pub data Error : Type 0 where
  allowed_host blocked_host opaque_upgrade blocked_path : Error
  bad_path : Paths.Error → Error

unfoldable pub needs_http : List Layer → Bool
needs_http =
    any (λ p. ltb 0 (length p.allowed_hosts + length p.blocked_hosts + length p.blocked_paths))

unfoldable pub needs_inspect : List Layer → Bool
needs_inspect = any (λ p.
    p.inspection
    || p.tls_required
    || p.reject_empty_sni
    || ltb 0
        (length p.allowed_hosts + length p.blocked_hosts + length p.blocked_paths + p.blocked_apps))

-- Whether a pattern of the list stands for the host; a value that is no host matches nothing.
unfoldable pub host_hit : Option Bytes → List Bytes → Bool
host_hit none patterns = false
host_hit (some h) patterns = any (λ p. match_host p h) patterns

unfoldable pub check_layers : Option Bytes → List Layer → Fallible Error (Unit {0})
check_layers h [] = ok tt
check_layers h (p ∷ layers) = do
  fail_if (not (length p.allowed_hosts == 0) && not (host_hit h p.allowed_hosts)) allowed_host
  fail_if (host_hit h p.blocked_hosts) blocked_host
  check_layers h layers

abbrev pub parsed_host : Names → Bytes → Option Bytes
parsed_host n value = elim (host n value) [ err e ↦ none | ok h ↦ some h ]

unfoldable pub check_host : Names → List Layer → Bytes → Fallible Error (Unit {0})
check_host n layers value = check_layers (parsed_host n value) layers

-- `MatchPath`; that its fuel suffices is a theorem of Policy/Path/Fuel.
unfoldable pub path_hit : Bytes → Bytes → Bool
path_hit pattern path = elim (match_path pattern path) [ none ↦ false | some b ↦ b ]

unfoldable pub any_path_hit : List Bytes → List Bytes → Bool
any_path_hit patterns spellings = any (λ p. any (path_hit p) spellings) patterns

-- The spellings of a raw path, or the error of `Paths`.
abbrev pub spellings_of : (Bytes → Option Bytes) → Bytes → Fallible Error (List Bytes)
spellings_of unescape raw = elim (paths unescape raw) [ err e ↦ err (bad_path e) | ok s ↦ ok s ]

unfoldable pub check_paths :
    (Bytes → Option Bytes) → List Layer → Bytes → Bool → Fallible Error (Unit {0})
check_paths unescape [] raw upgrade = ok tt
check_paths unescape (p ∷ layers) raw upgrade =
    let rest = check_paths unescape layers raw upgrade in
    if length p.blocked_paths == 0 then rest else do
      fail_if upgrade opaque_upgrade
      spellings ← spellings_of unescape raw
      fail_if (any_path_hit p.blocked_paths spellings) blocked_path
      rest

unfoldable pub check_http :
    Names → (Bytes → Option Bytes) → List Layer → Bytes → Bytes → Bool → Fallible Error (Unit {0})
check_http n unescape layers value raw upgrade =
    check_host n layers value >> check_paths unescape layers raw upgrade
