-- ===== src/Policy/Checks/Examples.antt =====
-- A policy of one layer, and requests against it.
use Prim.Native.Char.{code}
use Prim.Native.String.{String}
use traffic_forwarding_panel.Prelude.{
  ◌≡◌, ◌⊎◌, ◌↔◌, inl, refl, true, false, none, some, [], ◌∷◌, length, any, all, arith,
}
use traffic_forwarding_panel.Prelude.Fallible.{ok, err}
use traffic_forwarding_panel.Policy.Path.{Bytes, match_path}
use traffic_forwarding_panel.Policy.Path.Glob.{Matches}
use traffic_forwarding_panel.Policy.Paths.{
  paths, canonical, resolve, step, drop_last, join, split, ends, starts, has_control, contains,
  same_bytes,
}
use traffic_forwarding_panel.Policy.Hosts.{
  Names, starts_with, ends_with, labels, is_label_char, valid_label, valid_server_name,
  without_port, host_name, ascii_name, host, wildcard, has_suffix, match_host,
}
use traffic_forwarding_panel.Policy.Hosts.Wildcard.{StandsFor, match_host_iff}
use traffic_forwarding_panel.Policy.Checks.{
  Layer, blocked_path, host_hit, check_layers, check_host, path_hit, any_path_hit, check_paths,
  check_http,
}
use traffic_forwarding_panel.Policy.Checks.Denied.{Among, check_http-Matches, check_http-StandsFor}

abbrev codes : String → Bytes
codes String.[] = []
codes (String.◌∷◌ c s) = code c ∷ codes s

-- Texts without ports, addresses and capital letters.
abbrev names : Names
names = record {
  trim = λ s. s;
  to_lower = λ s. s;
  is_ip = λ s. false;
  split_host_port = λ s. none;
  parse_addr = λ s. none;
  to_ascii = some;
}

abbrev layer : Layer
layer = record {
  inspection = false;
  allowed_hosts = codes "*.a.b" ∷ [];
  blocked_hosts = codes "c.a.b" ∷ [];
  blocked_paths = codes "/x/*" ∷ [];
  blocked_apps = 0;
  tls_required = false;
  reject_empty_sni = false;
}

hosts : host names (codes "d.a.b") ≡ ok (codes "d.a.b")
unfolding host without_port host_name ascii_name starts_with ends_with valid_server_name same_bytes
    valid_label labels is_label_char all
hosts = refl

spellings : paths some (codes "/y/z") ≡ ok (codes "/y/z" ∷ codes "/y/z" ∷ codes "/y/z" ∷ [])
unfolding paths canonical resolve step drop_last join split ends starts has_control contains
    same_bytes
spellings = refl

passes : check_http names some (layer ∷ []) (codes "d.a.b") (codes "/y/z") false ≡ ok tt
unfolding check_http check_host check_layers host_hit match_host wildcard has_suffix check_paths
    any_path_hit path_hit match_path any host without_port host_name ascii_name starts_with
    ends_with valid_server_name same_bytes valid_label labels is_label_char all paths canonical
    resolve step drop_last join split ends starts has_control contains
passes = refl

refuses :
    check_http names some (layer ∷ []) (codes "d.a.b") (codes "/y/../x/z") false ≡ err blocked_path
unfolding check_http check_host check_layers host_hit match_host wildcard has_suffix check_paths
    any_path_hit path_hit match_path any host without_port host_name ascii_name starts_with
    ends_with valid_server_name same_bytes valid_label labels is_label_char all paths canonical
    resolve step drop_last join split ends starts has_control contains
refuses = refl

match_host_iff_example :
    (match_host (codes "*.a.b") (codes "d.a.b") ≡ true) ↔ StandsFor (codes "*.a.b") (codes "d.a.b")
match_host_iff_example = match_host_iff (codes "*.a.b") (codes "d.a.b")

check_http-Matches_example : ¬ Matches (codes "/x/*") (codes "/y/z")
check_http-Matches_example =
    check_http-Matches names some (layer ∷ []) (codes "d.a.b") (codes "/y/z") false layer
      (codes "/y/z" ∷ codes "/y/z" ∷ codes "/y/z" ∷ []) (codes "/x/*") (codes "/y/z") passes
      spellings (inl refl) (inl refl) (inl refl) (omega arith)

check_http-StandsFor_example :
    ((length layer.allowed_hosts ≡ 0)
      ⊎ ((pattern : Bytes) × Among pattern layer.allowed_hosts × StandsFor pattern (codes "d.a.b")))
    × ((pattern : Bytes) → Among pattern layer.blocked_hosts → ¬ StandsFor pattern (codes "d.a.b"))
check_http-StandsFor_example =
    check_http-StandsFor names some (layer ∷ []) (codes "d.a.b") (codes "/y/z") (codes "d.a.b")
      false layer passes hosts (inl refl)
