-- ===== src/Policy/Association/Examples.antt =====
-- A SOCKS5 UDP association from its configuration to its revocation.
use traffic_forwarding_panel.Prelude.{
  ℕ, ◌<◌, ◌≡◌, ◌≢◌, refl, true, false, not, some, List, [], ◌∷◌, arith, ◌==◌,
}
use traffic_forwarding_panel.Prelude.Int.{pos}
use traffic_forwarding_panel.Prelude.Fallible.{ok, err}
use traffic_forwarding_panel.Prelude.Assoc.{lookup}
use traffic_forwarding_panel.Policy.Association.{
  Library, AddrPort, Binding, Session, Registry, new, has, same_binding, same_endpoint, same_key,
  keep, for_each, prune, count_key, put, has_room, put_all, index_session, set_session,
  valid_binding, canonical_binding, canonical_bindings, reconfigure, configure, invalid_binding,
}
use traffic_forwarding_panel.Policy.Association.Operations.{
  mentions, revoke_rule, Proof, valid_for, valid_udp, choose, look_at, search_index, grant,
  admission, accept_bindings, open_session, announce, conclude, confirm,
}
use traffic_forwarding_panel.Policy.Association.Invariant.{IsSound}
use traffic_forwarding_panel.Policy.Association.Proofs.{admission-valid_for}
use traffic_forwarding_panel.Policy.Association.Steps.{
  opened, announced, confirmed, here, next, Reaches, start, serve, configured, Reaches-IsSound,
}
use traffic_forwarding_panel.Policy.Association.Revoked.{revoked_for_good}

-- Every text has one byte, address 0 is not valid, and no address is mapped.
abbrev lib : Library
lib = record {
  len = λ s. 1;
  is_valid = λ a. not (a == 0);
  is_unspecified = λ a. a == 1;
  unmap = λ a. a;
}

abbrev relay : AddrPort
relay = record { addr = 9; port = 1080 }

abbrev binding : Binding
binding = record { control = 2; udp = 3; generation = 4; endpoint = relay; target = 5 }

abbrev source : AddrPort
source = record { addr = 7; port = 6000 }

abbrev packet : List ℕ
packet = 0 ∷ 0 ∷ 0 ∷ 1 ∷ 10 ∷ 0 ∷ 0 ∷ 1 ∷ 0 ∷ 53 ∷ []

abbrev configured_registry : Registry
configured_registry = record {
  limit = 8;
  ttl = 100;
  next = 0;
  allowed = binding ∷ [];
  sessions = [];
  index = [];
}

configures : configure lib 10 (binding ∷ []) (new (pos 8) (pos 100)) ≡ ok configured_registry
unfolding new configure canonical_bindings canonical_binding valid_binding reconfigure prune
    for_each
configures = refl

unspecified_relay :
    configure lib 10
      (record binding { endpoint = record { addr = 1; port = 1080 } } ∷ [])
      configured_registry
    ≡ err invalid_binding
unfolding configure canonical_bindings canonical_binding valid_binding
unspecified_relay = refl

abbrev observed : Registry
observed = (open_session lib 10 7 (binding ∷ []) configured_registry).1

abbrev ready : Registry
ready = (confirm 11 1 relay observed).1

not_ready : (s : Session) → lookup 1 observed.sessions ≡ some s → s.ready ≡ false
unfolding open_session prune for_each accept_bindings canonical_binding valid_binding has
    same_binding same_endpoint set_session
not_ready s h = ground arith

run : Reaches lib (pos 8) (pos 100) ready
run =
    serve
      (serve (configured 10 (binding ∷ []) start configures)
        (opened 10 7 (binding ∷ []) (omega arith)))
      (confirmed 11 1 relay not_ready)

Reaches-IsSound_example : IsSound ready
Reaches-IsSound_example = Reaches-IsSound lib run

abbrev granted : Proof
granted = record { id = 1; binding = binding; source = source }

admits : (admission lib 12 3 4 source 5 packet ready).0 ≡ some granted
unfolding open_session prune for_each accept_bindings canonical_binding valid_binding has
    same_binding same_endpoint set_session confirm conclude keep index_session has_room count_key
    put_all put same_key admission valid_udp search_index look_at choose grant
admits = refl

lives : 0 < ready.ttl
unfolding open_session prune for_each accept_bindings canonical_binding valid_binding has
    same_binding same_endpoint set_session confirm conclude keep index_session has_room count_key
    put_all put same_key
lives = omega arith

admission-valid_for_example :
    (valid_for 12 (some granted) 3 4 5 (admission lib 12 3 4 source 5 packet ready).1).0 ≡ true
admission-valid_for_example =
    admission-valid_for lib 12 3 4 source 5 packet ready granted (Reaches-IsSound lib run) lives
      admits

names_rule : mentions 3 granted.binding ≡ true
names_rule = refl

revoked_for_good_example :
    ((valid_for 20 (some granted) 3 4 5 (announce 1 6000 (revoke_rule 3 ready))).0 ≡ false)
    × ((admission lib 20 3 4 source 5 packet (announce 1 6000 (revoke_rule 3 ready))).0
        ≢ some granted)
revoked_for_good_example =
    revoked_for_good lib 3 ready (announce 1 6000 (revoke_rule 3 ready)) granted 20 3 4 source 5
      packet (Reaches-IsSound lib run) (next here (announced 1 6000)) names_rule
