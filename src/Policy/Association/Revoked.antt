-- ===== src/Policy/Association/Revoked.antt =====
-- Revocations of internal/policy/association/registry.go: which bindings stay allowed, whatever the
-- registry does afterwards, short of a new configuration.
use traffic_forwarding_panel.Prelude.{
  ℕ, ◌≡◌, ◌≢◌, refl, ◌∙◌, Bool, true, false, not, ◌||◌, Option, none, some, List, [], ◌∷◌, any,
  arith, ltb, ◌==◌, if◌then◌else◌, Bool-cases, Option-cases, inl, inr,
}
use traffic_forwarding_panel.Prelude.Assoc.{lookup, keys}
use traffic_forwarding_panel.Policy.Association.{
  Library, AddrPort, Binding, LookupKey, Session, Entry, Registry, has, same_binding, keep,
  for_each, remove_session, is_over, prune, index_session, set_session,
}
use traffic_forwarding_panel.Policy.Association.Operations.{
  mentions, revoke, revoke_rule, revoke_generation, revoke_all, count, Proof, valid_for,
  session_admits, Choice, nothing, ambiguous, chosen, look_at, search_index, under, grant,
  admission, open_session, announce, conclude, confirm, close, is_ambiguous, valid_udp,
}
use traffic_forwarding_panel.Policy.Association.Index.{same_binding_eq}
use traffic_forwarding_panel.Policy.Association.Invariant.{IsSound, for_each-keeps}
use traffic_forwarding_panel.Policy.Association.Preserved.{revoke-IsSound}
use traffic_forwarding_panel.Policy.Association.Admission.{Fits}
use traffic_forwarding_panel.Policy.Association.Proofs.{search-Searched}
use traffic_forwarding_panel.Policy.Association.Steps.{
  Step, revoked, rotated, revoked_all, counted, checked, admitted, opened, announced, confirmed,
  closed, Serves, here, next, Serves-IsSound,
}

-- No binding that is hit is allowed.
abbrev pub Bans : (Binding → Bool) → List Binding → Type 0
Bans hit allowed = (b : Binding) → hit b ≡ true → has b allowed ≡ false

Bans-keep : (hit p : Binding → Bool) (bs : List Binding) → Bans hit bs → Bans hit (keep p bs)
unfolding keep has
Bans-keep hit p [] h b e = refl
Bans-keep hit p (c ∷ bs) h b e =
    ground (arith, Bans-keep hit p bs (λ d f. ground (arith, h d f)) b e, h b e)

keep-Bans : (hit : Binding → Bool) (bs : List Binding) → Bans hit (keep (λ b. not (hit b)) bs)
unfolding keep has
keep-Bans hit [] b e = refl
keep-Bans hit (c ∷ bs) b e = elim (Bool-cases (same_binding b c)) [
  | inl same ↦
      let hit_c : hit c ≡ true = rw (← same_binding_eq b c same) e in
      rw hit_c (keep-Bans hit bs b e)
  | inr ne ↦ ground (arith, keep-Bans hit bs b e)
]

-- A loop over the sessions leaves the allowed bindings alone, if its body does.
for_each-allowed :
    (body : ℕ → Session → Registry → Registry)
    → ((id : ℕ) (s : Session) (r : Registry) → (body id s r).allowed ≡ r.allowed)
    → (ids : List ℕ) (r : Registry) → (for_each body ids r).allowed ≡ r.allowed
for_each-allowed body same ids r =
    for_each-keeps (λ r'. r'.allowed ≡ r.allowed) body (λ id s r' found e. same id s r' ∙ e) ids r
      refl

prune-allowed : (now : ℕ) (r : Registry) → (prune now r).allowed ≡ r.allowed
unfolding prune remove_session
prune-allowed now r =
    for_each-allowed (λ id s r'. if is_over now s then remove_session id s r' else r')
      (λ id s r'. ground arith) (keys r.sessions) r

revoke-allowed :
    (hit : Binding → Bool) (r : Registry)
    → (revoke hit r).allowed ≡ keep (λ b. not (hit b)) r.allowed
unfolding revoke remove_session
revoke-allowed hit r =
    for_each-allowed (λ id s r'. if any hit s.bindings then remove_session id s r' else r')
      (λ id s r'. ground arith) (keys r.sessions)
      (record r { allowed = keep (λ b. not (hit b)) r.allowed })

look_at-allowed :
    (now : ℕ) (source : AddrPort) (e : Entry) (c : Choice) (r : Registry)
    → (look_at now source e c r).1.allowed ≡ r.allowed
unfolding look_at remove_session
look_at-allowed now source e c r = ground arith

pub search_index-allowed :
    (now : ℕ) (source : AddrPort) (es : List Entry) (c : Choice) (r : Registry)
    → (search_index now source es c r).1.allowed ≡ r.allowed
unfolding search_index
search_index-allowed now source [] c r = refl
search_index-allowed now source (e ∷ es) c r = elim (Bool-cases (is_ambiguous c)) [
  | inl stop ↦ rw stop
  | inr on ↦ rw on (
      search_index-allowed now source es (look_at now source e c r).0 (look_at now source e c r).1
      ∙ look_at-allowed now source e c r)
]

grant-allowed :
    (now : ℕ) (source : AddrPort) (c : Choice) (r : Registry)
    → (grant now source c r).1.allowed ≡ r.allowed
unfolding grant set_session
grant-allowed now source nothing r = refl
grant-allowed now source ambiguous r = refl
grant-allowed now source (chosen id s b) r = refl

valid_for-allowed :
    (now : ℕ) (p : Option Proof) (rule generation target : ℕ) (r : Registry)
    → (valid_for now p rule generation target r).1.allowed ≡ r.allowed
unfolding valid_for remove_session
valid_for-allowed now none rule generation target r = refl
valid_for-allowed now (some p) rule generation target r = ground arith

conclude-allowed :
    (now id : ℕ) (s : Session) (left : List Binding) (r : Registry)
    → (conclude now id s left r).1.allowed ≡ r.allowed
unfolding conclude index_session set_session
conclude-allowed now id s [] r = refl
conclude-allowed now id s (b ∷ bs) r = ground arith

confirm-allowed :
    (now id : ℕ) (endpoint : AddrPort) (r : Registry)
    → (confirm now id endpoint r).1.allowed ≡ r.allowed
unfolding confirm
confirm-allowed now id endpoint r = elim (Option-cases (lookup id r.sessions)) [
  | inl e ↦ rw (e, confirm)
  | inr (s, found) ↦ elim (Bool-cases (s.closed || not (ltb now s.expires))) [
    | inl over ↦ rw (found, over, confirm)
    | inr live ↦ rw (found, live, confirm) (conclude-allowed now id s _ r)
  ]
]

announce-allowed : (id port : ℕ) (r : Registry) → (announce id port r).allowed ≡ r.allowed
unfolding announce set_session
announce-allowed id port r = ground arith

close-allowed : (id : ℕ) (r : Registry) → (close id r).allowed ≡ r.allowed
unfolding close remove_session
close-allowed id r = ground arith

open_session-allowed :
    (lib : Library) (now peer : ℕ) (bindings : List Binding) (r : Registry)
    → (open_session lib now peer bindings r).1.allowed ≡ r.allowed
unfolding open_session set_session
open_session-allowed lib now peer bindings r = ground (arith, prune-allowed now r)

admission-allowed :
    (lib : Library) (now rule generation : ℕ) (source : AddrPort) (target : ℕ) (payload : List ℕ)
    (r : Registry)
    → (admission lib now rule generation source target payload r).1.allowed ≡ r.allowed
unfolding admission
admission-allowed lib now rule generation source target payload r =
    let from : AddrPort = record source { addr = lib.unmap source.addr } in
    let k : LookupKey = record {
      rule = rule;
      generation = generation;
      target = target;
      peer = from.addr;
    } in
    let found = search_index now from (under k r) nothing r in
    ground (
      arith,
      grant-allowed now from found.0 found.1,
      search_index-allowed now from (under k r) nothing r,
    )

module _ (lib : Library) (hit : Binding → Bool) where
  Step-Bans : {r r' : Registry} → Step lib r r' → Bans hit r.allowed → Bans hit r'.allowed
  unfolding revoke_rule revoke_generation revoke_all count has
  Step-Bans {r} (revoked rule) h =
      rw (revoke-allowed (mentions rule) r) (Bans-keep hit (λ b. not (mentions rule b)) r.allowed h)
  Step-Bans {r} (rotated generation) h =
      rw (revoke-allowed (λ b. b.generation == generation) r)
        (Bans-keep hit (λ b. not (b.generation == generation)) r.allowed h)
  Step-Bans {r} revoked_all h = λ b e. refl
  Step-Bans {r} (counted now) h = rw (prune-allowed now r) h
  Step-Bans {r} (checked now p rule generation target) h =
      rw (valid_for-allowed now p rule generation target r) h
  Step-Bans {r} (admitted now rule generation source target payload) h =
      rw (admission-allowed lib now rule generation source target payload r) h
  Step-Bans {r} (opened now peer bindings small) h =
      rw (open_session-allowed lib now peer bindings r) h
  Step-Bans {r} (announced id port) h = rw (announce-allowed id port r) h
  Step-Bans {r} (confirmed now id endpoint once) h = rw (confirm-allowed now id endpoint r) h
  Step-Bans {r} (closed id) h = rw (close-allowed id r) h

  Serves-Bans : {r r' : Registry} → Bans hit r.allowed → Serves lib r r' → Bans hit r'.allowed
  Serves-Bans h here = h
  Serves-Bans h (next run step) = Step-Bans step (Serves-Bans h run)

banned-valid_for :
    (hit : Binding → Bool) (now : ℕ) (p : Proof) (rule generation target : ℕ) (r : Registry)
    → Bans hit r.allowed
    → hit p.binding ≡ true
    → (valid_for now (some p) rule generation target r).0 ≡ false
unfolding valid_for session_admits
banned-valid_for hit now p rule generation target r h e = ground (arith, h p.binding e)

grant-Bans :
    (hit : Binding → Bool) (now : ℕ) (source : AddrPort) (k : LookupKey) (c : Choice) (r : Registry)
    (p : Proof)
    → Bans hit r.allowed
    → Fits now source k r c
    → (grant now source c r).0 ≡ some p
    → hit p.binding ≡ false
unfolding grant
grant-Bans hit now source k nothing r p h f e = absurd (cc e)
grant-Bans hit now source k ambiguous r p h f e = absurd (cc e)
grant-Bans hit now source k (chosen id s b) r p h f e = elim (Bool-cases (hit b)) [
  | inl yes_hit ↦ absurd (ground (arith, h b yes_hit, f.authorised))
  | inr not_hit ↦ ground arith
]

admission-Bans :
    (lib : Library) (hit : Binding → Bool) (now rule generation : ℕ) (source : AddrPort)
    (target : ℕ) (payload : List ℕ) (r : Registry) (p : Proof)
    → IsSound r
    → Bans hit r.allowed
    → (admission lib now rule generation source target payload r).0 ≡ some p
    → hit p.binding ≡ false
unfolding admission
admission-Bans lib hit now rule generation source target payload r p i h e =
    let from : AddrPort = record source { addr = lib.unmap source.addr } in
    let k : LookupKey = record {
      rule = rule;
      generation = generation;
      target = target;
      peer = from.addr;
    } in
    let found = search_index now from (under k r) nothing r in
    let allowed = search_index-allowed now from (under k r) nothing r in
    elim (Bool-cases
      (not (lib.is_valid source.addr) || source.port == 0 || not (valid_udp payload))) [
        | inl refused ↦ absurd (ground arith)
        | inr passed ↦
            grant-Bans hit now from k found.0 found.1 p (rw allowed h)
              (search-Searched now from k r i).1 (rw passed at e)
      ]

-- Once a rule is revoked, and whatever is served until the next configuration: a proof whose binding
-- mentions the rule is valid for nothing any more, and no datagram is admitted with such a proof.
pub revoked_for_good :
    (lib : Library) (revoked_rule : ℕ) (r r' : Registry) (p : Proof) (now rule generation : ℕ)
    (source : AddrPort) (target : ℕ) (payload : List ℕ)
    → IsSound r
    → Serves lib (revoke_rule revoked_rule r) r'
    → mentions revoked_rule p.binding ≡ true
    → ((valid_for now (some p) rule generation target r').0 ≡ false)
      × ((admission lib now rule generation source target payload r').0 ≢ some p)
unfolding revoke_rule
revoked_for_good lib gone r r' p now rule generation source target payload i run e =
    let start : Bans (mentions gone) (revoke (mentions gone) r).allowed =
      rw (revoke-allowed (mentions gone) r) (keep-Bans (mentions gone) r.allowed) in
    let bans = Serves-Bans lib (mentions gone) start run in
    let sound = Serves-IsSound lib (revoke-IsSound (mentions gone) r i) run in
    (
      banned-valid_for (mentions gone) now p rule generation target r' bans e,
      λ granted.
          let not_hit =
            admission-Bans lib (mentions gone) now rule generation source target payload r' p sound
              bans granted in
          cc (e, not_hit),
    )
