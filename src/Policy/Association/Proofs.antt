-- ===== src/Policy/Association/Proofs.antt =====
-- `Admission` and `ValidFor` of internal/policy/association/registry.go together.
use traffic_forwarding_panel.Prelude.{
  ℕ, ◌+◌, ◌<◌, ◌≡◌, refl, sym, ap, ◌∙◌, true, not, ◌||◌, some, List, [], ◌∷◌, arith, ◌==◌,
  Bool-cases, inl, inr,
}
use traffic_forwarding_panel.Prelude.Assoc.{lookup-insert}
use traffic_forwarding_panel.Policy.Association.{
  Library, AddrPort, Binding, LookupKey, Session, Entry, Registry, same_key, remove_session,
  set_session,
}
use traffic_forwarding_panel.Policy.Association.Operations.{
  Proof, valid_for, session_admits, Choice, nothing, ambiguous, chosen, is_ambiguous, look_at,
  search_index, under, grant, admission, valid_udp,
}
use traffic_forwarding_panel.Policy.Association.Index.{same_key_eq, All-keep_both}
use traffic_forwarding_panel.Policy.Association.Invariant.{Backed, IsSound}
use traffic_forwarding_panel.Policy.Association.Preserved.{set_session-IsSound}
use traffic_forwarding_panel.Policy.Association.Admission.{
  Chosen, Fits, Candidate, look_at-Fits, look_at-IsSound, search_index-keeps,
}

-- The registry and the choice after the loop.
abbrev pub Searched : ℕ → AddrPort → LookupKey → Choice → Registry → Type 0
Searched now source k c r = IsSound r × Fits now source k r c

pub search-Searched :
    (now : ℕ) (source : AddrPort) (k : LookupKey) (r : Registry)
    → IsSound r
    → let found = search_index now source (under k r) nothing r in
      Searched now source k found.0 found.1
search-Searched now source k r h =
    search_index-keeps now source k (Searched now source k) r.sessions
      (λ e c r' w candidate p. (
        look_at-IsSound now source k e c r' p.0,
        look_at-Fits now source k r.sessions e c r' w candidate p.1,
      ))
      (under k r) nothing r (λ id s e. e)
      (All-keep_both (Backed r.sessions) (Candidate now source k r.sessions) (λ e. same_key k e.key)
        r.index (λ e same b. (b, same_key_eq k e.key same)) h.backed)
      (h, tt)

grant-IsSound :
    (now : ℕ) (source : AddrPort) (k : LookupKey) (c : Choice) (r : Registry)
    → Searched now source k c r
    → IsSound (grant now source c r).1
unfolding grant
grant-IsSound now source k nothing r h = h.0
grant-IsSound now source k ambiguous r h = h.0
grant-IsSound now source k (chosen id s b) r (i, h) =
    set_session-IsSound id s (record s { port = source.port; expires = now + r.ttl }) r h.found refl
      refl refl i

pub admission-IsSound :
    (lib : Library) (now rule generation : ℕ) (source : AddrPort) (target : ℕ) (payload : List ℕ)
    (r : Registry)
    → IsSound r
    → IsSound (admission lib now rule generation source target payload r).1
unfolding admission
admission-IsSound lib now rule generation source target payload r h =
    let from : AddrPort = record source { addr = lib.unmap source.addr } in
    let k : LookupKey = record {
      rule = rule;
      generation = generation;
      target = target;
      peer = from.addr;
    } in
    let found = search_index now from (under k r) nothing r in
    elim (Bool-cases
      (not (lib.is_valid source.addr) || source.port == 0 || not (valid_udp payload))) [
        | inl refused ↦ rw refused h
        | inr passed ↦
            rw passed (grant-IsSound now from k found.0 found.1 (search-Searched now from k r h))
      ]

-- The proof of a chosen session is valid where it is granted.
chosen-valid_for :
    (now : ℕ) (source : AddrPort) (k : LookupKey) (id : ℕ) (s : Session) (b : Binding)
    (r : Registry)
    → Chosen now source k r id s b
    → 0 < r.ttl
    → let p = grant now source (chosen id s b) r in
      (valid_for now p.0 k.rule k.generation k.target p.1).0 ≡ true
unfolding grant valid_for set_session session_admits
chosen-valid_for now source k id s b r h t =
    let rule : b.udp ≡ k.rule = ap (λ (j : LookupKey). j.rule) (sym h.keyed) in
    let generation : b.generation ≡ k.generation =
      ap (λ (j : LookupKey). j.generation) (sym h.keyed) in
    let target : b.target ≡ k.target = ap (λ (j : LookupKey). j.target) (sym h.keyed) in
    ground (
      arith,
      lookup-insert id id (record s { port = source.port; expires = now + r.ttl }) r.sessions,
      h.matching,
      h.authorised,
      h.held,
    )

grant-valid_for :
    (now : ℕ) (source : AddrPort) (k : LookupKey) (c : Choice) (r : Registry) (p : Proof)
    → Searched now source k c r
    → 0 < r.ttl
    → (grant now source c r).0 ≡ some p
    → (valid_for now (some p) k.rule k.generation k.target (grant now source c r).1).0 ≡ true
grant-valid_for now source k nothing r p h t e = absurd (unfold grant in cc e)
grant-valid_for now source k ambiguous r p h t e = absurd (unfold grant in cc e)
grant-valid_for now source k (chosen id s b) r p (i, h) t e =
    rw (← e) (chosen-valid_for now source k id s b r h t)

look_at-ttl :
    (now : ℕ) (source : AddrPort) (e : Entry) (c : Choice) (r : Registry)
    → (look_at now source e c r).1.ttl ≡ r.ttl
unfolding look_at remove_session
look_at-ttl now source e c r = ground arith

search_index-ttl :
    (now : ℕ) (source : AddrPort) (es : List Entry) (c : Choice) (r : Registry)
    → (search_index now source es c r).1.ttl ≡ r.ttl
unfolding search_index
search_index-ttl now source [] c r = refl
search_index-ttl now source (e ∷ es) c r = elim (Bool-cases (is_ambiguous c)) [
  | inl stop ↦ rw stop
  | inr on ↦ rw on (
      search_index-ttl now source es (look_at now source e c r).0 (look_at now source e c r).1
      ∙ look_at-ttl now source e c r)
]

-- In a sound registry with a positive time to live, a proof that admits a datagram is valid at once, in
-- the registry that the admission leaves, for the rule, the generation and the target of the datagram.
pub admission-valid_for :
    (lib : Library) (now rule generation : ℕ) (source : AddrPort) (target : ℕ) (payload : List ℕ)
    (r : Registry) (p : Proof)
    → IsSound r
    → 0 < r.ttl
    → (admission lib now rule generation source target payload r).0 ≡ some p
    → (valid_for now
        (some p)
        rule
        generation
        target
        (admission lib now rule generation source target payload r).1).0
      ≡ true
unfolding admission
admission-valid_for lib now rule generation source target payload r p h t e =
    let from : AddrPort = record source { addr = lib.unmap source.addr } in
    let k : LookupKey = record {
      rule = rule;
      generation = generation;
      target = target;
      peer = from.addr;
    } in
    let found = search_index now from (under k r) nothing r in
    let ttl = search_index-ttl now from (under k r) nothing r in
    elim (Bool-cases
      (not (lib.is_valid source.addr) || source.port == 0 || not (valid_udp payload))) [
        | inl refused ↦ absurd (ground arith)
        | inr passed ↦ rw passed (
            grant-valid_for now from k found.0 found.1 p (search-Searched now from k r h) (rw ttl t)
              (rw passed at e))
      ]
