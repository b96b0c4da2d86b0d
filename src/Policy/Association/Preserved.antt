-- ===== src/Policy/Association/Preserved.antt =====
-- Each operation of the registry (internal/policy/association/registry.go, observer.go) and the
-- invariant of the registry.
use traffic_forwarding_panel.Prelude.{
  ℕ, ◌≡◌, refl, Bool, true, not, ◌&&◌, Option, none, some, List, [], ◌∷◌, any, arith, ltb, ◌==◌,
  All, Bool-cases, Option-cases, inl, inr,
}
use traffic_forwarding_panel.Prelude.Assoc.{Assoc, lookup, insert, keys, lookup-insert}
use traffic_forwarding_panel.Policy.Association.{
  Binding, Session, Entry, Registry, same_key, key_of, has, keep, is_over, prune, count_key, put,
  put_all, set_session,
}
use traffic_forwarding_panel.Policy.Association.Operations.{
  revoke, revoke_all, Proof, valid_for, without, announce, close,
}
use traffic_forwarding_panel.Policy.Association.Index.{same_binding_refl, All-keep, count_key-keep}
use traffic_forwarding_panel.Policy.Association.Invariant.{
  Backed, IsSound, with_index, for_each-keeps, set_session-HasCapacity, remove_session-IsSound,
}

-- An entry stays backed when its session gets new fields, and keeps its bindings and its peer.
Backed-set :
    (id : ℕ) (s s' : Session) (m : Assoc Session) (e : Entry)
    → lookup id m ≡ some s
    → s'.bindings ≡ s.bindings
    → s'.peer ≡ s.peer
    → s'.ready ≡ s.ready
    → Backed m e
    → Backed (insert id s' m) e
Backed-set id s s' m e found bs peer ready b = elim (Bool-cases (e.id == id)) [
  | inl same ↦
      let i : e.id ≡ id = ground arith in
      let owner : b.owner ≡ s = ground (arith, b.found) in
      record {
        owner = s';
        found = ground (arith, lookup-insert id e.id s' m);
        held = rw bs (rw (← owner) b.held);
        keyed = rw peer (rw (← owner) b.keyed);
        indexed = rw ready (rw (← owner) b.indexed);
      }
  | inr ne ↦ record {
    owner = b.owner;
    found = ground (arith, lookup-insert id e.id s' m, b.found);
    held = b.held;
    keyed = b.keyed;
    indexed = b.indexed;
  }
]

All-Backed-set :
    (id : ℕ) (s s' : Session) (m : Assoc Session) (es : List Entry)
    → lookup id m ≡ some s
    → s'.bindings ≡ s.bindings
    → s'.peer ≡ s.peer
    → s'.ready ≡ s.ready
    → All (Backed m) es
    → All (Backed (insert id s' m)) es
All-Backed-set id s s' m [] found bs peer ready h = tt
All-Backed-set id s s' m (e ∷ es) found bs peer ready h = (
  Backed-set id s s' m e found bs peer ready h.0,
  All-Backed-set id s s' m es found bs peer ready h.1,
)

pub set_session-IsSound :
    (id : ℕ) (s s' : Session) (r : Registry)
    → lookup id r.sessions ≡ some s
    → s'.bindings ≡ s.bindings
    → s'.peer ≡ s.peer
    → s'.ready ≡ s.ready
    → IsSound r
    → IsSound (set_session id s' r)
unfolding set_session
set_session-IsSound id s s' r found bs peer ready h = record {
  has_capacity = unfold set_session in set_session-HasCapacity id s s' r found h.has_capacity;
  backed = All-Backed-set id s s' r.sessions r.index found bs peer ready h.backed;
  bounded = h.bounded;
}

-- Each binding of a session that is there may be indexed under it.
pub All-Backed-put_all :
    (id : ℕ) (s : Session) (m : Assoc Session) (bs : List Binding) (es : List Entry)
    → lookup id m ≡ some s
    → s.ready ≡ true
    → All (λ b. has b s.bindings ≡ true) bs
    → All (Backed m) es
    → All (Backed m) (put_all id bs s.peer es)
unfolding put_all put
All-Backed-put_all id s m [] es found ready held h = h
All-Backed-put_all id s m (b ∷ bs) es found ready held h =
    All-Backed-put_all id s m bs (put (key_of b s.peer) id b es) found ready held.1 (
      record { owner = s; found = found; held = held.0; keyed = refl; indexed = ready },
      All-keep (Backed m) (λ e. not (e.id == id && same_key (key_of b s.peer) e.key)) es h,
    )

has-more :
    (c : Binding) (cs bs : List Binding)
    → All (λ b. has b cs ≡ true) bs
    → All (λ b. has b (c ∷ cs) ≡ true) bs
unfolding has
has-more c cs [] h = tt
has-more c cs (b ∷ bs) h = (ground (arith, h.0), has-more c cs bs h.1)

pub has_self : (bs : List Binding) → All (λ b. has b bs ≡ true) bs
unfolding has
has_self [] = tt
has_self (b ∷ bs) = (ground (arith, same_binding_refl b), has-more b bs bs (has_self bs))

pub prune-IsSound : (now : ℕ) (r : Registry) → IsSound r → IsSound (prune now r)
unfolding prune
prune-IsSound now r h =
    for_each-keeps IsSound _
      (λ id s r' found i. elim (Bool-cases (is_over now s)) [
        | inl e ↦ rw e (remove_session-IsSound id s r' found i)
        | inr e ↦ rw e i
      ])
      (keys r.sessions) r h

pub revoke-IsSound : (hit : Binding → Bool) (r : Registry) → IsSound r → IsSound (revoke hit r)
unfolding revoke
revoke-IsSound hit r h =
    for_each-keeps IsSound _
      (λ id s r' found i. elim (Bool-cases (any hit s.bindings)) [
        | inl e ↦ rw e (remove_session-IsSound id s r' found i)
        | inr e ↦ rw e i
      ])
      (keys r.sessions) (record r { allowed = keep (λ b. not (hit b)) r.allowed })
      (record {
        has_capacity = with_index r (keep (λ b. not (hit b)) r.allowed) r.index h.has_capacity;
        backed = h.backed;
        bounded = h.bounded;
      })

pub revoke_all-IsSound : (r : Registry) → IsSound r → IsSound (revoke_all r)
unfolding revoke_all count_key
revoke_all-IsSound r h = record {
  has_capacity = record { capacity = omega arith; distinct = tt; fresh = λ id lt. refl };
  backed = tt;
  bounded = λ k. omega arith;
}

pub valid_for-IsSound :
    (now : ℕ) (p : Option Proof) (rule generation target : ℕ) (r : Registry)
    → IsSound r
    → IsSound (valid_for now p rule generation target r).1
unfolding valid_for
valid_for-IsSound now none rule generation target r h = h
valid_for-IsSound now (some p) rule generation target r h =
    elim (Bool-cases
      (p.binding.udp == rule && p.binding.generation == generation && p.binding.target == target)) [
        | inl e ↦ elim (Option-cases (lookup p.id r.sessions)) [
          | inl gone ↦ rw (e, gone) h
          | inr (s, found) ↦ elim (Bool-cases (ltb now s.expires)) [
            | inl live ↦ rw (e, found, live) h
            | inr over ↦ rw (e, found, over) (remove_session-IsSound p.id s r found h)
          ]
        ]
        | inr e ↦ rw e h
      ]

pub without-IsSound :
    (e : Entry) (r : Registry) → IsSound r → IsSound (record r { index = without e r.index })
without-IsSound e r h = record {
  has_capacity = with_index r r.allowed (without e r.index) h.has_capacity;
  backed =
      All-keep (Backed r.sessions) (λ f. not (f.id == e.id && same_key e.key f.key)) r.index
        h.backed;
  bounded = λ k. omega (
    arith,
    count_key-keep k (λ (f : Entry). not (f.id == e.id && same_key e.key f.key)) r.index,
    h.bounded k,
  );
}

pub announce-IsSound : (id port : ℕ) (r : Registry) → IsSound r → IsSound (announce id port r)
unfolding announce
announce-IsSound id port r h = elim (Option-cases (lookup id r.sessions)) [
  | inl e ↦ rw (e, announce) h
  | inr (s, e) ↦
      rw (e, announce) (set_session-IsSound id s (record s { port = port }) r e refl refl refl h)
]

pub close-IsSound : (id : ℕ) (r : Registry) → IsSound r → IsSound (close id r)
unfolding close
close-IsSound id r h = elim (Option-cases (lookup id r.sessions)) [
  | inl e ↦ rw (e, close) h
  | inr (s, e) ↦ rw (e, close) (remove_session-IsSound id s r e h)
]
