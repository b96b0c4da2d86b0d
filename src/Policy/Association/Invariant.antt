-- ===== src/Policy/Association/Invariant.antt =====
-- The registry's invariant: the sessions stay within the limit, every index entry belongs to a
-- session that has its binding, and no key has more entries than a peer may have sessions.
use traffic_forwarding_panel.Prelude.{
  ℕ, ◌≤◌, ◌<◌, ◌≡◌, ap, true, not, none, some, List, [], ◌∷◌, length, any, arith, ◌==◌, All,
  Bool-cases, Option-cases, inl, inr,
}
use traffic_forwarding_panel.Prelude.Assoc.{
  Assoc, lookup, delete, keys, lookup-insert, lookup-delete, length-delete-le, length-insert,
  IsDistinct, delete-IsDistinct, insert-IsDistinct,
}
use traffic_forwarding_panel.Policy.Association.{
  Binding, LookupKey, Session, Entry, Registry, max_peer_sessions, same_binding, same_key, key_of,
  has, for_each, belongs, remove_session, count_key, set_session,
}
use traffic_forwarding_panel.Policy.Association.Index.{All-keep_both, count_key-keep}

-- The entry's session is there and ready, has the entry's binding, and gives the entry's key.
pub record Backed (sessions : Assoc Session) (e : Entry) : Type 0 where
  pub owner : Session
  pub found : lookup e.id sessions ≡ some owner
  pub held : has e.binding owner.bindings ≡ true
  pub keyed : e.key ≡ key_of e.binding owner.peer
  pub indexed : owner.ready ≡ true

-- The sessions alone: within the limit, each id once, and none beyond the last one given out.
pub record HasCapacity (r : Registry) : Type 0 where
  pub capacity : length r.sessions ≤ r.limit
  pub distinct : IsDistinct (keys r.sessions)
  pub fresh : (id : ℕ) → r.next < id → lookup id r.sessions ≡ none

pub record IsSound (r : Registry) : Type 0 where
  pub has_capacity : HasCapacity r
  pub backed : All (Backed r.sessions) r.index
  pub bounded : (k : LookupKey) → count_key k r.index ≤ max_peer_sessions

pub with_index :
    (r : Registry) (allowed : List Binding) (index : List Entry)
    → HasCapacity r
    → HasCapacity (record r { allowed = allowed; index = index })
with_index r allowed index h = record {
  capacity = h.capacity;
  distinct = h.distinct;
  fresh = h.fresh;
}

-- A loop over the sessions keeps what its body keeps.
pub for_each-keeps {κ} :
    (P : Registry → Type κ) (body : ℕ → Session → Registry → Registry)
    → ((id : ℕ) (s : Session) (r : Registry)
        → lookup id r.sessions ≡ some s
        → P r
        → P (body id s r))
    → (ids : List ℕ) (r : Registry) → P r
    → P (for_each body ids r)
unfolding for_each
for_each-keeps P body step [] r h = h
for_each-keeps P body step (id ∷ ids) r h = elim (Option-cases (lookup id r.sessions)) [
  | inl e ↦ rw e (for_each-keeps P body step ids r h)
  | inr (s, e) ↦ rw e (for_each-keeps P body step ids (body id s r) (step id s r e h))
]

any-key :
    (b : Binding) (bs : List Binding) (peer : ℕ)
    → has b bs ≡ true
    → any (λ c. same_key (key_of b peer) (key_of c peer)) bs ≡ true
unfolding any has same_binding same_key
any-key b [] peer h = cc
any-key b (c ∷ bs) peer h = ground (arith, any-key b bs peer)

pub delete-HasCapacity :
    (id : ℕ) (r : Registry)
    → HasCapacity r
    → HasCapacity (record r { sessions = delete id r.sessions })
delete-HasCapacity id r h = record {
  capacity = omega (arith, length-delete-le id r.sessions, h.capacity);
  distinct = delete-IsDistinct id r.sessions h.distinct;
  fresh = λ j lt. ground (arith, lookup-delete id j r.sessions, h.fresh j lt);
}

pub set_session-HasCapacity :
    (id : ℕ) (s s' : Session) (r : Registry)
    → lookup id r.sessions ≡ some s
    → HasCapacity r
    → HasCapacity (set_session id s' r)
unfolding set_session
set_session-HasCapacity id s s' r e h = record {
  capacity = omega (arith, length-insert id s' s r.sessions e, h.capacity);
  distinct = insert-IsDistinct id s' r.sessions h.distinct;
  fresh = λ j lt. ground (arith, lookup-insert id j s' r.sessions, h.fresh j lt);
}

Backed-remove :
    (id : ℕ) (s : Session) (m : Assoc Session)
    → lookup id m ≡ some s
    → (e : Entry) → not (belongs id s e) ≡ true
    → Backed m e
    → Backed (delete id m) e
unfolding belongs
Backed-remove id s m found e out b = elim (Bool-cases (e.id == id)) [
  | inl same ↦
      let i : e.id ≡ id = ground arith in
      let owner : b.owner ≡ s = ground (arith, b.found) in
      let key : e.key ≡ key_of e.binding s.peer = rw (← owner) b.keyed in
      let there = any-key e.binding s.bindings s.peer (rw (← owner) b.held) in
      absurd (ground (arith, ap (λ k. any (λ c. same_key k (key_of c s.peer)) s.bindings) key))
  | inr ne ↦ record {
    owner = b.owner;
    found = ground (arith, lookup-delete id e.id m, b.found);
    held = b.held;
    keyed = b.keyed;
    indexed = b.indexed;
  }
]

pub remove_session-IsSound :
    (id : ℕ) (s : Session) (r : Registry)
    → lookup id r.sessions ≡ some s
    → IsSound r
    → IsSound (remove_session id s r)
unfolding remove_session
remove_session-IsSound id s r found h = record {
  has_capacity = record {
    capacity = omega (arith, length-delete-le id r.sessions, h.has_capacity.capacity);
    distinct = delete-IsDistinct id r.sessions h.has_capacity.distinct;
    fresh = λ j lt. ground (arith, lookup-delete id j r.sessions, h.has_capacity.fresh j lt);
  };
  backed =
      All-keep_both (Backed r.sessions) (Backed (delete id r.sessions)) (λ e. not (belongs id s e))
        r.index (Backed-remove id s r.sessions found) h.backed;
  bounded = λ k.
      omega (arith, count_key-keep k (λ (e : Entry). not (belongs id s e)) r.index, h.bounded k);
}
