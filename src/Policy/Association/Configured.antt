-- ===== src/Policy/Association/Configured.antt =====
-- `Configure` of internal/policy/association/registry.go and the invariant of the registry: the loop
-- that indexes the sessions again, and the reply that makes a session ready (observer.go, stage 5).
use traffic_forwarding_panel.Prelude.{
  All-weaken, ℕ, ◌≡◌, refl, true, false, not, ◌&&◌, some, List, [], ◌∷◌, arith, ◌==◌, All,
  Bool-cases, Option-cases, inl, inr,
}
use traffic_forwarding_panel.Prelude.Assoc.{Assoc, lookup, insert, keys, lookup-insert}
use traffic_forwarding_panel.Policy.Association.{
  Binding, Session, Entry, Registry, same_key, key_of, has, keep, for_each, each_session, prune,
  count_key, put, has_room, put_all, index_session, set_session, restrict, reindex, reconfigure,
}
use traffic_forwarding_panel.Policy.Association.Index.{All-keep, put_all-bounded}
use traffic_forwarding_panel.Policy.Association.Invariant.{
  Backed, HasCapacity, IsSound, with_index, for_each-keeps, delete-HasCapacity,
  set_session-HasCapacity,
}
use traffic_forwarding_panel.Policy.Association.Preserved.{
  prune-IsSound, All-Backed-put_all, has_self,
}
use traffic_forwarding_panel.Prelude.Assoc.{Absent, IsDistinct}

restrict-HasCapacity :
    (allowed : List Binding) (id : ℕ) (s : Session) (r : Registry)
    → lookup id r.sessions ≡ some s
    → HasCapacity r
    → HasCapacity (restrict allowed id s r)
unfolding restrict
restrict-HasCapacity allowed id s r found h = restricted (keep (λ b. has b allowed) s.bindings) refl
  where
    restricted :
        (left : List Binding)
        → keep (λ b. has b allowed) s.bindings ≡ left
        → HasCapacity (restrict allowed id s r)
    restricted [] e = rw (e, restrict) (delete-HasCapacity id r h)
    restricted (b ∷ bs) e =
        rw (e, restrict) (set_session-HasCapacity id s (record s { bindings = b ∷ bs }) r found h)

-- Entries of other sessions stay backed whatever a session becomes.
pub All-Backed-other :
    (id : ℕ) (s : Session) (m : Assoc Session) (es : List Entry)
    → All (λ e. (e.id == id) ≡ false) es
    → All (Backed m) es
    → All (Backed (insert id s m)) es
All-Backed-other id s m [] ne h = tt
All-Backed-other id s m (e ∷ es) ne h = (
  record {
    owner = h.0.owner;
    found = ground (arith, lookup-insert id e.id s m, h.0.found, ne.0);
    held = h.0.held;
    keyed = h.0.keyed;
    indexed = h.0.indexed;
  },
  All-Backed-other id s m es ne.1 h.1,
)

-- No entry belongs to a session that is not ready.
pub unready :
    (id : ℕ) (s : Session) (m : Assoc Session) (es : List Entry)
    → lookup id m ≡ some s
    → s.ready ≡ false
    → All (Backed m) es
    → All (λ e. (e.id == id) ≡ false) es
unready id s m [] found not_ready h = tt
unready id s m (e ∷ es) found not_ready h =
    (ground (arith, h.0.found, h.0.indexed), unready id s m es found not_ready h.1)

All-put_all {κ} :
    (P : Entry → Type κ) (id : ℕ) (bs : List Binding) (peer : ℕ) (es : List Entry)
    → ((b : Binding) → P (record { key = key_of b peer; id = id; binding = b }))
    → All P es
    → All P (put_all id bs peer es)
unfolding put_all put
All-put_all P id [] peer es new h = h
All-put_all P id (b ∷ bs) peer es new h =
    All-put_all P id bs peer (put (key_of b peer) id b es) new
      (new b, All-keep P (λ e. not (e.id == id && same_key (key_of b peer) e.key)) es h)

-- What the loop keeps while the sessions of `ids` are still to be indexed.
record Indexing (ids : List ℕ) (r : Registry) : Type 0 where
  each_once : IsDistinct ids
  sound : IsSound r
  waiting : All (λ e. Absent e.id ids) r.index

Indexing-next : (id : ℕ) (ids : List ℕ) (r : Registry) → Indexing (id ∷ ids) r → Indexing ids r
Indexing-next id ids r h = record {
  each_once = h.each_once.1;
  sound = h.sound;
  waiting =
      All-weaken (λ e. Absent e.id (id ∷ ids)) (λ e. Absent e.id ids) r.index (λ e a. a.1)
        h.waiting;
}

set_unready :
    (id : ℕ) (s : Session) (ids : List ℕ) (r : Registry)
    → lookup id r.sessions ≡ some s
    → Indexing (id ∷ ids) r
    → Indexing ids (set_session id (record s { ready = false }) r)
unfolding set_session
set_unready id s ids r found h =
    let next = Indexing-next id ids r h in
    let ne =
      All-weaken (λ e. Absent e.id (id ∷ ids)) (λ e. (e.id == id) ≡ false) r.index (λ e a. a.0)
        h.waiting in
    record {
      each_once = next.each_once;
      sound = record {
        has_capacity =
            unfold set_session in
            set_session-HasCapacity id s (record s { ready = false }) r found h.sound.has_capacity;
        backed =
            All-Backed-other id (record s { ready = false }) r.sessions r.index ne h.sound.backed;
        bounded = h.sound.bounded;
      };
      waiting = next.waiting;
    }

index_next :
    (id : ℕ) (s : Session) (ids : List ℕ) (r : Registry)
    → lookup id r.sessions ≡ some s
    → s.ready ≡ true
    → has_room s.bindings s.peer r.index ≡ true
    → Indexing (id ∷ ids) r
    → Indexing ids (record r { index = put_all id s.bindings s.peer r.index })
index_next id s ids r found ready room h =
    let next = Indexing-next id ids r h in
    record {
      each_once = next.each_once;
      sound = record {
        has_capacity =
            with_index r r.allowed (put_all id s.bindings s.peer r.index) h.sound.has_capacity;
        backed =
            All-Backed-put_all id s r.sessions s.bindings r.index found ready (has_self s.bindings)
              h.sound.backed;
        bounded = λ k. put_all-bounded k id s.bindings s.peer r.index room (h.sound.bounded k);
      };
      waiting =
          All-put_all (λ e. Absent e.id ids) id s.bindings s.peer r.index (λ b. h.each_once.0)
            next.waiting;
    }

reindex-Indexing :
    (id : ℕ) (s : Session) (ids : List ℕ) (r : Registry)
    → lookup id r.sessions ≡ some s
    → Indexing (id ∷ ids) r
    → Indexing ids (reindex id s r)
unfolding reindex index_session
reindex-Indexing id s ids r found h = elim (Bool-cases s.ready) [
  | inl ready ↦ elim (Bool-cases (has_room s.bindings s.peer r.index)) [
    | inl room ↦ simp (ready, room) (index_next id s ids r found ready room h)
    | inr full ↦ simp (ready, full) (set_unready id s ids r found h)
  ]
  | inr e ↦ simp e (Indexing-next id ids r h)
]

reindex_all : (ids : List ℕ) (r : Registry) → Indexing ids r → IsSound (for_each reindex ids r)
unfolding for_each
reindex_all [] r h = h.sound
reindex_all (id ∷ ids) r h = elim (Option-cases (lookup id r.sessions)) [
  | inl e ↦ rw e (reindex_all ids r (Indexing-next id ids r h))
  | inr (s, e) ↦ rw e (reindex_all ids (reindex id s r) (reindex-Indexing id s ids r e h))
]

pub reconfigure-IsSound :
    (now : ℕ) (allowed : List Binding) (r : Registry)
    → IsSound r
    → IsSound (reconfigure now allowed r)
unfolding reconfigure count_key
reconfigure-IsSound now allowed r h =
    let start = record r { allowed = allowed } in
    let pruned = prune now start in
    let p = prune-IsSound now start (record {
      has_capacity = with_index r allowed r.index h.has_capacity;
      backed = h.backed;
      bounded = h.bounded;
    }) in
    let restricted = each_session (restrict allowed) pruned in
    let c =
      for_each-keeps HasCapacity (restrict allowed) (restrict-HasCapacity allowed)
        (keys pruned.sessions) pruned p.has_capacity in
    reindex_all (keys restricted.sessions) (record restricted { index = [] })
      (record {
        each_once = c.distinct;
        sound = record {
          has_capacity = with_index restricted restricted.allowed [] c;
          backed = tt;
          bounded = λ k. omega arith;
        };
        waiting = tt;
      })
