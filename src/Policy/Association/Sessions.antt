-- ===== src/Policy/Association/Sessions.antt =====
-- A control session and the invariant of the registry: `Observe` and the fifth stage of the handshake
-- (internal/policy/association/observer.go).
use traffic_forwarding_panel.Prelude.{
  ℕ, ◌+◌, ◌<◌, ◌^◌, ◌%◌, ◌≡◌, refl, true, false, not, ◌||◌, none, some, List, [], ◌∷◌, length,
  arith, ltb, leb, ◌==◌, All, Bool-cases, Option-cases, inl, inr,
}
use traffic_forwarding_panel.Prelude.Fallible.{Fallible-cases}
use traffic_forwarding_panel.Prelude.Assoc.{
  Assoc, lookup, insert, keys, lookup-insert, length-insert_new,
}
use traffic_forwarding_panel.Policy.Association.{
  Library, AddrPort, Binding, Session, Entry, Registry, remove_session, prune, has_room, put_all,
  index_session, set_session,
}
use traffic_forwarding_panel.Policy.Association.Operations.{
  accept_bindings, open_session, conclude, confirm,
}
use traffic_forwarding_panel.Policy.Association.Index.{put_all-bounded}
use traffic_forwarding_panel.Policy.Association.Invariant.{
  Backed, IsSound, with_index, for_each-keeps, set_session-HasCapacity,
}
use traffic_forwarding_panel.Policy.Association.Preserved.{
  prune-IsSound, All-Backed-put_all, has_self,
}
use traffic_forwarding_panel.Policy.Association.Configured.{All-Backed-other, unready}
use traffic_forwarding_panel.Prelude.Assoc.{insert-IsDistinct}

no_session :
    (id : ℕ) (m : Assoc Session) (es : List Entry)
    → lookup id m ≡ none
    → All (Backed m) es
    → All (λ e. (e.id == id) ≡ false) es
no_session id m [] gone h = tt
no_session id m (e ∷ es) gone h = (ground (arith, h.0.found), no_session id m es gone h.1)

-- The registry with a session more, under the next id.
add_session-IsSound :
    (s : Session) (r : Registry)
    → length r.sessions < r.limit
    → IsSound r
    → IsSound (record r { next = r.next + 1; sessions = insert (r.next + 1) s r.sessions })
add_session-IsSound s r room h =
    let gone = h.has_capacity.fresh (r.next + 1) (omega arith) in
    record {
      has_capacity = record {
        capacity = omega (arith, length-insert_new (r.next + 1) s r.sessions gone, room);
        distinct = insert-IsDistinct (r.next + 1) s r.sessions h.has_capacity.distinct;
        fresh = λ j lt. ground (
          arith,
          lookup-insert (r.next + 1) j s r.sessions,
          h.has_capacity.fresh j (omega arith),
        );
      };
      backed =
          All-Backed-other (r.next + 1) s r.sessions r.index
            (no_session (r.next + 1) r.sessions r.index gone h.backed) h.backed;
      bounded = h.bounded;
    }

wrapped : (n : ℕ) → n + 1 < 2 ^ 64 → (n + 1) % 2 ^ 64 ≡ n + 1
wrapped n h = omega arith

prune-next : (now : ℕ) (r : Registry) → (prune now r).next ≡ r.next
unfolding prune remove_session
prune-next now r =
    for_each-keeps (λ r'. r'.next ≡ r.next) _ (λ id s r' found e. ground arith) (keys r.sessions) r
      refl

pub open_session-IsSound :
    (lib : Library) (now peer : ℕ) (bindings : List Binding) (r : Registry)
    → r.next + 1 < 2 ^ 64
    → IsSound r
    → IsSound (open_session lib now peer bindings r).1
unfolding open_session set_session
open_session-IsSound lib now peer bindings r small h =
    let p = prune-IsSound now r h in
    let n = prune-next now r in
    elim (Bool-cases (length bindings == 0 || ltb 256 (length bindings))) [
      | inl e ↦ rw e h
      | inr few ↦ elim (Bool-cases (leb (prune now r).limit (length (prune now r).sessions))) [
        | inl full ↦ rw (few, full) p
        | inr room ↦ elim (Fallible-cases (accept_bindings lib bindings (prune now r))) [
          | inl (why, e) ↦ rw (few, room, e) p
          | inr (accepted, e) ↦
              rw (few, room, e)
                (rw (wrapped (prune now r).next (rw n small), set_session)
                  (add_session-IsSound _ (prune now r) (ground arith) p))
        ]
      ]
    ]

-- The session that a reply makes ready.
confirm_fits :
    (now id : ℕ) (left : List Binding) (s : Session) (r : Registry)
    → lookup id r.sessions ≡ some s
    → s.ready ≡ false
    → has_room left s.peer r.index ≡ true
    → IsSound r
    → IsSound (record r {
      sessions =
          insert id (record s { bindings = left; ready = true; expires = now + r.ttl }) r.sessions;
      index = put_all id left s.peer r.index;
    })
confirm_fits now id left s r found not_ready room h =
    let s' = record s { bindings = left; ready = true; expires = now + r.ttl } in
    let ne = unready id s r.sessions r.index found not_ready h.backed in
    let c = set_session-HasCapacity id s s' r found h.has_capacity in
    record {
      has_capacity =
          unfold set_session in with_index _ r.allowed (put_all id left s.peer r.index) c;
      backed =
          All-Backed-put_all id s' (insert id s' r.sessions) left r.index
            (ground (arith, lookup-insert id id s' r.sessions)) refl (has_self left)
            (All-Backed-other id s' r.sessions r.index ne h.backed);
      bounded = λ k. put_all-bounded k id left s.peer r.index room (h.bounded k);
    }

confirm_refused :
    (id : ℕ) (s s' : Session) (r : Registry)
    → lookup id r.sessions ≡ some s
    → s.ready ≡ false
    → IsSound r
    → IsSound (set_session id s' r)
unfolding set_session
confirm_refused id s s' r found not_ready h =
    let ne = unready id s r.sessions r.index found not_ready h.backed in
    record {
      has_capacity = unfold set_session in set_session-HasCapacity id s s' r found h.has_capacity;
      backed = All-Backed-other id s' r.sessions r.index ne h.backed;
      bounded = h.bounded;
    }

conclude-IsSound :
    (now id : ℕ) (s : Session) (left : List Binding) (r : Registry)
    → lookup id r.sessions ≡ some s
    → s.ready ≡ false
    → IsSound r
    → IsSound (conclude now id s left r).1
unfolding conclude index_session
conclude-IsSound now id s [] r found not_ready h =
    confirm_refused id s (record s { bindings = [] }) r found not_ready h
conclude-IsSound now id s (b ∷ bs) r found not_ready h =
    elim (Bool-cases (has_room (b ∷ bs) s.peer r.index)) [
      | inl room ↦
          rw room (unfold set_session in confirm_fits now id (b ∷ bs) s r found not_ready room h)
      | inr full ↦ rw full (
          confirm_refused id s
            (record s { bindings = b ∷ bs; ready = false; expires = now + r.ttl }) r found not_ready
            h)
    ]

pub confirm-IsSound :
    (now id : ℕ) (endpoint : AddrPort) (r : Registry)
    → ((s : Session) → lookup id r.sessions ≡ some s → s.ready ≡ false)
    → IsSound r
    → IsSound (confirm now id endpoint r).1
unfolding confirm
confirm-IsSound now id endpoint r once h = elim (Option-cases (lookup id r.sessions)) [
  | inl e ↦ rw (e, confirm) h
  | inr (s, found) ↦ elim (Bool-cases (s.closed || not (ltb now s.expires))) [
    | inl over ↦ rw (found, over, confirm) h
    | inr live ↦ rw (found, live, confirm) (conclude-IsSound now id s _ r found (once s found) h)
  ]
]
