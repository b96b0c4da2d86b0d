-- ===== src/Policy/Association/Operations.antt =====
-- The operations of the registry that run while it serves: revocations, the life of a session
-- (`Observe`, stages 4 and 5 of the handshake, and `closeLocked` of observer.go), and the proofs.
use traffic_forwarding_panel.Prelude.{
  ℕ, ◌+◌, ◌%◌, ◌^◌, Bool, true, false, not, ◌&&◌, ◌||◌, Option, none, some, List, [], ◌∷◌, length,
  any, ltb, leb, ◌==◌, if◌then◌else◌,
}
use traffic_forwarding_panel.Prelude.Fallible.{Fallible, ok, err, ◌>>=◌, ◌>>◌, guard}
use traffic_forwarding_panel.Prelude.Assoc.{lookup}
use traffic_forwarding_panel.Policy.Association.{
  Library, AddrPort, Binding, LookupKey, Session, Entry, Registry, Error, invalid_observation,
  session_capacity, not_configured, max_bindings, same_endpoint, same_key, has, keep, each_session,
  remove_session, prune, index_session, set_session, valid_binding, canonical_binding,
}

abbrev pub mentions : ℕ → Binding → Bool
mentions rule b = b.control == rule || b.udp == rule

unfoldable pub revoke : (Binding → Bool) → Registry → Registry
revoke hit r =
    each_session (λ id s r'. if any hit s.bindings then remove_session id s r' else r')
      (record r { allowed = keep (λ b. not (hit b)) r.allowed })

unfoldable pub revoke_rule : ℕ → Registry → Registry
revoke_rule rule = revoke (mentions rule)

unfoldable pub revoke_generation : ℕ → Registry → Registry
revoke_generation generation = revoke (λ b. b.generation == generation)

unfoldable pub revoke_all : Registry → Registry
revoke_all r = record r { sessions = []; index = []; allowed = [] }

unfoldable pub count : ℕ → Registry → ℕ × Registry
count now r = let r' = prune now r in (length r'.sessions, r')

-- `Proof` with its registry; `none` stands for the zero proof.
pub record Proof : Type 0 where
  pub id : ℕ
  pub binding : Binding
  pub source : AddrPort

abbrev names : Proof → ℕ → ℕ → ℕ → Bool
names p rule generation target =
    p.binding.udp == rule && p.binding.generation == generation && p.binding.target == target

unfoldable pub session_admits : Proof → Session → Registry → Bool
session_admits p s r =
    s.ready
    && not s.closed
    && has p.binding r.allowed
    && s.peer == p.source.addr
    && s.port == p.source.port
    && has p.binding s.bindings

unfoldable pub valid_for : ℕ → Option Proof → ℕ → ℕ → ℕ → Registry → Bool × Registry
valid_for now none rule generation target r = (false, r)
valid_for now (some p) rule generation target r =
    if not (names p rule generation target) then (false, r) else elim (lookup p.id r.sessions) [
      | none ↦ (false, r)
      | some s ↦
          if not (ltb now s.expires)
          then (false, remove_session p.id s r)
          else (session_admits p s r, r)
    ]

-- `validUDP`: the RFC 1928 header of a datagram
unfoldable pub valid_udp : List ℕ → Bool
valid_udp (a ∷ b ∷ frag ∷ kind ∷ rest) =
    a == 0
    && b == 0
    && (if kind == 1
        then leb 6 (length rest)
        else if kind == 4
        then leb 18 (length rest)
        else kind == 3
          && (elim rest [ [] ↦ false | n ∷ name ↦ not (n == 0) && leb (n + 2) (length name) ]))
valid_udp b = false

-- What the loop of `Admission` has found.
pub data Choice : Type 0 where
  nothing ambiguous : Choice
  chosen : ℕ → Session → Binding → Choice

abbrev pub matches : AddrPort → Session → Bool
matches source s =
    s.ready && not s.closed && s.peer == source.addr && (s.port == 0 || s.port == source.port)

-- One candidate more; `ambiguous` is the early return of an empty proof.
unfoldable pub choose : ℕ → Session → Binding → Choice → Choice
choose id s b nothing = chosen id s b
choose id s b ambiguous = ambiguous
choose id s b (chosen id' s' b') = if id == id' then chosen id s b else ambiguous

abbrev pub without : Entry → List Entry → List Entry
without e = keep (λ f. not (f.id == e.id && same_key e.key f.key))

abbrev pub is_ambiguous : Choice → Bool
is_ambiguous ambiguous = true
is_ambiguous c = false

-- One round over `r.index[k]`: entries without a session and expired sessions go.
unfoldable pub look_at : ℕ → AddrPort → Entry → Choice → Registry → Choice × Registry
look_at now source e c r = elim (lookup e.id r.sessions) [
  | none ↦ (c, record r { index = without e r.index })
  | some s ↦
      if not (ltb now s.expires)
      then (c, remove_session e.id s r)
      else if matches source s && has e.binding r.allowed
      then (choose e.id s e.binding c, r)
      else (c, r)
]

-- The loop over `r.index[k]`, as it was when the loop began.
unfoldable pub search_index : ℕ → AddrPort → List Entry → Choice → Registry → Choice × Registry
search_index now source [] c r = (c, r)
search_index now source (e ∷ es) c r =
    let (c', r') = look_at now source e c r in
    if is_ambiguous c then (c, r) else search_index now source es c' r'

abbrev pub under : LookupKey → Registry → List Entry
under k r = keep (λ e. same_key k e.key) r.index

-- The proof of a chosen session, which is bound to the port of the datagram and lives on.
unfoldable pub grant : ℕ → AddrPort → Choice → Registry → Option Proof × Registry
grant now source (chosen id s b) r = (
  some (record { id = id; binding = b; source = source }),
  set_session id (record s { port = source.port; expires = now + r.ttl }) r,
)
grant now source c r = (none, r)

module _ (lib : Library) where
  unfoldable pub admission : ℕ → ℕ → ℕ → AddrPort → ℕ → List ℕ → Registry → Option Proof × Registry
  admission now rule generation source target payload r =
      let from : AddrPort = record source { addr = lib.unmap source.addr } in
      let k : LookupKey = record {
        rule = rule;
        generation = generation;
        target = target;
        peer = from.addr;
      } in
      let (c, r') = search_index now from (under k r) nothing r in
      if not (lib.is_valid source.addr) || source.port == 0 || not (valid_udp payload)
      then (none, r)
      else grant now from c r'

  -- The bindings of an observation, canonical, if all are valid and allowed.
  unfoldable pub accept_bindings : List Binding → Registry → Fallible Error (List Binding)
  accept_bindings [] r = ok []
  accept_bindings (b ∷ bs) r = do
    let c = canonical_binding lib b
    guard (valid_binding lib c && has c r.allowed) not_configured
    rest ← accept_bindings bs r
    ok (c ∷ rest)

  -- `Observe`, for connections that are there and a peer that is known. A refused call has pruned.
  unfoldable pub open_session : ℕ → ℕ → List Binding → Registry → Fallible Error ℕ × Registry
  open_session now peer bindings r =
      let pruned = prune now r in
      if length bindings == 0 || ltb max_bindings (length bindings)
      then (err invalid_observation, r)
      else if leb pruned.limit (length pruned.sessions)
      then (err session_capacity, pruned)
      else elim (accept_bindings bindings pruned) [
        | err e ↦ (err e, pruned)
        | ok accepted ↦
            let id = (pruned.next + 1) % 2 ^ 64 in
            (
              ok id,
              set_session id
                  (record {
                    bindings = accepted;
                    peer = peer;
                    port = 0;
                    ready = false;
                    closed = false;
                    expires = now + pruned.ttl;
                  })
                  (record pruned { next = id }),
            )
      ]

-- Stage 4: the port that the client announced.
unfoldable pub announce : ℕ → ℕ → Registry → Registry
announce id port r = elim (lookup id r.sessions) [
  | none ↦ r
  | some s ↦ set_session id (record s { port = port }) r
]

-- A session with the bindings that the reply has left: it is ready if one is left and they fit.
unfoldable pub conclude : ℕ → ℕ → Session → List Binding → Registry → Bool × Registry
conclude now id s [] r = (false, set_session id (record s { bindings = [] }) r)
conclude now id s (b ∷ bs) r =
    let s' = record s { bindings = b ∷ bs } in
    let (fits, r') = index_session id s' r in
    (fits, set_session id (record s' { ready = fits; expires = now + r.ttl }) r')

-- Stage 5: the reply of the server names the relay endpoint. A refused session keeps the bindings
-- that are left; the observer then closes it.
unfoldable pub confirm : ℕ → ℕ → AddrPort → Registry → Bool × Registry
confirm now id endpoint r = elim (lookup id r.sessions) [
  | none ↦ (false, r)
  | some s ↦
      if s.closed || not (ltb now s.expires)
      then (false, r)
      else conclude now id s
          (keep (λ b. same_endpoint b.endpoint endpoint && has b r.allowed) s.bindings) r
]

-- `closeLocked` of an observer
unfoldable pub close : ℕ → Registry → Registry
close id r = elim (lookup id r.sessions) [ none ↦ r | some s ↦ remove_session id s r ]
