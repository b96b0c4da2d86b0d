-- ===== src/Policy/Association.antt =====
-- internal/policy/association/registry.go: the SOCKS5 UDP associations that an operator allows, the
-- control sessions observed for them, and the proofs that admit a datagram. Each critical section
-- is a function of the registry; `Observe` of observer.go enters here as `open_session`.
pub mod Operations
pub mod Index
pub mod Invariant
pub mod Preserved
pub mod Configured
pub mod Sessions
pub mod Admission
pub mod Proofs
pub mod Steps
pub mod Revoked
mod Examples
use traffic_forwarding_panel.Prelude.{
  ℕ, ◌+◌, ◌*◌, ◌%◌, ◌^◌, Bool, true, false, not, ◌&&◌, ◌||◌, Option, none, some, List, [], ◌∷◌,
  ◌++◌, length, any, ltb, leb, ◌==◌, if◌then◌else◌,
}
use traffic_forwarding_panel.Prelude.Int.{ℤ, pos, pos_part, ltb_ℤ}
use traffic_forwarding_panel.Prelude.Fallible.{Fallible, ok, err, ◌>>=◌, ◌>>◌, fail_if, guard}
use traffic_forwarding_panel.Prelude.Assoc.{Assoc, lookup, insert, delete, keys}

abbrev pub max_bindings : ℕ
max_bindings = 256

abbrev pub max_sessions : ℕ
max_sessions = 4096

abbrev pub max_peer_sessions : ℕ
max_peer_sessions = 32

-- 24 hours and 2 minutes, in nanoseconds
abbrev pub max_ttl : ℕ
max_ttl = 86400 * 10 ^ 9

abbrev pub default_ttl : ℕ
default_ttl = 120 * 10 ^ 9

-- What the registry asks of strings and of net/netip: the length of a text, and whether an address
-- is valid or unspecified, and its form without an IPv4-in-IPv6 prefix.
pub record Library : Type 0 where
  pub len : ℕ → ℕ
  pub is_valid : ℕ → Bool
  pub is_unspecified : ℕ → Bool
  pub unmap : ℕ → ℕ

-- `netip.AddrPort`
pub record AddrPort : Type 0 where
  pub addr : ℕ
  pub port : ℕ

-- `Binding`. A text is a number, 0 the empty one.
pub record Binding : Type 0 where
  pub control : ℕ
  pub udp : ℕ
  pub generation : ℕ
  pub endpoint : AddrPort
  pub target : ℕ

-- `lookupKey`
pub record LookupKey : Type 0 where
  pub rule : ℕ
  pub generation : ℕ
  pub target : ℕ
  pub peer : ℕ

-- `session`; its id is its key in the registry.
pub record Session : Type 0 where
  pub bindings : List Binding
  pub peer : ℕ
  pub port : ℕ
  pub ready : Bool
  pub closed : Bool
  pub expires : ℕ

-- `index[key][id] = binding`
pub record Entry : Type 0 where
  pub key : LookupKey
  pub id : ℕ
  pub binding : Binding

pub record Registry : Type 0 where
  pub limit : ℕ
  pub ttl : ℕ
  pub next : ℕ
  pub allowed : List Binding
  pub sessions : Assoc Session
  pub index : List Entry

pub data Error : Type 0 where
  too_many_bindings invalid_binding invalid_observation session_capacity not_configured : Error

-- `==` on the comparable structs
unfoldable pub same_endpoint : AddrPort → AddrPort → Bool
same_endpoint a b = a.addr == b.addr && a.port == b.port

unfoldable pub same_binding : Binding → Binding → Bool
unfolding same_endpoint
same_binding a b =
    a.control == b.control
    && a.udp == b.udp
    && a.generation == b.generation
    && same_endpoint a.endpoint b.endpoint
    && a.target == b.target

unfoldable pub same_key : LookupKey → LookupKey → Bool
same_key a b =
    a.rule == b.rule && a.generation == b.generation && a.target == b.target && a.peer == b.peer

abbrev pub key_of : Binding → ℕ → LookupKey
key_of b peer = record { rule = b.udp; generation = b.generation; target = b.target; peer = peer }

-- Membership in a set or a slice of bindings.
unfoldable pub has : Binding → List Binding → Bool
has b [] = false
has b (c ∷ bs) = same_binding b c || has b bs

-- The elements that pass the test.
unfoldable pub keep {ℓ} : {A : Type ℓ} → (A → Bool) → List A → List A
keep p [] = []
keep p (x ∷ xs) = if p x then x ∷ keep p xs else keep p xs

unfoldable pub new : ℤ → ℤ → Registry
new limit ttl = record {
  limit =
      if ltb_ℤ limit (pos 1) || ltb_ℤ (pos max_sessions) limit
      then max_sessions
      else pos_part limit;
  ttl = if ltb_ℤ ttl (pos 1) || ltb_ℤ (pos max_ttl) ttl then default_ttl else pos_part ttl;
  next = 0;
  allowed = [];
  sessions = [];
  index = [];
}

-- `for id, s := range r.sessions`: the body sees the map as it is then, and skips what was deleted.
unfoldable pub for_each : (ℕ → Session → Registry → Registry) → List ℕ → Registry → Registry
for_each body [] r = r
for_each body (id ∷ ids) r =
    for_each body ids (elim (lookup id r.sessions) [ none ↦ r | some s ↦ body id s r ])

abbrev pub each_session : (ℕ → Session → Registry → Registry) → Registry → Registry
each_session body r = for_each body (keys r.sessions) r

-- Whether an entry of a session goes with it.
unfoldable pub belongs : ℕ → Session → Entry → Bool
belongs id s e = e.id == id && any (λ b. same_key e.key (key_of b s.peer)) s.bindings

unfoldable pub remove_session : ℕ → Session → Registry → Registry
remove_session id s r = record r {
  sessions = delete id r.sessions;
  index = keep (λ e. not (belongs id s e)) r.index;
}

abbrev pub is_over : ℕ → Session → Bool
is_over now s = s.closed || not (ltb now s.expires)

unfoldable pub prune : ℕ → Registry → Registry
prune now = each_session (λ id s r. if is_over now s then remove_session id s r else r)

-- `len(r.index[k])`
unfoldable pub count_key : LookupKey → List Entry → ℕ
count_key k [] = 0
count_key k (e ∷ es) = (if same_key k e.key then 1 else 0) + count_key k es

-- `r.index[k][id] = b`
unfoldable pub put : LookupKey → ℕ → Binding → List Entry → List Entry
put k id b index =
    record { key = k; id = id; binding = b }
    ∷ keep (λ e. not (e.id == id && same_key k e.key)) index

unfoldable pub has_room : List Binding → ℕ → List Entry → Bool
has_room [] peer index = true
has_room (b ∷ bs) peer index =
    ltb (count_key (key_of b peer) index) max_peer_sessions && has_room bs peer index

unfoldable pub put_all : ℕ → List Binding → ℕ → List Entry → List Entry
put_all id [] peer index = index
put_all id (b ∷ bs) peer index = put_all id bs peer (put (key_of b peer) id b index)

-- `indexSessionLocked`
unfoldable pub index_session : ℕ → Session → Registry → Bool × Registry
index_session id s r =
    if has_room s.bindings s.peer r.index
    then (true, record r { index = put_all id s.bindings s.peer r.index })
    else (false, r)

unfoldable pub set_session : ℕ → Session → Registry → Registry
set_session id s r = record r { sessions = insert id s r.sessions }

-- The second loop of `Configure`: a session keeps the allowed bindings, and goes without any.
unfoldable pub restrict : List Binding → ℕ → Session → Registry → Registry
restrict allowed id s r =
    let bindings = keep (λ b. has b allowed) s.bindings in
    elim bindings [
      | [] ↦ record r { sessions = delete id r.sessions }
      | b ∷ bs ↦ set_session id (record s { bindings = b ∷ bs }) r
    ]

-- The third loop: a ready session is indexed again, or is ready no longer.
unfoldable pub reindex : ℕ → Session → Registry → Registry
reindex id s r =
    let (fits, r') = index_session id s r in
    if s.ready then if fits then r' else set_session id (record s { ready = false }) r else r

unfoldable pub reconfigure : ℕ → List Binding → Registry → Registry
reconfigure now allowed r =
    let pruned = prune now (record r { allowed = allowed }) in
    let restricted = each_session (restrict allowed) pruned in
    each_session reindex (record restricted { index = [] })

module _ (lib : Library) where
  unfoldable pub valid_binding : Binding → Bool
  valid_binding b =
      not (b.control == 0)
      && not (b.udp == 0)
      && not (b.generation == 0)
      && leb (lib.len b.control) 128
      && leb (lib.len b.udp) 128
      && leb (lib.len b.generation) 256
      && lib.is_valid b.endpoint.addr
      && not (lib.is_unspecified b.endpoint.addr)
      && not (b.endpoint.port == 0)
      && not (b.target == 0)
      && leb (lib.len b.target) 512

  unfoldable pub canonical_binding : Binding → Binding
  canonical_binding b =
      if lib.is_valid b.endpoint.addr
      then record b {
        endpoint = record { addr = lib.unmap b.endpoint.addr; port = b.endpoint.port };
      }
      else b

  -- The bindings of a configuration, canonical, if all are valid.
  unfoldable pub canonical_bindings : List Binding → Fallible Error (List Binding)
  canonical_bindings [] = ok []
  canonical_bindings (b ∷ bs) = do
    guard (valid_binding (canonical_binding b)) invalid_binding
    rest ← canonical_bindings bs
    ok (canonical_binding b ∷ rest)

  unfoldable pub configure : ℕ → List Binding → Registry → Fallible Error Registry
  configure now bindings r = do
    fail_if (ltb max_bindings (length bindings)) too_many_bindings
    allowed ← canonical_bindings bindings
    ok (reconfigure now allowed r)
