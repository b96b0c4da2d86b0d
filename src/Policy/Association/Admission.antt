-- ===== src/Policy/Association/Admission.antt =====
-- `Admission` of internal/policy/association/registry.go: what its loop finds, and what the proof
-- that it returns is worth.
use traffic_forwarding_panel.Prelude.{
  ℕ, ◌≡◌, ◌∙◌, true, false, ◌&&◌, some, List, [], ◌∷◌, arith, ltb, ◌==◌, All, Bool-cases,
  Option-cases, inl, inr,
}
use traffic_forwarding_panel.Prelude.Assoc.{Assoc, lookup, delete, lookup-delete}
use traffic_forwarding_panel.Policy.Association.{
  AddrPort, Binding, LookupKey, Session, Entry, Registry, key_of, has, remove_session,
}
use traffic_forwarding_panel.Policy.Association.Operations.{
  Choice, nothing, ambiguous, chosen, matches, choose, is_ambiguous, look_at, search_index, without,
}
use traffic_forwarding_panel.Policy.Association.Invariant.{Backed, IsSound, remove_session-IsSound}
use traffic_forwarding_panel.Policy.Association.Preserved.{without-IsSound}

-- One map of sessions holds nothing that the other does not.
abbrev Within : Assoc Session → Assoc Session → Type 0
Within m m' = (id : ℕ) (s : Session) → lookup id m ≡ some s → lookup id m' ≡ some s

Within-delete : (id : ℕ) (m m' : Assoc Session) → Within m m' → Within (delete id m) m'
Within-delete id m m' w j s h = w j s (ground (arith, lookup-delete id j m))

module _ (now : ℕ) (source : AddrPort) (k : LookupKey) where
  -- What the loop has found may be granted.
  pub record Chosen (r : Registry) (id : ℕ) (s : Session) (b : Binding) : Type 0 where
    pub found : lookup id r.sessions ≡ some s
    pub live : ltb now s.expires ≡ true
    pub matching : matches source s ≡ true
    pub authorised : has b r.allowed ≡ true
    pub held : has b s.bindings ≡ true
    pub keyed : k ≡ key_of b s.peer

  abbrev pub Fits : Registry → Choice → Type 0
  Fits r nothing = Unit {0}
  Fits r ambiguous = Unit {0}
  Fits r (chosen id s b) = Chosen r id s b

  choose-Fits :
      (r : Registry) (id : ℕ) (s : Session) (b : Binding) (c : Choice)
      → Chosen r id s b
      → Fits r (choose id s b c)
  unfolding choose
  choose-Fits r id s b nothing h = h
  choose-Fits r id s b ambiguous h = tt
  choose-Fits r id s b (chosen id' s' b') h = elim (Bool-cases (id == id')) [
    | inl e ↦ rw e h
    | inr e ↦ rw e tt
  ]

  remove-Fits :
      (r : Registry) (id : ℕ) (s : Session) (c : Choice)
      → lookup id r.sessions ≡ some s
      → ltb now s.expires ≡ false
      → Fits r c
      → Fits (remove_session id s r) c
  unfolding remove_session
  remove-Fits r id s nothing found over h = tt
  remove-Fits r id s ambiguous found over h = tt
  remove-Fits r id s (chosen id' s' b) found over h = record {
    found = ground (arith, lookup-delete id id' r.sessions, h.found, h.live);
    live = h.live;
    matching = h.matching;
    authorised = h.authorised;
    held = h.held;
    keyed = h.keyed;
  }

  without-Fits :
      (r : Registry) (e : Entry) (c : Choice)
      → Fits r c
      → Fits (record r { index = without e r.index }) c
  without-Fits r e nothing h = tt
  without-Fits r e ambiguous h = tt
  without-Fits r e (chosen id s b) h = record {
    found = h.found;
    live = h.live;
    matching = h.matching;
    authorised = h.authorised;
    held = h.held;
    keyed = h.keyed;
  }

  abbrev pub Candidate : Assoc Session → Entry → Type 0
  Candidate m e = Backed m e × (k ≡ e.key)

  candidate :
      (m : Assoc Session) (r : Registry) (e : Entry) (s : Session)
      → Within r.sessions m
      → Candidate m e
      → lookup e.id r.sessions ≡ some s
      → ltb now s.expires ≡ true
      → (matches source s && has e.binding r.allowed) ≡ true
      → Chosen r e.id s e.binding
  candidate m r e s w (b, key) found live admits =
      let owner : b.owner ≡ s = ground (arith, b.found, w e.id s found) in
      record {
        found = found;
        live = live;
        matching = ground (arith, admits);
        authorised = ground (arith, admits);
        held = rw (← owner) b.held;
        keyed = rw (← owner) (key ∙ b.keyed);
      }

  look_at-Within :
      (m : Assoc Session) (e : Entry) (c : Choice) (r : Registry)
      → Within r.sessions m
      → Within (look_at now source e c r).1.sessions m
  unfolding look_at remove_session
  look_at-Within m e c r w id s h = ground (arith, lookup-delete e.id id r.sessions, w id s)

  -- What one round does to a predicate on the choice and the registry.
  module _ {κ} (P : Choice → Registry → Type κ) where
    pub search_index-keeps :
        (m : Assoc Session)
        → ((e : Entry) (c : Choice) (r : Registry)
            → Within r.sessions m
            → Candidate m e
            → P c r
            → P (look_at now source e c r).0 (look_at now source e c r).1)
        → (es : List Entry) (c : Choice) (r : Registry) → Within r.sessions m
        → All (Candidate m) es
        → P c r
        → P (search_index now source es c r).0 (search_index now source es c r).1
    unfolding search_index
    search_index-keeps m round [] c r w h p = p
    search_index-keeps m round (e ∷ es) c r w h p = elim (Bool-cases (is_ambiguous c)) [
      | inl stop ↦ rw stop p
      | inr on ↦ rw on (
          search_index-keeps m round es (look_at now source e c r).0 (look_at now source e c r).1
            (look_at-Within m e c r w) h.1 (round e c r w h.0 p))
    ]

  pub look_at-Fits :
      (m : Assoc Session) (e : Entry) (c : Choice) (r : Registry)
      → Within r.sessions m
      → Candidate m e
      → Fits r c
      → Fits (look_at now source e c r).1 (look_at now source e c r).0
  unfolding look_at
  look_at-Fits m e c r w h f = elim (Option-cases (lookup e.id r.sessions)) [
    | inl gone ↦ rw (gone, look_at) (without-Fits r e c f)
    | inr (s, found) ↦ elim (Bool-cases (ltb now s.expires)) [
      | inr over ↦ rw (found, over, look_at) (remove-Fits r e.id s c found over f)
      | inl live ↦ elim (Bool-cases (matches source s && has e.binding r.allowed)) [
        | inl admits ↦
            rw (found, live, admits, look_at)
              (choose-Fits r e.id s e.binding c (candidate m r e s w h found live admits))
        | inr not_this ↦ rw (found, live, not_this, look_at) f
      ]
    ]
  ]

  pub look_at-IsSound :
      (e : Entry) (c : Choice) (r : Registry) → IsSound r → IsSound (look_at now source e c r).1
  unfolding look_at
  look_at-IsSound e c r h = elim (Option-cases (lookup e.id r.sessions)) [
    | inl gone ↦ rw (gone, look_at) (without-IsSound e r h)
    | inr (s, found) ↦ elim (Bool-cases (ltb now s.expires)) [
      | inr over ↦ rw (found, over, look_at) (remove_session-IsSound e.id s r found h)
      | inl live ↦ elim (Bool-cases (matches source s && has e.binding r.allowed)) [
        | inl admits ↦ rw (found, live, admits, look_at) h
        | inr not_this ↦ rw (found, live, not_this, look_at) h
      ]
    ]
  ]
