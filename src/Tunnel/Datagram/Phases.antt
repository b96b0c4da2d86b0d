-- ===== src/Tunnel/Datagram/Phases.antt =====
-- The phases of a packet in a session of internal/tunnel/datagram.go: none of its frames has come, some
-- have, or it is complete. Expiry keeps the phase while the packet lives.
use traffic_forwarding_panel.Prelude.{
  ℕ, ◌+◌, ◌-◌, ◌%◌, ◌^◌, ◌≤◌, ◌<◌, ◌≡◌, refl, sym, ap, inl, inr, true, false, Bool-cases, Option,
  none, some, some_inj, none_ne, List, [], ◌∷◌, ◌++◌, length, ltb, ◌==◌, arith,
}
use traffic_forwarding_panel.Prelude.Assoc.{Assoc, lookup}
use traffic_forwarding_panel.Prelude.Bytes.{Bytes}
use traffic_forwarding_panel.Tunnel.Datagram.{
  Fragments, Counters, Session, State, max_datagram_memory, expire, expire_parts, expire_seen,
}
use traffic_forwarding_panel.Tunnel.Datagram.Parts.{Agree, arrived, arrived_bytes}

-- The counters after a set of fragments is dropped.
abbrev dropped : Counters → Fragments → Counters
dropped c b = record c { reassembly = c.reassembly - b.total; drops = (c.drops + 1) % 2 ^ 64 }

expire_parts-live :
    (now id : ℕ) (a : Fragments) (c : Counters) (m : Assoc Fragments)
    → now < a.expires
    → lookup id m ≡ some a
    → lookup id (expire_parts now c m).1 ≡ some a
unfolding expire_parts
expire_parts-live now id a c [] live h = h
expire_parts-live now id a c ((k, b) ∷ m) live h = elim (Bool-cases (id == k)) [
  | inl same ↦
      let at : b ≡ a = some_inj (rw same at h) in
      let stays : ltb now b.expires ≡ true = ground (arith, live, ap (λ x. x.expires) at) in
      rw (stays, same) (ap some at)
  | inr ne ↦ elim (Bool-cases (ltb now b.expires)) [
    | inl stays ↦ rw (stays, ne) (expire_parts-live now id a c m live (rw ne at h))
    | inr goes ↦ rw goes (expire_parts-live now id a (dropped c b) m live (rw ne at h))
  ]
]

expire_parts-none :
    (now id : ℕ) (c : Counters) (m : Assoc Fragments)
    → lookup id m ≡ none
    → lookup id (expire_parts now c m).1 ≡ none
unfolding expire_parts
expire_parts-none now id c [] h = refl
expire_parts-none now id c ((k, b) ∷ m) h = elim (Bool-cases (id == k)) [
  | inl same ↦ absurd (none_ne (sym (rw same at h)))
  | inr ne ↦ elim (Bool-cases (ltb now b.expires)) [
    | inl stays ↦ rw (stays, ne) (expire_parts-none now id c m (rw ne at h))
    | inr goes ↦ rw goes (expire_parts-none now id (dropped c b) m (rw ne at h))
  ]
]

-- Expiry takes no memory and leaves the queue's counter alone.
expire_parts_less :
    (now : ℕ) (c : Counters) (m : Assoc Fragments)
    → ((expire_parts now c m).0.received ≡ c.received)
      × (((expire_parts now c m).0.reassembly ≤ c.reassembly)
          × (length (expire_parts now c m).1 ≤ length m))
unfolding expire_parts
expire_parts_less now c [] = (refl, (omega arith, omega arith))
expire_parts_less now c ((k, b) ∷ m) = elim (Bool-cases (ltb now b.expires)) [
  | inl stays ↦
      let ih = expire_parts_less now c m in rw stays (ih.0, (ih.1.0, omega (arith, ih.1.1)))
  | inr goes ↦
      let ih = expire_parts_less now (dropped c b) m in
      rw goes (ih.0, (omega (arith, ih.1.0), omega (arith, ih.1.1)))
]

expire_seen-live :
    (now id end : ℕ) (m : Assoc ℕ)
    → now < end
    → lookup id m ≡ some end
    → lookup id (expire_seen now m) ≡ some end
unfolding expire_seen
expire_seen-live now id end [] live h = h
expire_seen-live now id end ((k, e) ∷ m) live h = elim (Bool-cases (id == k)) [
  | inl same ↦
      let at : e ≡ end = some_inj (rw same at h) in
      let stays : ltb now e ≡ true = ground (arith, live, at) in rw (stays, same) (ap some at)
  | inr ne ↦ elim (Bool-cases (ltb now e)) [
    | inl stays ↦ rw (stays, ne) (expire_seen-live now id end m live (rw ne at h))
    | inr goes ↦ rw goes (expire_seen-live now id end m live (rw ne at h))
  ]
]

expire_seen-none :
    (now id : ℕ) (m : Assoc ℕ) → lookup id m ≡ none → lookup id (expire_seen now m) ≡ none
unfolding expire_seen
expire_seen-none now id [] h = refl
expire_seen-none now id ((k, e) ∷ m) h = elim (Bool-cases (id == k)) [
  | inl same ↦ absurd (none_ne (sym (rw same at h)))
  | inr ne ↦ elim (Bool-cases (ltb now e)) [
    | inl stays ↦ rw (stays, ne) (expire_seen-none now id m (rw ne at h))
    | inr goes ↦ rw goes (expire_seen-none now id m (rw ne at h))
  ]
]

module _ (p : Bytes) (bs : List Bytes) (id deadline : ℕ) (old : List Bytes) where
  -- There is room for the packet in the queue.
  pub record Room (c : Counters) (s : Session) : Type 0 where
    pub open_session : s.closed ≡ false
    pub unseen : lookup id s.seen ≡ none
    pub queue : s.inbox ≡ old
    pub short : length old < 32
    pub memory : c.received + length p ≤ max_datagram_memory

  -- No frame has come, and there is room to put the packet together.
  pub record IsFresh (c : Counters) (s : Session) : Type 0 where
    pub room : Room c s
    pub absent : lookup id s.parts ≡ none
    pub few : length s.parts < 4
    pub buffer : c.reassembly + length p ≤ max_datagram_memory

  -- Some chunks have come.
  pub record IsPartial (os : List (Option Bytes)) (c : Counters) (s : Session) : Type 0 where
    pub room : Room c s
    pub fragments : Fragments
    pub found : lookup id s.parts ≡ some fragments
    pub holds : fragments.parts ≡ os
    pub total : fragments.total ≡ length p
    pub counted : fragments.count ≡ arrived os
    pub weighed : fragments.bytes ≡ arrived_bytes os
    pub agree : Agree os bs
    pub missing : arrived os < length os
    pub lives : deadline ≤ fragments.expires

  -- The packet is in the queue, once.
  pub record IsDone (c : Counters) (s : Session) : Type 0 where
    pub open_session : s.closed ≡ false
    pub end : ℕ
    pub had : lookup id s.seen ≡ some end
    pub remembered : deadline ≤ end
    pub queue : s.inbox ≡ old ++ (p ∷ [])

  module _ (now : ℕ) (c : Counters) (s : Session) where
    abbrev after : State
    after = expire now (c, s)

    Room-expire : Room c s → Room after.0 after.1
    unfolding expire
    Room-expire h = record {
      open_session = h.open_session;
      unseen = expire_seen-none now id s.seen h.unseen;
      queue = h.queue;
      short = h.short;
      memory = omega (arith, h.memory, (expire_parts_less now c s.parts).0);
    }

    pub IsFresh-expire : IsFresh c s → IsFresh after.0 after.1
    unfolding expire
    IsFresh-expire h =
        let less = expire_parts_less now c s.parts in
        record {
          room = Room-expire h.room;
          absent = expire_parts-none now id c s.parts h.absent;
          few = omega (arith, less.1.1, h.few);
          buffer = omega (arith, less.1.0, h.buffer);
        }

    pub IsPartial-expire :
        (os : List (Option Bytes))
        → now < deadline
        → IsPartial os c s
        → IsPartial os after.0 after.1
    unfolding expire
    IsPartial-expire os early h = record {
      room = Room-expire h.room;
      fragments = h.fragments;
      found =
          expire_parts-live now id h.fragments c s.parts (omega (arith, h.lives, early)) h.found;
      holds = h.holds;
      total = h.total;
      counted = h.counted;
      weighed = h.weighed;
      agree = h.agree;
      missing = h.missing;
      lives = h.lives;
    }

    pub IsDone-expire : now < deadline → IsDone c s → IsDone after.0 after.1
    unfolding expire
    IsDone-expire early h = record {
      open_session = h.open_session;
      end = h.end;
      had = expire_seen-live now id h.end s.seen (omega (arith, h.remembered, early)) h.had;
      remembered = h.remembered;
      queue = h.queue;
    }
