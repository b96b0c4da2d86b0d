-- ===== src/Tunnel/Datagram/Memory.antt =====
-- What a session of internal/tunnel/datagram.go holds, and the counters that bound it.
use traffic_forwarding_panel.Prelude.{
  ℕ, ◌+◌, ◌-◌, ◌*◌, ◌%◌, ◌^◌, ◌≤◌, ◌<◌, ◌≡◌, refl, ◌∙◌, inl, inr, Bool-cases, some, List, [], ◌∷◌,
  ◌++◌, length, length-append, sum_by, ltb, leb, arith, if◌then◌else◌,
}
use traffic_forwarding_panel.Prelude.Assoc.{Assoc, lookup, insert, erase, total_by}
use traffic_forwarding_panel.Prelude.Bytes.{Bytes}
use traffic_forwarding_panel.Tunnel.Datagram.{
  Fragments, Counters, Session, State, max_datagram_memory, fragment_ttl, drop_frame, expire,
  expire_parts, expire_seen, deliver,
}

-- The memory of what is put together, and of the queue.
unfoldable pub assembling : Session → ℕ
assembling s = total_by (λ a. a.total) s.parts

unfoldable pub queued : Session → ℕ
queued s = sum_by length s.inbox

-- The session keeps its bounds.
pub record IsBounded (s : Session) : Type 0 where
  pub parts : length s.parts ≤ 4
  pub inbox : length s.inbox ≤ 32
  pub seen : length s.seen ≤ 256

-- The counters are what the session holds, on top of `r` and `q` of the other sessions, within the
-- limit.
pub record IsHeld (r q : ℕ) (st : State) : Type 0 where
  pub reassembly : st.0.reassembly ≡ r + assembling st.1
  pub received : st.0.received ≡ q + queued st.1
  pub assembly_limit : st.0.reassembly ≤ max_datagram_memory
  pub queue_limit : st.0.received ≤ max_datagram_memory
  pub bounded : IsBounded st.1

-- A key of a map that is not empty.
abbrev pub IsPick : (Assoc ℕ → ℕ) → Type 0
IsPick pick = (m : Assoc ℕ) → 0 < length m → (v : ℕ) × (lookup (pick m) m ≡ some v)

length-erase : (k v : ℕ) (m : Assoc ℕ) → lookup k m ≡ some v → length (erase k m) + 1 ≡ length m
length-erase k v [] h = cc
length-erase k v (e ∷ m) h = ground (arith, h, length-erase k v m)

pub length-erase-le : (k : ℕ) (m : Assoc Fragments) → length (erase k m) ≤ length m
length-erase-le k [] = omega arith
length-erase-le k (e ∷ m) = ground (arith, length-erase-le k m)

length-insert-le : (k v : ℕ) (m : Assoc ℕ) → length (insert k v m) ≤ length m + 1
length-insert-le k v [] = omega arith
length-insert-le k v (e ∷ m) = ground (arith, length-insert-le k v m)

length-expire_seen : (now : ℕ) (m : Assoc ℕ) → length (expire_seen now m) ≤ length m
unfolding expire_seen
length-expire_seen now [] = omega arith
length-expire_seen now ((k, e) ∷ m) = ground (arith, length-expire_seen now m)

sum-append :
    (xs : List Bytes) (b : Bytes) → sum_by length (xs ++ (b ∷ [])) ≡ sum_by length xs + length b
unfolding sum_by
sum-append [] b = omega arith
sum-append (x ∷ xs) b = omega (arith, sum-append xs b)

expire_parts-held :
    (r now : ℕ) (c : Counters) (m : Assoc Fragments)
    → c.reassembly ≡ r + total_by (λ a. a.total) m
    → ((expire_parts now c m).0.reassembly ≡ r + total_by (λ a. a.total) (expire_parts now c m).1)
      × (((expire_parts now c m).0.received ≡ c.received)
          × (((expire_parts now c m).0.reassembly ≤ c.reassembly)
              × (length (expire_parts now c m).1 ≤ length m)))
unfolding expire_parts total_by
expire_parts-held r now c [] h = (h, (refl, (omega arith, omega arith)))
expire_parts-held r now c ((k, b) ∷ m) h = elim (Bool-cases (ltb now b.expires)) [
  | inl stays ↦
      let ih = expire_parts-held (r + b.total) now c m (omega (arith, h)) in
      rw stays (omega (arith, ih.0), (ih.1.0, (ih.1.1.0, omega (arith, ih.1.1.1))))
  | inr goes ↦
      let c' : Counters = record c {
        reassembly = c.reassembly - b.total;
        drops = (c.drops + 1) % 2 ^ 64;
      } in
      let ih = expire_parts-held r now c' m (omega (arith, h)) in
      rw goes (ih.0, (ih.1.0, (omega (arith, ih.1.1.0), omega (arith, ih.1.1.1))))
]

module _ (r q : ℕ) where
  pub drop_frame-IsHeld : (st : State) → IsHeld r q st → IsHeld r q (drop_frame st)
  drop_frame-IsHeld st h = record {
    reassembly = h.reassembly;
    received = h.received;
    assembly_limit = h.assembly_limit;
    queue_limit = h.queue_limit;
    bounded = h.bounded;
  }

  pub expire-IsHeld : (now : ℕ) (st : State) → IsHeld r q st → IsHeld r q (expire now st)
  unfolding expire assembling queued
  expire-IsHeld now (c, s) h =
      let x = expire_parts-held r now c s.parts h.reassembly in
      record {
        reassembly = x.0;
        received = x.1.0 ∙ h.received;
        assembly_limit = omega (arith, x.1.1.0, h.assembly_limit);
        queue_limit = omega (arith, x.1.0, h.queue_limit);
        bounded = record {
          parts = omega (arith, x.1.1.1, h.bounded.parts);
          inbox = h.bounded.inbox;
          seen = omega (arith, length-expire_seen now s.seen, h.bounded.seen);
        };
      }

  module _ (pick : Assoc ℕ → ℕ) (law : IsPick pick) where
    seen_bound :
        (now id : ℕ) (m : Assoc ℕ)
        → length m ≤ 256
        → length (
            insert id (now + 2 * fragment_ttl) (if leb 256 (length m) then erase (pick m) m else m))
          ≤ 256
    seen_bound now id m small = elim (Bool-cases (leb 256 (length m))) [
      | inl full ↦
          let (v, there) = law m (ground (arith, full)) in
          rw full (
            omega (
              arith,
              length-erase (pick m) v m there,
              length-insert-le id (now + 2 * fragment_ttl) (erase (pick m) m),
              small,
            ))
      | inr room ↦ rw room (ground (arith, room, length-insert-le id (now + 2 * fragment_ttl) m))
    ]

    pub deliver-IsHeld :
        (now id : ℕ) (packet : Bytes) (st : State)
        → IsHeld r q st
        → IsHeld r q (deliver pick now id packet st)
    unfolding deliver queued assembling
    deliver-IsHeld now id packet (c, s) h =
        let bound = seen_bound now id s.seen h.bounded.seen in
        elim (Bool-cases (ltb max_datagram_memory (c.received + length packet))) [
          | inl over ↦
              rw (deliver, over)
                (record {
                  reassembly = h.reassembly;
                  received = h.received;
                  assembly_limit = h.assembly_limit;
                  queue_limit = h.queue_limit;
                  bounded = record {
                    parts = h.bounded.parts;
                    inbox = h.bounded.inbox;
                    seen = bound;
                  };
                })
          | inr fits ↦ elim (Bool-cases (ltb (length s.inbox) 32)) [
            | inr full ↦
                rw (deliver, fits, full)
                  (record {
                    reassembly = h.reassembly;
                    received = omega (arith, h.received);
                    assembly_limit = h.assembly_limit;
                    queue_limit = omega (arith, h.queue_limit);
                    bounded = record {
                      parts = h.bounded.parts;
                      inbox = h.bounded.inbox;
                      seen = bound;
                    };
                  })
            | inl room ↦
                rw (deliver, fits, room)
                  (record {
                    reassembly = h.reassembly;
                    received = omega (arith, h.received, sum-append s.inbox packet);
                    assembly_limit = h.assembly_limit;
                    queue_limit = ground (arith, fits);
                    bounded = record {
                      parts = h.bounded.parts;
                      inbox = ground (arith, room, length-append s.inbox (packet ∷ []));
                      seen = bound;
                    };
                  })
          ]
        ]
