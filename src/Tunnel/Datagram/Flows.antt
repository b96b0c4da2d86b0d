-- ===== src/Tunnel/Datagram/Flows.antt =====
-- The sessions of a link of internal/tunnel/datagram.go against its counters: `add` and `receive`.
use traffic_forwarding_panel.Prelude.{
  ℕ, ◌+◌, ◌≤◌, ◌≡◌, refl, sym, inl, inr, Bool, true, false, Bool-cases, not, ◌||◌, some,
  Option-cases, none_ne, some_inj, [], ◌∷◌, length, sum_by, All, ltb, leb, ◌==◌, arith,
}
use traffic_forwarding_panel.Prelude.Assoc.{
  Assoc, lookup, insert, erase, total_by, total_by-insert, total_by-insert_new, total_by-erase,
  length-insert, length-insert_new,
}
use traffic_forwarding_panel.Prelude.Bytes.{Bytes, uint64, drop}
use traffic_forwarding_panel.Tunnel.Datagram.{
  Session, State, max_datagram_memory, datagram_header, max_datagram_flows, accept,
}
use traffic_forwarding_panel.Tunnel.Datagram.Link.{
  Link, new_session, is_known, add, drop_datagram, format_of, receive,
}
use traffic_forwarding_panel.Tunnel.Datagram.Memory.{assembling, queued, IsBounded, IsHeld, IsPick}
use traffic_forwarding_panel.Tunnel.Datagram.Held.{accept-IsHeld}

-- The counters are what the sessions hold, within the limit, and each session keeps its bounds.
pub record IsWithin (l : Link) : Type 0 where
  pub reassembly : l.counters.reassembly ≡ total_by assembling l.flows
  pub received : l.counters.received ≡ total_by queued l.flows
  pub assembly_limit : l.counters.reassembly ≤ max_datagram_memory
  pub queue_limit : l.counters.received ≤ max_datagram_memory
  pub bounded : All (λ e. IsBounded e.1) l.flows
  pub few : length l.flows ≤ max_datagram_flows

All-lookup :
    (k : ℕ) (s : Session) (m : Assoc Session)
    → lookup k m ≡ some s
    → All (λ e. IsBounded e.1) m
    → IsBounded s
All-lookup k s [] there h = absurd (none_ne there)
All-lookup k s (e ∷ m) there h = elim (Bool-cases (k == e.0)) [
  | inl same ↦ let at : e.1 ≡ s = some_inj (rw same at there) in rw at at h.0
  | inr ne ↦ All-lookup k s m (rw ne at there) h.1
]

pub All-insert :
    (k : ℕ) (s : Session) (m : Assoc Session)
    → IsBounded s
    → All (λ e. IsBounded e.1) m
    → All (λ e. IsBounded e.1) (insert k s m)
All-insert k s [] b h = (b, tt)
All-insert k s (e ∷ m) b h = elim (Bool-cases (k == e.0)) [
  | inl same ↦ rw same (b, h.1)
  | inr ne ↦ rw ne (h.0, All-insert k s m b h.1)
]

pub All-erase :
    (k : ℕ) (m : Assoc Session) → All (λ e. IsBounded e.1) m → All (λ e. IsBounded e.1) (erase k m)
All-erase k [] h = tt
All-erase k (e ∷ m) h = elim (Bool-cases (k == e.0)) [
  | inl same ↦ rw same h.1
  | inr ne ↦ rw ne (h.0, All-erase k m h.1)
]

pub length-erase_flow : (k : ℕ) (m : Assoc Session) → length (erase k m) ≤ length m
length-erase_flow k [] = omega arith
length-erase_flow k (e ∷ m) = ground (arith, length-erase_flow k m)

-- What the other sessions hold.
abbrev pub others : (Session → ℕ) → ℕ → Link → ℕ
others f flow l = total_by f (erase flow l.flows)

-- One session of a link, against the others.
pub one-IsHeld :
    (flow : ℕ) (s : Session) (l : Link)
    → lookup flow l.flows ≡ some s
    → IsWithin l
    → IsHeld (others assembling flow l) (others queued flow l) (l.counters, s)
one-IsHeld flow s l there h = record {
  reassembly = omega (arith, h.reassembly, total_by-erase assembling flow s l.flows there);
  received = omega (arith, h.received, total_by-erase queued flow s l.flows there);
  assembly_limit = h.assembly_limit;
  queue_limit = h.queue_limit;
  bounded = All-lookup flow s l.flows there h.bounded;
}

pub put_back :
    (flow : ℕ) (s : Session) (l : Link) (st : State)
    → lookup flow l.flows ≡ some s
    → IsWithin l
    → IsHeld (others assembling flow l) (others queued flow l) st
    → IsWithin (record l { flows = insert flow st.1 l.flows; counters = st.0 })
put_back flow s l st there h k = record {
  reassembly = omega (
    arith,
    k.reassembly,
    total_by-insert assembling flow s st.1 l.flows there,
    total_by-erase assembling flow s l.flows there,
  );
  received = omega (
    arith,
    k.received,
    total_by-insert queued flow s st.1 l.flows there,
    total_by-erase queued flow s l.flows there,
  );
  assembly_limit = k.assembly_limit;
  queue_limit = k.queue_limit;
  bounded = All-insert flow st.1 l.flows k.bounded h.bounded;
  few = omega (arith, length-insert flow st.1 s l.flows there, h.few);
}

drop_datagram-IsWithin : (l : Link) → IsWithin l → IsWithin (drop_datagram l)
drop_datagram-IsWithin l h = record {
  reassembly = h.reassembly;
  received = h.received;
  assembly_limit = h.assembly_limit;
  queue_limit = h.queue_limit;
  bounded = h.bounded;
  few = h.few;
}

either_way : (b c d : Bool) → (b || true || c || d) ≡ true
either_way true c d = refl
either_way false c d = refl

leaves_room :
    (b c d : Bool) (n : ℕ)
    → (b || c || leb max_datagram_flows n || d) ≡ false
    → n + 1 ≤ max_datagram_flows
leaves_room b c d n h = ground (arith, h)

pub add-IsWithin : (flow : ℕ) (l l' : Link) → add flow l ≡ some l' → IsWithin l → IsWithin l'
unfolding add assembling queued total_by sum_by
add-IsWithin flow l l' run h = elim (Option-cases (lookup flow l.flows)) [
  | inr (s, there) ↦
      let refused_flow : (flow == 0
            || is_known (lookup flow l.flows)
            || leb max_datagram_flows (length l.flows)
            || l.down)
          ≡ true =
        rw there (either_way (flow == 0) (leb max_datagram_flows (length l.flows)) l.down) in
      absurd (none_ne (rw (add, refused_flow) at run))
  | inl new ↦
      elim (Bool-cases (
        flow == 0
        || is_known (lookup flow l.flows)
        || leb max_datagram_flows (length l.flows)
        || l.down)) [
          | inl refused ↦ absurd (none_ne (rw (add, refused) at run))
          | inr free ↦
              let room =
                leaves_room (flow == 0) (is_known (lookup flow l.flows)) l.down (length l.flows)
                  free in
              rw (sym (some_inj (rw (add, free) at run))) (record {
                reassembly = omega (
                  arith,
                  h.reassembly,
                  total_by-insert_new assembling flow new_session l.flows new,
                );
                received =
                    omega
                      (arith, h.received, total_by-insert_new queued flow new_session l.flows new);
                assembly_limit = h.assembly_limit;
                queue_limit = h.queue_limit;
                bounded =
                    All-insert flow new_session l.flows
                      (record { parts = omega arith; inbox = omega arith; seen = omega arith })
                      h.bounded;
                few = omega (arith, room, length-insert_new flow new_session l.flows new);
              })
        ]
]

pub receive-IsWithin :
    (pick : Assoc ℕ → ℕ) (now : ℕ) (f : Bytes) (l : Link)
    → IsPick pick
    → IsWithin l
    → IsWithin (receive pick now f l)
unfolding receive
receive-IsWithin pick now f l law h =
    elim (Bool-cases (ltb (length f) datagram_header || not (format_of f == 1))) [
      | inl bad ↦ rw (receive, bad) (drop_datagram-IsWithin l h)
      | inr good ↦ elim (Option-cases (lookup (uint64 (drop 1 f)) l.flows)) [
        | inl unknown ↦ rw (receive, good, unknown) (drop_datagram-IsWithin l h)
        | inr (s, there) ↦
            let flow = uint64 (drop 1 f) in
            rw (receive, good, there)
              (put_back flow s l (accept pick now f (l.counters, s)) there h (
                accept-IsHeld (others assembling flow l) (others queued flow l) pick law now f
                  (l.counters, s) (one-IsHeld flow s l there h)))
      ]
    ]
