-- ===== src/Tunnel/Datagram/Closing.antt =====
-- What `Read`, `Close` and `collect` of internal/tunnel/datagram.go give back to the counters.
use traffic_forwarding_panel.Prelude.{
  ℕ, ◌+◌, ◌-◌, ◌≤◌, ◌≡◌, refl, sym, ap, inl, inr, some, Option-cases, none_ne, some_inj, List,
  List-cases, [], ◌∷◌, length, sum_by, All, arith,
}
use traffic_forwarding_panel.Prelude.Assoc.{Assoc, lookup, total_by, total_by-erase}
use traffic_forwarding_panel.Prelude.Bytes.{Bytes}
use traffic_forwarding_panel.Tunnel.Datagram.{
  Fragments, Counters, Session, State, max_datagram_memory, expire,
}
use traffic_forwarding_panel.Tunnel.Datagram.Link.{
  Link, collect_flows, collect, read, give_up_parts, drain, close,
}
use traffic_forwarding_panel.Tunnel.Datagram.Memory.{assembling, queued, IsBounded, expire-IsHeld}
use traffic_forwarding_panel.Tunnel.Datagram.Flows.{
  IsWithin, All-erase, length-erase_flow, one-IsHeld, put_back,
}

give_up_parts_lem :
    (m : Assoc Fragments) (n : ℕ) → give_up_parts m n ≡ n - total_by (λ a. a.total) m
unfolding give_up_parts total_by
give_up_parts_lem [] n = omega arith
give_up_parts_lem ((k, a) ∷ m) n = omega (arith, give_up_parts_lem m (n - a.total))

drain_lem : (inbox : List Bytes) (n : ℕ) → drain inbox n ≡ n - sum_by length inbox
unfolding drain sum_by
drain_lem [] n = omega arith
drain_lem (packet ∷ inbox) n = omega (arith, drain_lem inbox (n - length packet))

pub close-IsWithin : (flow : ℕ) (l : Link) → IsWithin l → IsWithin (close flow l)
unfolding close assembling queued
close-IsWithin flow l h = elim (Option-cases (lookup flow l.flows)) [
  | inl unknown ↦ rw (close, unknown) h
  | inr (s, there) ↦
      rw (close, there)
        (record {
          reassembly = omega (
            arith,
            give_up_parts_lem s.parts l.counters.reassembly,
            h.reassembly,
            total_by-erase assembling flow s l.flows there,
          );
          received = omega (
            arith,
            drain_lem s.inbox l.counters.received,
            h.received,
            total_by-erase queued flow s l.flows there,
          );
          assembly_limit =
              omega (arith, give_up_parts_lem s.parts l.counters.reassembly, h.assembly_limit);
          queue_limit = omega (arith, drain_lem s.inbox l.counters.received, h.queue_limit);
          bounded = All-erase flow l.flows h.bounded;
          few = omega (arith, length-erase_flow flow l.flows, h.few);
        })
]

pub read-IsWithin :
    (flow : ℕ) (packet : Bytes) (l l' : Link)
    → read flow l ≡ some (packet, l')
    → IsWithin l
    → IsWithin l'
unfolding read queued assembling sum_by
read-IsWithin flow packet l l' run h = elim (Option-cases (lookup flow l.flows)) [
  | inl unknown ↦ absurd (none_ne (rw (read, unknown) at run))
  | inr (s, there) ↦ elim (List-cases s.inbox) [
    | inl empty ↦ absurd (none_ne (rw (read, there, empty) at run))
    | inr (first, (rest, waiting)) ↦
        let e = some_inj (rw (read, there, waiting) at run) in
        let k = one-IsHeld flow s l there h in
        let weight : queued s ≡ length first + sum_by length rest = rw waiting refl in
        let st : State = (
          record l.counters { received = l.counters.received - length first },
          record s { inbox = rest },
        ) in
        rw (sym (ap (λ x. x.1) e)) (
          put_back flow s l st there h (record {
            reassembly = k.reassembly;
            received = omega (arith, k.received, weight);
            assembly_limit = k.assembly_limit;
            queue_limit = omega (arith, k.queue_limit);
            bounded = record {
              parts = k.bounded.parts;
              inbox = omega (arith, k.bounded.inbox, ap length waiting);
              seen = k.bounded.seen;
            };
          }))
  ]
]

-- What `collect` leaves of the sessions, on top of `r` and `q`.
record Collected (r q : ℕ) (c : Counters) (m : Assoc Session) : Type 0 where
  reassembly : c.reassembly ≡ r + total_by assembling m
  received : c.received ≡ q + total_by queued m
  assembly_limit : c.reassembly ≤ max_datagram_memory
  queue_limit : c.received ≤ max_datagram_memory
  bounded : All (λ e. IsBounded e.1) m

collect_flows-Collected :
    (r q now : ℕ) (c : Counters) (m : Assoc Session)
    → Collected r q c m
    → Collected r q (collect_flows now c m).0 (collect_flows now c m).1
unfolding collect_flows total_by
collect_flows-Collected r q now c [] h = h
collect_flows-Collected r q now c ((flow, s) ∷ m) h =
    let k =
      expire-IsHeld (r + total_by assembling m) (q + total_by queued m) now (c, s)
        (record {
          reassembly = omega (arith, h.reassembly);
          received = omega (arith, h.received);
          assembly_limit = h.assembly_limit;
          queue_limit = h.queue_limit;
          bounded = h.bounded.0;
        }) in
    let st = expire now (c, s) in
    let ih = collect_flows-Collected (r + assembling st.1) (q + queued st.1) now st.0 m (record {
      reassembly = omega (arith, k.reassembly);
      received = omega (arith, k.received);
      assembly_limit = k.assembly_limit;
      queue_limit = k.queue_limit;
      bounded = h.bounded.1;
    }) in
    record {
      reassembly = omega (arith, ih.reassembly);
      received = omega (arith, ih.received);
      assembly_limit = ih.assembly_limit;
      queue_limit = ih.queue_limit;
      bounded = (k.bounded, ih.bounded);
    }

length-collect_flows :
    (now : ℕ) (c : Counters) (m : Assoc Session) → length (collect_flows now c m).1 ≡ length m
unfolding collect_flows
length-collect_flows now c [] = refl
length-collect_flows now c ((flow, s) ∷ m) =
    omega (arith, length-collect_flows now (expire now (c, s)).0 m)

pub collect-IsWithin : (now : ℕ) (l : Link) → IsWithin l → IsWithin (collect now l)
unfolding collect
collect-IsWithin now l h =
    let k = collect_flows-Collected 0 0 now l.counters l.flows (record {
      reassembly = omega (arith, h.reassembly);
      received = omega (arith, h.received);
      assembly_limit = h.assembly_limit;
      queue_limit = h.queue_limit;
      bounded = h.bounded;
    }) in
    record {
      reassembly = omega (arith, k.reassembly);
      received = omega (arith, k.received);
      assembly_limit = k.assembly_limit;
      queue_limit = k.queue_limit;
      bounded = k.bounded;
      few = omega (arith, length-collect_flows now l.counters l.flows, h.few);
    }
