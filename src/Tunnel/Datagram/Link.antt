-- ===== src/Tunnel/Datagram/Link.antt =====
-- A link of internal/tunnel/datagram.go and its sessions, by flow: `add`, `receive`, `collect`, `Read`
-- and `Close`. Each takes its locks for the whole of what it does here.
use traffic_forwarding_panel.Prelude.{
  ℕ, ◌+◌, ◌-◌, ◌%◌, ◌^◌, Bool, true, false, not, ◌||◌, Option, none, some, List, [], ◌∷◌, length,
  ltb, leb, ◌==◌, if◌then◌else◌,
}
use traffic_forwarding_panel.Prelude.Assoc.{Assoc, lookup, insert, erase}
use traffic_forwarding_panel.Prelude.Bytes.{Bytes, uint64, drop}
use traffic_forwarding_panel.Tunnel.Datagram.{
  Fragments, Counters, Session, datagram_header, max_datagram_flows, expire, accept,
}

pub record Link : Type 0 where
  pub flows : Assoc Session
  pub counters : Counters
  pub down : Bool

abbrev pub new_session : Session
new_session = record { parts = []; seen = []; inbox = []; closed = false }

abbrev pub new_link : Link
new_link = record {
  flows = [];
  counters = record { reassembly = 0; received = 0; drops = 0 };
  down = false;
}

abbrev pub is_known : Option Session → Bool
is_known none = false
is_known (some s) = true

-- `add`; `none` where the flow is refused
unfoldable pub add : ℕ → Link → Option Link
add flow l =
    if flow == 0
      || is_known (lookup flow l.flows)
      || leb max_datagram_flows (length l.flows)
      || l.down
    then none
    else some (record l { flows = insert flow new_session l.flows })

abbrev pub drop_datagram : Link → Link
drop_datagram l = record l {
  counters = record l.counters { drops = (l.counters.drops + 1) % 2 ^ 64 };
}

-- The first byte of a frame, which names the format.
abbrev pub format_of : Bytes → ℕ
format_of [] = 0
format_of (b ∷ _) = b

-- The body of the loop of `receive`.
unfoldable pub receive : (Assoc ℕ → ℕ) → ℕ → Bytes → Link → Link
receive pick now f l =
    if ltb (length f) datagram_header || not (format_of f == 1)
    then drop_datagram l
    else elim (lookup (uint64 (drop 1 f)) l.flows) [
      | none ↦ drop_datagram l
      | some s ↦
          let (c, s') = accept pick now f (l.counters, s) in
          record l { flows = insert (uint64 (drop 1 f)) s' l.flows; counters = c }
    ]

-- A turn of `collect`: each session drops what is over.
unfoldable pub collect_flows : ℕ → Counters → Assoc Session → Counters × Assoc Session
collect_flows now c [] = (c, [])
collect_flows now c ((flow, s) ∷ m) =
    let (c', s') = expire now (c, s) in
    let (c'', m') = collect_flows now c' m in (c'', (flow, s') ∷ m')

unfoldable pub collect : ℕ → Link → Link
collect now l =
    let (c, m) = collect_flows now l.counters l.flows in record l { flows = m; counters = c }

-- `Read` of the session of a flow, where a packet waits in its queue.
unfoldable pub read : ℕ → Link → Option (Bytes × Link)
read flow l = elim (lookup flow l.flows) [
  | none ↦ none
  | some s ↦ elim s.inbox [
    | [] ↦ none
    | packet ∷ rest ↦ some (
      packet,
      record l {
        flows = insert flow (record s { inbox = rest }) l.flows;
        counters = record l.counters { received = l.counters.received - length packet };
      },
    )
  ]
]

-- The loops of `Close` over the fragments and over the queue.
unfoldable pub give_up_parts : Assoc Fragments → ℕ → ℕ
give_up_parts [] reassembly = reassembly
give_up_parts ((_, a) ∷ m) reassembly = give_up_parts m (reassembly - a.total)

unfoldable pub drain : List Bytes → ℕ → ℕ
drain [] received = received
drain (packet ∷ inbox) received = drain inbox (received - length packet)

unfoldable pub close : ℕ → Link → Link
close flow l = elim (lookup flow l.flows) [
  | none ↦ l
  | some s ↦ record l {
    flows = erase flow l.flows;
    counters = record l.counters {
      reassembly = give_up_parts s.parts l.counters.reassembly;
      received = drain s.inbox l.counters.received;
    };
  }
]
