-- ===== src/Tunnel/Datagram/Budget.antt =====
-- The memory of a link of internal/tunnel/datagram.go, over all its sessions and any calls.
use traffic_forwarding_panel.Prelude.{ℕ, ◌≡◌, refl, true, some, arith}
use traffic_forwarding_panel.Prelude.Assoc.{Assoc, total_by}
use traffic_forwarding_panel.Prelude.Bytes.{Bytes}
use traffic_forwarding_panel.Tunnel.Datagram.Link.{
  Link, new_link, add, receive, collect, read, close,
}
use traffic_forwarding_panel.Tunnel.Datagram.Memory.{IsPick}
use traffic_forwarding_panel.Tunnel.Datagram.Flows.{IsWithin, add-IsWithin, receive-IsWithin}
use traffic_forwarding_panel.Tunnel.Datagram.Closing.{
  close-IsWithin, read-IsWithin, collect-IsWithin,
}

-- A call on a link.
pub data Step (pick : Assoc ℕ → ℕ) (l : Link) : Link → Type 0 where
  added : {l' : Link} (flow : ℕ) → add flow l ≡ some l' → Step pick l l'
  received_frame : (now : ℕ) (f : Bytes) → Step pick l (receive pick now f l)
  collected : (now : ℕ) → Step pick l (collect now l)
  handed_out :
      {l' : Link} (flow : ℕ) (packet : Bytes) → read flow l ≡ some (packet, l') → Step pick l l'
  closed_flow : (flow : ℕ) → Step pick l (close flow l)
  broken : Step pick l (record l { down = true })

-- From a new link, by any calls in any order.
pub data Reaches (pick : Assoc ℕ → ℕ) : Link → Type 0 where
  start : Reaches pick new_link
  call : {l l' : Link} → Reaches pick l → Step pick l l' → Reaches pick l'

Step-IsWithin :
    {pick : Assoc ℕ → ℕ} {l l' : Link} → IsPick pick → Step pick l l' → IsWithin l → IsWithin l'
Step-IsWithin {l = l} {l' = l'} law (added flow run) h = add-IsWithin flow l l' run h
Step-IsWithin {pick = pick} {l = l} law (received_frame now f) h =
    receive-IsWithin pick now f l law h
Step-IsWithin {l = l} law (collected now) h = collect-IsWithin now l h
Step-IsWithin {l = l} {l' = l'} law (handed_out flow packet run) h =
    read-IsWithin flow packet l l' run h
Step-IsWithin {l = l} law (closed_flow flow) h = close-IsWithin flow l h
Step-IsWithin law broken h = record {
  reassembly = h.reassembly;
  received = h.received;
  assembly_limit = h.assembly_limit;
  queue_limit = h.queue_limit;
  bounded = h.bounded;
  few = h.few;
}

-- On each link that calls of `add`, `receive`, `collect`, `Read` and `Close` lead to, in any order and
-- with any bytes received, the counters of the memory for reassembly and for the queues are exactly what
-- the sessions hold and at most 8 MiB each, no session puts more than four packets together, queues more
-- than 32 or remembers more than 256, and there are at most 1024 sessions. The first key of a map
-- that is not empty is one of its keys.
pub Reaches-IsWithin : (pick : Assoc ℕ → ℕ) (l : Link) → IsPick pick → Reaches pick l → IsWithin l
unfolding total_by
Reaches-IsWithin pick l law start = record {
  reassembly = refl;
  received = refl;
  assembly_limit = omega arith;
  queue_limit = omega arith;
  bounded = tt;
  few = omega arith;
}
Reaches-IsWithin pick l law (call {l'} r step) =
    Step-IsWithin law step (Reaches-IsWithin pick _ law r)
