-- ===== src/Agent/Limits.antt =====
-- The slots of internal/agent/limits.go: an account has so many connections and so many addresses at
-- once on a node. The rate of the same pool is not modelled.
pub mod Slots
pub mod Bounds
mod Examples
use traffic_forwarding_panel.Prelude.{
  ℕ, ◌+◌, ◌-◌, ◌&&◌, Bool, Option, none, some, ◌∷◌, length, ltb, leb, ◌==◌, if◌then◌else◌,
}
use traffic_forwarding_panel.Prelude.Assoc.{Assoc, lookup, insert, delete, erase}

-- The parts of `contract.ResourceLimits` that the slots read; a limit that is not above 0 is 0.
pub record ResourceLimits : Type 0 where
  pub max_connections_per_node : ℕ
  pub max_ips_per_node : ℕ

-- `resourcePool`, without its tokens. A counter never falls below 0: only a slot that was given out
-- is given back, and once.
pub record ResourcePool : Type 0 where
  pub limits : ResourceLimits
  pub connections : ℕ
  pub ips : Assoc ℕ

-- `p.ips[ip]`
abbrev pub count_at : ℕ → Assoc ℕ → ℕ
count_at ip m = elim (lookup ip m) [ none ↦ 0 | some n ↦ n ]

abbrev pub is_full : ResourcePool → Bool
is_full p =
    ltb 0 p.limits.max_connections_per_node && leb p.limits.max_connections_per_node p.connections

abbrev pub lacks_ip : ℕ → ResourcePool → Bool
lacks_ip ip p =
    ltb 0 p.limits.max_ips_per_node
    && (count_at ip p.ips == 0)
    && leb p.limits.max_ips_per_node (length p.ips)

abbrev pub taken : ℕ → ResourcePool → ResourcePool
taken ip p = record p {
  connections = p.connections + 1;
  ips = insert ip (count_at ip p.ips + 1) p.ips;
}

-- The address that the slot is for, and the pool after `acquire`. `parse` takes a peer to its address:
-- it is net.SplitHostPort, netip.ParseAddr, Unmap and WithZone.
unfoldable pub acquire : (ℕ → Option ℕ) → ℕ → ResourcePool → Option (ℕ × ResourcePool)
acquire parse peer p = elim (parse peer) [
  | none ↦ none
  | some ip ↦ if is_full p then none else if lacks_ip ip p then none else some (ip, taken ip p)
]

-- What the function that `acquire` returns does the first time.
unfoldable pub give_back : ℕ → ResourcePool → ResourcePool
give_back ip p =
    let n = count_at ip p.ips - 1 in
    record p {
      connections = p.connections - 1;
      ips = if n == 0 then delete ip p.ips else insert ip n p.ips;
    }

-- A pool with the functions that were returned and have not run yet, by a number for each.
pub record Slotted : Type 0 where
  pub pool : ResourcePool
  pub held : Assoc ℕ
  pub next : ℕ

unfoldable pub accept : (ℕ → Option ℕ) → ℕ → Slotted → Slotted
accept parse peer s = elim (acquire parse peer s.pool) [
  | none ↦ s
  | some a ↦ record { pool = a.1; held = (s.next, a.0) ∷ s.held; next = s.next + 1 }
]

-- A call of the returned function: `once` lets the first one through.
unfoldable pub call_release : ℕ → Slotted → Slotted
call_release slot s = elim (lookup slot s.held) [
  | none ↦ s
  | some ip ↦ record s { pool = give_back ip s.pool; held = erase slot s.held }
]

-- `configure`
unfoldable pub set_limits : ResourceLimits → Slotted → Slotted
set_limits l s = record s { pool = record s.pool { limits = l } }
