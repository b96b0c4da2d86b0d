-- ===== src/Agent/Limits/Examples.antt =====
-- Two connections from one address, with at most two connections and one address at once.
use traffic_forwarding_panel.Prelude.{
  ℕ, ◌≡◌, refl, Option, none, some, [], ◌∷◌, ◌==◌, ◌/◌, if◌then◌else◌,
}
use traffic_forwarding_panel.Agent.Limits.{
  ResourceLimits, ResourcePool, acquire, Slotted, accept, call_release,
}
use traffic_forwarding_panel.Agent.Limits.Bounds.{empty, start, accepted, released, drained}

abbrev tight : ResourceLimits
tight = record { max_connections_per_node = 2; max_ips_per_node = 1 }

abbrev parse : ℕ → Option ℕ
parse peer = if peer == 99 then none else some (peer / 10)

abbrev two : Slotted
two = accept parse 71 (accept parse 70 (empty tight))

abbrev after : Slotted
after = call_release 0 (call_release 1 (call_release 1 two))

-- The second address and the third connection are refused.
other_address : acquire parse 80 (accept parse 70 (empty tight)).pool ≡ none
unfolding acquire accept
other_address = refl

third_connection : acquire parse 72 two.pool ≡ none
unfolding acquire accept
third_connection = refl

all_back : after.held ≡ []
unfolding acquire accept call_release
all_back = refl

drained_example : (after.pool.connections ≡ 0) × (after.pool.ips ≡ [])
drained_example =
    drained after
      (released 0 (released 1 (released 1 (accepted parse 71 (accepted parse 70 (start tight))))))
      all_back

abbrev one_more : ResourcePool
one_more = record { limits = tight; connections = 2; ips = (7, 2) ∷ [] }

second_slot : acquire parse 71 (accept parse 70 (empty tight)).pool ≡ some (7, one_more)
unfolding acquire accept
second_slot = refl
