-- ===== src/Agent/Limits/Bounds.antt =====
-- What the slots of internal/agent/limits.go come to, over any sequence of calls.
use traffic_forwarding_panel.Prelude.{
  none_ne, ℕ, ◌+◌, ◌≤◌, ◌≡◌, ◌≢◌, refl, sym, ◌∙◌, ap, ◌⊎◌, inl, inr, false, ◌&&◌, Option, none,
  some, Option-cases, [], ◌∷◌, length, arith, ltb, leb, ◌==◌, ==_refl,
}
use traffic_forwarding_panel.Prelude.Assoc.{
  Assoc, lookup, insert, total_by, length-insert, length-insert_new,
}
use traffic_forwarding_panel.Agent.Limits.{
  ResourceLimits, ResourcePool, count_at, lacks_ip, taken, acquire, Slotted, accept, call_release,
  set_limits,
}
use traffic_forwarding_panel.Agent.Limits.Slots.{
  IsSound, acquire-cases, accept-IsSound, call_release-IsSound,
}

abbrev pub empty : ResourceLimits → Slotted
empty l = record { pool = record { limits = l; connections = 0; ips = [] }; held = []; next = 0 }

-- A new pool, and calls of `acquire`, of the functions it returned, and of `configure`.
pub data Runs : Slotted → Type 0 where
  start : (l : ResourceLimits) → Runs (empty l)
  accepted : {s : Slotted} (parse : ℕ → Option ℕ) (peer : ℕ) → Runs s → Runs (accept parse peer s)
  released : {s : Slotted} (slot : ℕ) → Runs s → Runs (call_release slot s)
  configured : {s : Slotted} (l : ResourceLimits) → Runs s → Runs (set_limits l s)

Runs-IsSound : (s : Slotted) → Runs s → IsSound s
unfolding set_limits total_by
Runs-IsSound _ (start l) = record { connections = refl; counts = λ ip. refl; used = λ ip h. cc }
Runs-IsSound _ (accepted {s} parse peer r) = accept-IsSound parse peer s (Runs-IsSound s r)
Runs-IsSound _ (released {s} slot r) = call_release-IsSound slot s (Runs-IsSound s r)
Runs-IsSound _ (configured {s} l r) =
    let i = Runs-IsSound s r in
    record { connections = i.connections; counts = i.counts; used = i.used }

all_unused :
    (m : Assoc ℕ) → ((ip : ℕ) → lookup ip m ≢ some 0) → ((ip : ℕ) → count_at ip m ≡ 0) → m ≡ []
all_unused [] used h = refl
all_unused ((ip, n) ∷ m) used h =
    let first : lookup ip ((ip, n) ∷ m) ≡ some n = rw (==_refl ip) refl in
    let zero_count : n ≡ 0 = ap (λ o. elim o [ none ↦ 0 | some k ↦ k ]) (sym first) ∙ h ip in
    absurd (used ip (first ∙ ap some zero_count))

-- After any calls, once every slot has been given back, no connection is counted and no address is
-- left in the map.
pub drained : (s : Slotted) → Runs s → s.held ≡ [] → (s.pool.connections ≡ 0) × (s.pool.ips ≡ [])
unfolding total_by
drained s r h =
    let i = Runs-IsSound s r in
    (i.connections ∙ rw h refl, all_unused s.pool.ips i.used (λ ip. i.counts ip ∙ rw h refl))

second_inj {ℓ} : {A B : Type ℓ} (x y : A × B) → some x ≡ some y → x.1 ≡ y.1
second_inj x y e = let q : x ≡ y = cc in ap (λ z. z.1) q

room : (a n k : ℕ) → n ≡ 0 → (ltb 0 a && (n == 0) && leb a k) ≡ false → (a ≡ 0) ⊎ (k + 1 ≤ a)
room a n k z h = ground arith

room_for :
    (ip : ℕ) (p : ResourcePool)
    → lacks_ip ip p ≡ false
    → let k = length (insert ip (count_at ip p.ips + 1) p.ips) in
      (p.limits.max_ips_per_node ≡ 0) ⊎ (k ≤ p.limits.max_ips_per_node) ⊎ (k ≡ length p.ips)
room_for ip p h =
    let n = count_at ip p.ips in
    elim (Option-cases (lookup ip p.ips)) [
      | inr (old, e) ↦ inr (inr (length-insert ip (n + 1) old p.ips e))
      | inl e ↦
          let z : n ≡ 0 = rw (count_at, e) refl in
          elim (room p.limits.max_ips_per_node n (length p.ips) z h) [
            | inl none_set ↦ inl none_set
            | inr fits ↦ inr (inl (rw (length-insert_new ip (n + 1) p.ips e) fits))
          ]
    ]

-- A slot that is given keeps the connections within their limit, unless that is 0 for no limit, and
-- it keeps the addresses within theirs or adds none.
pub acquire-Bounds :
    (parse : ℕ → Option ℕ) (peer ip : ℕ) (p p' : ResourcePool)
    → acquire parse peer p ≡ some (ip, p')
    → let l = p.limits in
      ((l.max_connections_per_node ≡ 0) ⊎ (p'.connections ≤ l.max_connections_per_node))
      × ((l.max_ips_per_node ≡ 0)
          ⊎ (length p'.ips ≤ l.max_ips_per_node)
          ⊎ (length p'.ips ≡ length p.ips))
acquire-Bounds parse peer ip p p' h = elim (acquire-cases parse peer p) [
  | inl e ↦ absurd (none_ne (sym e ∙ h))
  | inr (j, free, unlacked, e) ↦
      let q : taken j p ≡ p' = second_inj (j, taken j p) (ip, p') (sym e ∙ h) in
      rw (sym q) (ground arith, room_for j p unlacked)
]
