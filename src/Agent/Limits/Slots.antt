-- ===== src/Agent/Limits/Slots.antt =====
-- The counters of internal/agent/limits.go are those of the slots that are held.
use traffic_forwarding_panel.Prelude.{
  ℕ, ◌+◌, ◌-◌, ◌<◌, ◌≡◌, ◌≢◌, refl, sym, ◌∙◌, ap, ◌⊎◌, inl, inr, false, Bool-cases, Option, none,
  some, Option-cases, arith, ◌==◌, if◌then◌else◌,
}
use traffic_forwarding_panel.Prelude.Assoc.{
  Assoc, lookup, insert, delete, erase, lookup-insert, lookup-delete, total_by, total_by-erase,
}
use traffic_forwarding_panel.Agent.Limits.{
  ResourcePool, count_at, is_full, lacks_ip, taken, acquire, give_back, Slotted, accept,
  call_release,
}

abbrev pub one : ℕ → ℕ
one _ = 1

abbrev pub at : ℕ → ℕ → ℕ
at ip j = if j == ip then 1 else 0

pub record IsSound (s : Slotted) : Type 0 where
  pub connections : s.pool.connections ≡ total_by one s.held
  pub counts : (ip : ℕ) → count_at ip s.pool.ips ≡ total_by (at ip) s.held
  pub used : (ip : ℕ) → lookup ip s.pool.ips ≢ some 0

-- The counter of an address after a slot is taken, and after one is given back.
count_at-insert :
    (ip j n : ℕ) (m : Assoc ℕ) → count_at j (insert ip n m) ≡ (if ip == j then n else count_at j m)
count_at-insert ip j n m = rw (count_at, lookup-insert ip j n m) (ground arith)

count_at-delete :
    (ip j : ℕ) (m : Assoc ℕ) → count_at j (delete ip m) ≡ (if ip == j then 0 else count_at j m)
count_at-delete ip j m = rw (count_at, lookup-delete ip j m) (ground arith)

used-insert :
    (ip n : ℕ) (m : Assoc ℕ)
    → ((j : ℕ) → lookup j m ≢ some 0)
    → 0 < n
    → (j : ℕ) → lookup j (insert ip n m) ≢ some 0
used-insert ip n m used pos j = elim (Bool-cases (ip == j)) [
  | inl same ↦ rw (lookup-insert ip j n m, same) (λ h. let z : n ≡ 0 = cc in omega arith)
  | inr ne ↦ rw (lookup-insert ip j n m, ne) (used j)
]

used-delete :
    (ip : ℕ) (m : Assoc ℕ)
    → ((j : ℕ) → lookup j m ≢ some 0)
    → (j : ℕ) → lookup j (delete ip m) ≢ some 0
used-delete ip m used j = elim (Bool-cases (ip == j)) [
  | inl same ↦ rw (lookup-delete ip j m, same) (λ h. cc)
  | inr ne ↦ rw (lookup-delete ip j m, ne) (used j)
]

pub acquire-cases :
    (parse : ℕ → Option ℕ) (peer : ℕ) (p : ResourcePool)
    → (acquire parse peer p ≡ none)
      ⊎ ((ip : ℕ) × (is_full p ≡ false)
          × (lacks_ip ip p ≡ false)
          × (acquire parse peer p ≡ some (ip, taken ip p)))
unfolding acquire
acquire-cases parse peer p = elim (Option-cases (parse peer)) [
  | inl e ↦ rw (acquire, e) (inl refl)
  | inr (ip, e) ↦ elim (Bool-cases (is_full p)) [
    | inl full ↦ rw (acquire, e, full) (inl refl)
    | inr free ↦ elim (Bool-cases (lacks_ip ip p)) [
      | inl lacks ↦ rw (acquire, e, free, lacks) (inl refl)
      | inr room ↦ rw (acquire, e, free, room) (inr (ip, refl, room, refl))
    ]
  ]
]

pub accept-IsSound :
    (parse : ℕ → Option ℕ) (peer : ℕ) (s : Slotted) → IsSound s → IsSound (accept parse peer s)
unfolding accept total_by
accept-IsSound parse peer s i = elim (acquire-cases parse peer s.pool) [
  | inl e ↦ rw (accept, e) i
  | inr (ip, _, _, e) ↦
      rw (accept, e)
        (record {
          connections = omega (arith, i.connections);
          counts = λ j. count_at-insert ip j _ s.pool.ips ∙ ground (arith, i.counts j, i.counts ip);
          used = used-insert ip _ s.pool.ips i.used (omega arith);
        })
]

counts-erase :
    (slot ip j : ℕ) (held : Assoc ℕ)
    → lookup slot held ≡ some ip
    → total_by (at j) (erase slot held) + (if ip == j then 1 else 0) ≡ total_by (at j) held
counts-erase slot ip j held e = total_by-erase (at j) slot ip held e

fewer_at :
    (slot ip j n : ℕ) (s : Slotted)
    → IsSound s
    → lookup slot s.held ≡ some ip
    → n + 1 ≡ count_at ip s.pool.ips
    → (if ip == j then n else count_at j s.pool.ips) ≡ total_by (at j) (erase slot s.held)
fewer_at slot ip j n s i e h = elim (Bool-cases (ip == j)) [
  | inl same ↦
      let q : ip ≡ j = ground arith in
      let c : count_at ip s.pool.ips ≡ count_at j s.pool.ips = ap (λ k. count_at k s.pool.ips) q in
      let g : total_by (at j) (erase slot s.held) + 1 ≡ total_by (at j) s.held =
        ap (λ b. total_by (at j) (erase slot s.held) + (if b then 1 else 0)) (sym same)
        ∙ counts-erase slot ip j s.held e in
      rw same (omega (arith, i.counts j, g, h, c))
  | inr ne ↦
      let g : total_by (at j) (erase slot s.held) + 0 ≡ total_by (at j) s.held =
        ap (λ b. total_by (at j) (erase slot s.held) + (if b then 1 else 0)) (sym ne)
        ∙ counts-erase slot ip j s.held e in
      rw ne (omega (arith, i.counts j, g))
]

give_back-IsSound :
    (slot ip : ℕ) (s : Slotted)
    → IsSound s
    → lookup slot s.held ≡ some ip
    → IsSound (record s { pool = give_back ip s.pool; held = erase slot s.held })
unfolding give_back
give_back-IsSound slot ip s i e =
    let n = count_at ip s.pool.ips in
    let here = counts-erase slot ip ip s.held e in
    let fewer = total_by-erase one slot ip s.held e in
    let connections : s.pool.connections - 1 ≡ total_by one (erase slot s.held) =
      omega (arith, i.connections, fewer) in
    elim (Bool-cases (n - 1 == 0)) [
      | inl last ↦ rw last (record {
        connections = connections;
        counts = λ j.
            count_at-delete ip j s.pool.ips
            ∙ fewer_at slot ip j 0 s i e (ground (arith, i.counts ip, here));
        used = used-delete ip s.pool.ips i.used;
      })
      | inr more ↦ rw more (record {
        connections = connections;
        counts = λ j.
            count_at-insert ip j (n - 1) s.pool.ips
            ∙ fewer_at slot ip j (n - 1) s i e (ground (arith, i.counts ip, here));
        used = used-insert ip (n - 1) s.pool.ips i.used (ground arith);
      })
    ]

pub call_release-IsSound : (slot : ℕ) (s : Slotted) → IsSound s → IsSound (call_release slot s)
unfolding call_release
call_release-IsSound slot s i = elim (Option-cases (lookup slot s.held)) [
  | inl e ↦ rw (call_release, e) i
  | inr (ip, e) ↦ rw (call_release, e) (give_back-IsSound slot ip s i e)
]
