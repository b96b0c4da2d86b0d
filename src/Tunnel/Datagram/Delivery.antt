-- ===== src/Tunnel/Datagram/Delivery.antt =====
-- `accept` of internal/tunnel/datagram.go on the frames of one packet.
use traffic_forwarding_panel.Prelude.{
  ℕ, ◌+◌, ◌-◌, ◌*◌, ◌≤◌, ◌<◌, ◌≡◌, refl, ◌∙◌, ap, ◌⊎◌, inl, inr, true, false, Bool-cases, Option,
  none, some, List, [], ◌∷◌, ◌++◌, length, ltb, leb, ◌==◌, ==_refl, arith, if◌then◌else◌,
}
use traffic_forwarding_panel.Prelude.Assoc.{Assoc, insert, erase, lookup-insert}
use traffic_forwarding_panel.Prelude.Bytes.{Bytes, equal_bytes_refl}
use traffic_forwarding_panel.Tunnel.Datagram.{
  Fragments, Counters, Session, State, max_datagram_memory, fragment_ttl, deliver, store_part,
  add_part, get_part, set_part,
}
use traffic_forwarding_panel.Tunnel.Datagram.Chunks.{concat, get}
use traffic_forwarding_panel.Tunnel.Datagram.Parts.{
  Agree, arrived, arrived_bytes, Has, get_part-Agree, set_part-Agree, length-set_part, length-Agree,
  arrived-set_part, arrived_bytes-le, arrived-le, join_parts-Agree, set_part-Has, set_part-new,
}
use traffic_forwarding_panel.Tunnel.Datagram.Phases.{Room, IsPartial, IsDone}

module _ (pick : Assoc ℕ → ℕ) (p : Bytes) (bs : List Bytes) (id deadline : ℕ) (old : List Bytes)
    (whole : concat bs ≡ p) (now : ℕ) (recent : deadline ≤ now + fragment_ttl) where
  pub deliver-IsDone :
      (c : Counters) (s : Session)
      → Room p bs id deadline old c s
      → let st = deliver pick now id p (c, s) in IsDone p bs id deadline old st.0 st.1
  unfolding deliver
  deliver-IsDone c s h =
      let fits : ltb max_datagram_memory (c.received + length p) ≡ false =
        ground (arith, h.memory) in
      let space : ltb (length s.inbox) 32 ≡ true = ground (arith, h.short, ap length h.queue) in
      rw (deliver, fits, space)
        (record {
          open_session = h.open_session;
          end = now + 2 * fragment_ttl;
          had =
              rw
                (
                  lookup-insert id id (now + 2 * fragment_ttl)
                      (if leb 256 (length s.seen) then erase (pick s.seen) s.seen else s.seen),
                  ==_refl id,
                )
                refl;
          remembered = omega (arith, recent);
          queue = ap (λ q. q ++ (p ∷ [])) h.queue;
        })

  -- Room does not depend on what is put together.
  pub Room-parts :
      (c : Counters) (s : Session) (n : ℕ) (m : Assoc Fragments)
      → Room p bs id deadline old c s
      → Room p bs id deadline old (record c { reassembly = n }) (record s { parts = m })
  Room-parts c s n m h = record {
    open_session = h.open_session;
    unseen = h.unseen;
    queue = h.queue;
    short = h.short;
    memory = h.memory;
  }

  -- After a chunk: it has come, and so have those before it, or the packet is complete.
  pub record Later (i : ℕ) (os : List (Option Bytes)) (st : State) : Type 0 where
    pub parts : List (Option Bytes)
    pub partial : IsPartial p bs id deadline old parts st.0 st.1
    pub has : Has i parts
    pub keeps : (j : ℕ) → Has j os → Has j parts

  abbrev pub Next : ℕ → List (Option Bytes) → State → Type 0
  Next i os st = Later i os st ⊎ IsDone p bs id deadline old st.0 st.1

  -- What storing a chunk does to the parts.
  record Stored (i : ℕ) (b : Bytes) (os : List (Option Bytes)) (a : Fragments) : Type 0 where
    parts : set_part i b a.parts ≡ set_part i b os
    agree : Agree (set_part i b os) bs
    counted : a.count + 1 ≡ arrived (set_part i b os)
    weighed : a.bytes + length b ≡ arrived_bytes (set_part i b os)
    size : length (set_part i b os) ≡ length bs

  stored :
      (i : ℕ) (b : Bytes) (os : List (Option Bytes)) (c : Counters) (s : Session)
      (h : IsPartial p bs id deadline old os c s)
      → get i bs ≡ some b
      → i < length bs
      → get_part i os ≡ none
      → Stored i b os h.fragments
  stored i b os c s h chunk below missing =
      let size = length-Agree os bs h.agree in
      let more = arrived-set_part i b os (omega (arith, size, below)) missing in
      record {
        parts = ap (λ l. set_part i b l) h.holds;
        agree = set_part-Agree i b os bs h.agree chunk;
        counted = omega (arith, h.counted, more.0);
        weighed = omega (arith, h.weighed, more.1);
        size = length-set_part i b os ∙ size;
      }

  store_part-Next :
      (i : ℕ) (b : Bytes) (os : List (Option Bytes)) (c : Counters) (s : Session)
      (h : IsPartial p bs id deadline old os c s)
      → get i bs ≡ some b
      → i < length bs
      → get_part i os ≡ none
      → Next i os (store_part pick now id i b h.fragments (c, s))
  unfolding store_part
  store_part-Next i b os c s h chunk below missing =
      let a = h.fragments in
      let os' = set_part i b os in
      let x = stored i b os c s h chunk below missing in
      elim (Bool-cases (a.count + 1 == length os')) [
        | inr some_miss ↦
            let b' : Fragments = record a {
              parts = os';
              count = a.count + 1;
              bytes = a.bytes + length b;
            } in
            rw (store_part, x.parts, some_miss)
              (inl (record {
                parts = os';
                partial = record {
                  room = Room-parts c s c.reassembly (insert id b' s.parts) h.room;
                  fragments = b';
                  found = rw (lookup-insert id id b' s.parts, ==_refl id) refl;
                  holds = refl;
                  total = h.total;
                  counted = x.counted;
                  weighed = x.weighed;
                  agree = x.agree;
                  missing = ground (arith, some_miss, x.counted, arrived-le os');
                  lives = h.lives;
                };
                has = set_part-new i b os (omega (arith, length-Agree os bs h.agree, below));
                keeps = λ j. set_part-Has i j b os;
              }))
        | inl all_there ↦
            let full : arrived os' ≡ length os' = ground (arith, all_there, x.counted) in
            let done = join_parts-Agree os' bs x.agree full in
            let exact : (a.bytes + length b == a.total) ≡ true =
              ground (arith, x.weighed, done.1, ap length whole, h.total) in
            rw (store_part, x.parts, all_there, exact, done.0, whole)
              (inr (
                deliver-IsDone (record c { reassembly = c.reassembly - a.total })
                  (record s { parts = erase id s.parts })
                  (Room-parts c s (c.reassembly - a.total) (erase id s.parts) h.room)))
      ]

  pub add_part-Next :
      (i : ℕ) (b : Bytes) (os : List (Option Bytes)) (c : Counters) (s : Session)
      (h : IsPartial p bs id deadline old os c s)
      → get i bs ≡ some b
      → i < length bs
      → Next i os (add_part pick now id (length p) i (length bs) b h.fragments (c, s))
  unfolding add_part
  add_part-Next i b os c s h chunk below =
      let a = h.fragments in
      let same_total : (a.total == length p) ≡ true = ground (arith, h.total) in
      let same_count : (length a.parts == length bs) ≡ true =
        ground (arith, ap length h.holds, length-Agree os bs h.agree) in
      elim (get_part-Agree i b os bs h.agree chunk) [
        | inr there ↦
            rw (add_part, same_total, same_count, h.holds, there, equal_bytes_refl b)
              (inl (record { parts = os; partial = h; has = (b, there); keeps = λ j y. y }))
        | inl missing ↦
            let x = stored i b os c s h chunk below missing in
            let fits : ltb a.total (a.bytes + length b) ≡ false = ground (
              arith,
              x.weighed,
              arrived_bytes-le (set_part i b os) bs x.agree,
              ap length whole,
              h.total,
            ) in
            rw (add_part, same_total, same_count, h.holds, missing, fits)
              (store_part-Next i b os c s h chunk below missing)
      ]
