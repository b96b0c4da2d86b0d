-- ===== src/Tunnel/Datagram/Accept.antt =====
-- `accept` of internal/tunnel/datagram.go on a frame, in each phase of its packet.
use traffic_forwarding_panel.Prelude.{
  ℕ, zero, suc, ◌+◌, ◌≤◌, ◌<◌, ◌≡◌, refl, sym, ◌∙◌, ap, inl, inr, true, false, Bool-cases, Option,
  none, some, some_inj, none_ne, List, [], ◌∷◌, length, ltb, leb, ◌==◌, ==_refl, arith,
}
use mathlib.Core.List.{append-nil}
use traffic_forwarding_panel.Prelude.Assoc.{Assoc, lookup, insert, lookup-insert}
use traffic_forwarding_panel.Prelude.Bytes.{Bytes}
use traffic_forwarding_panel.Tunnel.Datagram.{
  Fragments, Counters, Session, State, max_datagram_memory, fragment_ttl, expire, deliver, assemble,
  accept_fresh, accept, no_parts, frame_id, frame_total, frame_index, frame_count, frame_payload,
  is_malformed,
}
use traffic_forwarding_panel.Tunnel.Datagram.Chunks.{concat, get}
use traffic_forwarding_panel.Tunnel.Datagram.Parts.{
  length-no_parts, no_parts-Agree, arrived-no_parts, arrived_bytes-no_parts,
}
use traffic_forwarding_panel.Tunnel.Datagram.Phases.{
  IsFresh, IsPartial, IsDone, IsFresh-expire, IsPartial-expire, IsDone-expire,
}
use traffic_forwarding_panel.Tunnel.Datagram.Delivery.{
  Next, Room-parts, add_part-Next, deliver-IsDone,
}

-- The frame carries chunk `i` of the packet.
pub record Carries (p : Bytes) (bs : List Bytes) (id i : ℕ) (f : Bytes) : Type 0 where
  pub chunk : Bytes
  pub at : get i bs ≡ some chunk
  pub below : i < length bs
  pub same_id : frame_id f ≡ id
  pub same_total : frame_total f ≡ length p
  pub same_index : frame_index f ≡ i
  pub same_count : frame_count f ≡ length bs
  pub same_payload : frame_payload f ≡ chunk
  pub sound : is_malformed (length p) i (length bs) chunk ≡ false

-- A packet of one chunk is that chunk.
one_chunk :
    (i : ℕ) (b : Bytes) (bs : List Bytes) → length bs ≡ 1 → get i bs ≡ some b → concat bs ≡ b
unfolding get concat
one_chunk i b [] one at = absurd (omega (arith, one))
one_chunk zero b (c ∷ []) one at = append-nil c ∙ some_inj at
one_chunk (suc i) b (c ∷ []) one at = absurd (none_ne at)
one_chunk i b (c ∷ d ∷ bs) one at = absurd (omega (arith, one))

module _ (pick : Assoc ℕ → ℕ) (p : Bytes) (bs : List Bytes) (id deadline : ℕ) (old : List Bytes)
    (whole : concat bs ≡ p) (now : ℕ) (recent : deadline ≤ now + fragment_ttl) where
  abbrev Went : ℕ → List (Option Bytes) → State → Type 0
  Went i os st = Next pick p bs id deadline old whole now recent i os st

  -- The first frame of a packet of several.
  assemble-IsFresh :
      (i : ℕ) (b : Bytes) (c : Counters) (s : Session)
      → IsFresh p bs id deadline old c s
      → get i bs ≡ some b
      → i < length bs
      → Went i (no_parts (length bs)) (assemble pick now id (length p) i (length bs) b (c, s))
  unfolding assemble
  assemble-IsFresh i b c s h at below =
      let few : leb 4 (length s.parts) ≡ false = ground (arith, h.few) in
      let fits : ltb max_datagram_memory (c.reassembly + length p) ≡ false =
        ground (arith, h.buffer) in
      let a : Fragments = record {
        total = length p;
        parts = no_parts (length bs);
        count = 0;
        bytes = 0;
        expires = now + fragment_ttl;
      } in
      rw (assemble, h.absent, few, fits)
        (add_part-Next pick p bs id deadline old whole now recent i b (no_parts (length bs))
          (record c { reassembly = c.reassembly + length p })
          (record s { parts = insert id a s.parts })
          (record {
            room =
                Room-parts pick p bs id deadline old whole now recent c s (c.reassembly + length p)
                  (insert id a s.parts) h.room;
            fragments = a;
            found = rw (lookup-insert id id a s.parts, ==_refl id) refl;
            holds = refl;
            total = refl;
            counted = sym (arrived-no_parts (length bs));
            weighed = sym (arrived_bytes-no_parts (length bs));
            agree = no_parts-Agree bs;
            missing =
                omega (arith, arrived-no_parts (length bs), length-no_parts (length bs), below);
            lives = recent;
          })
          at below)

  assemble-IsPartial :
      (i : ℕ) (b : Bytes) (os : List (Option Bytes)) (c : Counters) (s : Session)
      → IsPartial p bs id deadline old os c s
      → get i bs ≡ some b
      → i < length bs
      → Went i os (assemble pick now id (length p) i (length bs) b (c, s))
  unfolding assemble
  assemble-IsPartial i b os c s h at below =
      rw (assemble, h.found)
        (add_part-Next pick p bs id deadline old whole now recent i b os c s h at below)

  module _ (i : ℕ) (f : Bytes) (g : Carries p bs id i f) (early : now < deadline) where
    -- Behind its tests, `accept` looks for the identifier.
    accept_looks :
        (c : Counters) (s : Session)
        → s.closed ≡ false
        → accept pick now f (c, s) ≡ elim (lookup (frame_id f) (expire now (c, s)).1.seen) [
          | some _ ↦ expire now (c, s)
          | none ↦ accept_fresh pick now f (expire now (c, s))
        ]
    unfolding accept
    accept_looks c s open_session =
        rw (accept, g.same_total, g.same_index, g.same_count, g.same_payload, g.sound, open_session)
          refl

    unseen_looks :
        (c : Counters) (s : Session)
        → s.closed ≡ false
        → lookup id (expire now (c, s)).1.seen ≡ none
        → accept pick now f (c, s) ≡ accept_fresh pick now f (expire now (c, s))
    unseen_looks c s open_session unseen =
        let unknown : lookup (frame_id f) (expire now (c, s)).1.seen ≡ none =
          ap (λ k. lookup k (expire now (c, s)).1.seen) g.same_id ∙ unseen in
        accept_looks c s open_session ∙ rw unknown refl

    pub accept-IsDone :
        (c : Counters) (s : Session)
        → IsDone p bs id deadline old c s
        → let st = accept pick now f (c, s) in IsDone p bs id deadline old st.0 st.1
    accept-IsDone c s h =
        let later = IsDone-expire p bs id deadline old now c s early h in
        let known : lookup (frame_id f) (expire now (c, s)).1.seen ≡ some later.end =
          ap (λ k. lookup k (expire now (c, s)).1.seen) g.same_id ∙ later.had in
        let same : accept pick now f (c, s) ≡ expire now (c, s) =
          accept_looks c s h.open_session ∙ rw known refl in
        rw same later

    -- With several chunks, a frame that is not known goes to the assembly.
    several :
        (st : State)
        → (length bs == 1) ≡ false
        → accept_fresh pick now f st ≡ assemble pick now id (length p) i (length bs) g.chunk st
    unfolding accept_fresh
    several st more =
        rw (accept_fresh, g.same_count, more, g.same_id, g.same_total, g.same_index, g.same_payload)
          refl

    pub accept-IsPartial :
        (os : List (Option Bytes)) (c : Counters) (s : Session)
        → (length bs == 1) ≡ false
        → IsPartial p bs id deadline old os c s
        → Went i os (accept pick now f (c, s))
    accept-IsPartial os c s more h =
        let st = expire now (c, s) in
        let later = IsPartial-expire p bs id deadline old now c s os early h in
        rw (unseen_looks c s h.room.open_session later.room.unseen ∙ several st more)
          (assemble-IsPartial i g.chunk os st.0 st.1 later g.at g.below)

    pub accept-IsFresh :
        (c : Counters) (s : Session)
        → IsFresh p bs id deadline old c s
        → Went i (no_parts (length bs)) (accept pick now f (c, s))
    unfolding accept_fresh
    accept-IsFresh c s h =
        let st = expire now (c, s) in
        let later = IsFresh-expire p bs id deadline old now c s h in
        let looks = unseen_looks c s h.room.open_session later.room.unseen in
        elim (Bool-cases (length bs == 1)) [
          | inr more ↦
              rw (looks ∙ several st more) (assemble-IsFresh i g.chunk st.0 st.1 later g.at g.below)
          | inl one ↦
              let single : length bs ≡ 1 = ground (arith, one) in
              let same : g.chunk ≡ p = sym (one_chunk i g.chunk bs single g.at) ∙ whole in
              let full : (length p == length p) ≡ true = ==_refl (length p) in
              let direct : accept_fresh pick now f st ≡ deliver pick now id p st =
                rw
                  (
                    accept_fresh, g.same_count, one, g.same_payload, same, g.same_total, full,
                    g.same_id,
                  )
                  refl in
              rw (looks ∙ direct) (
                inr
                  (deliver-IsDone pick p bs id deadline old whole now recent st.0 st.1 later.room))
        ]
