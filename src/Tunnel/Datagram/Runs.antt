-- ===== src/Tunnel/Datagram/Runs.antt =====
-- Sequences of frames of one packet of internal/tunnel/datagram.go.
use traffic_forwarding_panel.Prelude.{
  ℕ, ◌+◌, ◌≤◌, ◌<◌, ◌≡◌, sym, ◌⊎◌, inl, inr, true, false, Bool-cases, Option, List, [], ◌∷◌, ◌++◌,
  length, map, any, All, true_ne_false, ◌==◌, arith,
}
use traffic_forwarding_panel.Prelude.Assoc.{Assoc}
use traffic_forwarding_panel.Prelude.Bytes.{Bytes}
use traffic_forwarding_panel.Tunnel.Datagram.{State, fragment_ttl, accept, no_parts}
use traffic_forwarding_panel.Tunnel.Datagram.Chunks.{concat}
use traffic_forwarding_panel.Tunnel.Datagram.Parts.{Has, arrived_all, length-Agree}
use traffic_forwarding_panel.Tunnel.Datagram.Phases.{IsFresh, IsPartial, IsDone}
use traffic_forwarding_panel.Tunnel.Datagram.Accept.{
  Carries, accept-IsFresh, accept-IsPartial, accept-IsDone,
}

-- The frames that come, each with its time.
unfoldable pub receive_all : (Assoc ℕ → ℕ) → List (ℕ × Bytes) → State → State
receive_all pick [] st = st
receive_all pick ((now, f) ∷ fs) st = receive_all pick fs (accept pick now f st)

module _ (pick : Assoc ℕ → ℕ) (p : Bytes) (bs : List Bytes) (id start : ℕ) (old : List Bytes)
    (whole : concat bs ≡ p) (frame : ℕ → Bytes)
    (carries : (i : ℕ) → i < length bs → Carries p bs id i (frame i)) where
  abbrev due : ℕ
  due = start + fragment_ttl

  abbrev Timely : ℕ × ℕ → Type 0
  Timely a = (start ≤ a.0) × ((a.0 < start + fragment_ttl) × (a.1 < length bs))

  abbrev sent_frames : List (ℕ × ℕ) → List (ℕ × Bytes)
  sent_frames arrivals = map (λ a. (a.0, frame a.1)) arrivals

  run-IsDone :
      (arrivals : List (ℕ × ℕ)) (st : State)
      → All Timely arrivals
      → IsDone p bs id due old st.0 st.1
      → let end = receive_all pick (sent_frames arrivals) st in IsDone p bs id due old end.0 end.1
  unfolding receive_all
  run-IsDone [] st times h = h
  run-IsDone ((now, i) ∷ arrivals) st times h =
      let t = times.0 in
      run-IsDone arrivals (accept pick now (frame i) st) times.1 (
        accept-IsDone pick p bs id due old whole now (omega (arith, t.0)) i (frame i)
          (carries i t.1.1) t.1.0 st.0 st.1 h)

  -- What comes of the arrivals: the packet, or parts that hold each of them.
  record Held (arrivals : List (ℕ × ℕ)) (os : List (Option Bytes)) (st : State) : Type 0 where
    parts : List (Option Bytes)
    partial : IsPartial p bs id due old parts st.0 st.1
    keeps : (j : ℕ) → Has j os → Has j parts
    came : All (λ a. Has a.1 parts) arrivals

  abbrev Ran : List (ℕ × ℕ) → List (Option Bytes) → State → Type 0
  Ran arrivals os st = Held arrivals os st ⊎ IsDone p bs id due old st.0 st.1

  module _ (more : (length bs == 1) ≡ false) where
    run-IsPartial :
        (arrivals : List (ℕ × ℕ)) (os : List (Option Bytes)) (st : State)
        → All Timely arrivals
        → IsPartial p bs id due old os st.0 st.1
        → Ran arrivals os (receive_all pick (sent_frames arrivals) st)
    unfolding receive_all
    run-IsPartial [] os st times h =
        inl (record { parts = os; partial = h; keeps = λ j y. y; came = tt })
    run-IsPartial ((now, i) ∷ arrivals) os st times h =
        let t = times.0 in
        let st' = accept pick now (frame i) st in
        elim (accept-IsPartial pick p bs id due old whole now (omega (arith, t.0)) i (frame i)
          (carries i t.1.1) t.1.0 os st.0 st.1 more h) [
            | inr done ↦ inr (run-IsDone arrivals st' times.1 done)
            | inl x ↦ elim (run-IsPartial arrivals x.parts st' times.1 x.partial) [
              | inr done ↦ inr done
              | inl y ↦ inl (record {
                parts = y.parts;
                partial = y.partial;
                keeps = λ j g. y.keeps j (x.keeps j g);
                came = (y.keeps i x.has, y.came);
              })
            ]
          ]

  -- A part that came and was not enough is not the only one.
  not_single :
      (i : ℕ) (os : List (Option Bytes)) (st : State)
      → i < length bs
      → IsPartial p bs id due old os st.0 st.1
      → Has i os
      → (length bs == 1) ≡ false
  not_single i os st below h has = elim (Bool-cases (length bs == 1)) [
    | inr more ↦ more
    | inl one ↦
        let size = length-Agree os bs h.agree in
        let only : length os ≡ 1 = ground (arith, one, size) in
        let all_there =
          arrived_all os
            (λ j l. let at : i ≡ j = omega (arith, l, below, only, size) in rw at at has) in
        absurd (omega (arith, all_there, h.missing))
  ]

  run-IsFresh :
      (arrivals : List (ℕ × ℕ)) (now i : ℕ) (st : State)
      → All Timely ((now, i) ∷ arrivals)
      → IsFresh p bs id due old st.0 st.1
      → Ran
          ((now, i) ∷ arrivals)
          (no_parts (length bs))
          (receive_all pick (sent_frames ((now, i) ∷ arrivals)) st)
  unfolding receive_all
  run-IsFresh arrivals now i st times h =
      let t = times.0 in
      let st' = accept pick now (frame i) st in
      elim (accept-IsFresh pick p bs id due old whole now (omega (arith, t.0)) i (frame i)
        (carries i t.1.1) t.1.0 st.0 st.1 h) [
          | inr done ↦ inr (run-IsDone arrivals st' times.1 done)
          | inl x ↦
              elim (run-IsPartial (not_single i x.parts st' t.1.1 x.partial x.has) arrivals x.parts
                st' times.1 x.partial) [
                  | inr done ↦ inr done
                  | inl y ↦ inl (record {
                    parts = y.parts;
                    partial = y.partial;
                    keeps = λ j g. y.keeps j (x.keeps j g);
                    came = (y.keeps i x.has, y.came);
                  })
                ]
        ]

  came-Has :
      (i : ℕ) (os : List (Option Bytes)) (arrivals : List (ℕ × ℕ))
      → All (λ a. Has a.1 os) arrivals
      → any (λ a. a.1 == i) arrivals ≡ true
      → Has i os
  unfolding any
  came-Has i os [] h e = absurd (true_ne_false (sym e))
  came-Has i os (a ∷ arrivals) h e = elim (Bool-cases (a.1 == i)) [
    | inl same ↦ let at : a.1 ≡ i = ground (arith, same) in rw at at h.0
    | inr ne ↦ came-Has i os arrivals h.1 (rw ne at e)
  ]

  -- Where all have come, the packet has.
  pub run_delivers :
      (arrivals : List (ℕ × ℕ)) (st : State)
      → 0 < length bs
      → All Timely arrivals
      → ((i : ℕ) → i < length bs → any (λ a. a.1 == i) arrivals ≡ true)
      → IsFresh p bs id due old st.0 st.1
      → (receive_all pick (sent_frames arrivals) st).1.inbox ≡ old ++ (p ∷ [])
  run_delivers [] st some_chunk times covers h =
      absurd (true_ne_false (sym (unfold any in (covers 0 some_chunk))))
  run_delivers ((now, i) ∷ arrivals) st some_chunk times covers h =
      elim (run-IsFresh arrivals now i st times h) [
        | inr done ↦ done.queue
        | inl x ↦
            let size = length-Agree x.parts bs x.partial.agree in
            let all_there = arrived_all x.parts (λ j below.
              came-Has j x.parts ((now, i) ∷ arrivals) x.came
                (covers j (omega (arith, below, size)))) in
            absurd (omega (arith, all_there, x.partial.missing))
      ]
