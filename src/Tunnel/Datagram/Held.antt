-- ===== src/Tunnel/Datagram/Held.antt =====
-- `accept` of internal/tunnel/datagram.go keeps the counters in step with what the session holds.
use traffic_forwarding_panel.Prelude.{
  ℕ, ◌+◌, ◌-◌, ◌≡◌, refl, inl, inr, Bool, true, false, Bool-cases, not, ◌||◌, Option, none, some,
  Option-cases, length, ltb, leb, ◌==◌, ==_refl, arith, if◌then◌else◌,
}
use traffic_forwarding_panel.Prelude.Assoc.{
  Assoc, lookup, insert, erase, lookup-insert, total_by-insert, total_by-insert_new, total_by-erase,
  length-insert, length-insert_new,
}
use traffic_forwarding_panel.Prelude.Bytes.{Bytes, equal_bytes}
use traffic_forwarding_panel.Tunnel.Datagram.{
  Fragments, State, max_datagram_memory, fragment_ttl, drop_frame, expire, store_part, add_part,
  assemble, accept_fresh, accept, get_part, set_part, no_parts, join_parts, is_malformed, frame_id,
  frame_total, frame_index, frame_count, frame_payload,
}
use traffic_forwarding_panel.Tunnel.Datagram.Memory.{
  assembling, queued, IsHeld, IsPick, length-erase-le, drop_frame-IsHeld, expire-IsHeld,
  deliver-IsHeld,
}

module _ (r q : ℕ) where
  module _ (pick : Assoc ℕ → ℕ) (law : IsPick pick) where
    store_part-IsHeld :
        (now id index : ℕ) (payload : Bytes) (a : Fragments) (st : State)
        → lookup id st.1.parts ≡ some a
        → IsHeld r q st
        → IsHeld r q (store_part pick now id index payload a st)
    unfolding store_part assembling queued
    store_part-IsHeld now id index payload a (c, s) there h =
        let b : Fragments = record a {
          parts = set_part index payload a.parts;
          count = a.count + 1;
          bytes = a.bytes + length payload;
        } in
        let gone = total_by-erase (λ (x : Fragments). x.total) id a s.parts there in
        let st' : State = (
          record c { reassembly = c.reassembly - a.total },
          record s { parts = erase id s.parts },
        ) in
        let freed : IsHeld r q st' = record {
          reassembly = omega (arith, h.reassembly, gone);
          received = h.received;
          assembly_limit = omega (arith, h.assembly_limit);
          queue_limit = h.queue_limit;
          bounded = record {
            parts = omega (arith, length-erase-le id s.parts, h.bounded.parts);
            inbox = h.bounded.inbox;
            seen = h.bounded.seen;
          };
        } in
        elim (Bool-cases (a.count + 1 == length b.parts)) [
          | inr some_miss ↦
              rw (store_part, some_miss)
                (record {
                  reassembly = omega (
                    arith,
                    h.reassembly,
                    total_by-insert (λ (x : Fragments). x.total) id a b s.parts there,
                  );
                  received = h.received;
                  assembly_limit = h.assembly_limit;
                  queue_limit = h.queue_limit;
                  bounded = record {
                    parts = omega (arith, length-insert id b a s.parts there, h.bounded.parts);
                    inbox = h.bounded.inbox;
                    seen = h.bounded.seen;
                  };
                })
          | inl all_there ↦ elim (Bool-cases (a.bytes + length payload == a.total)) [
            | inl exact ↦
                rw (store_part, all_there, exact)
                  (deliver-IsHeld r q pick law now id (join_parts b.parts) st' freed)
            | inr short ↦ rw (store_part, all_there, short) (drop_frame-IsHeld r q st' freed)
          ]
        ]

    add_part-IsHeld :
        (now id total index count : ℕ) (payload : Bytes) (a : Fragments) (st : State)
        → lookup id st.1.parts ≡ some a
        → IsHeld r q st
        → IsHeld r q (add_part pick now id total index count payload a st)
    unfolding add_part
    add_part-IsHeld now id total index count payload a st there h =
        elim (Bool-cases (not (a.total == total) || not (length a.parts == count))) [
          | inl other ↦ rw (add_part, other) (drop_frame-IsHeld r q st h)
          | inr same ↦ elim (Option-cases (get_part index a.parts)) [
            | inr (old, had) ↦ elim (Bool-cases (equal_bytes old payload)) [
              | inl again ↦ rw (add_part, same, had, again) h
              | inr differs ↦ rw (add_part, same, had, differs) (drop_frame-IsHeld r q st h)
            ]
            | inl missing ↦ elim (Bool-cases (ltb a.total (a.bytes + length payload))) [
              | inl over ↦ rw (add_part, same, missing, over) (drop_frame-IsHeld r q st h)
              | inr fits ↦
                  rw (add_part, same, missing, fits)
                    (store_part-IsHeld now id index payload a st there h)
            ]
          ]
        ]

    assemble-IsHeld :
        (now id total index count : ℕ) (payload : Bytes) (st : State)
        → IsHeld r q st
        → IsHeld r q (assemble pick now id total index count payload st)
    unfolding assemble assembling queued
    assemble-IsHeld now id total index count payload (c, s) h =
        elim (Option-cases (lookup id s.parts)) [
          | inr (a, there) ↦
              rw (assemble, there)
                (add_part-IsHeld now id total index count payload a (c, s) there h)
          | inl absent ↦ elim (Bool-cases (leb 4 (length s.parts))) [
            | inl full ↦ rw (assemble, absent, full) (drop_frame-IsHeld r q (c, s) h)
            | inr few ↦ elim (Bool-cases (ltb max_datagram_memory (c.reassembly + total))) [
              | inl over ↦ rw (assemble, absent, few, over) (drop_frame-IsHeld r q (c, s) h)
              | inr fits ↦
                  let a : Fragments = record {
                    total = total;
                    parts = no_parts count;
                    count = 0;
                    bytes = 0;
                    expires = now + fragment_ttl;
                  } in
                  rw (assemble, absent, few, fits)
                    (add_part-IsHeld now id total index count payload a
                      (
                        record c { reassembly = c.reassembly + total },
                        record s { parts = insert id a s.parts },
                      )
                      (rw (lookup-insert id id a s.parts, ==_refl id) refl)
                      (record {
                        reassembly = omega (
                          arith,
                          h.reassembly,
                          total_by-insert_new (λ (x : Fragments). x.total) id a s.parts absent,
                        );
                        received = h.received;
                        assembly_limit = ground (arith, fits);
                        queue_limit = h.queue_limit;
                        bounded = record {
                          parts = ground (arith, few, length-insert_new id a s.parts absent);
                          inbox = h.bounded.inbox;
                          seen = h.bounded.seen;
                        };
                      }))
            ]
          ]
        ]

    accept_fresh-IsHeld :
        (now : ℕ) (f : Bytes) (st : State) → IsHeld r q st → IsHeld r q (accept_fresh pick now f st)
    unfolding accept_fresh
    accept_fresh-IsHeld now f st h = elim (Bool-cases (frame_count f == 1)) [
      | inr several ↦
          rw (accept_fresh, several)
            (assemble-IsHeld now (frame_id f) (frame_total f) (frame_index f) (frame_count f)
              (frame_payload f) st h)
      | inl one ↦ elim (Bool-cases (length (frame_payload f) == frame_total f)) [
        | inl exact ↦
            rw (accept_fresh, one, exact)
              (deliver-IsHeld r q pick law now (frame_id f) (frame_payload f) st h)
        | inr short ↦ rw (accept_fresh, one, short) (drop_frame-IsHeld r q st h)
      ]
    ]

    -- A choice between two states that are held.
    either-IsHeld :
        (test : Bool) (x y : State)
        → IsHeld r q x
        → IsHeld r q y
        → IsHeld r q (if test then x else y)
    either-IsHeld true x y h k = h
    either-IsHeld false x y h k = k

    known-IsHeld :
        (o : Option ℕ) (x y : State)
        → IsHeld r q x
        → IsHeld r q y
        → IsHeld r q (elim o [ some _ ↦ x | none ↦ y ])
    known-IsHeld none x y h k = k
    known-IsHeld (some v) x y h k = h

    pub accept-IsHeld :
        (now : ℕ) (f : Bytes) (st : State) → IsHeld r q st → IsHeld r q (accept pick now f st)
    unfolding accept
    accept-IsHeld now f (c, s) h =
        let st = expire now (c, s) in
        let kept = expire-IsHeld r q now (c, s) h in
        either-IsHeld
          (is_malformed (frame_total f) (frame_index f) (frame_count f) (frame_payload f))
          (drop_frame (c, s)) _ (drop_frame-IsHeld r q (c, s) h)
          (either-IsHeld s.closed (c, s) _ h
            (known-IsHeld (lookup (frame_id f) st.1.seen) st (accept_fresh pick now f st) kept
              (accept_fresh-IsHeld now f st kept)))
