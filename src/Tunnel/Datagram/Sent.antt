-- ===== src/Tunnel/Datagram/Sent.antt =====
-- What `sendPacket` of internal/tunnel/datagram.go has sent where it returns no error.
use traffic_forwarding_panel.Prelude.{
  ℕ, zero, suc, ◌+◌, ◌-◌, ◌%◌, ◌^◌, ◌≤◌, ◌<◌, ◌≡◌, refl, sym, ◌∙◌, ap, ◌⊎◌, inl, inr, true, false,
  Bool-cases, List, [], ◌∷◌, ◌++◌, true_ne_false, ltb, arith,
}
use mathlib.Core.List.{append_assoc}
use traffic_forwarding_panel.Prelude.Bytes.{Bytes}
use traffic_forwarding_panel.Tunnel.Datagram.{datagram_header}
use traffic_forwarding_panel.Tunnel.Datagram.Sender.{
  Reply, sent, failed, too_large, Attempt, complete, refused, shrunk, Outcome, accepted,
  mtu_too_small, send_failed, Sender, count_of, frame_at, send_frames, send_packet,
}

-- `n` frames from `i` on.
unfoldable pub frames_from : (ℕ → Bytes) → ℕ → ℕ → List Bytes
frames_from frame i zero = []
frames_from frame i (suc n) = frame i ∷ frames_from frame (i + 1) n

refused_ne : Path Attempt refused complete → true ≡ false
refused_ne e = cc

shrunk_ne : (m : ℕ) → Path Attempt (shrunk m) complete → true ≡ false
shrunk_ne m e = cc

Reply-cases : (r : Reply) → (r ≡ sent) ⊎ ((r ≡ failed) ⊎ ((m : ℕ) × (r ≡ too_large m)))
Reply-cases sent = inl refl
Reply-cases failed = inr (inl refl)
Reply-cases (too_large m) = inr (inr (m, refl))

Attempt-cases : (a : Attempt) → (a ≡ complete) ⊎ ((a ≡ refused) ⊎ ((m : ℕ) × (a ≡ shrunk m)))
Attempt-cases complete = inl refl
Attempt-cases refused = inr (inl refl)
Attempt-cases (shrunk m) = inr (inr (m, refl))

-- A loop that completes has sent each frame.
send_frames-complete :
    (carrier : ℕ → Reply) (frame : ℕ → Bytes) (i n : ℕ)
    → (send_frames carrier frame i n).1 ≡ complete
    → (send_frames carrier frame i n).0 ≡ frames_from frame i n
unfolding send_frames frames_from
send_frames-complete carrier frame i zero e = refl
send_frames-complete carrier frame i (suc n) e = elim (Reply-cases (carrier i)) [
  | inl took ↦
      rw (send_frames, took)
        (ap (λ fs. frame i ∷ fs)
          (send_frames-complete carrier frame (i + 1) n (rw (send_frames, took) at e)))
  | inr (inl lost) ↦ absurd (true_ne_false (refused_ne (rw (send_frames, lost) at e)))
  | inr (inr (m, large)) ↦ elim (Bool-cases (ltb (datagram_header + 512) m)) [
    | inl smaller ↦ absurd (true_ne_false (shrunk_ne m (rw (send_frames, large, smaller) at e)))
    | inr tiny ↦ absurd (true_ne_false (refused_ne (rw (send_frames, large, tiny) at e)))
  ]
]

-- The frames of the packet, cut into chunks of at least 512 bytes, behind those of earlier attempts.
pub record IsSent (flow id : ℕ) (p : Bytes) (frames : List Bytes) : Type 0 where
  pub earlier : List Bytes
  pub chunk : ℕ
  pub big : 512 ≤ chunk
  pub all_sent :
      frames
      ≡ earlier ++ frames_from (frame_at flow id p chunk (count_of chunk p)) 0 (count_of chunk p)

module _ (carrier : ℕ → ℕ → Reply) (flow : ℕ) (p : Bytes) where
  small_ne : Path Outcome mtu_too_small accepted → true ≡ false
  small_ne e = cc

  failed_ne : Path Outcome send_failed accepted → true ≡ false
  failed_ne e = cc

  -- Where `sendPacket` returns no error after any answers of the carrier, the carrier has taken, behind
  -- frames of earlier attempts, every frame of the packet in order, cut into chunks of one size of at
  -- least 512 bytes, under the identifier that the session's sequence now is, which fits 64 bits.
  pub send_packet-IsSent :
      (attempts : ℕ) (s : Sender)
      → (send_packet carrier flow p attempts s).1.0 ≡ accepted
      → ((send_packet carrier flow p attempts s).1.1.sequence < 2 ^ 64)
        × IsSent flow
            (send_packet carrier flow p attempts s).1.1.sequence
            p
            (send_packet carrier flow p attempts s).0
  unfolding send_packet
  send_packet-IsSent zero s e = cc
  send_packet-IsSent (suc attempts) s e =
      let chunk = s.packet_size - datagram_header in
      let id = (s.sequence + 1) % 2 ^ 64 in
      let count = count_of chunk p in
      let sent_now = send_frames (carrier attempts) (frame_at flow id p chunk count) 0 count in
      elim (Bool-cases (ltb chunk 512)) [
        | inl small ↦ absurd (true_ne_false (small_ne (rw (send_packet, small) at e)))
        | inr big ↦ elim (Attempt-cases sent_now.1) [
          | inl done ↦
              rw (send_packet, big, done)
                (
                  omega arith,
                  record {
                    earlier = [];
                    chunk = chunk;
                    big = ground (arith, big);
                    all_sent =
                        send_frames-complete (carrier attempts) (frame_at flow id p chunk count) 0
                          count done;
                  },
                )
          | inr (inl lost) ↦ absurd (true_ne_false (failed_ne (rw (send_packet, big, lost) at e)))
          | inr (inr (m, less)) ↦
              let s' : Sender = record { packet_size = m; sequence = id } in
              let ih = send_packet-IsSent attempts s' (rw (send_packet, big, less) at e) in
              rw (send_packet, big, less)
                (
                  ih.0,
                  record {
                    earlier = sent_now.0 ++ ih.1.earlier;
                    chunk = ih.1.chunk;
                    big = ih.1.big;
                    all_sent =
                        ap (λ fs. sent_now.0 ++ fs) ih.1.all_sent
                        ∙ sym (
                            append_assoc sent_now.0 ih.1.earlier (
                              frames_from
                                (frame_at flow (send_packet carrier flow p attempts s').1.1.sequence
                                  p ih.1.chunk (count_of ih.1.chunk p))
                                0 (count_of ih.1.chunk p)));
                  },
                )
        ]
      ]
