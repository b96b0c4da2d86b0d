-- ===== src/Tunnel/Datagram/Examples.antt =====
-- A packet of two frames, and a link that takes one.
use traffic_forwarding_panel.Prelude.{
  ℕ, zero, suc, ◌^◌, ◌<◌, ◌≡◌, refl, true, some, List, [], ◌∷◌, ◌++◌, map, any, ◌==◌, ==_refl,
  arith,
}
use traffic_forwarding_panel.Prelude.Assoc.{Assoc}
use traffic_forwarding_panel.Prelude.Bytes.{Bytes}
use traffic_forwarding_panel.Tunnel.Datagram.{Counters}
use traffic_forwarding_panel.Tunnel.Datagram.Sender.{
  Sender, Reply, sent, too_large, count_of, frame_at, send_frames, send_packet,
}
use traffic_forwarding_panel.Tunnel.Datagram.Link.{Link, new_link, new_session, add, receive, close}
use traffic_forwarding_panel.Tunnel.Datagram.Memory.{IsPick}
use traffic_forwarding_panel.Tunnel.Datagram.Runs.{receive_all}
use traffic_forwarding_panel.Tunnel.Datagram.Once.{delivered_once}
use traffic_forwarding_panel.Tunnel.Datagram.Flows.{IsWithin}
use traffic_forwarding_panel.Tunnel.Datagram.Budget.{
  start, call, added, received_frame, closed_flow, Reaches-IsWithin,
}
use traffic_forwarding_panel.Tunnel.Datagram.Sent.{IsSent, send_packet-IsSent}

abbrev first_key : Assoc ℕ → ℕ
first_key [] = 0
first_key (e ∷ m) = e.0

first_key-IsPick : IsPick first_key
first_key-IsPick [] h = absurd (omega arith)
first_key-IsPick (e ∷ m) h = (e.1, rw (==_refl e.0) refl)

abbrev bytes : ℕ → Bytes
bytes zero = []
bytes (suc n) = 7 ∷ bytes n

abbrev packet : Bytes
packet = bytes 600

two_frames : count_of 512 packet ≡ 2
unfolding count_of
two_frames = refl

abbrev idle : Counters
idle = record { reassembly = 0; received = 0; drops = 0 }

-- The second frame comes first, and twice.
abbrev arrivals : List (ℕ × ℕ)
arrivals = (10, 1) ∷ (11, 1) ∷ (12, 0) ∷ []

both_come : (i : ℕ) → i < 2 → any (λ a. a.1 == i) arrivals ≡ true
unfolding any
both_come zero h = refl
both_come (suc zero) h = refl
both_come (suc (suc i)) h = absurd (omega arith)

delivered_once_example :
    (receive_all first_key
      (map (λ a. (a.0, frame_at 3 9 packet 512 (count_of 512 packet) a.1)) arrivals)
      (idle, new_session)).1.inbox
    ≡ [] ++ (packet ∷ [])
delivered_once_example =
    delivered_once first_key 3 9 512 10 packet idle new_session arrivals (omega arith) (omega arith)
      (omega arith) refl refl refl (omega arith) (omega arith) (omega arith) (omega arith)
      (
        (omega arith, (omega arith, omega (arith, two_frames))),
        (
          (omega arith, (omega arith, omega (arith, two_frames))),
          ((omega arith, (omega arith, omega (arith, two_frames))), tt),
        ),
      )
      (λ i below. both_come i (omega (arith, below, two_frames)))

abbrev small_packet : Bytes
small_packet = 4 ∷ 5 ∷ []

abbrev one_flow : Link
one_flow = record new_link { flows = (3, new_session) ∷ [] }

opens : add 3 new_link ≡ some one_flow
unfolding add
opens = refl

Reaches-IsWithin_example :
    IsWithin (close 3 (receive first_key 10 (frame_at 3 9 small_packet 512 1 0) one_flow))
Reaches-IsWithin_example =
    Reaches-IsWithin first_key
      (close 3 (receive first_key 10 (frame_at 3 9 small_packet 512 1 0) one_flow)) first_key-IsPick
      (call
        (call (call start (added 3 opens)) (received_frame 10 (frame_at 3 9 small_packet 512 1 0)))
        (closed_flow 3))

-- The carrier refuses the size of the first attempt.
abbrev carrier : ℕ → ℕ → Reply
carrier (suc attempts) i = too_large 1000
carrier zero i = sent

abbrev sender : Sender
sender = record { packet_size = 1240; sequence = 41 }

send_packet-IsSent_example :
    ((send_packet carrier 3 small_packet 2 sender).1.1.sequence < 2 ^ 64)
    × IsSent 3
        (send_packet carrier 3 small_packet 2 sender).1.1.sequence
        small_packet
        (send_packet carrier 3 small_packet 2 sender).0
unfolding send_packet send_frames count_of
send_packet-IsSent_example = send_packet-IsSent carrier 3 small_packet 2 sender refl
