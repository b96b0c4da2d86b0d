-- ===== src/Tunnel/Datagram/Frames.antt =====
-- What a frame of `sendPacket` says to `accept`, in internal/tunnel/datagram.go.
use traffic_forwarding_panel.Prelude.{
  ℕ, ◌+◌, ◌*◌, ◌^◌, ◌<◌, min, ◌≡◌, refl, [], ◌++◌, length, arith,
}
use traffic_forwarding_panel.Prelude.Bytes.{Bytes, uint32-put_uint32, uint64-put_uint64}
use traffic_forwarding_panel.Tunnel.Datagram.{
  put_uint16, uint16, frame_id, frame_total, frame_index, frame_count, frame_payload,
}
use traffic_forwarding_panel.Tunnel.Datagram.Sender.{slice, frame_at}

uint16-put_uint16 : (v : ℕ) (r : Bytes) → v < 2 ^ 16 → uint16 (put_uint16 v ++ r) ≡ v
uint16-put_uint16 v r h = omega arith

module _ (flow id : ℕ) (p : Bytes) (chunk count i : ℕ) where
  pub frame_id-frame_at : id < 2 ^ 64 → frame_id (frame_at flow id p chunk count i) ≡ id
  unfolding frame_at
  frame_id-frame_at h = uint64-put_uint64 id [] h

  pub frame_total-frame_at :
      length p < 2 ^ 32 → frame_total (frame_at flow id p chunk count i) ≡ length p
  unfolding frame_at
  frame_total-frame_at h = uint32-put_uint32 (length p) [] h

  pub frame_index-frame_at : i < 2 ^ 16 → frame_index (frame_at flow id p chunk count i) ≡ i
  unfolding frame_at
  frame_index-frame_at h = uint16-put_uint16 i [] h

  pub frame_count-frame_at : count < 2 ^ 16 → frame_count (frame_at flow id p chunk count i) ≡ count
  unfolding frame_at
  frame_count-frame_at h = uint16-put_uint16 count [] h

  pub frame_payload-frame_at :
      frame_payload (frame_at flow id p chunk count i)
      ≡ slice (i * chunk) (min (length p) ((i + 1) * chunk)) p
  unfolding frame_at
  frame_payload-frame_at = refl
