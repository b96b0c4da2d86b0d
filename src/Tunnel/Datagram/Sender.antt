-- ===== src/Tunnel/Datagram/Sender.antt =====
-- `sendPacket` of internal/tunnel/datagram.go, which cuts a packet into frames.
use traffic_forwarding_panel.Prelude.{
  true, false, ℕ, zero, suc, ◌+◌, ◌-◌, ◌*◌, ◌/◌, ◌%◌, ◌^◌, min, max, List, [], ◌∷◌, ◌++◌, length,
  ltb, if◌then◌else◌,
}
use traffic_forwarding_panel.Prelude.Bytes.{Bytes, put_uint32, put_uint64, take, drop}
use traffic_forwarding_panel.Tunnel.Datagram.{datagram_header, put_uint16}

-- `p[start:end]`
abbrev pub slice : ℕ → ℕ → Bytes → Bytes
slice start end p = take (end - start) (drop start p)

-- `max(1, (len(p)+chunk-1)/chunk)`; a chunk has at least 512 bytes
unfoldable pub count_of : ℕ → Bytes → ℕ
count_of zero p = 1
count_of (suc k) p = max 1 ((length p + k) / suc k)

unfoldable pub frame_at : ℕ → ℕ → Bytes → ℕ → ℕ → ℕ → Bytes
frame_at flow id p chunk count i =
    1
    ∷ (put_uint64 flow
        ++ (put_uint64 id
            ++ (put_uint32 (length p)
                ++ (put_uint16 i
                    ++ (put_uint16 count
                        ++ slice (i * chunk) (min (length p) ((i + 1) * chunk)) p)))))

-- What `SendDatagram` of the carrier says to a frame: `too_large` is a `DatagramTooLargeError`, with
-- the size that it names.
pub data Reply : Type 0 where
  sent failed : Reply
  too_large : ℕ → Reply

-- What becomes of the frames of one attempt.
pub data Attempt : Type 0 where
  complete refused : Attempt
  shrunk : ℕ → Attempt

-- What `sendPacket` returns.
pub data Outcome : Type 0 where
  accepted mtu_too_small mtu_changed send_failed : Outcome

-- The state of a sender: the packet size of the link and the sequence of the session.
pub record Sender : Type 0 where
  pub packet_size : ℕ
  pub sequence : ℕ

-- The loop over the frames from `i` on; the frames that the carrier took, and how it ended.
unfoldable pub send_frames : (ℕ → Reply) → (ℕ → Bytes) → ℕ → ℕ → List Bytes × Attempt
send_frames carrier frame i zero = ([], complete)
send_frames carrier frame i (suc left) =
    let (later, end) = send_frames carrier frame (i + 1) left in
    elim (carrier i) [
      | sent ↦ (frame i ∷ later, end)
      | failed ↦ ([], refused)
      | too_large size ↦ ([], if ltb (datagram_header + 512) size then shrunk size else refused)
    ]

-- The loop over the attempts, of which the code makes two; `carrier` answers by the
-- attempts that are left and the frame.
unfoldable pub send_packet :
    (ℕ → ℕ → Reply) → ℕ → Bytes → ℕ → Sender → List Bytes × (Outcome × Sender)
send_packet carrier flow p zero s = ([], (mtu_changed, s))
send_packet carrier flow p (suc attempts) s =
    let chunk = s.packet_size - datagram_header in
    let id = (s.sequence + 1) % 2 ^ 64 in
    let count = count_of chunk p in
    let s' = record s { sequence = id } in
    let (frames, end) = send_frames (carrier attempts) (frame_at flow id p chunk count) 0 count in
    elim (ltb chunk 512) [
      | true ↦ ([], (mtu_too_small, s))
      | false ↦ elim end [
        | complete ↦ (frames, (accepted, s'))
        | refused ↦ (frames, (send_failed, s'))
        | shrunk size ↦
            let (later, r) =
              send_packet carrier flow p attempts (record s' { packet_size = size }) in
            (frames ++ later, r)
      ]
    ]
