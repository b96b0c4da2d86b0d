-- ===== src/Tunnel/Datagram/Once.antt =====
-- The frames of a packet of internal/tunnel/datagram.go, in whatever order they come and however often.
use traffic_forwarding_panel.Prelude.{
  ℕ, zero, suc, ◌+◌, ◌-◌, ◌*◌, ◌/◌, ◌^◌, ◌≤◌, ◌<◌, min, ◌≡◌, refl, sym, ◌∙◌, ap, inl, inr, true,
  false, Bool-cases, ◌&&◌, none, List, [], ◌∷◌, ◌++◌, length, map, any, All, All-weaken, ltb, ◌==◌,
  arith,
}
use native.Mathlib.Nat.{div-add-mod'}
use traffic_forwarding_panel.Prelude.Assoc.{Assoc, lookup}
use traffic_forwarding_panel.Prelude.Bytes.{Bytes, take, drop}
use traffic_forwarding_panel.Tunnel.Datagram.{
  Counters, Session, max_datagram_memory, fragment_ttl, is_malformed,
}
use traffic_forwarding_panel.Tunnel.Datagram.Sender.{count_of, frame_at}
use traffic_forwarding_panel.Tunnel.Datagram.Frames.{
  frame_id-frame_at, frame_total-frame_at, frame_index-frame_at, frame_count-frame_at,
  frame_payload-frame_at,
}
use traffic_forwarding_panel.Tunnel.Datagram.Chunks.{
  chunks, length-drop, length-take-min, length-chunks, concat-chunks, get-chunks, slice_chunk,
  count_enough, count_tight, spread,
}
use traffic_forwarding_panel.Tunnel.Datagram.Accept.{Carries}
use traffic_forwarding_panel.Tunnel.Datagram.Runs.{receive_all, run_delivers}

-- At least one frame, and at most 128 where each has 512 bytes to give.
pub count-pos : (k : ℕ) (p : Bytes) → 0 < count_of k p
unfolding count_of
count-pos zero p = omega arith
count-pos (suc k) p = omega arith

pub count-le : (k : ℕ) (p : Bytes) → 512 ≤ k → length p ≤ 65535 → count_of k p ≤ 128
unfolding count_of
count-le zero p big small = absurd (omega arith)
count-le (suc k) p big small = elim (Bool-cases (ltb 128 ((length p + k) / suc k))) [
  | inr fine ↦ ground (arith, fine)
  | inl many ↦
      let q = (length p + k) / suc k in
      let j = q - 129 in
      let e : q ≡ 128 + 1 + j = ground (arith, many) in
      let split : q * suc k ≡ 128 * suc k + suc k + j * suc k =
        ap (λ n. n * suc k) e ∙ spread 128 j (suc k) in
      absurd (omega (arith, split, div-add-mod' (length p + k) (suc k), big, small))
]

well_formed :
    (total i n : ℕ) (b : Bytes)
    → total ≤ 65535
    → i < n
    → n ≤ 128
    → length b ≤ total
    → (ltb 1 n && length b == 0) ≡ false
    → is_malformed total i n b ≡ false
unfolding is_malformed
well_formed total i n b small below few inside filled =
    ground (arith, small, below, few, inside, filled)

-- A frame of the sender carries its chunk.
frame_at-Carries :
    (flow id k i : ℕ) (p : Bytes)
    → id < 2 ^ 64
    → 512 ≤ k
    → length p ≤ 65535
    → i < count_of k p
    → Carries p (chunks k (count_of k p) p) id i (frame_at flow id p k (count_of k p) i)
frame_at-Carries flow id k i p id_fits big small below =
    let n = count_of k p in
    let few = count-le k p big small in
    let size = length-chunks k n p in
    let b = take k (drop (i * k) p) in
    let room = length-drop (i * k) p in
    let weight : length b ≡ min k (length p - i * k) =
      length-take-min k (drop (i * k) p) ∙ ap (λ m. min k m) room in
    record {
      chunk = b;
      at = get-chunks k n i p below;
      below = omega (arith, below, size);
      same_id = frame_id-frame_at flow id p k n i id_fits;
      same_total = frame_total-frame_at flow id p k n i (omega (arith, small));
      same_index = frame_index-frame_at flow id p k n i (omega (arith, below, few));
      same_count = frame_count-frame_at flow id p k n i (omega (arith, few)) ∙ sym size;
      same_payload = frame_payload-frame_at flow id p k n i ∙ slice_chunk k i p;
      sound =
          let filled : (ltb 1 (length (chunks k n p)) && length b == 0) ≡ false =
            elim (Bool-cases (ltb 1 n)) [
              | inr single ↦ rw (size, single) refl
              | inl several ↦
                  let inside =
                    count_tight k i p (omega (arith, big)) below (ground (arith, several)) in
                  let there : (length b == 0) ≡ false = ground (arith, weight, inside, big) in
                  rw (size, several, there) refl
            ] in
          well_formed (length p) i (length (chunks k n p)) b small (omega (arith, below, size))
            (omega (arith, few, size)) (omega (arith, weight)) filled;
    }

-- A packet of at most 65535 bytes, cut into chunks of at least 512 bytes, is in the queue of the session
-- exactly once after its frames have come, in any order and each of them at least once, within the
-- second that a packet has to come together. The session is open, has not had a packet with this
-- identifier and has none of its frames, puts fewer than four others together and has room in its
-- queue, and the counters of the link leave room for the packet. No other frames come meanwhile.
pub delivered_once :
    (pick : Assoc ℕ → ℕ) (flow id k start : ℕ) (p : Bytes) (c : Counters) (s : Session)
    (arrivals : List (ℕ × ℕ))
    → id < 2 ^ 64
    → 512 ≤ k
    → length p ≤ 65535
    → s.closed ≡ false
    → lookup id s.seen ≡ none
    → lookup id s.parts ≡ none
    → length s.parts < 4
    → length s.inbox < 32
    → c.reassembly + length p ≤ max_datagram_memory
    → c.received + length p ≤ max_datagram_memory
    → All (λ a. (start ≤ a.0) × ((a.0 < start + fragment_ttl) × (a.1 < count_of k p))) arrivals
    → ((i : ℕ) → i < count_of k p → any (λ a. a.1 == i) arrivals ≡ true)
    → (receive_all pick
        (map (λ a. (a.0, frame_at flow id p k (count_of k p) a.1)) arrivals)
        (c, s)).1.inbox
      ≡ s.inbox ++ (p ∷ [])
delivered_once pick flow id k start p c s arrivals id_fits big small open_session unseen absent few
      short buffer memory times covers =
    let n = count_of k p in
    let bs = chunks k n p in
    let size = length-chunks k n p in
    run_delivers pick p bs id start s.inbox
      (concat-chunks k n p (count_enough k p (omega (arith, big)))) (frame_at flow id p k n)
      (λ i below. frame_at-Carries flow id k i p id_fits big small (omega (arith, below, size)))
      arrivals (c, s) (omega (arith, size, count-pos k p))
      (All-weaken _ _ arrivals (λ a t. (t.0, (t.1.0, omega (arith, t.1.1, size)))) times)
      (λ i below. covers i (omega (arith, below, size)))
      (record {
        room = record {
          open_session = open_session;
          unseen = unseen;
          queue = refl;
          short = short;
          memory = memory;
        };
        absent = absent;
        few = few;
        buffer = buffer;
      })
