-- ===== src/Tunnel/Datagram.antt =====
-- The UDP carrier of internal/tunnel/datagram.go: a packet is cut into frames, and the frames of a
-- session, which may come in any order, twice or not at all, are put together again.
pub mod Sender
mod Frames
mod Chunks
mod Parts
mod Phases
mod Delivery
mod Accept
mod Runs
mod Once
mod Memory
mod Held
mod Flows
mod Closing
mod Budget
mod Sent
mod Examples
pub mod Link
use traffic_forwarding_panel.Prelude.{
  ℕ, zero, suc, ◌+◌, ◌-◌, ◌*◌, ◌/◌, ◌%◌, ◌^◌, max, Bool, true, false, ◌&&◌, ◌||◌, not, Option, none,
  some, List, [], ◌∷◌, ◌++◌, length, ltb, leb, ◌==◌, if◌then◌else◌,
}
use traffic_forwarding_panel.Prelude.Fallible.{Fallible, ok, err}
use traffic_forwarding_panel.Prelude.Assoc.{Assoc, lookup, insert, erase}
use traffic_forwarding_panel.Prelude.Bytes.{
  Bytes, equal_bytes, put_uint32, put_uint64, uint32, uint64, take, drop,
}

abbrev pub datagram_header : ℕ
datagram_header = 25

abbrev pub max_datagram_flows : ℕ
max_datagram_flows = 1024

abbrev pub max_datagram_memory : ℕ
max_datagram_memory = 8 * 2 ^ 20

abbrev pub fragment_ttl : ℕ
fragment_ttl = 10 ^ 9

-- `binary.BigEndian.PutUint16` and `Uint16`
abbrev pub put_uint16 : ℕ → Bytes
put_uint16 v = (v / 2 ^ 8) % 256 ∷ v % 256 ∷ []

abbrev pub uint16 : Bytes → ℕ
uint16 (a ∷ b ∷ _) = a * 256 + b
uint16 _ = 0

-- The fragments of one packet; a part is `none` until it has come.
pub record Fragments : Type 0 where
  pub total : ℕ
  pub parts : List (Option Bytes)
  pub count : ℕ
  pub bytes : ℕ
  pub expires : ℕ

-- The counters of a link, which its sessions share.
pub record Counters : Type 0 where
  pub reassembly : ℕ
  pub received : ℕ
  pub drops : ℕ

-- A session: what it puts together, the identifiers of packets it has had, its queue of packets
-- (`in`), and whether it is cancelled.
pub record Session : Type 0 where
  pub parts : Assoc Fragments
  pub seen : Assoc ℕ
  pub inbox : List Bytes
  pub closed : Bool

abbrev pub State : Type 0
State = Counters × Session

abbrev pub drop_frame : State → State
drop_frame (c, s) = (record c { drops = (c.drops + 1) % 2 ^ 64 }, s)

-- `takeMemory`; the new value of the counter
abbrev pub take_memory : ℕ → ℕ → Option ℕ
take_memory old n = if ltb max_datagram_memory (old + n) then none else some (old + n)

-- `expireLocked`
unfoldable pub expire_parts : ℕ → Counters → Assoc Fragments → Counters × Assoc Fragments
expire_parts now c [] = (c, [])
expire_parts now c ((id, a) ∷ m) =
    let live = ltb now a.expires in
    let c' =
      if live
      then c
      else record c { reassembly = c.reassembly - a.total; drops = (c.drops + 1) % 2 ^ 64 } in
    let (c'', m') = expire_parts now c' m in (c'', if live then (id, a) ∷ m' else m')

unfoldable pub expire_seen : ℕ → Assoc ℕ → Assoc ℕ
expire_seen now [] = []
expire_seen now ((id, end) ∷ m) =
    let rest = expire_seen now m in if ltb now end then (id, end) ∷ rest else rest

unfoldable pub expire : ℕ → State → State
expire now (c, s) =
    let (c', parts) = expire_parts now c s.parts in
    (c', record s { parts = parts; seen = expire_seen now s.seen })

-- `a.parts[index]`, which the code does not read out of range, and the write to it
unfoldable pub get_part : ℕ → List (Option Bytes) → Option Bytes
get_part i [] = none
get_part zero (o ∷ parts) = o
get_part (suc i) (o ∷ parts) = get_part i parts

unfoldable pub set_part : ℕ → Bytes → List (Option Bytes) → List (Option Bytes)
set_part i b [] = []
set_part zero b (o ∷ parts) = some b ∷ parts
set_part (suc i) b (o ∷ parts) = o ∷ set_part i b parts

-- `make([][]byte, count)`
unfoldable pub no_parts : ℕ → List (Option Bytes)
no_parts zero = []
no_parts (suc n) = none ∷ no_parts n

-- The parts one behind the other.
unfoldable pub join_parts : List (Option Bytes) → Bytes
join_parts [] = []
join_parts (none ∷ parts) = join_parts parts
join_parts (some b ∷ parts) = b ++ join_parts parts

-- What `accept` reads from a frame.
abbrev pub frame_id : Bytes → ℕ
frame_id f = uint64 (drop 9 f)

abbrev pub frame_total : Bytes → ℕ
frame_total f = uint32 (drop 17 f)

abbrev pub frame_index : Bytes → ℕ
frame_index f = uint16 (drop 21 f)

abbrev pub frame_count : Bytes → ℕ
frame_count f = uint16 (drop 23 f)

abbrev pub frame_payload : Bytes → Bytes
frame_payload f = drop 25 f

unfoldable pub is_malformed : ℕ → ℕ → ℕ → Bytes → Bool
is_malformed total index count payload =
    ltb 65535 total
    || ltb count 1
    || ltb 128 count
    || leb count index
    || ltb total (length payload)
    || ltb 1 count && length payload == 0

-- The key that `range` over the map gives first is the runtime's choice.
module _ (pick : Assoc ℕ → ℕ) where
  -- The end of `accept`, where the packet is complete.
  unfoldable pub deliver : ℕ → ℕ → Bytes → State → State
  deliver now id packet (c, s) =
      let kept = if leb 256 (length s.seen) then erase (pick s.seen) s.seen else s.seen in
      let s' = record s { seen = insert id (now + 2 * fragment_ttl) kept } in
      elim (take_memory c.received (length packet)) [
        | none ↦ drop_frame (c, s')
        | some n ↦
            if ltb (length s.inbox) 32
            then (record c { received = n }, record s' { inbox = s.inbox ++ (packet ∷ []) })
            else drop_frame (record c { received = n - length packet }, s')
      ]

  -- A part is new: it is stored, and the last one completes the packet.
  unfoldable pub store_part : ℕ → ℕ → ℕ → Bytes → Fragments → State → State
  store_part now id index payload a (c, s) =
      let b : Fragments = record a {
        parts = set_part index payload a.parts;
        count = a.count + 1;
        bytes = a.bytes + length payload;
      } in
      if not (b.count == length b.parts)
      then (c, record s { parts = insert id b s.parts })
      else let st : State = (
        record c { reassembly = c.reassembly - b.total },
        record s { parts = erase id s.parts },
      ) in
        if b.bytes == b.total then deliver now id (join_parts b.parts) st else drop_frame st

  unfoldable pub add_part : ℕ → ℕ → ℕ → ℕ → ℕ → Bytes → Fragments → State → State
  add_part now id total index count payload a st =
      if not (a.total == total) || not (length a.parts == count)
      then drop_frame st
      else elim (get_part index a.parts) [
        | some old ↦ if equal_bytes old payload then st else drop_frame st
        | none ↦
            if ltb a.total (a.bytes + length payload)
            then drop_frame st
            else store_part now id index payload a st
      ]

  -- The branch of `accept` for more than one fragment.
  unfoldable pub assemble : ℕ → ℕ → ℕ → ℕ → ℕ → Bytes → State → State
  assemble now id total index count payload (c, s) = elim (lookup id s.parts) [
    | some a ↦ add_part now id total index count payload a (c, s)
    | none ↦
        if leb 4 (length s.parts)
        then drop_frame (c, s)
        else elim (take_memory c.reassembly total) [
          | none ↦ drop_frame (c, s)
          | some n ↦
              let a : Fragments = record {
                total = total;
                parts = no_parts count;
                count = 0;
                bytes = 0;
                expires = now + fragment_ttl;
              } in
              add_part now id total index count payload a
                (record c { reassembly = n }, record s { parts = insert id a s.parts })
        ]
  ]

  unfoldable pub accept_fresh : ℕ → Bytes → State → State
  accept_fresh now f st =
      if frame_count f == 1
      then if length (frame_payload f) == frame_total f
        then deliver now (frame_id f) (frame_payload f) st
        else drop_frame st
      else assemble now (frame_id f) (frame_total f) (frame_index f) (frame_count f)
          (frame_payload f) st

  -- `accept`
  unfoldable pub accept : ℕ → Bytes → State → State
  accept now f (c, s) =
      if is_malformed (frame_total f) (frame_index f) (frame_count f) (frame_payload f)
      then drop_frame (c, s)
      else if s.closed
      then (c, s)
      else let st = expire now (c, s) in
        elim (lookup (frame_id f) st.1.seen) [ some _ ↦ st | none ↦ accept_fresh now f st ]
