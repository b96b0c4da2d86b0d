-- ===== src/Agent/Wal.antt =====
-- The write-ahead log of internal/agent/wal.go, on the bytes of its file: the records, the replay at
-- start, and `appendEvents`. The events, what they do to the state (`applyEvent`) and their JSON form
-- are parameters.
pub mod Crc
pub mod Records
pub mod Replay
pub mod Recovery
pub mod Durable
pub mod Writes
pub mod Append
mod Examples
use traffic_forwarding_panel.Prelude.{
  ℕ, zero, suc, ◌+◌, ◌-◌, ◌*◌, ◌%◌, ◌^◌, ◌&&◌, ◌||◌, min, Bool, true, false, not, Option, none,
  some, List, [], ◌∷◌, ◌++◌, length, ltb, leb, ◌==◌, if◌then◌else◌,
}
use traffic_forwarding_panel.Prelude.Fallible.{Fallible, ok, err, ◌>>=◌, ◌>>◌, fail_if}
use traffic_forwarding_panel.Prelude.Bytes.{
  Bytes, equal_bytes, take, drop, put_uint32, put_uint64, uint32, uint64,
}
use traffic_forwarding_panel.Agent.Wal.Crc.{update, checksum}

abbrev pub wal_header_size : ℕ
wal_header_size = 20

abbrev pub record_header_size : ℕ
record_header_size = 24

abbrev pub max_wal_record : ℕ
max_wal_record = 4 * 2 ^ 20

abbrev pub wal_checkpoint_bytes : ℕ
wal_checkpoint_bytes = 8 * 2 ^ 20

-- "TFPWAL02", the magic of the first version, and "EV01"
abbrev pub wal_magic : Bytes
wal_magic = 84 ∷ 70 ∷ 80 ∷ 87 ∷ 65 ∷ 76 ∷ 48 ∷ 50 ∷ []

abbrev pub first_magic : Bytes
first_magic = 84 ∷ 70 ∷ 80 ∷ 87 ∷ 65 ∷ 76 ∷ 48 ∷ 49 ∷ []

abbrev pub record_magic : Bytes
record_magic = 69 ∷ 86 ∷ 48 ∷ 49 ∷ []

pub data Error : Type 0 where
  event_too_large marshal_failed sequence_overflow : Error
  incomplete_header corrupt_header checkpoint_missing : Error
  corrupt_tail corruption header_corruption invalid_length interior_corruption : Error
  exceeds_recovery_bound checksum_corruption invalid_event replay_refused out_of_fuel : Error

-- `json.Marshal` and the decoder, on the events.
pub record Codec (E : Type 0) : Type 0 where
  pub marshal : E → Option Bytes
  pub decode : Bytes → Option E

unfoldable pub wal_header : ℕ → Bytes
wal_header base = let h = wal_magic ++ put_uint64 base in h ++ put_uint32 (checksum h)

-- The bytes of a record before its own checksums, and up to the checksum of the header.
unfoldable pub record_start : ℕ → Bytes → Bytes
record_start seq payload = record_magic ++ put_uint32 (length payload) ++ put_uint64 seq

unfoldable pub record_body : ℕ → Bytes → Bytes
record_body seq payload =
    let h = record_start seq payload in h ++ put_uint32 (update (checksum h) payload)

unfoldable pub record_header : ℕ → Bytes → Bytes
record_header seq payload = let h = record_body seq payload in h ++ put_uint32 (checksum h)

unfoldable pub record_bytes : ℕ → Bytes → Bytes
record_bytes seq payload = record_header seq payload ++ payload

unfoldable pub encode_record : {E : Type 0} → Codec E → ℕ → E → Fallible Error Bytes
encode_record codec seq event = elim (codec.marshal event) [
  | none ↦ err marshal_failed
  | some payload ↦
      if ltb max_wal_record (length payload)
      then err event_too_large
      else ok (record_bytes seq payload)
]

-- Whether an intact record of a later event starts here.
unfoldable pub is_record : ℕ → Bytes → Bool
is_record seq b =
    let h = take 20 b in
    let n = uint32 (drop 4 b) in
    leb record_header_size (length b)
    && equal_bytes (take 4 b) record_magic
    && (uint32 (drop 20 b) == checksum h)
    && not (n == 0)
    && leb n max_wal_record
    && leb n (length b - record_header_size)
    && ltb seq (uint64 (drop 8 b))
    && (update (checksum (take 16 b)) (take n (drop record_header_size b)) == uint32 (drop 16 b))

-- The loop of `hasFollowingRecord`.
unfoldable pub any_record : ℕ → Bytes → Bool
any_record seq [] = false
any_record seq (x ∷ b) = is_record seq (x ∷ b) || any_record seq b

unfoldable pub has_following_record : ℕ → Bytes → Fallible Error Bool
has_following_record seq b =
    if ltb (wal_checkpoint_bytes + max_wal_record) (length b)
    then err exceeds_recovery_bound
    else ok (any_record seq b)

-- What stands at an offset that is not the end of the file: a record, or a tail to cut off.
pub data Frame : Type 0 where
  torn : Frame
  whole : ℕ → Bytes → Frame

unfoldable pub read_tail : Bytes → Fallible Error Frame
read_tail tail =
    let prefix = min (length tail) 4 in
    if equal_bytes (take prefix tail) (take prefix record_magic) then ok torn else err corrupt_tail

-- A record whose length runs past the end of the file.
unfoldable pub read_cut : ℕ → Bytes → Fallible Error Frame
read_cut seq rest = do
  has ← has_following_record seq (drop 1 rest)
  fail_if has interior_corruption
  ok torn

unfoldable pub read_record : ℕ → Bytes → Fallible Error Frame
read_record expected rest =
    let n = uint32 (drop 4 rest) in
    let seq = uint64 (drop 8 rest) in
    let payload = take n (drop record_header_size rest) in
    do
      fail_if (not (equal_bytes (take 4 rest) record_magic)) corruption
      fail_if (not (uint32 (drop 20 rest) == checksum (take 20 rest))) header_corruption
      fail_if (n == 0 || ltb max_wal_record n || not (seq == expected)) invalid_length
      if ltb (length rest - record_header_size) n then read_cut seq rest else do
        fail_if (not (update (checksum (take 16 rest)) payload == uint32 (drop 16 rest)))
            checksum_corruption
        ok (whole seq payload)

unfoldable pub read_frame : ℕ → Bytes → Fallible Error Frame
read_frame expected rest =
    if ltb (length rest) record_header_size then read_tail rest else read_record expected rest

-- The checks of `replay` on the header of the file, and the sequence number that the log starts from.
unfoldable pub read_header : Bytes → ℕ → Fallible Error ℕ
read_header file last = do
  fail_if (ltb (length file) wal_header_size) incomplete_header
  fail_if
      (not (equal_bytes (take 8 file) wal_magic || equal_bytes (take 8 file) first_magic)
        || not (uint32 (drop 16 file) == checksum (take 16 file)))
      corrupt_header
  let base = uint64 (drop 8 file)
  fail_if (ltb last base) checkpoint_missing
  ok base

module _ {E S R : Type 0} (codec : Codec E) (apply : E → S → Fallible R S) where
  -- The event of a record, on the sequence number and the state: one that the checkpoint covers is
  -- passed over.
  unfoldable pub replay_event : ℕ → Bytes → ℕ × S → Fallible Error (ℕ × S)
  replay_event seq payload (last, s) =
      if not (ltb last seq) then ok (last, s) else elim (codec.decode payload) [
        | none ↦ err invalid_event
        | some event ↦ elim (apply event s) [ err why ↦ err replay_refused | ok s' ↦ ok (seq, s') ]
      ]

  -- What the loop does with a frame; `next` is the loop from the next offset on.
  unfoldable pub follow_frame :
      Frame
      → Bytes
      → ℕ × S
      → (Bytes → ℕ × S → Fallible Error (ℕ × (ℕ × S)))
      → Fallible Error (ℕ × (ℕ × S))
  follow_frame torn rest p next = ok (0, p)
  follow_frame (whole seq payload) rest p next = do
    p' ← replay_event seq payload p
    let n = record_header_size + length payload
    (kept, q) ← next (drop n rest) p'
    ok (n + kept, q)

  -- The loop of `replay`, on the bytes from the offset on: how many of them are kept, and the
  -- sequence number and the state at the end.
  unfoldable pub replay_loop : ℕ → ℕ → Bytes → ℕ × S → Fallible Error (ℕ × (ℕ × S))
  replay_loop fuel expected [] p = ok (0, p)
  replay_loop zero expected (x ∷ rest) p = err out_of_fuel
  replay_loop (suc fuel) expected (x ∷ rest) p = do
    frame ← read_frame expected (x ∷ rest)
    follow_frame frame (x ∷ rest) p
        (λ rest' p'. replay_loop fuel ((expected + 1) % 2 ^ 64) rest' p')

  -- `replay`: the size that the file is left with, the sequence number and the state.
  unfoldable pub replay : Bytes → ℕ × S → Fallible Error (ℕ × (ℕ × S))
  replay file p = do
    base ← read_header file p.0
    let rest = drop wal_header_size file
    (kept, q) ← replay_loop (length rest) ((base + 1) % 2 ^ 64) rest p
    ok (wal_header_size + kept, q)

-- The loop of `appendEvents`: the batch, with `i` for the number of events before it.
unfoldable pub encode_events : {E : Type 0} → Codec E → ℕ → ℕ → List E → Fallible Error Bytes
encode_events codec seq i [] = ok []
encode_events codec seq i (event ∷ events) = do
  let next = (seq + i + 1) % 2 ^ 64
  fail_if (leb next seq) sequence_overflow
  b ← encode_record codec next event
  rest ← encode_events codec seq (i + 1) events
  ok (b ++ rest)

-- What a write to the file does: it takes some bytes, or it takes some and fails.
pub data Write : Type 0 where
  wrote failed_after : ℕ → Write

pub data WriteError : Type 0 where
  write_failed short_write : WriteError

-- The loop that writes the batch, on the outcomes of the writes: the bytes that are in the file
-- afterwards, and how it ended.
unfoldable pub write_all : ℕ → (ℕ → Write) → ℕ → Bytes → Bytes × Option WriteError
write_all fuel outcome i [] = ([], none)
write_all zero outcome i (x ∷ p) = ([], some short_write)
write_all (suc fuel) outcome i (x ∷ p) = elim (outcome i) [
  | failed_after n ↦ (take n (x ∷ p), some write_failed)
  | wrote n ↦
      if n == 0 || ltb (length (x ∷ p)) n
      then (take n (x ∷ p), some short_write)
      else let rest = write_all fuel outcome (i + 1) (drop n (x ∷ p)) in
        (take n (x ∷ p) ++ rest.0, rest.1)
]

-- The file after `appendEvents`, and whether the batch counts as stored; `sync` is the outcome of the
-- fault points and of `Sync` after the writes.
unfoldable pub append_events :
    {E : Type 0} → Codec E → (ℕ → Write) → Bool → ℕ → List E → Bytes → Fallible Error (Bytes × Bool)
append_events codec outcome sync seq events file = do
  batch ← encode_events codec seq 0 events
  let written = write_all (length batch) outcome 0 batch
  ok (file ++ written.0, elim written.1 [ none ↦ sync | some e ↦ false ])
