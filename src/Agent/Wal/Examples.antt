-- ===== src/Agent/Wal/Examples.antt =====
-- A log of two events and a batch of one more. The events are numbers that are added up.
use traffic_forwarding_panel.Prelude.{
  some_inj, ℕ, ◌+◌, ◌≡◌, refl, sym, ap, ◌⊎◌, true, false, Option, none, some, List, [], ◌∷◌, ◌++◌,
  length, ◌==◌, arith, if◌then◌else◌,
}
use traffic_forwarding_panel.Prelude.Fallible.{Fallible, ok, err}
use traffic_forwarding_panel.Prelude.Bytes.{Bytes, equal_bytes, take}
use traffic_forwarding_panel.Agent.Wal.Crc.{shift_out, feed, update, checksum}
use traffic_forwarding_panel.Agent.Wal.{
  Codec, wal_header, record_start, record_body, record_header, record_bytes, encode_record,
  encode_events, interior_corruption, whole, read_tail, read_record, read_frame, replay_event,
  follow_frame, replay_loop, read_header, replay, Write, wrote, failed_after, write_all,
  append_events,
}
use traffic_forwarding_panel.Agent.Wal.Records.{read-record_bytes}
use traffic_forwarding_panel.Agent.Wal.Replay.{IsCodec, catch_up}
use traffic_forwarding_panel.Agent.Wal.Durable.{rotation}
use traffic_forwarding_panel.Agent.Wal.Append.{append-replay, Survived, append_crash}

abbrev one_byte : Bytes → Option ℕ
one_byte [] = none
one_byte (b ∷ _) = some b

abbrev codec : Codec ℕ
codec = record { marshal = λ n. some (n ∷ []); decode = one_byte }

codec-IsCodec : IsCodec codec
codec-IsCodec = record {
  decodes = λ e b h. ap one_byte (sym (some_inj h));
  some_bytes = λ e b h. rw (sym (some_inj h)) (omega arith);
}

abbrev add : ℕ → ℕ → Fallible (Unit {0}) ℕ
add n s = ok (s + n)

abbrev old : List ℕ
old = 10 ∷ 20 ∷ []

abbrev new : List ℕ
new = 30 ∷ []

abbrev log : Bytes
log = record_bytes 5 (10 ∷ []) ++ (record_bytes 6 (20 ∷ []) ++ [])

abbrev batch : Bytes
batch = record_bytes 7 (30 ∷ []) ++ []

-- The checkpoint has the first event.
abbrev checkpoint : ℕ × ℕ
checkpoint = (5, 10)

abbrev all_written : ℕ → Write
all_written i = wrote 5

abbrev disk_full : ℕ → Write
disk_full i = if i == 2 then failed_after 3 else wrote 5

log_encoded : encode_events codec 4 0 old ≡ ok log
unfolding encode_events encode_record
log_encoded = refl

abbrev longer : Bytes
longer = (wal_header 4 ++ log) ++ batch

abbrev torn_file : Bytes
torn_file = (wal_header 4 ++ log) ++ take 13 batch

stored : append_events codec all_written true 6 new (wal_header 4 ++ log) ≡ ok (longer, true)
unfolding append_events write_all encode_events encode_record record_bytes record_header record_body
    record_start
stored = refl

not_stored : append_events codec disk_full true 6 new (wal_header 4 ++ log) ≡ ok (torn_file, false)
unfolding append_events write_all encode_events encode_record record_bytes record_header record_body
    record_start
not_stored = refl

caught : catch_up add 5 (old ++ new) checkpoint ≡ ok (7, 60)
unfolding catch_up
caught = refl

append-replay_example : replay codec add longer checkpoint ≡ ok (length longer, (7, 60))
append-replay_example =
    append-replay codec codec-IsCodec add all_written true old new 4 log longer checkpoint (7, 60)
      (omega arith) (omega arith) log_encoded stored caught

append_crash_example :
    (replay codec add torn_file checkpoint ≡ err interior_corruption)
    ⊎ Survived codec codec-IsCodec add old new 4 checkpoint (replay codec add torn_file checkpoint)
append_crash_example =
    append_crash codec codec-IsCodec add disk_full true false old new 4 log torn_file checkpoint
      (7, 60) (omega arith) (omega arith) log_encoded not_stored caught

torn_replayed : replay codec add torn_file checkpoint ≡ ok (70, (6, 30))
unfolding replay read_header replay_loop follow_frame replay_event read_frame read_record read_tail
    equal_bytes wal_header record_bytes record_header record_body record_start checksum update feed
    shift_out
torn_replayed = refl

rotation_example :
    (replay codec add (wal_header 4 ++ log) (6, 30) ≡ ok (20 + length log, (6, 30)))
    × (replay codec add (wal_header 6 ++ []) (6, 30) ≡ ok (20, (6, 30)))
rotation_example = rotation codec codec-IsCodec add old 4 log 30 (omega arith) log_encoded

read-record_bytes_example : read_frame 5 log ≡ ok (whole 5 (10 ∷ []))
read-record_bytes_example =
    read-record_bytes 5 (10 ∷ []) (record_bytes 6 (20 ∷ []) ++ [])
      (record { seq_fits = omega arith; some_bytes = omega arith; few_bytes = omega arith })
