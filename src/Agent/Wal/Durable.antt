-- ===== src/Agent/Wal/Durable.antt =====
-- The file of the log of internal/agent/wal.go through appends, crashes and rotations.
use traffic_forwarding_panel.Prelude.{
  ℕ, ◌+◌, ◌%◌, ◌^◌, ◌≤◌, ◌<◌, ◌≡◌, refl, ◌∙◌, ap, ◌⊎◌, inl, inr, false, List, [], ◌∷◌, ◌++◌, length,
  ltb, ==_refl, arith,
}
use traffic_forwarding_panel.Prelude.Fallible.{Fallible, ok, err, ◌>>=◌}
use traffic_forwarding_panel.Prelude.Bytes.{
  Bytes, equal_bytes_refl, put_uint64, uint32, uint64, uint32-put_uint32, uint64-put_uint64, take,
  drop,
}
use traffic_forwarding_panel.Agent.Wal.{
  wal_magic, read_header, Codec, interior_corruption, encode_events, replay_loop, replay,
  wal_header,
}
use traffic_forwarding_panel.Agent.Wal.Crc.{checksum, checksum-lt}
use traffic_forwarding_panel.Agent.Wal.Recovery.{Recovered, cut_log}
use traffic_forwarding_panel.Agent.Wal.Replay.{loop-log, IsCodec, catch_up, Outcome}

-- What is read from a file that begins with the header of a log.
module _ (base : ℕ) (log : Bytes) where
  abbrev file_of : Bytes
  file_of = wal_header base ++ log

  file_magic : take 8 file_of ≡ wal_magic
  unfolding wal_header
  file_magic = refl

  file_crc : uint32 (drop 16 file_of) ≡ checksum (take 16 file_of)
  unfolding wal_header
  file_crc = uint32-put_uint32 _ [] (checksum-lt (wal_magic ++ put_uint64 base))

  file_base : base < 2 ^ 64 → uint64 (drop 8 file_of) ≡ base
  unfolding wal_header
  file_base small = uint64-put_uint64 base [] small

  file_rest : drop 20 file_of ≡ log
  unfolding wal_header
  file_rest = refl

  pub length-file : length file_of ≡ 20 + length log
  unfolding wal_header
  length-file = omega arith

module _ {E S R : Type 0} (codec : Codec E) (law : IsCodec codec)
    (apply : E → S → Fallible R S) where
  -- The outcome of `replay`, behind that of its loop.
  abbrev pub after_header : Outcome codec law apply → Outcome codec law apply
  after_header r = do (kept, q) ← r; ok (20 + kept, q)

  -- Past a sound header, the replay is the loop.
  replay-header :
      (base : ℕ) (log : Bytes) (p : ℕ × S)
      → base < 2 ^ 64
      → base ≤ p.0
      → replay codec apply (wal_header base ++ log) p ≡ (do
        (kept, q) ← replay_loop codec apply (length log) ((base + 1) % 2 ^ 64) log p
        ok (20 + kept, q))
  unfolding replay read_header
  replay-header base log p small covered =
      let long : ltb (length (wal_header base ++ log)) 20 ≡ false =
        ground (arith, length-file base log) in
      let known : ltb p.0 base ≡ false = ground arith in
      rw
        (
          replay,
          read_header,
          long,
          file_magic base log,
          equal_bytes_refl wal_magic,
          file_crc base log,
          ==_refl (checksum (take 16 (wal_header base ++ log))),
          file_base base log small,
          known,
          file_rest base log,
        )
        refl

  -- The replay of a log that is whole: every event that the checkpoint lacks is applied, in order, and
  -- all bytes are kept.
  pub replay-log :
      (es : List E) (base : ℕ) (log : Bytes) (p q : ℕ × S)
      → base + length es + 1 < 2 ^ 64
      → base ≤ p.0
      → encode_events codec base 0 es ≡ ok log
      → catch_up apply (base + 1) es p ≡ ok q
      → replay codec apply (wal_header base ++ log) p ≡ ok (20 + length log, q)
  replay-log es base log p q small covered enc up =
      let first : base + 0 + 1 ≡ base + 1 = omega arith in
      let wrap : (base + 1) % 2 ^ 64 ≡ base + 0 + 1 = omega (arith, small) in
      let loop =
        loop-log codec law apply es base 0 (length log) log p q (omega (arith, small)) enc
          (rw first up) (omega arith) in
      replay-header base log p (omega (arith, small)) covered ∙ rw (wrap, loop) refl

  -- The replay of a log of which only the first `n` bytes were written: it is refused, or it brings
  -- back the events whose records are whole, and keeps their records.
  pub replay_cut :
      (es : List E) (base n : ℕ) (log : Bytes) (p q : ℕ × S)
      → base + length es + 1 < 2 ^ 64
      → base ≤ p.0
      → encode_events codec base 0 es ≡ ok log
      → catch_up apply (base + 1) es p ≡ ok q
      → let out = replay codec apply (wal_header base ++ take n log) p in
        (out ≡ err interior_corruption)
        ⊎ ((loop : Outcome codec law apply) × Recovered codec apply es base 0 p n loop
            × (out ≡ after_header loop))
  replay_cut es base n log p q small covered enc up =
      let part = take n log in
      let out = replay_loop codec apply (length part) (base + 0 + 1) part p in
      let first : base + 0 + 1 ≡ base + 1 = omega arith in
      let wrap : (base + 1) % 2 ^ 64 ≡ base + 0 + 1 = omega (arith, small) in
      let start : replay codec apply (wal_header base ++ part) p ≡ after_header out =
        replay-header base part p (omega (arith, small)) covered ∙ rw wrap refl in
      elim (cut_log codec law apply es base 0 (length part) n log p q (omega (arith, small)) enc
        (rw first up) (omega arith)) [
          | inl refused ↦ inl (start ∙ ap after_header refused)
          | inr r ↦ inr (out, r, start)
        ]

  all_covered :
      (es : List E) (next : ℕ) (p : ℕ × S)
      → next + length es ≤ p.0 + 1
      → catch_up apply next es p ≡ ok p
  unfolding catch_up
  all_covered [] next p h = refl
  all_covered (e ∷ es) next (last, s) h =
      let old : ltb last next ≡ false = ground arith in
      rw (catch_up, old) (all_covered es (next + 1) (last, s) (omega (arith, h)))

  -- After a checkpoint of all events of a log, the log and the empty one that replaces it are replayed
  -- to the same: the state of the checkpoint.
  pub rotation :
      (es : List E) (base : ℕ) (log : Bytes) (s : S)
      → base + length es + 1 < 2 ^ 64
      → encode_events codec base 0 es ≡ ok log
      → let p : ℕ × S = (base + length es, s) in
        (replay codec apply (wal_header base ++ log) p ≡ ok (20 + length log, p))
        × (replay codec apply (wal_header p.0 ++ []) p ≡ ok (20, p))
  unfolding encode_events catch_up
  rotation es base log s small enc =
      let p : ℕ × S = (base + length es, s) in
      (
        replay-log es base log p p small (omega arith) enc
            (all_covered es (base + 1) p (omega arith)),
        replay-log [] p.0 [] p p (omega (arith, small)) (omega arith) refl refl,
      )
