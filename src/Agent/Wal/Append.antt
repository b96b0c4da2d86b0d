-- ===== src/Agent/Wal/Append.antt =====
-- `appendEvents` of internal/agent/wal.go and the replay of the file it leaves.
use traffic_forwarding_panel.Prelude.{
  true_ne_false, some_inj, ℕ, zero, suc, ◌+◌, ◌%◌, ◌^◌, ◌≤◌, ◌<◌, ◌≡◌, refl, sym, ◌∙◌, ap, ◌⊎◌, inl,
  inr, Bool, true, false, Bool-cases, List, [], ◌∷◌, ◌++◌, length, length-append, ltb, leb, arith,
}
use mathlib.Core.List.{append_assoc}
use traffic_forwarding_panel.Prelude.Fallible.{Fallible, ok, err, ok-injective}
use traffic_forwarding_panel.Prelude.Bytes.{Bytes, take, take-append, take_short}
use traffic_forwarding_panel.Agent.Wal.{
  append_events, Write, record_bytes, Codec, interior_corruption, encode_events, replay, wal_header,
}
use traffic_forwarding_panel.Agent.Wal.Replay.{IsCodec, catch_up, first_record, length-log, Outcome}
use traffic_forwarding_panel.Agent.Wal.Durable.{length-file, after_header, replay-log, replay_cut}
use traffic_forwarding_panel.Agent.Wal.Writes.{appended}

module _ {E : Type 0} (codec : Codec E) (law : IsCodec codec) where
  encode_shift :
      (es : List E) (seq i seq' i' : ℕ)
      → seq + i ≡ seq' + i'
      → seq + i + length es < 2 ^ 64
      → encode_events codec seq i es ≡ encode_events codec seq' i' es
  unfolding encode_events
  encode_shift [] seq i seq' i' same small = refl
  encode_shift (e ∷ es) seq i seq' i' same small =
      let same' : (seq + i + 1) % 2 ^ 64 ≡ (seq' + i' + 1) % 2 ^ 64 = omega (arith, same) in
      let after : leb ((seq + i + 1) % 2 ^ 64) seq ≡ false = ground (arith, small) in
      let after' : leb ((seq' + i' + 1) % 2 ^ 64) seq' ≡ false = ground (arith, small, same) in
      rw
        (
          encode_events,
          after,
          after',
          same',
          encode_shift es seq (i + 1) seq' (i' + 1) (omega (arith, same)) (omega (arith, small)),
        )
        refl

  encode-append :
      (es es' : List E) (seq i : ℕ) (log log' : Bytes)
      → seq + i + length es < 2 ^ 64
      → encode_events codec seq i es ≡ ok log
      → encode_events codec seq (i + length es) es' ≡ ok log'
      → encode_events codec seq i (es ++ es') ≡ ok (log ++ log')
  unfolding encode_events
  encode-append [] es' seq i log log' small enc enc' =
      ap (λ k. encode_events codec seq k es') (omega arith)
      ∙ enc'
      ∙ ap (λ l. ok (l ++ log')) (ok-injective enc)
  encode-append (e ∷ es) es' seq i log log' small enc enc' =
      let x = first_record codec law seq i e es log (omega (arith, small)) enc in
      let ih =
        encode-append es es' seq (i + 1) x.rest log' (omega (arith, small)) x.encoded
          (ap (λ k. encode_events codec seq k es') (omega arith) ∙ enc') in
      x.more (es ++ es') (x.rest ++ log') ih
      ∙ ap ok (
          sym (append_assoc (record_bytes (seq + i + 1) x.payload) x.rest log')
          ∙ ap (λ l. l ++ log') (sym x.joined))

  -- A first part of the events takes no more bytes.
  encode_prefix :
      (k : ℕ) (es : List E) (seq i : ℕ) (log b : Bytes)
      → seq + i + length es < 2 ^ 64
      → encode_events codec seq i es ≡ ok log
      → encode_events codec seq i (take k es) ≡ ok b
      → length b ≤ length log
  unfolding encode_events
  encode_prefix zero es seq i log b small enc part = rw (sym (ok-injective part)) (omega arith)
  encode_prefix (suc k) [] seq i log b small enc part = rw (sym (ok-injective part)) (omega arith)
  encode_prefix (suc k) (e ∷ es) seq i log b small enc part =
      let x = first_record codec law seq i e es log (omega (arith, small)) enc in
      let y = first_record codec law seq i e (take k es) b (omega (arith, small)) part in
      let same : x.payload ≡ y.payload = some_inj (sym x.marshalled ∙ y.marshalled) in
      let ih =
        encode_prefix k es seq (i + 1) x.rest y.rest (omega (arith, small)) x.encoded y.encoded in
      omega (
        arith,
        length-log codec law seq i e es log x,
        length-log codec law seq i e (take k es) b y,
        ap (λ l. length l) same,
        ih,
      )

  -- The old events and those of the batch, as one log.
  joined_log :
      (es es' : List E) (base : ℕ) (log batch : Bytes)
      → base + length (es ++ es') + 1 < 2 ^ 64
      → encode_events codec base 0 es ≡ ok log
      → encode_events codec (base + length es) 0 es' ≡ ok batch
      → encode_events codec base 0 (es ++ es') ≡ ok (log ++ batch)
  joined_log es es' base log batch small enc enc' =
      let total = length-append es es' in
      encode-append es es' base 0 log batch (omega (arith, small, total)) enc (
        encode_shift es' base (0 + length es) (base + length es) 0 (omega arith)
          (omega (arith, small, total))
        ∙ enc')

  -- An event of the old log is not after the first one that is cut.
  old_kept :
      (es es' : List E) (base n events : ℕ) (log b : Bytes)
      → base + length (es ++ es') + 1 < 2 ^ 64
      → encode_events codec base 0 es ≡ ok log
      → encode_events codec base 0 (take (suc events) (es ++ es')) ≡ ok b
      → length log + n < length b
      → length es ≤ events
  old_kept es es' base n events log b small enc part cut =
      elim (Bool-cases (ltb events (length es))) [
        | inr late ↦ ground arith
        | inl early ↦
            let within : take (suc events) (es ++ es') ≡ take (suc events) es =
              take_short es es' (suc events) (ground arith) in
            let short =
              encode_prefix (suc events) es base 0 log b
                (omega (arith, small, length-append es es')) enc
                (ap (encode_events codec base 0) (sym within) ∙ part) in
            absurd (omega (arith, short, cut))
      ]

module _ {E S R : Type 0} (codec : Codec E) (law : IsCodec codec)
    (apply : E → S → Fallible R S) where
  -- A batch that counts as stored is replayed: the state is that of all events, those before the batch
  -- and those of it, and nothing of the file is cut off.
  pub append-replay :
      (outcome : ℕ → Write) (sync : Bool) (es es' : List E) (base : ℕ) (log file' : Bytes)
      (p q : ℕ × S)
      → base + length (es ++ es') + 1 < 2 ^ 64
      → base ≤ p.0
      → encode_events codec base 0 es ≡ ok log
      → append_events codec outcome sync (base + length es) es' (wal_header base ++ log)
        ≡ ok (file', true)
      → catch_up apply (base + 1) (es ++ es') p ≡ ok q
      → replay codec apply file' p ≡ ok (length file', q)
  append-replay outcome sync es es' base log file' p q small covered enc app up =
      let a = appended codec outcome sync (base + length es) es' _ file' true app in
      let all = log ++ a.batch in
      let file : file' ≡ wal_header base ++ all = elim a.everything [
        | inl unstored ↦ absurd (true_ne_false unstored)
        | inr complete ↦ complete ∙ append_assoc (wal_header base) log a.batch
      ] in
      let enc' = joined_log codec law es es' base log a.batch small enc a.encoded in
      rw file (
        replay-log codec law apply (es ++ es') base all p q small covered enc' up
        ∙ rw (length-file base all) refl)

  -- What is recovered after an append that may have stopped anywhere: all old events, and some first
  -- part of the new ones.
  pub record Survived (es es' : List E) (base : ℕ) (p : ℕ × S) (out : Outcome codec law apply)
      : Type 0 where
    pub events : ℕ
    pub all_old : length es ≤ events
    pub some_new : events ≤ length es + length es'
    pub last_state : ℕ × S
    pub caught_up : catch_up apply (base + 1) (take events (es ++ es')) p ≡ ok last_state
    pub kept : Bytes
    pub encoded : encode_events codec base 0 (take events (es ++ es')) ≡ ok kept
    pub outcome : out ≡ ok (20 + length kept, last_state)

  -- After an append whose writes may stop at any byte, the replay either is refused, because an intact
  -- record seems to follow the cut, or brings back all events from before the batch and some first part
  -- of the batch's, applied in order to the checkpoint.
  pub append_crash :
      (outcome : ℕ → Write) (sync stored : Bool) (es es' : List E) (base : ℕ) (log file' : Bytes)
      (p q : ℕ × S)
      → base + length (es ++ es') + 1 < 2 ^ 64
      → base ≤ p.0
      → encode_events codec base 0 es ≡ ok log
      → append_events codec outcome sync (base + length es) es' (wal_header base ++ log)
        ≡ ok (file', stored)
      → catch_up apply (base + 1) (es ++ es') p ≡ ok q
      → let out = replay codec apply file' p in
        (out ≡ err interior_corruption) ⊎ Survived es es' base p out
  append_crash outcome sync stored es es' base log file' p q small covered enc app up =
      let a = appended codec outcome sync (base + length es) es' _ file' stored app in
      let n = length log + a.size in
      let file : file' ≡ wal_header base ++ take n (log ++ a.batch) =
        a.part
        ∙ append_assoc (wal_header base) log (take a.size a.batch)
        ∙ ap (λ l. wal_header base ++ l) (sym (take-append log a.batch a.size)) in
      let enc' = joined_log codec law es es' base log a.batch small enc a.encoded in
      let total = length-append es es' in
      elim (replay_cut codec law apply (es ++ es') base n (log ++ a.batch) p q small covered enc'
        up) [
          | inl refused ↦ inl (ap (λ f. replay codec apply f p) file ∙ refused)
          | inr (loop, r, start) ↦ inr (record {
            events = r.events;
            all_old = elim r.all_or_cut [
              | inl all ↦ omega (arith, all, total)
              | inr (b, part, cut) ↦
                  old_kept codec law es es' base a.size r.events log b small enc part cut
            ];
            some_new = omega (arith, r.some_of_them, total);
            last_state = r.last_state;
            caught_up =
                ap (λ k. catch_up apply k (take r.events (es ++ es')) p) (omega arith)
                ∙ r.caught_up;
            kept = r.kept;
            encoded = r.encoded;
            outcome =
                ap (λ f. replay codec apply f p) file
                ∙ start
                ∙ ap (after_header codec law apply) r.outcome;
          })
        ]
