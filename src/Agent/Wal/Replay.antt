-- ===== src/Agent/Wal/Replay.antt =====
-- What the replay of internal/agent/wal.go brings back from a log that was written whole or in part.
use traffic_forwarding_panel.Prelude.{
  ℕ, zero, suc, ◌+◌, ◌%◌, ◌^◌, ◌≤◌, ◌<◌, ◌≡◌, refl, sym, ◌∙◌, ap, inl, inr, true, false, Bool-cases,
  some, Option-cases, List, [], ◌∷◌, ◌++◌, length, length-append, ltb, leb, arith, if◌then◌else◌,
}
use traffic_forwarding_panel.Prelude.Fallible.{
  err_ne, Fallible, ok, ◌>>=◌, Fallible-cases, ok-injective,
}
use traffic_forwarding_panel.Prelude.Bytes.{Bytes, drop, drop-append}
use traffic_forwarding_panel.Agent.Wal.{
  max_wal_record, record_bytes, Codec, Error, read_frame, encode_record, encode_events,
  replay_event, follow_frame, replay_loop,
}
use traffic_forwarding_panel.Agent.Wal.Records.{Fits, length-record_bytes, read-record_bytes}

-- What the replay relies on: the decoder gives back the event, and a payload has some byte.
pub record IsCodec {E : Type 0} (codec : Codec E) : Type 0 where
  pub decodes : (e : E) (b : Bytes) → codec.marshal e ≡ some b → codec.decode b ≡ some e
  pub some_bytes : (e : E) (b : Bytes) → codec.marshal e ≡ some b → 0 < length b

-- The events that a state with the last sequence number still lacks, applied in order; the first of
-- the list has the number `next`.
unfoldable pub catch_up :
    {E S R : Type 0} → (E → S → Fallible R S) → ℕ → List E → ℕ × S → Fallible R (ℕ × S)
catch_up apply next [] p = ok p
catch_up apply next (e ∷ es) (last, s) =
    if ltb last next
    then (do s' ← apply e s; catch_up apply (next + 1) es (next, s'))
    else catch_up apply (next + 1) es (last, s)

-- A batch that was encoded, by its first record and the rest.
pub record Encoded {E : Type 0} (codec : Codec E) (seq i : ℕ) (e : E) (es : List E) (log : Bytes)
    : Type 0 where
  pub payload : Bytes
  pub marshalled : codec.marshal e ≡ some payload
  pub fits : Fits (seq + i + 1) payload
  pub rest : Bytes
  pub encoded : encode_events codec seq (i + 1) es ≡ ok rest
  pub joined : log ≡ record_bytes (seq + i + 1) payload ++ rest
  pub more :
      (es' : List E) (b : Bytes)
      → encode_events codec seq (i + 1) es' ≡ ok b
      → encode_events codec seq i (e ∷ es') ≡ ok (record_bytes (seq + i + 1) payload ++ b)

module _ {E : Type 0} (codec : Codec E) (law : IsCodec codec) where
  pub first_record :
      (seq i : ℕ) (e : E) (es : List E) (log : Bytes)
      → seq + i + 1 < 2 ^ 64
      → encode_events codec seq i (e ∷ es) ≡ ok log
      → Encoded codec seq i e es log
  unfolding encode_events encode_record
  first_record seq i e es log small h =
      let next = seq + i + 1 in
      let wrap : next % 2 ^ 64 ≡ next = omega arith in
      let after : leb next seq ≡ false = ground arith in
      elim (Option-cases (codec.marshal e)) [
        | inl none_at ↦
            absurd (err_ne (rw (encode_events, wrap, after, encode_record, none_at) at h))
        | inr (payload, some_at) ↦ elim (Bool-cases (ltb max_wal_record (length payload))) [
          | inl large ↦
              absurd (err_ne (rw (encode_events, wrap, after, encode_record, some_at, large) at h))
          | inr small_payload ↦ elim (Fallible-cases (encode_events codec seq (i + 1) es)) [
            | inl (why, failed) ↦ absurd (
                err_ne (
                  rw (encode_events, wrap, after, encode_record, some_at, small_payload, failed) at
                    h))
            | inr (rest, done) ↦ record {
              payload = payload;
              marshalled = some_at;
              fits = record {
                seq_fits = small;
                some_bytes = law.some_bytes e payload some_at;
                few_bytes = ground arith;
              };
              rest = rest;
              encoded = done;
              joined = sym (
                  ok-injective (
                    rw
                      (
                        encode_events, wrap, after, encode_record, some_at, small_payload, done,
                        wrap,
                      )
                      at h));
              more = λ es' b d.
                  rw (encode_events, wrap, after, encode_record, some_at, small_payload, d, wrap)
                    refl;
            }
          ]
        ]
      ]

  pub length-log :
      (seq i : ℕ) (e : E) (es : List E) (log : Bytes) (x : Encoded codec seq i e es log)
      → length log ≡ 24 + length x.payload + length x.rest
  length-log seq i e es log x =
      rw
        (
          x.joined,
          length-append (record_bytes (seq + i + 1) x.payload) x.rest,
          length-record_bytes (seq + i + 1) x.payload,
        )
        refl

module _ {E S R : Type 0} (codec : Codec E) (law : IsCodec codec)
    (apply : E → S → Fallible R S) where
  abbrev pub Outcome : Type 0
  Outcome = Fallible Error (ℕ × (ℕ × S))

  -- The outcome of the loop, with the bytes of a record kept before those of the rest.
  unfoldable pub kept_more : ℕ → Outcome → Outcome
  kept_more n r = do (kept, q) ← r; ok (n + kept, q)

  pub loop-some :
      (fuel next : ℕ) (rest : Bytes) (p : ℕ × S)
      → 0 < length rest
      → replay_loop codec apply (suc fuel) next rest p ≡ (do
        frame ← read_frame next rest
        follow_frame codec apply frame rest p
            (λ rest' p'. replay_loop codec apply fuel ((next + 1) % 2 ^ 64) rest' p'))
  unfolding replay_loop
  loop-some fuel next [] p h = absurd (omega arith)
  loop-some fuel next (x ∷ rest) p h = refl

  -- The loop on bytes that begin with the next record.
  pub loop-record :
      (fuel next : ℕ) (e : E) (payload tail : Bytes) (p : ℕ × S)
      → Fits next payload
      → replay_loop codec apply (suc fuel) next (record_bytes next payload ++ tail) p ≡ (do
        p' ← replay_event codec apply next payload p
        kept_more
            (24 + length payload)
            (replay_loop codec apply fuel ((next + 1) % 2 ^ 64) tail p'))
  unfolding replay_loop kept_more follow_frame
  loop-record fuel next e payload tail p f =
      let log = record_bytes next payload ++ tail in
      let long : 0 < length log =
        omega (
          arith,
          length-append (record_bytes next payload) tail,
          length-record_bytes next payload,
        ) in
      let gone : drop (24 + length payload) log ≡ tail =
        ap (λ k. drop k log) (sym (length-record_bytes next payload))
        ∙ drop-append (record_bytes next payload) tail in
      loop-some fuel next log p long
      ∙ rw (read-record_bytes next payload tail f, follow_frame, gone) refl

  event-replayed :
      (next : ℕ) (e : E) (payload : Bytes) (last : ℕ) (s : S)
      → codec.decode payload ≡ some e
      → ltb last next ≡ true
      → (s' : S) → apply e s ≡ ok s'
      → replay_event codec apply next payload (last, s) ≡ ok (next, s')
  unfolding replay_event
  event-replayed next e payload last s decoded new s' applied =
      rw (replay_event, new, decoded, applied) refl

  event_passed :
      (next : ℕ) (payload : Bytes) (last : ℕ) (s : S)
      → ltb last next ≡ false
      → replay_event codec apply next payload (last, s) ≡ ok (last, s)
  unfolding replay_event
  event_passed next payload last s old = rw (replay_event, old) refl

  -- One event is replayed as it is caught up with.
  pub catch_one :
      (next : ℕ) (e : E) (es : List E) (payload : Bytes) (p q : ℕ × S)
      → codec.marshal e ≡ some payload
      → catch_up apply next (e ∷ es) p ≡ ok q
      → (p' : ℕ × S) × (replay_event codec apply next payload p ≡ ok p')
        × (catch_up apply (next + 1) es p' ≡ ok q)
        × ((es' : List E) → catch_up apply next (e ∷ es') p ≡ catch_up apply (next + 1) es' p')
  unfolding catch_up
  catch_one next e es payload (last, s) q m h = elim (Bool-cases (ltb last next)) [
    | inr old ↦ (
      (last, s),
      event_passed next payload last s old,
      rw (catch_up, old) at h,
      λ es'. rw (catch_up, old) refl,
    )
    | inl new ↦ elim (Fallible-cases (apply e s)) [
      | inl (why, failed) ↦ absurd (err_ne (rw (catch_up, new, failed) at h))
      | inr (s', applied) ↦ (
        (next, s'),
        event-replayed next e payload last s (law.decodes e payload m) new s' applied,
        rw (catch_up, new, applied) at h,
        λ es'. rw (catch_up, new, applied) refl,
      )
    ]
  ]

  pub loop-log :
      (es : List E) (seq i fuel : ℕ) (log : Bytes) (p q : ℕ × S)
      → seq + i + length es + 1 < 2 ^ 64
      → encode_events codec seq i es ≡ ok log
      → catch_up apply (seq + i + 1) es p ≡ ok q
      → length log ≤ fuel
      → replay_loop codec apply fuel (seq + i + 1) log p ≡ ok (length log, q)
  unfolding encode_events catch_up replay_loop kept_more
  loop-log [] seq i fuel log p q small enc up enough =
      let nothing : [] ≡ log = ok-injective enc in
      ap (λ l. replay_loop codec apply fuel (seq + i + 1) l p) (sym nothing)
      ∙ rw (sym nothing, ok-injective up) refl
  loop-log (e ∷ es) seq i zero log p q small enc up enough =
      let x = first_record codec law seq i e es log (omega (arith, small)) enc in
      absurd (omega (arith, length-log codec law seq i e es log x, enough))
  loop-log (e ∷ es) seq i (suc fuel) log p q small enc up enough =
      let x = first_record codec law seq i e es log (omega (arith, small)) enc in
      let next = seq + i + 1 in
      let (p', one, more, _) = catch_one next e es x.payload p q x.marshalled up in
      let shift : next + 1 ≡ seq + (i + 1) + 1 = omega arith in
      let wrap : (next + 1) % 2 ^ 64 ≡ seq + (i + 1) + 1 = omega (arith, small) in
      let size = length-log codec law seq i e es log x in
      let ih =
        loop-log es seq (i + 1) fuel x.rest p' q (omega (arith, small)) x.encoded (rw shift at more)
          (omega (arith, size, enough)) in
      ap (λ l. replay_loop codec apply (suc fuel) next l p) x.joined
      ∙ loop-record fuel next e x.payload x.rest p x.fits
      ∙ rw (one, wrap, ih, kept_more, size) refl
