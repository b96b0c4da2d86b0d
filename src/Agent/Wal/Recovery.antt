-- ===== src/Agent/Wal/Recovery.antt =====
-- Recovery from a crash of the log of internal/agent/wal.go: the file holds some first part of what was
-- written.
use traffic_forwarding_panel.Prelude.{
  ℕ, zero, suc, ◌+◌, ◌-◌, ◌%◌, ◌^◌, ◌≤◌, ◌<◌, ◌≡◌, refl, sym, ◌∙◌, ap, ◌⊎◌, inl, inr, Bool-cases,
  List, [], ◌∷◌, ◌++◌, length, length-append, ltb, arith,
}
use traffic_forwarding_panel.Prelude.Fallible.{Fallible, ok, err, ok-injective}
use traffic_forwarding_panel.Prelude.Bytes.{Bytes, take, take-append, take_short, length-take}
use traffic_forwarding_panel.Agent.Wal.{
  record_bytes, Codec, Error, interior_corruption, encode_events, follow_frame, replay_loop,
}
use traffic_forwarding_panel.Agent.Wal.Records.{length-record_bytes, read-torn}
use traffic_forwarding_panel.Agent.Wal.Replay.{
  IsCodec, catch_up, Encoded, first_record, kept_more, Outcome, loop-some, loop-record, catch_one,
}

module _ {E S R : Type 0} (codec : Codec E) (apply : E → S → Fallible R S) where
  -- The outcome is that of the first `events` events: their records are kept, and the record of the
  -- next event, where there is one, is not wholly within the first `n` bytes.
  pub record Recovered (es : List E) (seq i : ℕ) (p : ℕ × S) (n : ℕ)
      (out : Fallible Error (ℕ × (ℕ × S))) : Type 0 where
    pub events : ℕ
    pub some_of_them : events ≤ length es
    pub kept : Bytes
    pub encoded : encode_events codec seq i (take events es) ≡ ok kept
    pub within : length kept ≤ n
    pub last_state : ℕ × S
    pub caught_up : catch_up apply (seq + i + 1) (take events es) p ≡ ok last_state
    pub outcome : out ≡ ok (length kept, last_state)
    pub all_or_cut :
        (events ≡ length es)
        ⊎ ((b : Bytes) × (encode_events codec seq i (take (suc events) es) ≡ ok b) × (n < length b))

fuel_cases : (fuel : ℕ) → 0 < fuel → (f : ℕ) × (fuel ≡ suc f)
fuel_cases zero h = absurd (omega arith)
fuel_cases (suc f) h = (f, refl)

take_none {ℓ} : {A : Type ℓ} (n : ℕ) → take {A = A} n [] ≡ []
take_none zero = refl
take_none (suc n) = refl

module _ {E S R : Type 0} (codec : Codec E) (law : IsCodec codec)
    (apply : E → S → Fallible R S) where
  -- No further record is whole.
  stop_here :
      (e : E) (es : List E) (seq i n : ℕ) (log : Bytes) (p : ℕ × S) (out : Outcome codec law apply)
      → (x : Encoded codec seq i e es log) → n < 24 + length x.payload
      → out ≡ ok (0, p)
      → Recovered codec apply (e ∷ es) seq i p n out
  unfolding encode_events catch_up
  stop_here e es seq i n log p out x cut h = record {
    events = 0;
    some_of_them = omega arith;
    kept = [];
    encoded = refl;
    within = omega arith;
    last_state = p;
    caught_up = refl;
    outcome = h;
    all_or_cut = inr (
      _,
      x.more [] [] refl,
      rw
          (
            length-append (record_bytes (seq + i + 1) x.payload) [],
            length-record_bytes (seq + i + 1) x.payload,
          )
          (omega (arith, cut)),
    );
  }

  -- A whole record stands before what is recovered.
  one_further :
      (e : E) (es : List E) (seq i m n : ℕ) (log : Bytes) (p p' : ℕ × S)
      (out out' : Outcome codec law apply)
      → (x : Encoded codec seq i e es log) → n ≡ 24 + length x.payload + m
      → ((es' : List E)
          → catch_up apply (seq + i + 1) (e ∷ es') p ≡ catch_up apply (seq + i + 1 + 1) es' p')
      → out ≡ kept_more codec law apply (24 + length x.payload) out'
      → Recovered codec apply es seq (i + 1) p' m out'
      → Recovered codec apply (e ∷ es) seq i p n out
  unfolding kept_more
  one_further e es seq i m n log p p' out out' x at caught h r =
      let b = record_bytes (seq + i + 1) x.payload in
      let size : (c : Bytes) → length (b ++ c) ≡ 24 + length x.payload + length c =
        λ c. length-append b c ∙ rw (length-record_bytes (seq + i + 1) x.payload) refl in
      let shift : seq + i + 1 + 1 ≡ seq + (i + 1) + 1 = omega arith in
      record {
        events = suc r.events;
        some_of_them = omega (arith, r.some_of_them);
        kept = b ++ r.kept;
        encoded = x.more (take r.events es) r.kept r.encoded;
        within = omega (arith, size r.kept, at, r.within);
        last_state = r.last_state;
        caught_up =
            caught (take r.events es)
            ∙ ap (λ k. catch_up apply k (take r.events es) p') shift
            ∙ r.caught_up;
        outcome =
            h
            ∙ ap (kept_more codec law apply (24 + length x.payload)) r.outcome
            ∙ rw (size r.kept) refl;
        all_or_cut = elim r.all_or_cut [
          | inl all ↦ inl (omega (arith, all))
          | inr (c, enc, cut) ↦
              inr (b ++ c, x.more (take (suc r.events) es) c enc, omega (arith, size c, at, cut))
        ];
      }

  cut_record :
      (e : E) (es : List E) (seq i fuel n : ℕ) (log : Bytes) (p : ℕ × S)
      → (x : Encoded codec seq i e es log) → length (take n log) ≤ fuel
      → n < 24 + length x.payload
      → let out = replay_loop codec apply fuel (seq + i + 1) (take n log) p in
        (out ≡ err interior_corruption) ⊎ Recovered codec apply (e ∷ es) seq i p n out
  unfolding replay_loop follow_frame
  cut_record e es seq i fuel zero log p x enough cut =
      inr (stop_here e es seq i 0 log p _ x cut refl)
  cut_record e es seq i fuel (suc m) log p x enough cut =
      let next = seq + i + 1 in
      let n = suc m in
      let b = record_bytes next x.payload in
      let size = length-record_bytes next x.payload in
      let part : take n log ≡ take n b =
        ap (take n) x.joined ∙ take_short b x.rest n (omega (arith, size, cut)) in
      let long : length (take n log) ≡ n =
        ap (λ l. length l) part ∙ length-take b n (omega (arith, size, cut)) in
      let (f, some_fuel) = fuel_cases fuel (omega (arith, long, enough)) in
      let start : replay_loop codec apply fuel next (take n log) p ≡ _ =
        ap (λ k. replay_loop codec apply k next (take n log) p) some_fuel
        ∙ loop-some codec law apply f next (take n log) p (omega (arith, long)) in
      elim (read-torn n next x.payload x.fits (omega arith) cut) [
        | inl torn_there ↦
            inr (stop_here e es seq i n log p _ x cut (start ∙ rw (part, torn_there) refl))
        | inr refused ↦ inl (start ∙ rw (part, refused) refl)
      ]

  cut_later :
      {e : E} (es : List E) (seq i fuel n : ℕ) (log : Bytes) (p q : ℕ × S)
      → (x : Encoded codec seq i e es log) → seq + i + length (e ∷ es) + 1 < 2 ^ 64
      → catch_up apply (seq + i + 1) (e ∷ es) p ≡ ok q
      → length (take n log) ≤ fuel
      → 24 + length x.payload ≤ n
      → ((f m : ℕ) (p' : ℕ × S)
          → catch_up apply (seq + (i + 1) + 1) es p' ≡ ok q
          → length (take m x.rest) ≤ f
          → let out = replay_loop codec apply f (seq + (i + 1) + 1) (take m x.rest) p' in
            (out ≡ err interior_corruption) ⊎ Recovered codec apply es seq (i + 1) p' m out)
      → let out = replay_loop codec apply fuel (seq + i + 1) (take n log) p in
        (out ≡ err interior_corruption) ⊎ Recovered codec apply (e ∷ es) seq i p n out
  unfolding kept_more
  cut_later {e} es seq i fuel n log p q x small up enough past ih =
      let next = seq + i + 1 in
      let b = record_bytes next x.payload in
      let size = length-record_bytes next x.payload in
      let m = n - (24 + length x.payload) in
      let at : n ≡ 24 + length x.payload + m = omega (arith, past) in
      let part : take n log ≡ b ++ take m x.rest =
        ap (take n) x.joined
        ∙ ap (λ k. take k (b ++ x.rest)) (omega (arith, at, size))
        ∙ take-append b x.rest m in
      let long : length (take n log) ≡ 24 + length x.payload + length (take m x.rest) =
        ap (λ l. length l) part ∙ length-append b (take m x.rest) ∙ rw size refl in
      let (p', one, more, caught) =
        catch_one codec law apply next e es x.payload p q x.marshalled up in
      let shift : next + 1 ≡ seq + (i + 1) + 1 = omega arith in
      let wrap : (next + 1) % 2 ^ 64 ≡ seq + (i + 1) + 1 = omega (arith, small) in
      let (f, some_fuel) = fuel_cases fuel (omega (arith, long, enough)) in
      let out' = replay_loop codec apply f (seq + (i + 1) + 1) (take m x.rest) p' in
      let start : replay_loop codec apply fuel next (take n log) p
          ≡ kept_more codec law apply (24 + length x.payload) out' =
        ap (λ k. replay_loop codec apply k next (take n log) p) some_fuel
        ∙ ap (λ l. replay_loop codec apply (suc f) next l p) part
        ∙ loop-record codec law apply f next e x.payload (take m x.rest) p x.fits
        ∙ rw (one, wrap) refl in
      elim (ih f m p' (rw shift at more) (omega (arith, long, enough, some_fuel))) [
        | inl refused ↦ inl (start ∙ rw (kept_more, refused) refl)
        | inr r ↦ inr (one_further e es seq i m n log p p' _ out' x at caught start r)
      ]

  pub cut_log :
      (es : List E) (seq i fuel n : ℕ) (log : Bytes) (p q : ℕ × S)
      → seq + i + length es + 1 < 2 ^ 64
      → encode_events codec seq i es ≡ ok log
      → catch_up apply (seq + i + 1) es p ≡ ok q
      → length (take n log) ≤ fuel
      → let out = replay_loop codec apply fuel (seq + i + 1) (take n log) p in
        (out ≡ err interior_corruption) ⊎ Recovered codec apply es seq i p n out
  unfolding encode_events catch_up replay_loop
  cut_log [] seq i fuel n log p q small enc up enough =
      let nothing : take n log ≡ [] = ap (take n) (sym (ok-injective enc)) ∙ take_none n in
      inr (record {
        events = 0;
        some_of_them = omega arith;
        kept = [];
        encoded = refl;
        within = omega arith;
        last_state = p;
        caught_up = refl;
        outcome = ap (λ l. replay_loop codec apply fuel (seq + i + 1) l p) nothing;
        all_or_cut = inl refl;
      })
  cut_log (e ∷ es) seq i fuel n log p q small enc up enough =
      let x = first_record codec law seq i e es log (omega (arith, small)) enc in
      let next = seq + i + 1 in
      let b = record_bytes next x.payload in
      elim (Bool-cases (ltb n (24 + length x.payload))) [
        | inl cut ↦ cut_record e es seq i fuel n log p x enough (ground arith)
        | inr past ↦
            cut_later es seq i fuel n log p q x small up enough (ground arith) (λ f m p' more left.
              cut_log es seq (i + 1) f m x.rest p' q (omega (arith, small)) x.encoded more left)
      ]
