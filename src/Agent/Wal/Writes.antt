-- ===== src/Agent/Wal/Writes.antt =====
-- The writes of `appendEvents` (internal/agent/wal.go), which may stop at any byte.
use traffic_forwarding_panel.Prelude.{
  none_ne, ℕ, zero, suc, ◌+◌, ◌≡◌, refl, sym, ◌∙◌, ap, ◌⊎◌, inl, inr, Bool, false, ◌||◌, Bool-cases,
  none, Option-cases, List, [], ◌∷◌, ◌++◌, length, ltb, ◌==◌, arith,
}
use traffic_forwarding_panel.Prelude.Fallible.{err_ne, ok, Fallible-cases, ok-injective}
use traffic_forwarding_panel.Prelude.Bytes.{Bytes, take, drop, take_more, take-drop}
use traffic_forwarding_panel.Agent.Wal.{
  append_events, write_all, Write, wrote, failed_after, Codec, encode_events,
}

write_cases : (o : Write) → ((n : ℕ) × (o ≡ failed_after n)) ⊎ ((n : ℕ) × (o ≡ wrote n))
write_cases (failed_after n) = inl (n, refl)
write_cases (wrote n) = inr (n, refl)

-- What is in the file of a batch, whatever the writes do, is a first part of it.
write_all-take :
    (fuel : ℕ) (outcome : ℕ → Write) (i : ℕ) (batch : Bytes)
    → (n : ℕ) × ((write_all fuel outcome i batch).0 ≡ take n batch)
unfolding write_all
write_all-take fuel outcome i [] = (0, refl)
write_all-take zero outcome i (x ∷ p) = (0, refl)
write_all-take (suc fuel) outcome i (x ∷ p) = elim (write_cases (outcome i)) [
  | inl (n, failed) ↦ (n, rw (write_all, failed) refl)
  | inr (n, done) ↦ elim (Bool-cases (n == 0 || ltb (length (x ∷ p)) n)) [
    | inl short ↦ (n, rw (write_all, done, short) refl)
    | inr some_bytes ↦
        let (m, rest) = write_all-take fuel outcome (i + 1) (drop n (x ∷ p)) in
        (
          n + m,
          rw (write_all, done, some_bytes)
              (ap (λ r. take n (x ∷ p) ++ r) rest ∙ sym (take_more n m (x ∷ p) (ground arith))),
        )
  ]
]

-- Where no write failed, it is the batch.
write_all-whole :
    (fuel : ℕ) (outcome : ℕ → Write) (i : ℕ) (batch : Bytes)
    → (write_all fuel outcome i batch).1 ≡ none
    → (write_all fuel outcome i batch).0 ≡ batch
unfolding write_all
write_all-whole fuel outcome i [] h = refl
write_all-whole zero outcome i (x ∷ p) h = absurd (none_ne (sym h))
write_all-whole (suc fuel) outcome i (x ∷ p) h = elim (write_cases (outcome i)) [
  | inl (n, failed) ↦ absurd (none_ne (sym (rw (write_all, failed) at h)))
  | inr (n, done) ↦ elim (Bool-cases (n == 0 || ltb (length (x ∷ p)) n)) [
    | inl short ↦ absurd (none_ne (sym (rw (write_all, done, short) at h)))
    | inr some_bytes ↦
        let rest =
          write_all-whole fuel outcome (i + 1) (drop n (x ∷ p))
            (rw (write_all, done, some_bytes) at h) in
        rw (write_all, done, some_bytes) (ap (λ r. take n (x ∷ p) ++ r) rest ∙ take-drop n (x ∷ p))
  ]
]

module _ {E : Type 0} (codec : Codec E) where
  -- What an append leaves: the file, a part of the batch, and all of it where it counts as stored.
  pub record Appended (seq : ℕ) (es : List E) (file file' : Bytes) (stored : Bool) : Type 0 where
    pub batch : Bytes
    pub encoded : encode_events codec seq 0 es ≡ ok batch
    pub size : ℕ
    pub part : file' ≡ file ++ take size batch
    pub everything : (stored ≡ false) ⊎ (file' ≡ file ++ batch)

  pub appended :
      (outcome : ℕ → Write) (sync : Bool) (seq : ℕ) (es : List E) (file file' : Bytes)
      (stored : Bool)
      → append_events codec outcome sync seq es file ≡ ok (file', stored)
      → Appended seq es file file' stored
  unfolding append_events
  appended outcome sync seq es file file' stored h =
      elim (Fallible-cases (encode_events codec seq 0 es)) [
        | inl (why, failed) ↦ absurd (err_ne (rw (append_events, failed) at h))
        | inr (batch, enc) ↦
            let done = ok-injective (rw (append_events, enc) at h) in
            let (n, some_of_it) = write_all-take (length batch) outcome 0 batch in
            let w = write_all (length batch) outcome 0 batch in
            record {
              batch = batch;
              encoded = enc;
              size = n;
              part = sym (ap (λ r. r.0) done) ∙ ap (λ b. file ++ b) some_of_it;
              everything = elim (Option-cases w.1) [
                | inl fine ↦ inr (
                    sym (ap (λ r. r.0) done)
                    ∙ ap (λ b. file ++ b) (write_all-whole (length batch) outcome 0 batch fine))
                | inr (e, failed) ↦ inl (sym (ap (λ r. r.1) done) ∙ rw failed refl)
              ];
            }
      ]
