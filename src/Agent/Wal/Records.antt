-- ===== src/Agent/Wal/Records.antt =====
-- The record format of internal/agent/wal.go: what is read where a record was written, whole or cut.
use traffic_forwarding_panel.Prelude.{
  ℕ, zero, suc, ◌+◌, ◌-◌, ◌^◌, ◌≤◌, ◌<◌, ◌≡◌, refl, ◌∙◌, ap, ◌⊎◌, inl, inr, min, true, false, not,
  ◌||◌, Bool-cases, [], ◌++◌, length, length-append, ltb, ◌==◌, ==_refl, arith, if◌then◌else◌,
}
use mathlib.Core.List.{append_assoc}
use traffic_forwarding_panel.Prelude.Fallible.{ok, err, ◌>>◌, fail_if}
use traffic_forwarding_panel.Prelude.Bytes.{
  Bytes, equal_bytes, take, drop, take-append, take-whole, take_short, length-take, length-drop-le,
  uint32, uint64, uint32-put_uint32, uint64-put_uint64,
}
use traffic_forwarding_panel.Agent.Wal.Crc.{update, checksum, update-lt, checksum-lt}
use traffic_forwarding_panel.Agent.Wal.{
  max_wal_record, record_magic, record_start, record_body, record_header, record_bytes,
  checksum_corruption, wal_checkpoint_bytes, any_record, torn, whole, read_tail, read_cut,
  read_record, read_frame, has_following_record, interior_corruption,
}

-- A sequence number and a payload that a record can hold.
pub record Fits (seq : ℕ) (payload : Bytes) : Type 0 where
  pub seq_fits : seq < 2 ^ 64
  pub some_bytes : 0 < length payload
  pub few_bytes : length payload ≤ max_wal_record

pub length-record_header : (seq : ℕ) (payload : Bytes) → length (record_header seq payload) ≡ 24
unfolding record_header record_body record_start
length-record_header seq payload = refl

pub length-record_bytes :
    (seq : ℕ) (payload : Bytes) → length (record_bytes seq payload) ≡ 24 + length payload
unfolding record_bytes
length-record_bytes seq payload =
    length-append (record_header seq payload) payload ∙ rw (length-record_header seq payload) refl

-- What is read from bytes that begin with the header of a record.
module _ (seq : ℕ) (payload r : Bytes) where
  abbrev pub headed : Bytes
  headed = record_header seq payload ++ r

  headed_magic : take 4 headed ≡ record_magic
  unfolding record_header record_body record_start
  headed_magic = refl

  headed_start : take 16 headed ≡ record_start seq payload
  unfolding record_header record_body record_start
  headed_start = refl

  headed_body : take 20 headed ≡ record_body seq payload
  unfolding record_header record_body record_start
  headed_body = refl

  pub headed_rest : drop 24 headed ≡ r
  unfolding record_header record_body record_start
  headed_rest = refl

  pub length-headed : length headed ≡ 24 + length r
  unfolding record_header record_body record_start
  length-headed = omega arith

  headed_size : Fits seq payload → uint32 (drop 4 headed) ≡ length payload
  unfolding record_header record_body record_start
  headed_size f = uint32-put_uint32 (length payload) [] (omega (arith, f.few_bytes))

  headed_seq : Fits seq payload → uint64 (drop 8 headed) ≡ seq
  unfolding record_header record_body record_start
  headed_seq f = uint64-put_uint64 seq [] f.seq_fits

  headed_crc : uint32 (drop 16 headed) ≡ update (checksum (record_start seq payload)) payload
  unfolding record_header record_body record_start
  headed_crc = uint32-put_uint32 _ [] (update-lt (checksum (record_start seq payload)) payload)

  headed_header_crc : uint32 (drop 20 headed) ≡ checksum (record_body seq payload)
  unfolding record_header record_body record_start
  headed_header_crc = uint32-put_uint32 _ [] (checksum-lt (record_body seq payload))

  -- After the checks of the header, the payload is looked at.
  read-headed :
      Fits seq payload
      → read_frame seq headed ≡ (
          if ltb (length r) (length payload) then read_cut seq headed else do
            fail_if
                (not (
                  update (checksum (record_start seq payload)) (take (length payload) r)
                  == update (checksum (record_start seq payload)) payload))
                checksum_corruption
            ok (whole seq (take (length payload) r)))
  unfolding read_frame read_record equal_bytes
  read-headed f =
      let long : ltb (length headed) 24 ≡ false = ground (arith, length-headed) in
      let room : length headed - 24 ≡ length r = omega (arith, length-headed) in
      let small : (length payload == 0) || ltb max_wal_record (length payload) ≡ false =
        ground (arith, f.some_bytes, f.few_bytes) in
      rw
        (
          read_frame,
          long,
          read_record,
          headed_magic,
          headed_header_crc,
          headed_body,
          headed_seq f,
          headed_size f,
          headed_start,
          headed_crc,
          headed_rest,
          room,
          ==_refl (checksum (record_body seq payload)),
          ==_refl seq,
          small,
        )
        refl

-- A whole record is read back, whatever follows it.
pub read-record_bytes :
    (seq : ℕ) (payload tail : Bytes)
    → Fits seq payload
    → read_frame seq (record_bytes seq payload ++ tail) ≡ ok (whole seq payload)
unfolding record_bytes
read-record_bytes seq payload tail f =
    let same : take (length payload) (payload ++ tail) ≡ payload = take-whole payload tail in
    let enough : ltb (length (payload ++ tail)) (length payload) ≡ false =
      ground (arith, length-append payload tail) in
    ap (read_frame seq) (append_assoc (record_header seq payload) payload tail)
    ∙ read-headed seq payload (payload ++ tail) f
    ∙ rw (enough, same, ==_refl (update (checksum (record_start seq payload)) payload)) refl

at_least_four : (n : ℕ) → min (suc (suc (suc (suc n)))) 4 ≡ 4
at_least_four n = omega arith

read_tail-torn :
    (n seq : ℕ) (payload : Bytes) → 0 < n → read_tail (take n (record_header seq payload)) ≡ ok torn
unfolding read_tail record_header record_body record_start equal_bytes
read_tail-torn zero seq payload h = absurd (omega arith)
read_tail-torn (suc zero) seq payload h = refl
read_tail-torn (suc (suc zero)) seq payload h = refl
read_tail-torn (suc (suc (suc zero))) seq payload h = refl
read_tail-torn (suc (suc (suc (suc n)))) seq payload h = rw (read_tail, at_least_four _) refl

read_cut-torn :
    (seq : ℕ) (rest : Bytes)
    → length rest ≤ max_wal_record + 24
    → (read_cut seq rest ≡ ok torn) ⊎ (read_cut seq rest ≡ err interior_corruption)
unfolding read_cut has_following_record
read_cut-torn seq rest h =
    let within : ltb (wal_checkpoint_bytes + max_wal_record) (length (drop 1 rest)) ≡ false =
      ground (arith, length-drop-le 1 rest) in
    elim (Bool-cases (any_record seq (drop 1 rest))) [
      | inl there ↦ rw (read_cut, has_following_record, within, there) (inr refl)
      | inr nowhere ↦ rw (read_cut, has_following_record, within, nowhere) (inl refl)
    ]

-- A record that is cut short is taken for a torn tail, or the replay is refused: never is another
-- record read in its place.
pub read-torn :
    (n seq : ℕ) (payload : Bytes)
    → Fits seq payload
    → 0 < n
    → n < 24 + length payload
    → let frame = read_frame seq (take n (record_bytes seq payload)) in
      (frame ≡ ok torn) ⊎ (frame ≡ err interior_corruption)
unfolding record_bytes read_frame
read-torn n seq payload f some_bytes cut = elim (Bool-cases (ltb n 24)) [
  | inl early ↦
      let h = record_header seq payload in
      let short : take n (h ++ payload) ≡ take n h =
        take_short h payload n (ground (arith, length-record_header seq payload)) in
      let size : length (take n h) ≡ n =
        length-take h n (ground (arith, length-record_header seq payload)) in
      inl (
        ap (read_frame seq) short
        ∙ rw (read_frame, size, early) (read_tail-torn n seq payload some_bytes))
  | inr late ↦
      let h = record_header seq payload in
      let j = n - 24 in
      let split : n ≡ length h + j = ground (arith, length-record_header seq payload) in
      let whole_header : take n (h ++ payload) ≡ h ++ take j payload =
        ap (λ k. take k (h ++ payload)) split ∙ take-append h payload j in
      let size : length (take j payload) ≡ j = length-take payload j (ground arith) in
      let less : ltb (length (take j payload)) (length payload) ≡ true = rw size (ground arith) in
      let read : read_frame seq (take n (h ++ payload)) ≡ read_cut seq (h ++ take j payload) =
        ap (read_frame seq) whole_header
        ∙ read-headed seq payload (take j payload) f
        ∙ rw less refl in
      rw read (
        read_cut-torn seq _
          (rw (length-headed seq payload (take j payload), size) (omega (arith, f.few_bytes, cut))))
]
