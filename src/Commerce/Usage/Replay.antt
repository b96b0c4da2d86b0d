-- ===== src/Commerce/Usage/Replay.antt =====
-- `SettleUsageBatch` of internal/commerce/usage_batch.go, called again on the tables it has written.
use traffic_forwarding_panel.Prelude.{
  ℕ, ◌+◌, ◌-◌, ◌≡◌, refl, ap, inl, inr, Option-cases, some, none, true, List, [], ◌∷◌, ◌++◌, All,
  arith, ==_refl, leb, length,
}
use traffic_forwarding_panel.Prelude.Assoc.{Assoc, lookup, insert, lookup-insert}
use traffic_forwarding_panel.Commerce.Rate.{ceil_charge}
use traffic_forwarding_panel.Prelude.Fallible.{ok, Fallible-cases, ok-injective}
use traffic_forwarding_panel.Commerce.Tables.{UsageRow, Db}
use traffic_forwarding_panel.Contract.Usage.{UsageRecord, Texts}
use traffic_forwarding_panel.Commerce.Usage.{
  Live, Tally, distinct, unrecorded, load, settle_one, settle_all, write_leases, write_charges,
  write_usage, settle_usage_batch,
}

-- The table holds the record with its payload.
abbrev pub IsRecorded : Texts → Assoc UsageRow → UsageRecord → Type 0
IsRecorded t rows u = (row : UsageRow) × (lookup u.id rows ≡ some row) × (row.payload ≡ t.marshal u)

write_usage-free :
    (j : ℕ) (new : UsageRow) (news rows : Assoc UsageRow) {rows' : Assoc UsageRow}
    → write_usage ((j, new) ∷ news) rows ≡ ok rows'
    → (lookup j rows ≡ none) × (write_usage news (insert j new rows) ≡ ok rows')
unfolding write_usage
write_usage-free j new news rows h = ground arith

-- Nothing is removed or changed by the insertion of new keys.
write_usage-keeps :
    (news rows rows' : Assoc UsageRow) (k : ℕ) (row : UsageRow)
    → write_usage news rows ≡ ok rows'
    → lookup k rows ≡ some row
    → lookup k rows' ≡ some row
unfolding write_usage
write_usage-keeps [] rows rows' k row h e = rw (ok-injective h) at e
write_usage-keeps ((j, new) ∷ news) rows rows' k row h e =
    let (free, rest) = write_usage-free j new news rows h in
    write_usage-keeps news (insert j new rows) rows' k row rest
      (ground (arith, lookup-insert j k new rows))

-- Every new row is in the table afterwards.
write_usage-All :
    (news rows rows' : Assoc UsageRow)
    → write_usage news rows ≡ ok rows'
    → All (λ e. lookup e.0 rows' ≡ some e.1) news
unfolding write_usage
write_usage-All [] rows rows' h = tt
write_usage-All ((j, new) ∷ news) rows rows' h =
    let (free, rest) = write_usage-free j new news rows h in
    (
      write_usage-keeps news (insert j new rows) rows' j new rest
          (ground (arith, lookup-insert j j new rows)),
      write_usage-All news (insert j new rows) rows' rest,
    )

All-append {ℓ} :
    {A : Type 0} (P : A → Type ℓ) (xs ys : List A) → All P (xs ++ ys) → All P xs × All P ys
All-append P [] ys h = (tt, h)
All-append P (x ∷ xs) ys (p, h) = let (a, b) = All-append P xs ys h in ((p, a), b)

-- A round adds one row, which holds the payload of its record.
settle_one-inserts :
    (t : Texts) (u : UsageRecord) (s s' : Tally)
    → settle_one t u s ≡ ok s'
    → (charged : ℕ) × (s'.inserts
        ≡ s.inserts
          ++ ((u.id, record { lease = u.lease; payload = t.marshal u; charged = charged }) ∷ []))
unfolding settle_one
settle_one-inserts t u s s' h = elim (Option-cases (lookup u.lease s.leases)) [
  | inl missing ↦ absurd (ground arith)
  | inr (l, e) ↦ (
    ceil_charge (l.used + (u.upload + u.download)) l.mult - ceil_charge l.used l.mult,
    ground arith,
  )
]

-- The rows that the charging loop prepares hold the payloads of its records.
settle_all-IsRecorded :
    (t : Texts) (us : List UsageRecord) (s s' : Tally) (rows' : Assoc UsageRow)
    → settle_all t us s ≡ ok s'
    → All (λ e. lookup e.0 rows' ≡ some e.1) s'.inserts
    → All (λ e. lookup e.0 rows' ≡ some e.1) s.inserts × All (IsRecorded t rows') us
unfolding settle_all
settle_all-IsRecorded t [] s s' rows' h a =
    (rw (ap (λ (x : Tally). x.inserts) (ok-injective h)) a, tt)
settle_all-IsRecorded t (u ∷ us) s s' rows' h a = elim (Fallible-cases (settle_one t u s)) [
  | inl (e, failed) ↦ absurd (ground arith)
  | inr (m, one) ↦
      let (here, rest) = settle_all-IsRecorded t us m s' rows' (rw one at h) a in
      let (charged, new) = settle_one-inserts t u s m one in
      let row : UsageRow = record { lease = u.lease; payload = t.marshal u; charged = charged } in
      let (old, last) =
        All-append (λ (e : ℕ × UsageRow). lookup e.0 rows' ≡ some e.1) s.inserts ((u.id, row) ∷ [])
          (rw new at here) in
      (old, ((row, last.0, refl), rest))
]

-- What was unrecorded before is recorded now, so nothing is left.
unrecorded-nil :
    (t : Texts) (rows rows' : Assoc UsageRow) (us fresh : List UsageRecord)
    → unrecorded t rows us ≡ ok fresh
    → ((k : ℕ) (row : UsageRow) → lookup k rows ≡ some row → lookup k rows' ≡ some row)
    → All (IsRecorded t rows') fresh
    → unrecorded t rows' us ≡ ok []
unfolding unrecorded
unrecorded-nil t rows rows' [] fresh h keep a = refl
unrecorded-nil t rows rows' (u ∷ us) fresh h keep a = elim (Fallible-cases (unrecorded t rows us)) [
  | inl (e, failed) ↦ absurd (ground arith)
  | inr (rest, one) ↦ elim (Option-cases (lookup u.id rows)) [
    | inl new ↦
        let found : fresh ≡ u ∷ rest = ground arith in
        let b : All (IsRecorded t rows') (u ∷ rest) = rw found at a in
        let again = unrecorded-nil t rows rows' us rest one keep b.1 in
        ground (arith, ==_refl (t.marshal u))
    | inr (row, old) ↦
        let found : fresh ≡ rest = ground arith in
        let again = unrecorded-nil t rows rows' us rest one keep (rw found at a) in
        ground (arith, keep u.id row)
  ]
]

-- Where the charging loop starts.
abbrev loaded : Assoc Live → Tally
loaded leases = record { leases = leases; charges = []; inserts = [] }

-- The stages of a batch that succeeded.
record Stages (t : Texts) (records : List UsageRecord) (db db' : Db) : Type 0 where
  unique : List UsageRecord
  fresh : List UsageRecord
  s : Tally
  s' : Tally
  short : leb (length records) 500 ≡ true
  once : distinct t records [] ≡ ok unique
  left : unrecorded t db.usage unique ≡ ok fresh
  start : s.inserts ≡ []
  settled : settle_all t fresh s ≡ ok s'
  stored : write_usage s'.inserts db.usage ≡ ok db'.usage

stages :
    (t : Texts) (u : UsageRecord) (us : List UsageRecord) (db db' : Db)
    → settle_usage_batch t (u ∷ us) db ≡ ok db'
    → Stages t (u ∷ us) db db'
unfolding settle_usage_batch
stages t u us db db' h = elim (Fallible-cases (distinct t (u ∷ us) [])) [
  | inl (e, failed) ↦ absurd (ground arith)
  | inr (unique, unique_eq) ↦ elim (Fallible-cases (unrecorded t db.usage unique)) [
    | inl (e, failed) ↦ absurd (ground arith)
    | inr (fresh, fresh_eq) ↦ elim (Fallible-cases (load db fresh)) [
      | inl (e, failed) ↦ absurd (ground arith)
      | inr (leases, leases_eq) ↦ elim (Fallible-cases (settle_all t fresh (loaded leases))) [
        | inl (e, failed) ↦ absurd (ground arith)
        | inr (s, s_eq) ↦ elim (Fallible-cases (write_leases s.leases db.reservations db.leases)) [
          | inl (e, failed) ↦ absurd (ground arith)
          | inr (rows, rows_eq) ↦ elim (Fallible-cases (write_charges s.charges db.entitlements)) [
            | inl (e, failed) ↦ absurd (ground arith)
            | inr (entitlements, entitlements_eq) ↦
                elim (Fallible-cases (write_usage s.inserts db.usage)) [
                  | inl (e, failed) ↦ absurd (ground arith)
                  | inr (usage, usage_eq) ↦ record {
                    unique = unique;
                    fresh = fresh;
                    s = loaded leases;
                    s' = s;
                    short = ground arith;
                    once = unique_eq;
                    left = fresh_eq;
                    start = refl;
                    settled = s_eq;
                    stored = ground arith;
                  }
                ]
          ]
        ]
      ]
    ]
  ]
]

-- A batch whose settlement succeeded may be settled again: the second settlement succeeds too and
-- leaves every table as it was.
pub settle_idempotent :
    (t : Texts) (records : List UsageRecord) (db db' : Db)
    → settle_usage_batch t records db ≡ ok db'
    → settle_usage_batch t records db' ≡ ok db'
unfolding settle_usage_batch load settle_all write_leases write_charges write_usage
settle_idempotent t [] db db' h = refl
settle_idempotent t (u ∷ us) db db' h =
    let g = stages t u us db db' h in
    let (_, recorded) =
      settle_all-IsRecorded t g.fresh g.s g.s' db'.usage g.settled
        (write_usage-All g.s'.inserts db.usage db'.usage g.stored) in
    let keep = λ (k : ℕ) (row : UsageRow).
      write_usage-keeps g.s'.inserts db.usage db'.usage k row g.stored in
    let again = unrecorded-nil t db.usage db'.usage g.unique g.fresh g.left keep recorded in
    ground (arith, g.short, g.once, again)
