-- ===== src/Commerce/Usage.antt =====
-- internal/commerce/usage_batch.go: a batch of usage facts is checked, deduplicated, charged to its
-- leases and entitlements, and recorded.
pub mod Charges
pub mod Replay
mod Examples
use traffic_forwarding_panel.Prelude.{
  ℕ, ◌+◌, ◌-◌, ◌^◌, ◌&&◌, ◌||◌, Bool, true, false, not, Option, none, some, List, [], ◌∷◌, ◌++◌,
  length, ltb, leb, ◌==◌, if◌then◌else◌,
}
use traffic_forwarding_panel.Prelude.Assoc.{Assoc, lookup, insert}
use traffic_forwarding_panel.Contract.Usage.{UsageRecord, Texts, valid_window_metadata}
use traffic_forwarding_panel.Commerce.Rate.{Rat, is_positive, ceil_charge}
use traffic_forwarding_panel.Prelude.Fallible.{ok, err, ◌>>=◌, ◌>>◌, guard, or_err}
use traffic_forwarding_panel.Commerce.Tables.{
  Error, invalid_multiplier, conflict, duplicate_key, batch_too_long, invalid_metadata,
  invalid_usage, outside_lease, lease_exceeded, charge_overflow, Result, Entitlement, LeaseRow,
  Reservation, UsageRow, Db, insert_new,
}

abbrev pub max_int64 : ℕ
max_int64 = 2 ^ 63 - 1

-- The local type `lease` of the function.
pub record Live : Type 0 where
  pub node : ℕ
  pub rule : ℕ
  pub ent : ℕ
  pub expiry : ℕ
  pub budget : ℕ
  pub before : ℕ
  pub used : ℕ
  pub closed : Bool
  pub mult : Rat

unfoldable pub valid_usage : Texts → UsageRecord → Bool
valid_usage t u =
    not (u.id == 0)
    && leb (t.len u.id) 128
    && leb u.upload (max_int64 - u.download)
    && leb u.download max_int64
    && not (u.started == 0)
    && leb u.started u.ended

-- The first loop: valid records, each identifier once, with the payloads seen.
unfoldable pub distinct : Texts → List UsageRecord → Assoc ℕ → Result (List UsageRecord)
distinct t [] payloads = ok []
distinct t (u ∷ us) payloads =
    let known = distinct t us payloads in
    let fresh = distinct t us (insert u.id (t.marshal u) payloads) in
    if not (valid_window_metadata t u)
    then err invalid_metadata
    else if not (valid_usage t u)
    then err invalid_usage
    else elim (lookup u.id payloads) [
      | some old ↦ if old == t.marshal u then known else err conflict
      | none ↦ do rest ← fresh; ok (u ∷ rest)
    ]

-- The records that commerce_usage does not hold; one held with another payload is a conflict.
unfoldable pub unrecorded : Texts → Assoc UsageRow → List UsageRecord → Result (List UsageRecord)
unrecorded t rows [] = ok []
unrecorded t rows (u ∷ us) = do
  rest ← unrecorded t rows us
  elim (lookup u.id rows) [
    | none ↦ ok (u ∷ rest)
    | some row ↦ if row.payload == t.marshal u then ok rest else err conflict
  ]

abbrev pub is_closed : Option Reservation → Bool
is_closed none = false
is_closed (some r) = r.closed

-- One row of commerce_leases as it is scanned, with the state of its reservation.
unfoldable pub scan : LeaseRow → Bool → Result Live
scan l closed = elim l.mult [
  | none ↦ err invalid_multiplier
  | some m ↦
      if is_positive m
      then ok (record {
        node = l.node;
        rule = l.rule;
        ent = l.ent;
        expiry = l.expires;
        budget = l.bytes;
        before = l.used;
        used = l.used;
        closed = closed;
        mult = m;
      })
      else err invalid_multiplier
]

-- The leases that the fresh records name; a lease without a row is left out.
unfoldable pub load : Db → List UsageRecord → Result (Assoc Live)
load db [] = ok []
load db (u ∷ us) = do
  rest ← load db us
  elim (lookup u.lease db.leases) [
    | none ↦ ok rest
    | some row ↦ do
      l ← scan row (is_closed (lookup u.lease db.reservations))
      ok (insert u.lease l rest)
  ]

-- What the charging loop carries: the leases, `charges` by entitlement, and the rows to insert.
pub record Tally : Type 0 where
  pub leases : Assoc Live
  pub charges : Assoc ℕ
  pub inserts : Assoc UsageRow

-- A missing key of a Go map of numbers reads as 0.
abbrev pub count_of : ℕ → Assoc ℕ → ℕ
count_of k m = elim (lookup k m) [ none ↦ 0 | some n ↦ n ]

unfoldable pub within : UsageRecord → Live → Bool
within u l =
    not l.closed && l.node == u.node && l.rule == u.rule && l.ent == u.ent && leb u.ended l.expiry

-- One round of the charging loop.
unfoldable pub settle_one : Texts → UsageRecord → Tally → Result Tally
settle_one t u s = do
  l ← or_err (lookup u.lease s.leases) outside_lease
  guard (within u l) outside_lease
  let raw = u.upload + u.download
  guard (leb l.used l.budget && leb raw (l.budget - l.used)) lease_exceeded
  let owed = ceil_charge (l.used + raw) l.mult
  let paid = ceil_charge l.used l.mult
  let delta = owed - paid
  guard (leb paid owed && leb delta max_int64) charge_overflow
  guard (leb (count_of l.ent s.charges) (max_int64 - delta)) charge_overflow
  ok (record {
    leases = insert u.lease (record l { used = l.used + raw }) s.leases;
    charges = insert l.ent (count_of l.ent s.charges + delta) s.charges;
    inserts =
        s.inserts
        ++ ((u.id, record { lease = u.lease; payload = t.marshal u; charged = delta }) ∷ []);
  })

unfoldable pub settle_all : Texts → List UsageRecord → Tally → Result Tally
settle_all t [] s = ok s
settle_all t (u ∷ us) s = do s' ← settle_one t u s; settle_all t us s'

-- The compare-and-swap on commerce_leases, guarded by an open reservation.
unfoldable pub write_leases :
    Assoc Live → Assoc Reservation → Assoc LeaseRow → Result (Assoc LeaseRow)
write_leases [] reservations rows = ok rows
write_leases ((k, l) ∷ ls) reservations rows = do
  rest ← write_leases ls reservations rows
  if l.used == l.before then ok rest else elim (lookup k rest) [
    | none ↦ err conflict
    | some row ↦
        if row.used == l.before && not (is_closed (lookup k reservations))
        then ok (insert k (record row { used = row.used + (l.used - l.before) }) rest)
        else err conflict
  ]

unfoldable pub write_charges : Assoc ℕ → Assoc Entitlement → Result (Assoc Entitlement)
write_charges [] rows = ok rows
write_charges ((k, delta) ∷ cs) rows = do
  rest ← write_charges cs rows
  if delta == 0 then ok rest else elim (lookup k rest) [
    | none ↦ err conflict
    | some e ↦ ok (insert k (record e { used = e.used + delta }) rest)
  ]

unfoldable pub write_usage : Assoc UsageRow → Assoc UsageRow → Result (Assoc UsageRow)
write_usage [] rows = ok rows
write_usage ((k, row) ∷ news) rows = do rest ← insert_new k row rows; write_usage news rest

unfoldable pub settle_usage_batch : Texts → List UsageRecord → Db → Result Db
settle_usage_batch t [] db = ok db
settle_usage_batch t records db = do
  guard (leb (length records) 500) batch_too_long
  unique ← distinct t records []
  fresh ← unrecorded t db.usage unique
  leases ← load db fresh
  s ← settle_all t fresh (record { leases = leases; charges = []; inserts = [] })
  rows ← write_leases s.leases db.reservations db.leases
  entitlements ← write_charges s.charges db.entitlements
  usage ← write_usage s.inserts db.usage
  ok (record db { entitlements = entitlements; leases = rows; usage = usage })

unfoldable pub settle_usage : Texts → UsageRecord → Db → Result Db
settle_usage t u = settle_usage_batch t (u ∷ [])
