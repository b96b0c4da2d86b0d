-- ===== src/Agent/Credits/Events.antt =====
-- Write-ahead events: `validateCreditEvent` and `applyCreditEvent` of internal/agent/credits.go, and
-- the "usage" event of `applyEvent` in internal/agent/state.go.
use traffic_forwarding_panel.Prelude.{
  ℕ, ◌+◌, ◌-◌, ◌%◌, ◌^◌, ◌&&◌, ◌||◌, Bool, true, false, not, Option, none, some, List, [], ◌∷◌,
  ◌++◌, length, ltb, leb, ◌==◌, if◌then◌else◌,
}
use traffic_forwarding_panel.Prelude.Assoc.{lookup, insert, erase, total_by}
use traffic_forwarding_panel.Contract.Usage.{
  UsageRecord, Texts, Kind, recovery, valid_window_metadata,
}
use traffic_forwarding_panel.Prelude.Fallible.{ok, err, ◌>>=◌, ◌>>◌, fail_if}
use traffic_forwarding_panel.Agent.Credits.{
  max_pending_records, max_account_credits, credit_window_size, Lease, CreditWindow, limits, Store,
  invalid_credit_window, invalid_credit_reservation, credit_lease_changed, lease_unavailable,
  spool_full, exceeds_responsibility, exceeds_budget, invalid_credit_progress, invalid_credit_usage,
  unexpected_credit_usage, invalid_wal_usage, usage_after_retirement, wal_lease_missing,
  invariant_violated, Result, size, count_of, is_key, bool_eq, on_rule, on_user, in_pool,
  credit_liability, same_lease, lease_capacity_exceeded,
}

-- The kinds of `stateEvent` that move usage and credits. The other kinds, identity, config, ack, retire
-- and retire_ack, are no part of this type.
pub data CreditEvent : Type 0 where
  usage : UsageRecord → Option Lease → CreditEvent
  credit_reserve : CreditWindow → Option Lease → CreditEvent
  credit_progress : CreditWindow → Option UsageRecord → CreditEvent

abbrev pub is_recovery : Kind → Bool
is_recovery recovery = true
is_recovery _ = false

-- max_int64
abbrev pub max_int64 : ℕ
max_int64 = 2 ^ 63 - 1

-- The checks of a reservation.
unfoldable pub validate_reserve : CreditWindow → Option Lease → Store → Result Lease
validate_reserve w none s = err invalid_credit_reservation
validate_reserve w (some l) s = do
  fail_if
      (is_key w.id s.windows
        || not (w.confirmed == 0)
        || not (w.sequence == 0)
        || w.closed
        || not (w.lease == l.id))
      invalid_credit_reservation
  fail_if (elim (lookup w.lease s.leases) [ none ↦ false | some old ↦ not (same_lease old l) ])
      credit_lease_changed
  fail_if (is_key w.lease s.retired) lease_unavailable
  fail_if (lease_capacity_exceeded l s) spool_full
  fail_if
      (leb 2 (total_by (in_pool w.rule w.upload) s.windows)
        || ltb (limits w).1 (total_by (on_rule w.rule) s.windows + w.capacity)
        || ltb max_account_credits (total_by (on_user w.user) s.windows + w.capacity))
      exceeds_responsibility
  fail_if
      (ltb l.bytes (count_of w.lease s.used + credit_liability w.lease s.windows + w.capacity)
        || ltb l.expires w.until
        || leb max_pending_records (length s.pending + size s.windows))
      exceeds_budget
  ok l

-- The fields that a progress event may not change.
unfoldable pub same_window : CreditWindow → CreditWindow → Bool
same_window w old =
    w.lease == old.lease
    && w.rule == old.rule
    && w.user == old.user
    && bool_eq w.upload old.upload
    && bool_eq w.tcp old.tcp
    && w.capacity == old.capacity
    && w.started == old.started
    && w.until == old.until

-- The live window that a reservation adds, and its place in the pool.
unfoldable pub add_live : CreditWindow → Store → Store
add_live w s = record s {
  credits =
      insert w.id (record { window = w; used = 0; last = w.started; closed = false }) s.credits;
  pools = λ rule upload.
      if rule == w.rule && bool_eq upload w.upload
      then s.pools rule upload ++ (w.id ∷ [])
      else s.pools rule upload;
}

abbrev remove : ℕ → List ℕ → List ℕ
remove k [] = []
remove k (j ∷ js) = let rest = remove k js in if j == k then rest else j ∷ rest

-- The live window after progress; a closed one leaves the map and its pool.
unfoldable pub update_live : CreditWindow → Store → Store
update_live w s = elim (lookup w.id s.credits) [
  | none ↦ s
  | some c ↦
      if w.closed
      then record s {
        credits = erase w.id s.credits;
        pools = λ rule upload.
            if rule == w.rule && bool_eq upload w.upload
            then remove w.id (s.pools rule upload)
            else s.pools rule upload;
      }
      else record s { credits = insert w.id (record c { window = w }) s.credits }
]

unfoldable pub add_usage : Option UsageRecord → CreditWindow → Store → Store
add_usage none w s = s
add_usage (some u) w s = record s {
  used = insert w.lease (count_of w.lease s.used + (u.upload + u.download)) s.used;
  pending = s.pending ++ (u ∷ []);
}

unfoldable pub write_window : CreditWindow → Store → Store
write_window w s =
    if w.closed
    then record s { windows = erase w.id s.windows }
    else record s { windows = insert w.id w s.windows }

-- The lease of a usage event, entered from the event if the store does not hold it.
unfoldable pub usage_lease : UsageRecord → Option Lease → Store → Result Lease
usage_lease u incoming s = elim (lookup u.lease s.leases) [
  | some l ↦ ok l
  | none ↦ elim incoming [
    | none ↦ err wal_lease_missing
    | some l ↦ if l.id == u.lease then ok l else err wal_lease_missing
  ]
]

unfoldable pub apply_usage : UsageRecord → Option Lease → Store → Result Store
apply_usage u incoming s = do
  fail_if (u.id == 0 || ltb (max_int64 - u.download) u.upload) invalid_wal_usage
  fail_if (is_key u.lease s.retired) usage_after_retirement
  l ← usage_lease u incoming s
  let n = u.upload + u.download
  fail_if
      (ltb l.bytes (count_of u.lease s.used + credit_liability u.lease s.windows + n)
        || not (u.node == s.node)
        || not (u.ent == l.ent)
        || leb max_pending_records (length s.pending + size s.windows))
      invariant_violated
  ok (record s {
    leases = insert u.lease l s.leases;
    used = insert u.lease (count_of u.lease s.used + n) s.used;
    pending = s.pending ++ (u ∷ []);
  })

module _ (t : Texts) where
  unfoldable pub window_is_invalid : CreditWindow → Bool
  window_is_invalid w =
      not (t.len w.id == 32)
      || w.rule == 0
      || w.user == 0
      || w.capacity == 0
      || ltb (limits w).0 w.capacity
      || ltb w.capacity w.confirmed
      || w.started == 0
      || leb w.until w.started

  -- The usage record that a progress event must carry.
  unfoldable pub usage_is_invalid : CreditWindow → ℕ → UsageRecord → Store → Bool
  usage_is_invalid w delta u s =
      not (valid_window_metadata t u)
      || not (u.id == t.window_usage_id w.id w.sequence)
      || not (u.window == w.id)
      || not (u.sequence == w.sequence)
      || not (u.rule == w.rule)
      || not (u.lease == w.lease)
      || not (u.node == s.node)
      || not (u.ent == elim (lookup w.lease s.leases) [ none ↦ 0 | some l ↦ l.ent ])
      || not (u.upload + u.download == delta)
      || (if w.upload then not (u.download == 0) else not (u.upload == 0))
      || not (u.started == w.started)
      || ltb u.ended w.started
      || ltb w.until u.ended
      || (is_recovery u.kind && (not w.closed || not (w.confirmed == w.capacity)))
      || leb max_pending_records (length s.pending)

  unfoldable pub validate_usage : CreditWindow → ℕ → Option UsageRecord → Store → Result (Unit {0})
  validate_usage w delta none s = fail_if (ltb 0 delta) invalid_credit_usage
  validate_usage w delta (some u) s =
      if ltb 0 delta
      then fail_if (usage_is_invalid w delta u s) invalid_credit_usage
      else err unexpected_credit_usage

  unfoldable pub validate_progress : CreditWindow → Option UsageRecord → Store → Result (Unit {0})
  validate_progress w u s = elim (lookup w.id s.windows) [
    | none ↦ err invalid_credit_progress
    | some old ↦ do
      fail_if
          (not (same_window w old)
            || not (w.sequence == (old.sequence + 1) % 2 ^ 64)
            || ltb w.confirmed old.confirmed)
          invalid_credit_progress
      validate_usage w (w.confirmed - old.confirmed) u s
  ]

  unfoldable pub apply_reserve : CreditWindow → Option Lease → Store → Result Store
  apply_reserve w lease s = do
    fail_if (window_is_invalid w) invalid_credit_window
    l ← validate_reserve w lease s
    ok (
        add_live w (record s {
          expanded_credits = ltb credit_window_size w.capacity || s.expanded_credits;
          leases = insert w.lease l s.leases;
          windows = insert w.id w s.windows;
        }))

  unfoldable pub apply_progress : CreditWindow → Option UsageRecord → Store → Result Store
  apply_progress w u s = do
    fail_if (window_is_invalid w) invalid_credit_window
    validate_progress w u s
    ok (update_live w (write_window w (add_usage u w s)))

  unfoldable pub apply_event : CreditEvent → Store → Result Store
  apply_event (usage u l) = apply_usage u l
  apply_event (credit_reserve w l) = apply_reserve w l
  apply_event (credit_progress w u) = apply_progress w u

  -- A log of events, applied in order.
  unfoldable pub apply_all : List CreditEvent → Store → Result Store
  apply_all [] s = ok s
  apply_all (e ∷ es) s = do s' ← apply_event e s; apply_all es s'
