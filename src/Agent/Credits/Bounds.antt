-- ===== src/Agent/Credits/Bounds.antt =====
-- The responsibility bounds of internal/agent/credits.go over the whole store, event by event.
use traffic_forwarding_panel.Prelude.{
  ℕ, ◌+◌, ◌≤◌, ◌≡◌, ap, inl, inr, Bool, Bool-cases, some, List, [], ◌∷◌, arith, if◌then◌else◌,
}
use traffic_forwarding_panel.Prelude.Assoc.{
  lookup, lookup-insert, total_by, total_by-insert, total_by-insert_new, total_by-erase,
}
use traffic_forwarding_panel.Contract.Usage.{UsageRecord, Texts}
use traffic_forwarding_panel.Prelude.Fallible.{ok, Fallible-cases, ok-injective}
use traffic_forwarding_panel.Agent.Credits.{
  max_account_credits, Lease, CreditWindow, Store, count_of, on_lease, on_user, in_pool,
  credit_liability,
}
use traffic_forwarding_panel.Agent.Credits.Events.{
  CreditEvent, usage, credit_reserve, credit_progress, same_window, apply_event, apply_all,
}
use traffic_forwarding_panel.Agent.Credits.Checks.{
  count_of-insert, Reserved, reserved, Progressed, progressed, Used, used,
}

-- What is spent and reserved on a lease fits its bytes, an account holds at most 8 MiB of unspent
-- credit, and a rule has at most two windows in one direction.
pub record IsSound (s : Store) : Type 0 where
  pub budget :
      (k : ℕ) (l : Lease)
      → lookup k s.leases ≡ some l
      → count_of k s.used + credit_liability k s.windows ≤ l.bytes
  pub account : (user : ℕ) → total_by (on_user user) s.windows ≤ max_account_credits
  pub pool : (rule : ℕ) (upload : Bool) → total_by (in_pool rule upload) s.windows ≤ 2

module _ (t : Texts) where
  reserve-IsSound : (w : CreditWindow) (s s' : Store) → Reserved t w s s' → IsSound s → IsSound s'
  unfolding credit_liability
  reserve-IsSound w s s' r i = record {
    budget = λ k l found.
        rw (r.used, r.windows, total_by-insert_new (on_lease k) w.id w s.windows r.fresh)
          (ground (
            arith,
            r.fits,
            r.unspent,
            i.budget k l,
            ap (lookup k) r.leases,
            lookup-insert w.lease k r.l s.leases,
          ));
    account = λ user.
        rw (r.windows, total_by-insert_new (on_user user) w.id w s.windows r.fresh)
          (ground (arith, r.funded, r.unspent, i.account user));
    pool = λ rule upload.
        rw (r.windows, total_by-insert_new (in_pool rule upload) w.id w s.windows r.fresh)
          (ground (arith, r.one_more, i.pool rule upload));
  }

  -- A measure of a window that does not grow makes the total not grow.
  shrinks :
      (f : CreditWindow → ℕ) (w : CreditWindow) (s s' : Store) (p : Progressed t w s s')
      → (if w.closed then 0 else f w) ≤ f p.old
      → total_by f s'.windows + f p.old ≡ total_by f s.windows + (if w.closed then 0 else f w)
  shrinks f w s s' p h = elim (Bool-cases w.closed) [
    | inl c ↦ rw (p.windows) (ground (arith, total_by-erase f w.id p.old s.windows p.found))
    | inr c ↦ rw (p.windows) (ground (arith, total_by-insert f w.id p.old w s.windows p.found))
  ]

  progress-IsSound :
      (w : CreditWindow) (s s' : Store) → Progressed t w s s' → IsSound s → IsSound s'
  unfolding credit_liability same_window
  progress-IsSound w s s' p i = record {
    budget = λ k l found. ground (
      arith,
      p.same,
      p.grows,
      p.whole,
      p.used k,
      i.budget k l (rw p.leases at found),
      shrinks (on_lease k) w s s' p,
    );
    account = λ user.
        ground (arith, p.same, p.grows, p.whole, i.account user, shrinks (on_user user) w s s' p);
    pool = λ rule upload.
        ground (arith, p.same, i.pool rule upload, shrinks (in_pool rule upload) w s s' p);
  }

usage-IsSound : (u : UsageRecord) (s s' : Store) → Used u s s' → IsSound s → IsSound s'
usage-IsSound u s s' r i = record {
  budget = λ k l found.
      rw
        (
          r.windows,
          r.used,
          count_of-insert k u.lease (count_of u.lease s.used + (u.upload + u.download)) s.used,
        )
        (ground (
          arith,
          r.fits,
          i.budget k l,
          ap (lookup k) r.leases,
          lookup-insert u.lease k r.l s.leases,
        ));
  account = λ user. rw r.windows (i.account user);
  pool = λ rule upload. rw r.windows (i.pool rule upload);
}

-- An event that is accepted keeps a sound store sound: on every lease what was used and what the open
-- windows may still spend fits the lease's bytes, every account's unspent credit is within 8 MiB, and
-- no rule has more than two windows in one direction.
pub apply_event-IsSound :
    (t : Texts) (e : CreditEvent) (s s' : Store)
    → apply_event t e s ≡ ok s'
    → IsSound s
    → IsSound s'
unfolding apply_event
apply_event-IsSound t (usage u l) s s' h i = usage-IsSound u s s' (used u l s s' h) i
apply_event-IsSound t (credit_reserve w l) s s' h i =
    reserve-IsSound t w s s' (reserved t w l s s' h) i
apply_event-IsSound t (credit_progress w u) s s' h i =
    progress-IsSound t w s s' (progressed t w u s s' h) i

-- A log of events that is accepted as a whole keeps a sound store sound.
pub apply_all-IsSound :
    (t : Texts) (es : List CreditEvent) (s s' : Store)
    → apply_all t es s ≡ ok s'
    → IsSound s
    → IsSound s'
unfolding apply_all
apply_all-IsSound t [] s s' h i = rw (ok-injective h) at i
apply_all-IsSound t (e ∷ es) s s' h i = elim (Fallible-cases (apply_event t e s)) [
  | inl (e', failed) ↦ absurd (ground arith)
  | inr (m, one) ↦ apply_all-IsSound t es m s' (rw one at h) (apply_event-IsSound t e s m one i)
]
