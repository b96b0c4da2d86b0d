-- ===== src/Commerce/Usage/Charges.antt =====
-- The charging loop of `SettleUsageBatch` in internal/commerce/usage_batch.go: the charges of the
-- entitlements and the bytes of the leases.
use traffic_forwarding_panel.Prelude.{
  ℕ, ◌+◌, ◌-◌, ◌≤◌, ◌≡◌, ap, inl, inr, Option-cases, some, List, [], ◌∷◌, arith, ◌==◌,
  if◌then◌else◌,
}
use traffic_forwarding_panel.Prelude.Assoc.{
  Assoc, lookup, insert, lookup-insert, total_by, total_by-insert,
}
use traffic_forwarding_panel.Commerce.Rate.{ceil_charge}
use traffic_forwarding_panel.Prelude.Fallible.{ok, Fallible-cases, ok-injective}
use traffic_forwarding_panel.Contract.Usage.{UsageRecord, Texts}
use traffic_forwarding_panel.Commerce.Usage.{Live, Tally, count_of, settle_one, settle_all}

-- The charge of a lease's usage, if the lease belongs to `ent`.
abbrev pub charge_at : ℕ → Live → ℕ
charge_at ent l = if l.ent == ent then ceil_charge l.used l.mult else 0

-- The charges of all leases of an entitlement.
abbrev pub charged : ℕ → Assoc Live → ℕ
charged ent leases = total_by (charge_at ent) leases

-- No lease of the map is spent beyond its bytes.
abbrev pub IsFunded : Assoc Live → Type 0
IsFunded leases = (k : ℕ) (l : Live) → lookup k leases ≡ some l → l.used ≤ l.budget

count_of-insert :
    (j k n : ℕ) (m : Assoc ℕ) → count_of j (insert k n m) ≡ (if k == j then n else count_of j m)
count_of-insert j k n m = ground (arith, lookup-insert k j n m)

-- One write to the leases and one to the charges, in step.
round_charged :
    (ent k raw : ℕ) (l : Live) (s s' : Tally)
    → lookup k s.leases ≡ some l
    → ceil_charge l.used l.mult ≤ ceil_charge (l.used + raw) l.mult
    → s'.leases ≡ insert k (record l { used = l.used + raw }) s.leases
    → s'.charges
      ≡ insert l.ent
          (count_of l.ent s.charges
            + (ceil_charge (l.used + raw) l.mult - ceil_charge l.used l.mult))
          s.charges
    → count_of ent s'.charges + charged ent s.leases
      ≡ count_of ent s.charges + charged ent s'.leases
round_charged ent k raw l s s' found grows el ec =
    let l' : Live = record l { used = l.used + raw } in
    let now =
      count_of l.ent s.charges + (ceil_charge (l.used + raw) l.mult - ceil_charge l.used l.mult) in
    rw (el, ec, count_of-insert ent l.ent now s.charges)
      (ground (arith, total_by-insert (charge_at ent) k l l' s.leases found))

module _ (t : Texts) (u : UsageRecord) where
  -- The lease and the growth of its charge, in a round that succeeds.
  record Round (s s' : Tally) : Type 0 where
    l : Live
    found : lookup u.lease s.leases ≡ some l
    grows : ceil_charge l.used l.mult ≤ ceil_charge (l.used + (u.upload + u.download)) l.mult
    fits : l.used + (u.upload + u.download) ≤ l.budget
    leases :
        s'.leases ≡ insert u.lease (record l { used = l.used + (u.upload + u.download) }) s.leases
    charges :
        s'.charges
        ≡ insert l.ent
            (count_of l.ent s.charges
              + (ceil_charge (l.used + (u.upload + u.download)) l.mult - ceil_charge l.used l.mult))
            s.charges

  round : (s s' : Tally) → settle_one t u s ≡ ok s' → Round s s'
  unfolding settle_one
  round s s' h = elim (Option-cases (lookup u.lease s.leases)) [
    | inl missing ↦ absurd (ground arith)
    | inr (l, e) ↦ record {
      l = l;
      found = e;
      grows = ground arith;
      fits = ground arith;
      leases = ground arith;
      charges = ground arith;
    }
  ]

  settle_one-charged :
      (ent : ℕ) (s s' : Tally)
      → settle_one t u s ≡ ok s'
      → count_of ent s'.charges + charged ent s.leases
        ≡ count_of ent s.charges + charged ent s'.leases
  settle_one-charged ent s s' h =
      let r = round s s' h in
      round_charged ent u.lease (u.upload + u.download) r.l s s' r.found r.grows r.leases r.charges

  settle_one-IsFunded :
      (s s' : Tally) → settle_one t u s ≡ ok s' → IsFunded s.leases → IsFunded s'.leases
  settle_one-IsFunded s s' h f k l found =
      let r = round s s' h in
      ground (
        arith,
        r.fits,
        f k l,
        r.leases,
        ap (lookup k) r.leases,
        lookup-insert u.lease k (record r.l { used = r.l.used + (u.upload + u.download) }) s.leases,
      )

-- When the charging loop accepts its records, what it adds to the charges of an entitlement is the
-- growth of the rounded-up charges of that entitlement's leases.
pub settle_all-charged :
    (t : Texts) (us : List UsageRecord) (ent : ℕ) (s s' : Tally)
    → settle_all t us s ≡ ok s'
    → count_of ent s'.charges + charged ent s.leases
      ≡ count_of ent s.charges + charged ent s'.leases
unfolding settle_all
settle_all-charged t [] ent s s' h = ground arith
settle_all-charged t (u ∷ us) ent s s' h = elim (Fallible-cases (settle_one t u s)) [
  | inl (e, failed) ↦ absurd (ground arith)
  | inr (m, one) ↦
      omega
        (arith, settle_one-charged t u ent s m one, settle_all-charged t us ent m s' (rw one at h))
]

-- If no loaded lease was spent beyond its bytes before the charging loop, and the loop accepts its
-- records, none is spent beyond its bytes after it.
pub settle_all-IsFunded :
    (t : Texts) (us : List UsageRecord) (s s' : Tally)
    → settle_all t us s ≡ ok s'
    → IsFunded s.leases
    → IsFunded s'.leases
unfolding settle_all
settle_all-IsFunded t [] s s' h f = rw (ok-injective h) at f
settle_all-IsFunded t (u ∷ us) s s' h f = elim (Fallible-cases (settle_one t u s)) [
  | inl (e, failed) ↦ absurd (ground arith)
  | inr (m, one) ↦ settle_all-IsFunded t us m s' (rw one at h) (settle_one-IsFunded t u s m one f)
]
