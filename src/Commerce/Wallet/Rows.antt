-- ===== src/Commerce/Wallet/Rows.antt =====
-- The rows that `trackFunds` and `restoreFunds` of internal/commerce/funding.go read.
use traffic_forwarding_panel.Prelude.{
  ℕ, ◌≡◌, refl, sym, ◌∙◌, ap, ◌&&◌, inl, inr, Bool, true, false, Bool-cases, none, some,
  Option-cases, List, [], ◌∷◌, All, All-weaken, none_ne, arith, ◌==◌, ==_refl,
}
use traffic_forwarding_panel.Prelude.Assoc.{Assoc, lookup, keys, Absent, IsDistinct}
use traffic_forwarding_panel.Commerce.Wallet.Tables.{Names, Source, Allocation}
use traffic_forwarding_panel.Commerce.Wallet.{place, order_by, select_sources, select_allocations}

abbrev pub Row : Type 0
Row = (ℕ × ℕ) × ℕ

abbrev pub ids : List Row → List ℕ
ids [] = []
ids (r ∷ rs) = r.0.1 ∷ ids rs

module _ (names : Names) where
  module _ (P : Row → Type 0) where
    place-All : (r : Row) (qs : List Row) → P r → All P qs → All P (place names r qs)
    unfolding place
    place-All r [] p h = (p, tt)
    place-All r (q ∷ qs) p h = elim (Bool-cases (names.before q.0 r.0)) [
      | inl first ↦ rw first (h.0, place-All r qs p h.1)
      | inr last ↦ rw last (p, h)
    ]

    pub order_by-All : (rs : List Row) → All P rs → All P (order_by names rs)
    unfolding order_by
    order_by-All [] h = tt
    order_by-All (r ∷ rs) h = place-All r (order_by names rs) h.0 (order_by-All rs h.1)

  place-Absent :
      (j : ℕ) (r : Row) (qs : List Row)
      → (j == r.0.1) ≡ false
      → Absent j (ids qs)
      → Absent j (ids (place names r qs))
  unfolding place
  place-Absent j r [] ne h = (ne, tt)
  place-Absent j r (q ∷ qs) ne h = elim (Bool-cases (names.before q.0 r.0)) [
    | inl first ↦ rw first (h.0, place-Absent j r qs ne h.1)
    | inr last ↦ rw last (ne, h)
  ]

  order_by-Absent : (j : ℕ) (rs : List Row) → Absent j (ids rs) → Absent j (ids (order_by names rs))
  unfolding order_by
  order_by-Absent j [] h = tt
  order_by-Absent j (r ∷ rs) h = place-Absent j r (order_by names rs) h.0 (order_by-Absent j rs h.1)

  place-IsDistinct :
      (r : Row) (qs : List Row)
      → Absent r.0.1 (ids qs)
      → IsDistinct (ids qs)
      → IsDistinct (ids (place names r qs))
  unfolding place
  place-IsDistinct r [] a d = (tt, tt)
  place-IsDistinct r (q ∷ qs) a d = elim (Bool-cases (names.before q.0 r.0)) [
    | inl first ↦
        rw first (place-Absent q.0.1 r qs (ground (arith, a.0)) d.0, place-IsDistinct r qs a.1 d.1)
    | inr last ↦ rw last (a, d)
  ]

  pub order_by-IsDistinct :
      (rs : List Row) → IsDistinct (ids rs) → IsDistinct (ids (order_by names rs))
  unfolding order_by
  order_by-IsDistinct [] d = tt
  order_by-IsDistinct (r ∷ rs) d =
      place-IsDistinct r (order_by names rs) (order_by-Absent r.0.1 rs d.0)
        (order_by-IsDistinct rs d.1)

lookup-Absent : (k : ℕ) (m : Assoc Source) → Absent k (keys m) → lookup k m ≡ none
lookup-Absent k [] a = refl
lookup-Absent k (e ∷ m) a = rw a.0 (lookup-Absent k m a.1)

-- A source of the table that passes a test, by its row.
pub record Passes (test : Source → Bool) (m : Assoc Source) (r : Row) : Type 0 where
  pub source : Source
  pub found : lookup r.0.1 m ≡ some source
  pub passed : test source ≡ true
  pub rest : source.remaining ≡ r.1

module _ (test : Source → Bool) where
  select-Absent :
      (j : ℕ) (m : Assoc Source) → Absent j (keys m) → Absent j (ids (select_sources test m))
  unfolding select_sources
  select-Absent j [] a = tt
  select-Absent j ((id, s) ∷ m) a = elim (Bool-cases (test s)) [
    | inl passes ↦ rw passes (a.0, select-Absent j m a.1)
    | inr fails ↦ rw fails (select-Absent j m a.1)
  ]

  pub select-IsDistinct :
      (m : Assoc Source) → IsDistinct (keys m) → IsDistinct (ids (select_sources test m))
  unfolding select_sources
  select-IsDistinct [] d = tt
  select-IsDistinct ((id, s) ∷ m) d = elim (Bool-cases (test s)) [
    | inl passes ↦ rw passes (select-Absent id m d.0, select-IsDistinct m d.1)
    | inr fails ↦ rw fails (select-IsDistinct m d.1)
  ]

  -- A row of the rest of the table is one of the whole.
  Passes-later :
      (id : ℕ) (s : Source) (m : Assoc Source) (r : Row)
      → Absent id (keys m)
      → Passes test m r
      → Passes test ((id, s) ∷ m) r
  Passes-later id s m r a p = elim (Bool-cases (r.0.1 == id)) [
    | inl same ↦
        let i : r.0.1 ≡ id = ground arith in
        absurd (none_ne (sym (lookup-Absent id m a) ∙ ap (λ k. lookup k m) (sym i) ∙ p.found))
    | inr ne ↦ record { source = p.source; found = rw ne p.found; passed = p.passed; rest = p.rest }
  ]

  pub select-Passes :
      (m : Assoc Source) → IsDistinct (keys m) → All (Passes test m) (select_sources test m)
  unfolding select_sources
  select-Passes [] d = tt
  select-Passes ((id, s) ∷ m) d =
      let later =
        All-weaken (Passes test m) (Passes test ((id, s) ∷ m)) (select_sources test m)
          (λ r p. Passes-later id s m r d.0 p) (select-Passes m d.1) in
      elim (Bool-cases (test s)) [
        | inl passes ↦ rw passes (
          record { source = s; found = rw (==_refl id) refl; passed = passes; rest = refl },
          later,
        )
        | inr fails ↦ rw fails later
      ]

-- The source that an allocation took from is the user's.
pub record IsOwned (user : ℕ) (m : Assoc Source) (r : Row) : Type 0 where
  pub source : Source
  pub found : lookup r.0.1 m ≡ some source
  pub owner : source.user ≡ user

pub select-IsOwned :
    (reference user : ℕ) (m : Assoc Source) (rows : List Allocation)
    → All (IsOwned user m) (select_allocations reference user m rows)
unfolding select_allocations
select-IsOwned reference user m [] = tt
select-IsOwned reference user m (a ∷ rows) = elim (Option-cases (lookup a.source m)) [
  | inl none_there ↦ rw (select_allocations, none_there) (select-IsOwned reference user m rows)
  | inr (s, there) ↦ elim (Bool-cases (a.reference == reference && s.user == user)) [
    | inl both ↦
        rw (select_allocations, there, both)
          (
            record { source = s; found = there; owner = ground arith },
            select-IsOwned reference user m rows,
          )
    | inr other ↦ rw (select_allocations, there, other) (select-IsOwned reference user m rows)
  ]
]
