-- ===== src/Commerce/Wallet/Funds.antt =====
-- What the sources of internal/commerce/funding.go hold for each user, and how the steps of
-- `trackFunds` and `restoreFunds` move it.
use traffic_forwarding_panel.Prelude.{
  ℕ, ◌+◌, ◌≡◌, refl, sym, ◌∙◌, ◌&&◌, inl, inr, Bool, true, Bool-cases, some, Option-cases, List,
  arith, ◌==◌, if◌then◌else◌, any,
}
use traffic_forwarding_panel.Prelude.Fallible.{ok, ok-injective, err_ne}
use traffic_forwarding_panel.Prelude.Assoc.{
  lookup, insert, keys, IsDistinct, total_by, total_by-insert, total_by-insert_new,
  insert-IsDistinct,
}
use traffic_forwarding_panel.Commerce.Wallet.Tables.{
  Source, Allocation, Db, add_source, add_allocation, update_source,
}

-- A source's part of what is left of a user's funds.
abbrev pub part_of : ℕ → Source → ℕ
part_of u s = if s.user == u then s.remaining else 0

-- What is left of the sources of a user.
unfoldable pub funds : ℕ → Db → ℕ
funds u db = total_by (part_of u) db.sources

-- A number for one user only.
abbrev pub only : ℕ → ℕ → ℕ → ℕ
only user n u = if user == u then n else 0

-- The user's funds move by `into - out`; those of others, the wallets and the ledger stay.
pub record Moved (user out into : ℕ) (db db' : Db) : Type 0 where
  pub shift : (u : ℕ) → funds u db' + only user out u ≡ funds u db + only user into u
  pub same_wallets : db'.wallets ≡ db.wallets
  pub same_accounts : db'.accounts ≡ db.accounts
  pub same_ledger : db'.ledger ≡ db.ledger
  pub distinct : IsDistinct (keys db'.sources)

pub Moved-end :
    (user left rest : ℕ) (db db' : Db)
    → left ≡ rest
    → db ≡ db'
    → IsDistinct (keys db.sources)
    → Moved user left rest db db'
Moved-end user left rest db db' e f d =
    rw (sym e, sym f)
      (record {
        shift = λ u. refl;
        same_wallets = refl;
        same_accounts = refl;
        same_ledger = refl;
        distinct = d;
      })

pub Moved-then :
    (user out into a b c d : ℕ) (x y z : Db)
    → out + (b + d) ≡ a + c + into
    → Moved user a b x y
    → Moved user c d y z
    → Moved user out into x z
Moved-then user out into a b c d x y z sum p q = record {
  shift = λ u. ground (arith, p.shift u, q.shift u);
  same_wallets = q.same_wallets ∙ p.same_wallets;
  same_accounts = q.same_accounts ∙ p.same_accounts;
  same_ledger = q.same_ledger ∙ p.same_ledger;
  distinct = q.distinct;
}

-- The allocations are none of the funds.
pub Moved-allocations :
    (user out into : ℕ) (db db' : Db) (rows : List Allocation)
    → Moved user out into db db'
    → Moved user out into db (record db' { allocations = rows })
unfolding funds
Moved-allocations user out into db db' rows p = record {
  shift = p.shift;
  same_wallets = p.same_wallets;
  same_accounts = p.same_accounts;
  same_ledger = p.same_ledger;
  distinct = p.distinct;
}

-- A source is written again, with another rest.
pub update-Moved :
    (user id out into rest : ℕ) (s : Source) (db : Db)
    → lookup id db.sources ≡ some s
    → s.user ≡ user
    → rest + out ≡ s.remaining + into
    → IsDistinct (keys db.sources)
    → Moved user out into db
        (record db { sources = insert id (record s { remaining = rest }) db.sources })
unfolding funds
update-Moved user id out into rest s db there owner sum d = record {
  shift = λ u.
      let step =
        total_by-insert (part_of u) id s (record s { remaining = rest }) db.sources there in
      ground (arith, step);
  same_wallets = refl;
  same_accounts = refl;
  same_ledger = refl;
  distinct = insert-IsDistinct id (record s { remaining = rest }) db.sources d;
}

pub add_source-Moved :
    (id : ℕ) (s : Source) (db db' : Db)
    → add_source id s db ≡ ok db'
    → IsDistinct (keys db.sources)
    → Moved s.user 0 s.remaining db db'
unfolding funds add_source
add_source-Moved id s db db' run d = elim (Option-cases (lookup id db.sources)) [
  | inr (old, there) ↦ absurd (err_ne (rw (add_source, there) at run))
  | inl fresh ↦ rw (sym (ok-injective (rw (add_source, fresh) at run))) (record {
    shift = λ u. ground (arith, total_by-insert_new (part_of u) id s db.sources fresh);
    same_wallets = refl;
    same_accounts = refl;
    same_ledger = refl;
    distinct = insert-IsDistinct id s db.sources d;
  })
]

-- An allocation changes no other table.
pub add_allocation_keeps :
    (reference source amount : ℕ) (db db' : Db)
    → add_allocation reference source amount db ≡ ok db'
    → (rows : List Allocation) × (db' ≡ record db { allocations = rows })
unfolding add_allocation
add_allocation_keeps reference source amount db db' run =
    elim (Bool-cases (any (λ a. a.reference == reference && a.source == source) db.allocations)) [
      | inl taken ↦ absurd (err_ne (rw (add_allocation, taken) at run))
      | inr fresh ↦ (_, sym (ok-injective (rw (add_allocation, fresh) at run)))
    ]

pub update_source_found :
    (id : ℕ) (test : ℕ → Bool) (change : ℕ → ℕ) (s : Source) (db : Db)
    → lookup id db.sources ≡ some s
    → test s.remaining ≡ true
    → update_source id test change db
      ≡ record db { sources = insert id (record s { remaining = change s.remaining }) db.sources }
unfolding update_source
update_source_found id test change s db there passes = rw (update_source, there, passes) refl
