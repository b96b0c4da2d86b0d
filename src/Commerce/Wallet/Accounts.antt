-- ===== src/Commerce/Wallet/Accounts.antt =====
-- The account of a user that `trackFunds` of internal/commerce/funding.go opens.
use traffic_forwarding_panel.Prelude.{
  ℕ, ◌+◌, ◌≡◌, refl, sym, ◌∙◌, ap, inl, inr, true, false, Bool-cases, ◌∷◌, arith, ◌==◌, ==_refl,
  if◌then◌else◌, any,
}
use traffic_forwarding_panel.Prelude.Fallible.{ok, ok-injective}
use traffic_forwarding_panel.Prelude.Assoc.{keys, IsDistinct}
use traffic_forwarding_panel.Commerce.Wallet.Tables.{Names, Db, new_source, is_tracked, wallet_of}
use traffic_forwarding_panel.Commerce.Wallet.{open_account}
use traffic_forwarding_panel.Commerce.Wallet.Funds.{Moved, only, Moved-end, add_source-Moved, funds}

-- For each user the sources hold the balance of a tracked wallet, and nothing else.
pub record IsFunded (db : Db) : Type 0 where
  pub held : (u : ℕ) → funds u db ≡ (if is_tracked u db then (wallet_of u db).balance else 0)
  pub distinct : IsDistinct (keys db.sources)

-- What `open_account` leaves.
pub record Opened (user : ℕ) (db db' : Db) : Type 0 where
  pub funded : IsFunded db'
  pub tracked : is_tracked user db' ≡ true
  pub others : (u : ℕ) → (u == user) ≡ false → is_tracked u db' ≡ is_tracked u db
  pub same_wallets : db'.wallets ≡ db.wallets
  pub same_ledger : db'.ledger ≡ db.ledger

-- Another user's account changes nothing for this one.
tracked_after :
    (u user : ℕ) (db db' : Db)
    → db'.accounts ≡ user ∷ db.accounts
    → is_tracked u db' ≡ (if u == user then true else is_tracked u db)
unfolding any
tracked_after u user db db' same = rw same (ground arith)

pub wallet_of_same :
    (u : ℕ) (db db' : Db) → db'.wallets ≡ db.wallets → wallet_of u db' ≡ wallet_of u db
wallet_of_same u db db' same = rw same refl

-- The account is new: what its balance was is one source now.
Moved-held :
    (user b : ℕ) (db db' : Db)
    → IsFunded db
    → b ≡ (wallet_of user db).balance
    → is_tracked user db ≡ false
    → Moved user 0 b (record db { accounts = user ∷ db.accounts }) db'
    → (u : ℕ) → funds u db' ≡ (if is_tracked u db' then (wallet_of u db').balance else 0)
Moved-held user b db db' i same new m u =
    let same_funds : funds u (record db { accounts = user ∷ db.accounts }) ≡ funds u db =
      unfold funds in refl in
    let shift : funds u db' + only user 0 u ≡ funds u db + only user b u =
      m.shift u ∙ ap (λ k. k + only user b u) same_funds in
    elim (Bool-cases (u == user)) [
      | inl me ↦
          let at : user ≡ u = ground (arith, me) in
          let unheld : funds user db ≡ 0 = rw new at (i.held user) in
          rw
            (
              tracked_after u user db db' m.same_accounts,
              wallet_of_same u db db' m.same_wallets,
              me,
              sym at,
            )
            (ground (arith, rw (sym at) at shift, unheld, same, ==_refl user))
      | inr ne ↦
          rw
            (
              tracked_after u user db db' m.same_accounts,
              wallet_of_same u db db' m.same_wallets,
              ne,
            )
            (ground (arith, shift, i.held u, ne))
    ]

Moved-Opened :
    (user b : ℕ) (db db' : Db)
    → IsFunded db
    → b ≡ (wallet_of user db).balance
    → is_tracked user db ≡ false
    → Moved user 0 b (record db { accounts = user ∷ db.accounts }) db'
    → Opened user db db'
Moved-Opened user b db db' i same new m = record {
  funded = record { held = Moved-held user b db db' i same new m; distinct = m.distinct };
  tracked = rw (tracked_after user user db db' m.same_accounts, ==_refl user) refl;
  others = λ u ne. rw (tracked_after u user db db' m.same_accounts, ne) refl;
  same_wallets = m.same_wallets;
  same_ledger = m.same_ledger;
}

module _ (names : Names) (now : ℕ) where
  pub open_account-Opened :
      (user : ℕ) (db db' : Db)
      → IsFunded db
      → open_account names now user (wallet_of user db).balance db ≡ ok db'
      → Opened user db db'
  unfolding open_account funds any
  open_account-Opened user db db' i run = elim (Bool-cases (is_tracked user db)) [
    | inl known ↦ rw (sym (ok-injective (rw (open_account, known) at run))) (record {
      funded = i;
      tracked = known;
      others = λ u ne. refl;
      same_wallets = refl;
      same_ledger = refl;
    })
    | inr new ↦ elim (Bool-cases ((wallet_of user db).balance == 0)) [
      | inl empty ↦ Moved-Opened user 0 db db' i (ground (arith, empty)) new (
          Moved-end user 0 0 _ db' refl (ok-injective (rw (open_account, new, empty) at run))
            i.distinct)
      | inr some_there ↦ Moved-Opened user (wallet_of user db).balance db db' i refl new (
          add_source-Moved (names.legacy user) (new_source user 0 (wallet_of user db).balance now) _
            db' (rw (open_account, new, some_there) at run) i.distinct)
    ]
  ]
