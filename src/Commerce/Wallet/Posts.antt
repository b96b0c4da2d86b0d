-- ===== src/Commerce/Wallet/Posts.antt =====
-- `post` of internal/commerce/service.go on the books: the balance, the sources of the funds and the
-- ledger stay in step.
use traffic_forwarding_panel.Prelude.{
  ℕ, suc, ◌+◌, ◌-◌, ◌^◌, ◌<◌, ◌≡◌, refl, sym, ◌∙◌, ap, inl, inr, true, false, Bool-cases, ◌&&◌, ◌∷◌,
  any, sum_by, ltb, leb, arith, ◌==◌, if◌then◌else◌, tests,
}
use traffic_forwarding_panel.Prelude.Int.{ℤ, pos, negsuc}
use traffic_forwarding_panel.Prelude.Fallible.{ok, ok-injective, err_ne, Fallible-cases}
use traffic_forwarding_panel.Prelude.Assoc.{insert, lookup-insert, keys, IsDistinct}
use traffic_forwarding_panel.Commerce.Wallet.Tables.{
  Names, Db, Kind, Posting, Wallet, Result, is_tracked, wallet_of,
}
use traffic_forwarding_panel.Commerce.Wallet.{
  post, new_balance, track_funds, track_credit, track_debit, open_account,
}
use traffic_forwarding_panel.Commerce.Wallet.Sound.{
  gain, loss, credits, debits, Absent-references, IsSound,
}
use traffic_forwarding_panel.Commerce.Wallet.Funds.{Moved, Moved-end, funds}
use traffic_forwarding_panel.Commerce.Wallet.Books.{debit-Moved, credit-Moved}
use traffic_forwarding_panel.Commerce.Wallet.Accounts.{
  IsFunded, Opened, open_account-Opened, wallet_of_same,
}

-- The balance moves by the amount.
pub new_balance_lem :
    (balance n : ℕ) (delta : ℤ)
    → new_balance balance delta ≡ ok n
    → n + loss delta ≡ balance + gain delta
unfolding new_balance
new_balance_lem balance n (pos k) run =
    elim (Bool-cases (ltb 0 k && ltb (2 ^ 63 - 1 - k) balance)) [
      | inl over ↦ absurd (err_ne (rw (new_balance, over) at run))
      | inr fine ↦ rw (sym (ok-injective (rw (new_balance, fine) at run))) (omega arith)
    ]
new_balance_lem balance n (negsuc k) run = elim (Bool-cases (leb (2 ^ 63) (suc k))) [
  | inl least ↦ absurd (err_ne (rw (new_balance, least) at run))
  | inr more ↦ elim (Bool-cases (ltb balance (suc k))) [
    | inl short ↦ absurd (err_ne (rw (new_balance, more, short) at run))
    | inr fine ↦ rw (sym (ok-injective (rw (new_balance, more, fine) at run))) (grind tests)
  ]
]

new_balance-lt :
    (balance n : ℕ) (delta : ℤ)
    → balance < 2 ^ 63
    → gain delta < 2 ^ 63
    → new_balance balance delta ≡ ok n
    → n < 2 ^ 63
unfolding new_balance
new_balance-lt balance n (pos k) small fits run =
    elim (Bool-cases (ltb 0 k && ltb (2 ^ 63 - 1 - k) balance)) [
      | inl over ↦ absurd (err_ne (rw (new_balance, over) at run))
      | inr fine ↦ rw (sym (ok-injective (rw (new_balance, fine) at run))) (grind tests)
    ]
new_balance-lt balance n (negsuc k) small fits run =
    let sum = new_balance_lem balance n (negsuc k) run in omega (arith, sum, small)

module _ (names : Names) (now user : ℕ) where
  moves :
      (delta : ℤ) (kind : Kind) (reference : ℕ) (db db' : Db)
      → IsDistinct (keys db.sources)
      → Path
          (Result Db)
          (elim delta [
            | pos n ↦ if n == 0 then ok db else track_credit names now user n kind reference db
            | negsuc n ↦ track_debit names user (suc n) kind reference db
          ])
          (ok db')
      → Moved user (loss delta) (gain delta) db db'
  moves (pos n) kind reference db db' d run = elim (Bool-cases (n == 0)) [
    | inl zero ↦ Moved-end user 0 n db db' (ground (arith, zero)) (ok-injective (rw zero at run)) d
    | inr more ↦ credit-Moved names now user n kind reference db db' d (rw more at run)
  ]
  moves (negsuc n) kind reference db db' d run =
      debit-Moved names now user (suc n) kind reference db db' d run

  -- The account is opened, and the user's funds move by the amount.
  pub track_funds_moves :
      (delta : ℤ) (kind : Kind) (reference : ℕ) (db db' : Db)
      → IsFunded db
      → track_funds names now user (wallet_of user db).balance delta kind reference db ≡ ok db'
      → (mid : Db) × (Opened user db mid × Moved user (loss delta) (gain delta) mid db')
  unfolding track_funds
  track_funds_moves delta kind reference db db' i run =
      elim (Fallible-cases (open_account names now user (wallet_of user db).balance db)) [
        | inl (why, failed) ↦ absurd (err_ne (rw (track_funds, failed) at run))
        | inr (mid, opened) ↦
            let o = open_account-Opened names now user db mid i opened in
            (
              mid,
              (
                o,
                moves delta kind reference mid db' o.funded.distinct
                    (rw (track_funds, opened) at run),
              ),
            )
      ]

  -- The state after a posting: the user's wallet and a line of the ledger are written.
  abbrev written : Wallet → Posting → Db → Db
  written v line next = record next {
    wallets = insert user v next.wallets;
    ledger = line ∷ next.ledger;
  }

  balance_after :
      (v : Wallet) (line : Posting) (next : Db) (u : ℕ)
      → (wallet_of u (written v line next)).balance
        ≡ (if user == u then v.balance else (wallet_of u next).balance)
  balance_after v line next u = rw (wallet_of, lookup-insert user u v next.wallets) (ground arith)

  -- The funds of every user are what the new wallets say.
  held_after :
      (v : Wallet) (line : Posting) (delta : ℤ) (db mid next : Db) (u : ℕ)
      → v.balance + loss delta ≡ (wallet_of user db).balance + gain delta
      → Opened user db mid
      → Moved user (loss delta) (gain delta) mid next
      → funds u next
        ≡ (if is_tracked u next then (wallet_of u (written v line next)).balance else 0)
  held_after v line delta db mid next u sum o m =
      let tracked : is_tracked u next ≡ is_tracked u mid =
        ap (λ l. any (λ j. u == j) l) m.same_accounts in
      let before = rw (wallet_of_same u db mid o.same_wallets) at (o.funded.held u) in
      let same = wallet_of_same u db next (m.same_wallets ∙ o.same_wallets) in
      elim (Bool-cases (user == u)) [
        | inl me ↦
            let at : user ≡ u = ground (arith, me) in
            let known : is_tracked u mid ≡ true = rw at at o.tracked in
            rw (tracked, balance_after v line next u, me, known)
              (ground (arith, m.shift u, before, known, me, rw at at sum))
        | inr ne ↦
            rw (tracked, balance_after v line next u, ne, same)
              (ground (arith, m.shift u, before, ne))
      ]

  booked_after :
      (v : Wallet) (line : Posting) (db next : Db) (u : ℕ)
      → line.user ≡ user
      → v.balance + loss line.amount ≡ (wallet_of user db).balance + gain line.amount
      → next.wallets ≡ db.wallets
      → next.ledger ≡ db.ledger
      → credits u db.ledger ≡ debits u db.ledger + (wallet_of u db).balance
      → credits u (line ∷ next.ledger)
        ≡ debits u (line ∷ next.ledger) + (wallet_of u (written v line next)).balance
  unfolding credits debits sum_by
  booked_after v line db next u owner sum same_wallets same_ledger before =
      let same = wallet_of_same u db next same_wallets in
      rw (balance_after v line next u, same, same_ledger, owner)
        (elim (Bool-cases (user == u)) [
          | inl me ↦
              let at : user ≡ u = ground (arith, me) in rw me (omega (arith, before, rw at at sum))
          | inr ne ↦ rw ne (omega (arith, before))
        ])

  written-IsSound :
      (v : Wallet) (line : Posting) (db mid next : Db)
      → line.user ≡ user
      → v.balance + loss line.amount ≡ (wallet_of user db).balance + gain line.amount
      → v.balance < 2 ^ 63
      → any (λ p. p.reference == line.reference) next.ledger ≡ false
      → IsSound db
      → Opened user db mid
      → Moved user (loss line.amount) (gain line.amount) mid next
      → IsSound (written v line next)
  written-IsSound v line db mid next owner sum small free i o m =
      let same_wallets = m.same_wallets ∙ o.same_wallets in
      record {
        funded = record {
          held = λ u. unfold funds in (held_after v line line.amount db mid next u sum o m);
          distinct = m.distinct;
        };
        booked = λ u.
            booked_after v line db next u owner sum same_wallets (m.same_ledger ∙ o.same_ledger)
              (i.booked u);
        once = (
          Absent-references line.reference next.ledger free,
          rw (m.same_ledger, o.same_ledger) i.once,
        );
        bounded = λ u.
            rw (balance_after v line next u, wallet_of_same u db next same_wallets)
              (ground (arith, i.bounded u, small));
      }

  -- If the books of all users agree and `post` accepts an amount that adds or takes less than 2^63, any
  -- int64 but the least, they agree after it: the sources of each tracked user hold the balance of the
  -- wallet, those of any other user nothing, the lines of the ledger add up to the balance, no reference
  -- stands on two of them, and each balance is below 2^63. This holds for every kind of posting.
  pub post-IsSound :
      (delta : ℤ) (kind : Kind) (reference : ℕ) (db db' : Db)
      → gain delta < 2 ^ 63
      → loss delta < 2 ^ 63
      → IsSound db
      → post names now user delta kind reference db ≡ ok db'
      → IsSound db'
  unfolding post
  post-IsSound delta kind reference db db' fits above i run =
      let w = wallet_of user db in
      elim (Fallible-cases (new_balance w.balance delta)) [
        | inl (why, failed) ↦ absurd (err_ne (rw (post, failed) at run))
        | inr (n, counted) ↦
            elim (Fallible-cases (track_funds names now user w.balance delta kind reference db)) [
              | inl (why, failed) ↦ absurd (err_ne (rw (post, counted, failed) at run))
              | inr (next, tracked) ↦
                  let (mid, (o, m)) =
                    track_funds_moves delta kind reference db next i.funded tracked in
                  let sum = new_balance_lem w.balance n delta counted in
                  let v : Wallet = record { balance = n; version = w.version + 1 } in
                  let line : Posting = record {
                    user = user;
                    amount = delta;
                    balance = n;
                    kind = kind;
                    reference = reference;
                  } in
                  elim (Bool-cases (any (λ p. p.reference == reference) next.ledger)) [
                    | inl taken ↦ absurd (err_ne (rw (post, counted, tracked, taken) at run))
                    | inr free ↦
                        rw (sym (ok-injective (rw (post, counted, tracked, free) at run))) (
                          written-IsSound v line db mid next refl sum
                            (new_balance-lt w.balance n delta (i.bounded user) fits counted) free i
                            o m)
                  ]
            ]
      ]
