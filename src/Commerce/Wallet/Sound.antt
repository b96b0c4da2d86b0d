-- ===== src/Commerce/Wallet/Sound.antt =====
-- What it means that the wallets, the sources of the funds and the ledger of internal/commerce agree.
use traffic_forwarding_panel.Prelude.{
  ℕ, suc, ◌+◌, ◌^◌, ◌<◌, ◌≡◌, inl, inr, false, Bool-cases, List, [], ◌∷◌, any, true_ne_false,
  sum_by, arith, ◌==◌, if◌then◌else◌,
}
use traffic_forwarding_panel.Prelude.Int.{ℤ, pos, negsuc}
use traffic_forwarding_panel.Prelude.Assoc.{Absent, IsDistinct}
use traffic_forwarding_panel.Commerce.Wallet.Tables.{Db, Posting, wallet_of}
use traffic_forwarding_panel.Commerce.Wallet.Accounts.{IsFunded}

-- What an amount adds, and what it takes.
abbrev pub gain : ℤ → ℕ
gain (pos n) = n
gain (negsuc n) = 0

abbrev pub loss : ℤ → ℕ
loss (pos n) = 0
loss (negsuc n) = suc n

-- The sums of a user's lines of the ledger.
unfoldable pub credits : ℕ → List Posting → ℕ
credits u ledger = sum_by (λ p. if p.user == u then gain p.amount else 0) ledger

unfoldable pub debits : ℕ → List Posting → ℕ
debits u ledger = sum_by (λ p. if p.user == u then loss p.amount else 0) ledger

abbrev pub references : List Posting → List ℕ
references [] = []
references (p ∷ ledger) = p.reference ∷ references ledger

pub Absent-references :
    (reference : ℕ) (ledger : List Posting)
    → any (λ p. p.reference == reference) ledger ≡ false
    → Absent reference (references ledger)
unfolding any
Absent-references reference [] h = tt
Absent-references reference (p ∷ ledger) h = elim (Bool-cases (p.reference == reference)) [
  | inl same ↦ absurd (true_ne_false (rw same at h))
  | inr ne ↦ (ground arith, Absent-references reference ledger (rw ne at h))
]

-- The books agree: the sources of a tracked user hold the balance, the lines of the ledger add up to
-- it, each reference stands on one line, and the balance fits an int64.
pub record IsSound (db : Db) : Type 0 where
  pub funded : IsFunded db
  pub booked : (u : ℕ) → credits u db.ledger ≡ debits u db.ledger + (wallet_of u db).balance
  pub once : IsDistinct (references db.ledger)
  pub bounded : (u : ℕ) → (wallet_of u db).balance < 2 ^ 63
