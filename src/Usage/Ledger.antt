-- ===== src/Usage/Ledger.antt =====
-- The ledger: the balance of an account is the sum of its transactions.
use cortex_cloud_api.Prelude.{
  ℕ, ◌≡◌, ap, ◌∙◌, List, [], ◌∷◌, ◌++◌, map, arith, ◌==◌, All, if◌then◌else◌, Option, none, some,
}
use cortex_cloud_api.Prelude.Int.{ℤ, pos, ◌+ℤ◌, ◌-ℤ◌, int_laws}
use cortex_cloud_api.Database.{BillingAccount, BillingTransaction, Db}
use cortex_cloud_api.Usage.{set_balance, post, charge, charge_tx}

-- The sum of the amounts that are booked on an account.
abbrev pub total : ℕ → List BillingTransaction → ℤ
total id [] = pos 0
total id (t ∷ ts) = if t.billing_account_id == id then t.amount +ℤ total id ts else total id ts

abbrev pub Matches : List BillingTransaction → BillingAccount → Type 0
Matches txs a = a.balance ≡ total a.id txs

abbrev pub IsBalanced : Db → Type 0
IsBalanced db = All (Matches db.transactions) db.accounts

pub total-append :
    (id : ℕ) (ts : List BillingTransaction) (t : BillingTransaction)
    → total id (ts ++ t ∷ [])
      ≡ (if t.billing_account_id == id then total id ts +ℤ t.amount else total id ts)
total-append id [] t = grind int_laws
total-append id (s ∷ ts) t = grind (int_laws, total-append id ts t)

-- A new balance that takes its transaction into account keeps every balance right.
set_balance-Matches :
    (txs : List BillingTransaction) (tx : BillingTransaction) (balance : ℤ) (a : BillingAccount)
    → balance ≡ total tx.billing_account_id txs +ℤ tx.amount
    → Matches txs a
    → Matches (txs ++ tx ∷ []) (set_balance tx.billing_account_id balance a)
set_balance-Matches txs tx balance a e h = ground (arith, total-append a.id txs tx)

map-set_balance-Matches :
    (txs : List BillingTransaction) (tx : BillingTransaction) (balance : ℤ)
    (accounts : List BillingAccount)
    → balance ≡ total tx.billing_account_id txs +ℤ tx.amount
    → All (Matches txs) accounts
    → All (Matches (txs ++ tx ∷ [])) (map (set_balance tx.billing_account_id balance) accounts)
map-set_balance-Matches txs tx balance [] e h = tt
map-set_balance-Matches txs tx balance (a ∷ rest) e (h, hs) =
    (set_balance-Matches txs tx balance a e h, map-set_balance-Matches txs tx balance rest e hs)

-- Posting a transaction with the new balance that it makes keeps the ledger balanced.
pub post-IsBalanced :
    (balance : ℤ) (tx : BillingTransaction) (db : Db)
    → balance ≡ total tx.billing_account_id db.transactions +ℤ tx.amount
    → IsBalanced db
    → IsBalanced (post tx.billing_account_id balance tx db)
post-IsBalanced balance tx db e h =
    map-set_balance-Matches db.transactions tx balance db.accounts e h

pub sub-eq-add_neg : (a b : ℤ) → a -ℤ b ≡ a +ℤ (pos 0 -ℤ b)
sub-eq-add_neg a b = omega int_laws

-- An account that a query found has the balance that its transactions give, and so has the charge.
abbrev pub MatchesIfFound : Db → Option BillingAccount → Type 0
MatchesIfFound db none = Unit
MatchesIfFound db (some a) = Matches db.transactions a

pub charge-IsBalanced :
    (account : Option BillingAccount) (cost : ℕ) (db : Db)
    → MatchesIfFound db account
    → IsBalanced db
    → IsBalanced (charge account cost db)
charge-IsBalanced none cost db m h = h
charge-IsBalanced (some a) cost db m h =
    post-IsBalanced (a.balance -ℤ pos cost) (charge_tx a cost) db
      (sub-eq-add_neg a.balance (pos cost) ∙ ap (λ b. b +ℤ (pos 0 -ℤ pos cost)) m) h
