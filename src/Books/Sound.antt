-- ===== src/Books/Sound.antt =====
-- Sound books, and what keeps them sound.
use cortex_cloud_api.Prelude.{
  ℕ, ◌+◌, ◌<◌, ◌≤◌, ◌≡◌, ◌≢◌, sym, ap, ◌∙◌, subst, inl, inr, String, Option, none, some, List, [],
  ◌∷◌, arith, All, All-append, All-select, ◌==◌,
}
use cortex_cloud_api.Prelude.Int.{ℤ, pos, ◌+ℤ◌, ◌-ℤ◌}
use cortex_cloud_api.Database.{
  BillingAccount, BillingTransaction, TransactionType, deposit, usage_charge, refund, UsageLog, Db,
}
use cortex_cloud_api.Usage.{Usage, post, charge, add_log}
use cortex_cloud_api.Usage.Ledger.{Matches, post-IsBalanced, sub-eq-add_neg}
use cortex_cloud_api.Usage.Charging.{Chosen}
use cortex_cloud_api.Admin.Totals.{sum_all}
use cortex_cloud_api.Dashboard.{billing_of}
use cortex_cloud_api.Dashboard.Accounts.{add_registration, new_account, seed_tx, signup_bonus}
use cortex_cloud_api.Dashboard.Money.{IsLedger, add_registration-IsLedger, weaken}
use cortex_cloud_api.Dashboard.Decimals.{Decimal, column_value, column_value-add_amount}
use cortex_cloud_api.Dashboard.Deposits.{deposited, billing_row, set_balance-ids}
use cortex_cloud_api.Books.Sums.{
  balances, Distinct, IsIn, All-IsIn, balances-set_balance, sum_all-append, balances-append,
  set_balance-Distinct, append-Distinct,
}

-- Every balance is the sum of its account's transactions, no two accounts have one id, no id is used
-- that is not handed out yet, no transaction is a refund, and the sum of the balances is that of the
-- transactions.
pub record Books (accounts : List BillingAccount) (txs : List BillingTransaction) (n : ℕ)
    : Type 0 where
  pub balanced : All (Matches txs) accounts
  pub booked : All (λ t. t.billing_account_id < n) txs
  pub opened : All (λ a. a.id < n) accounts
  pub distinct : Distinct accounts
  pub kinds : All (λ t. t.type ≢ refund) txs
  pub summed : balances accounts ≡ sum_all txs

abbrev pub IsSound : Db → Type 0
IsSound db = Books db.accounts db.transactions db.next_id

IsSound-IsLedger : (db : Db) → IsSound db → IsLedger db
IsSound-IsLedger db h = record { balanced = h.balanced; booked = h.booked; opened = h.opened }

All-at :
    (P : BillingAccount → Type 0) (a : BillingAccount) (rows : List BillingAccount)
    → IsIn a rows
    → All P rows
    → P a
All-at P a [] i h = absurd i
All-at P a (b ∷ rows) (inl e) (h, hs) = subst P e h
All-at P a (b ∷ rows) (inr i) (h, hs) = All-at P a rows i hs

-- Rows that get new ids only.
pub later-IsSound :
    (accounts : List BillingAccount) (txs : List BillingTransaction) (n m : ℕ)
    → n ≤ m
    → Books accounts txs n
    → Books accounts txs m
later-IsSound accounts txs n m k h = record {
  balanced = h.balanced;
  booked = weaken (λ (t : BillingTransaction). t.billing_account_id) n m txs k h.booked;
  opened = weaken (λ (a : BillingAccount). a.id) n m accounts k h.opened;
  distinct = h.distinct;
  kinds = h.kinds;
  summed = h.summed;
}

abbrev tx_of : BillingAccount → ℤ → TransactionType → BillingTransaction
tx_of a amount type = record { billing_account_id = a.id; amount = amount; type = type }

-- A transaction on a row of the table, with the balance that it makes.
post-IsSound :
    (a : BillingAccount) (amount : ℤ) (type : TransactionType) (db : Db)
    → IsIn a db.accounts
    → type ≢ refund
    → IsSound db
    → IsSound (post a.id (a.balance +ℤ amount) (tx_of a amount type) db)
post-IsSound a amount type db i k h = record {
  balanced =
      post-IsBalanced (a.balance +ℤ amount) (tx_of a amount type) db
        (ap (λ b. b +ℤ amount) (All-at (Matches db.transactions) a db.accounts i h.balanced))
        h.balanced;
  booked =
      All-append (λ t. t.billing_account_id < db.next_id) db.transactions (tx_of a amount type ∷ [])
        h.booked (All-at (λ a. a.id < db.next_id) a db.accounts i h.opened, tt);
  opened = set_balance-ids db.next_id a.id (a.balance +ℤ amount) db.accounts h.opened;
  distinct = set_balance-Distinct a.id (a.balance +ℤ amount) db.accounts h.distinct;
  kinds =
      All-append (λ t. t.type ≢ refund) db.transactions (tx_of a amount type ∷ []) h.kinds (k, tt);
  summed =
      balances-set_balance a amount db.accounts i h.distinct
      ∙ ap (λ n. n +ℤ amount) h.summed
      ∙ sym (sum_all-append db.transactions (tx_of a amount type));
}

abbrev is_charge : TransactionType → ℕ
is_charge refund = 0
is_charge _ = 1

charge-differs : usage_charge ≢ refund
charge-differs e = let h : 1 ≡ 0 = ap is_charge e in omega (arith, h)

deposit-differs : deposit ≢ refund
deposit-differs e = let h : 1 ≡ 0 = ap is_charge e in omega (arith, h)

charged-IsSound :
    (a : BillingAccount) (cost : ℕ) (db : Db)
    → IsIn a db.accounts
    → IsSound db
    → IsSound (charge (some a) cost db)
charged-IsSound a cost db i h =
    rw (sub-eq-add_neg a.balance (pos cost))
      (post-IsSound a (pos 0 -ℤ pos cost) usage_charge db i charge-differs h)

Chosen-IsIn :
    (u : Usage) (cost : ℕ) (db : Db) (a : BillingAccount)
    → Chosen u cost db (some a)
    → IsIn a db.accounts
Chosen-IsIn u cost db a (p, q, e) =
    (subst (All (λ b. IsIn b db.accounts)) e (
      All-select (λ b. IsIn b db.accounts) (λ b. b.organization_id == u.organization_id) db.accounts
        (All-IsIn db.accounts))).0

pub charge-IsSound :
    (u : Usage) (log : UsageLog) (account : Option BillingAccount) (db : Db)
    → Chosen u log.cost db account
    → IsSound db
    → IsSound (charge account log.cost (add_log log db))
charge-IsSound u log none db c h = h
charge-IsSound u log (some a) db c h =
    charged-IsSound a log.cost (add_log log db) (Chosen-IsIn u log.cost db a c) h

pub deposited-IsSound :
    (a : BillingAccount) (amount : Decimal) (user_id : ℕ) (db : Db)
    → amount.places ≤ 6
    → billing_of user_id db ≡ a ∷ []
    → IsSound db
    → IsSound (deposited a amount db)
deposited-IsSound a amount user_id db whole e h =
    rw (column_value-add_amount a.balance amount whole) (
      post-IsSound a (column_value amount) deposit db
        (billing_row (λ b. IsIn b db.accounts) user_id db a (All-IsIn db.accounts) e)
        deposit-differs h)

pub add_registration-IsSound :
    (email hashed : String) (db : Db) → IsSound db → IsSound (add_registration email hashed db)
add_registration-IsSound email hashed db h = record {
  balanced = ledger.balanced;
  booked = ledger.booked;
  opened = ledger.opened;
  distinct =
      append-Distinct db.next_id (new_account new (db.next_id + 1)) db.accounts (omega arith)
        h.opened h.distinct;
  kinds =
      All-append (λ t. t.type ≢ refund) db.transactions (seed_tx new ∷ []) h.kinds
        (deposit-differs, tt);
  summed =
      balances-append db.accounts (new_account new (db.next_id + 1))
      ∙ ap (λ n. n +ℤ signup_bonus) h.summed
      ∙ sym (sum_all-append db.transactions (seed_tx new));
}
  where
    new : ℕ
    new = db.next_id + 2

    ledger : IsLedger (add_registration email hashed db)
    ledger = add_registration-IsLedger email hashed db (IsSound-IsLedger db h)
