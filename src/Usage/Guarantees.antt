-- ===== src/Usage/Guarantees.antt =====
-- What `record_usage` guarantees to the accounts.
use cortex_cloud_api.Prelude.{
  ℕ, false, ◌≡◌, refl, ◌≢◌, List, [], ◌∷◌, map, arith, ◌==◌, select, any, All, All-select, Option,
  none, some, subst,
}
use cortex_cloud_api.Prelude.Int.{ℤ, pos, ◌-ℤ◌}
use cortex_cloud_api.Effects.After.{After-state, After-weaken}
use cortex_cloud_api.Database.{BillingAccount, UsageLog, Db, World}
use cortex_cloud_api.Database.Rules.{Unchanged}
use cortex_cloud_api.Usage.{Usage, record_usage, charge, add_log, set_balance}
use cortex_cloud_api.Usage.Ledger.{IsBalanced, Matches, MatchesIfFound, charge-IsBalanced}
use cortex_cloud_api.Usage.Charging.{Recorded, Chosen, record_usage-After}

Chosen-Matches :
    (u : Usage) (cost : ℕ) (db : Db) (account : Option BillingAccount)
    → Chosen u cost db account
    → IsBalanced db
    → MatchesIfFound db account
Chosen-Matches u cost db none c h = tt
Chosen-Matches u cost db (some a) (p, q, e) h =
    (subst (All (Matches db.transactions)) e (
      All-select (Matches db.transactions) (λ b. b.organization_id == u.organization_id) db.accounts
        h)).0

-- The rule for what holds of the database however `record_usage` ends.
pub record_usage_keeps :
    (u : Usage) (w : World) (P : Db → Type 0)
    → P w.db
    → ((log : UsageLog) (account : Option BillingAccount)
        → any (λ l. l.correlation_id == log.correlation_id) w.db.usage_logs ≡ false
        → Chosen u log.cost w.db account
        → P (charge account log.cost (add_log log w.db)))
    → P (record_usage u w).1.db
record_usage_keeps u w P h step =
    After-state (λ v. P v.db) (record_usage u w)
      (After-weaken (Recorded u w) (λ log v. P v.db) (Unchanged w) (λ e v. P v.db)
        (record_usage u w) (record_usage-After u w)
        (λ log v r. rw r.world_same (step log r.account (rw r.log_same r.fresh) r.chosen))
        (λ e v same. rw same h))

-- Whatever it records or refuses, `record_usage` keeps every balance equal to the sum of its
-- account's transactions.
pub record_usage-IsBalanced :
    (u : Usage) (w : World) → IsBalanced w.db → IsBalanced (record_usage u w).1.db
record_usage-IsBalanced u w h = record_usage_keeps u w IsBalanced h λ log account fresh c.
    charge-IsBalanced account log.cost (add_log log w.db)
      (Chosen-Matches u log.cost w.db account c h) h

-- The balances and the ledger.
abbrev pub SameMoney : Db → Db → Type 0
SameMoney db db' = (db'.accounts ≡ db.accounts) × (db'.transactions ≡ db.transactions)

charge-SameMoney :
    (u : Usage) (cost : ℕ) (db : Db) (account : Option BillingAccount) (log : UsageLog)
    → Chosen u cost db account
    → u.status_code ≢ 200
    → SameMoney db (charge account cost (add_log log db))
charge-SameMoney u cost db none log c h = (refl, refl)
charge-SameMoney u cost db (some a) log (p, q, e) h = absurd (h q)

-- A request that did not end with status 200 is not charged.
pub record_usage_unsuccessful :
    (u : Usage) (w : World) → u.status_code ≢ 200 → SameMoney w.db (record_usage u w).1.db
record_usage_unsuccessful u w h =
    record_usage_keeps u w (SameMoney w.db) (refl, refl)
      λ log account fresh c. charge-SameMoney u log.cost w.db account log c h

-- The rows of the account with a given id.
abbrev pub account_rows : ℕ → Db → List BillingAccount
account_rows j db = select (λ a. a.id == j) db.accounts

select-set_balance :
    (j id : ℕ) (balance : ℤ) (accounts : List BillingAccount)
    → id ≢ j
    → select (λ a. a.id == j) (map (set_balance id balance) accounts)
      ≡ select (λ a. a.id == j) accounts
select-set_balance j id balance [] h = refl
select-set_balance j id balance (a ∷ rest) h =
    ground (arith, select-set_balance j id balance rest h)

-- No account of the organization has the id `j`.
abbrev pub NotOf : ℕ → ℕ → Db → Type 0
NotOf org j db = All (λ a. a.id ≢ j) (select (λ a. a.organization_id == org) db.accounts)

charge-account_rows :
    (u : Usage) (cost j : ℕ) (db : Db) (account : Option BillingAccount) (log : UsageLog)
    → Chosen u cost db account
    → NotOf u.organization_id j db
    → account_rows j (charge account cost (add_log log db)) ≡ account_rows j db
charge-account_rows u cost j db none log c h = refl
charge-account_rows u cost j db (some a) log (p, q, e) h =
    select-set_balance j a.id (a.balance -ℤ pos cost) db.accounts
      (subst (All (λ b. b.id ≢ j)) e h).0

-- The accounts of every other organization keep their balances.
pub record_usage_others :
    (u : Usage) (j : ℕ) (w : World)
    → NotOf u.organization_id j w.db
    → account_rows j (record_usage u w).1.db ≡ account_rows j w.db
record_usage_others u j w h =
    record_usage_keeps u w (λ db. account_rows j db ≡ account_rows j w.db) refl
      λ log account fresh c. charge-account_rows u log.cost j w.db account log c h
