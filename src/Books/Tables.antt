-- ===== src/Books/Tables.antt =====
-- The unique columns of the tables (app/models/*.py): `users.email`, `models.name`,
-- `api_keys.hashed_key`, `usage_logs.correlation_id` and `billing_accounts.organization_id`.
use cortex_cloud_api.Prelude.{
  ℕ, ◌+◌, ◌<◌, ◌≡◌, refl, String, str_eq, eq_iff, true, false, Option, none, some, List, [], ◌∷◌,
  map, arith, ◌==◌, select, any, All, All-append,
}
use cortex_cloud_api.Prelude.Int.{ℤ, pos, ◌-ℤ◌}
use cortex_cloud_api.Database.{ModelRegistry, User, ApiKey, BillingAccount, UsageLog, Db}
use cortex_cloud_api.Database.Keeps.{Keeps, After-Keeps}
use cortex_cloud_api.Security.{Crypto}
use cortex_cloud_api.Usage.{Usage, record_usage, charge, add_log, set_balance}
use cortex_cloud_api.Usage.Guarantees.{record_usage_keeps}
use cortex_cloud_api.Dashboard.Accounts.{
  register, add_registration, new_user, new_account, simulated_deposit,
}
use cortex_cloud_api.Dashboard.Money.{Registered, register-After, hashed, weaken}
use cortex_cloud_api.Dashboard.Decimals.{Decimal, add_amount, column_value}
use cortex_cloud_api.Dashboard.Deposits.{IsDeposited, simulated_deposit-After}
use cortex_cloud_api.Books.Rows.{select-none, IsUnique, IsUnique-append, IsUnique-map}

pub record Tables (users : List User) (models : List ModelRegistry) (api_keys : List ApiKey)
    (accounts : List BillingAccount) (logs : List UsageLog) (n : ℕ) : Type 0 where
  pub emails : IsUnique (λ (u : User). u.email) str_eq users
  pub names : IsUnique (λ (m : ModelRegistry). m.name) str_eq models
  pub hashes : IsUnique (λ (k : ApiKey). k.hashed_key) str_eq api_keys
  pub organizations : IsUnique (λ (a : BillingAccount). a.organization_id) ◌==◌ accounts
  pub correlations : IsUnique (λ (l : UsageLog). l.correlation_id) ◌==◌ logs
  pub owned : All (λ a. a.organization_id < n) accounts

-- Each unique column has every value in one row at most, and no account is of an organization whose
-- id is not handed out yet.
abbrev pub IsIndexed : Db → Type 0
IsIndexed db = Tables db.users db.models db.api_keys db.accounts db.usage_logs db.next_id

pub str_sound : (j k : String) → str_eq j k ≡ true → j ≡ k
str_sound j k h = (eq_iff j k).0 h

id_sound : (j k : ℕ) → (j == k) ≡ true → j ≡ k
id_sound j k h = ground arith

set_balance_owner :
    (id : ℕ) (balance : ℤ) (a : BillingAccount)
    → (set_balance id balance a).organization_id ≡ a.organization_id
set_balance_owner id balance a = ground arith

set_balance-owned :
    (n id : ℕ) (balance : ℤ) (rows : List BillingAccount)
    → All (λ a. a.organization_id < n) rows
    → All (λ a. a.organization_id < n) (map (set_balance id balance) rows)
set_balance-owned n id balance [] h = tt
set_balance-owned n id balance (a ∷ rows) (h, hs) =
    (ground (arith, h), set_balance-owned n id balance rows hs)

posted-IsIndexed :
    (id : ℕ) (balance : ℤ) (db : Db)
    → IsIndexed db
    → Tables db.users db.models db.api_keys
        (map (set_balance id balance) db.accounts)
        db.usage_logs
        db.next_id
posted-IsIndexed id balance db h = record {
  emails = h.emails;
  names = h.names;
  hashes = h.hashes;
  organizations =
      IsUnique-map (λ (a : BillingAccount). a.organization_id) ◌==◌ (set_balance id balance)
        db.accounts (set_balance_owner id balance) h.organizations;
  correlations = h.correlations;
  owned = set_balance-owned db.next_id id balance db.accounts h.owned;
}

add_log-IsIndexed :
    (log : UsageLog) (db : Db)
    → any (λ l. l.correlation_id == log.correlation_id) db.usage_logs ≡ false
    → IsIndexed db
    → IsIndexed (add_log log db)
add_log-IsIndexed log db fresh h = record {
  emails = h.emails;
  names = h.names;
  hashes = h.hashes;
  organizations = h.organizations;
  correlations =
      IsUnique-append (λ (l : UsageLog). l.correlation_id) ◌==◌ id_sound db.usage_logs log
        (select-none (λ l. l.correlation_id == log.correlation_id) db.usage_logs fresh)
        h.correlations;
  owned = h.owned;
}

charge-IsIndexed :
    (account : Option BillingAccount) (cost : ℕ) (db : Db)
    → IsIndexed db
    → IsIndexed (charge account cost db)
charge-IsIndexed none cost db h = h
charge-IsIndexed (some a) cost db h = posted-IsIndexed a.id (a.balance -ℤ pos cost) db h

pub record_usage-IsIndexed : (u : Usage) → Keeps IsIndexed (record_usage u)
record_usage-IsIndexed u w h = record_usage_keeps u w IsIndexed h λ log account fresh c.
    charge-IsIndexed account log.cost (add_log log w.db) (add_log-IsIndexed log w.db fresh h)

pub simulated_deposit-IsIndexed :
    (amount : Decimal) (user_id : ℕ) → Keeps IsIndexed (simulated_deposit amount user_id)
simulated_deposit-IsIndexed amount user_id w h =
    After-Keeps IsIndexed (IsDeposited amount user_id w) w (simulated_deposit amount user_id w)
      (simulated_deposit-After amount user_id w)
      (λ balance v d.
        rw d.db_same (
          posted-IsIndexed d.account.id (column_value (add_amount d.account.balance amount)) w.db
            h))
      h

unowned :
    (n : ℕ) (rows : List BillingAccount)
    → All (λ a. a.organization_id < n) rows
    → select (λ a. a.organization_id == n + 1) rows ≡ []
unowned n [] h = refl
unowned n (a ∷ rows) (h, hs) = ground (arith, h, unowned n rows hs)

add_registration-IsIndexed :
    (email hashed : String) (db : Db)
    → select (λ u. str_eq u.email email) db.users ≡ []
    → IsIndexed db
    → IsIndexed (add_registration email hashed db)
add_registration-IsIndexed email hashed db fresh h = record {
  emails =
      IsUnique-append (λ (u : User). u.email) str_eq str_sound db.users
        (new_user db.next_id email hashed) fresh h.emails;
  names = h.names;
  hashes = h.hashes;
  organizations =
      IsUnique-append (λ (a : BillingAccount). a.organization_id) ◌==◌ id_sound db.accounts
        (new_account (db.next_id + 2) (db.next_id + 1)) (unowned db.next_id db.accounts h.owned)
        h.organizations;
  correlations = h.correlations;
  owned =
      All-append (λ a. a.organization_id < db.next_id + 3) db.accounts
        (new_account (db.next_id + 2) (db.next_id + 1) ∷ [])
        (weaken (λ (a : BillingAccount). a.organization_id) db.next_id (db.next_id + 3) db.accounts
          (omega arith) h.owned)
        (omega arith, tt);
}

pub register-IsIndexed :
    (c : Crypto) (email password : String) (salt : ℕ)
    → Keeps IsIndexed (register c email password salt)
register-IsIndexed c email password salt w h =
    After-Keeps IsIndexed (Registered c email password salt w) w (register c email password salt w)
      (register-After c email password salt w)
      (λ user v r.
        rw r.1 (add_registration-IsIndexed email (hashed c email password salt w) w.db r.0 h))
      h
