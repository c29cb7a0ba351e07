-- ===== src/Dashboard/Accounts.antt =====
-- app/api/dashboard/routes.py: registration, login, API keys and deposits.
use Prim.Native.Char.{code}
use cortex_cloud_api.Prelude.{
  ℕ, suc, ◌+◌, ◌^◌, String, str_eq, Bool, true, false, ◌&&◌, not, Option, none, some, List, [], ◌∷◌,
  ◌++◌, map, select, any, ◌==◌, ltb, if◌then◌else◌,
}
use cortex_cloud_api.Prelude.Int.{ℤ, pos, pos_part}
use cortex_cloud_api.Prelude.Text.{concat}
use cortex_cloud_api.Effects.{Exn, http, message, Exec, pure, gets, or_raise, raise_if, ◌>>=◌, ◌>>◌}
use cortex_cloud_api.Database.{User, ApiKey, BillingAccount, BillingTransaction, deposit, Db, World}
use cortex_cloud_api.Database.Query.{execute, scalar_one_or_none, update, failed_flush}
use cortex_cloud_api.Security.{
  Crypto, get_password_hash, verify_password, create_access_token, generate_api_key,
}
use cortex_cloud_api.Usage.{post, fits_numeric}
use cortex_cloud_api.Dashboard.Decimals.{Decimal, add_amount, column_value}
use cortex_cloud_api.Dashboard.{organizations_of, keys_of, billing_of, not_found, newest_first}

-- `email.split('@')[0]`
abbrev before_at : String → String
before_at String.[] = ""
before_at (String.◌∷◌ c s) =
    let rest = before_at s in if code c == b'@' then "" else String.◌∷◌ c rest

-- The rows of a registration, with the ids that the database gives them: the user's, the
-- organization's and the account's.
abbrev pub new_user : ℕ → String → String → User
new_user id email hashed = record {
  id = id;
  email = email;
  hashed_password = hashed;
  is_active = true;
  is_admin = false;
}

abbrev pub signup_bonus : ℤ
signup_bonus = pos 10_000_000

abbrev pub new_account : ℕ → ℕ → BillingAccount
new_account id org = record {
  id = id;
  organization_id = org;
  balance = signup_bonus;
  tier = "free";
}

abbrev pub seed_tx : ℕ → BillingTransaction
seed_tx id = record { billing_account_id = id; amount = signup_bonus; type = deposit }

abbrev pub add_registration : String → String → Db → Db
add_registration email hashed db =
    let id = db.next_id in
    record db {
      users = db.users ++ new_user id email hashed ∷ [];
      organizations =
          db.organizations
          ++ record { id = id + 1; name = concat (before_at email) "'s Workspace"; owner_id = id }
            ∷ [];
      members =
          db.members ++ record { organization_id = id + 1; user_id = id; role = "admin" } ∷ [];
      accounts = db.accounts ++ new_account (id + 2) (id + 1) ∷ [];
      transactions = db.transactions ++ seed_tx (id + 2) ∷ [];
      next_id = id + 3;
    }

abbrev pub email_taken : Option User → Bool
email_taken none = false
email_taken (some user) = true

module _ (c : Crypto) where
  -- `salt` is that of `bcrypt.gensalt()`.
  unfoldable pub register : String → String → ℕ → Exec World User
  register email password salt = do
    users ← execute (λ db. select (λ u. str_eq u.email email) db.users)
    found ← scalar_one_or_none users
    raise_if (email_taken found) (http 400 (message "Email already registered."))
    id ← gets (λ w. w.db.next_id)
    update (add_registration email (get_password_hash c password salt))
    pure (new_user id email (get_password_hash c password salt))

  abbrev bad_credentials : Exn
  bad_credentials = http 401 (message "Incorrect email or password.")

  abbrev pub check_password : String → User → Bool
  check_password password user = verify_password c password user.hashed_password

  -- The access token.
  unfoldable pub login : String → String → Exec World String
  login username password = do
    users ← execute (λ db. select (λ u. str_eq u.email username) db.users)
    found ← scalar_one_or_none users
    user ← or_raise found bad_credentials
    raise_if (not (check_password password user)) bad_credentials
    raise_if (not user.is_active) (http 400 (message "Inactive user account."))
    now ← gets (λ w. w.clock)
    pure (create_access_token c user.id now)

  -- The row of a new key, whose random part is given.
  abbrev pub new_key : ℕ → ℕ → String → Option ℤ → Option ℤ → String → ApiKey
  new_key id org name daily_limit monthly_limit random_part = record {
    id = id;
    organization_id = org;
    name = name;
    prefix = (generate_api_key c random_part).1;
    hashed_key = (generate_api_key c random_part).2;
    is_active = true;
    rate_limit_rpm = some 200;
    daily_limit = daily_limit;
    monthly_limit = monthly_limit;
    expires_at = none;
    revoked_at = none;
  }

  abbrev pub add_key : ApiKey → Db → Db
  add_key key db = record db { api_keys = db.api_keys ++ key ∷ []; next_id = suc db.next_id }

  -- The new key's row and its text, which is shown once. Its hash is unique.
  unfoldable pub create_key :
      ℕ → String → Option ℤ → Option ℤ → String → Exec World (ApiKey × String)
  create_key user_id name daily_limit monthly_limit random_part = do
    organizations ← execute (organizations_of user_id)
    found ← scalar_one_or_none organizations
    org ← or_raise found (not_found "User organization not found.")
    id ← gets (λ w. w.db.next_id)
    let key : ApiKey = new_key id org.id name daily_limit monthly_limit random_part
    taken ← execute (λ db. any (λ k. str_eq k.hashed_key key.hashed_key) db.api_keys)
    if taken
        then failed_flush "IntegrityError: api_keys.hashed_key"
        else do update (add_key key); pure (key, (generate_api_key c random_part).0)

abbrev is_revoked : ApiKey → Bool
is_revoked key = elim key.revoked_at [ none ↦ false | some at ↦ true ]

-- The keys that are not revoked, the newest first.
unfoldable pub list_keys : ℕ → Exec World (List ApiKey)
list_keys user_id =
    execute (λ db. newest_first (select (λ k. not (is_revoked k)) (keys_of user_id db)))

abbrev pub revoked_key : ℕ → ℕ → ApiKey → ApiKey
revoked_key id now key =
    if key.id == id then record key { is_active = false; revoked_at = some now } else key

abbrev pub revoke_in : ℕ → ℕ → Db → Db
revoke_in id now db = record db { api_keys = map (revoked_key id now) db.api_keys }

unfoldable pub revoke_key : ℕ → ℕ → Exec World (Unit {0})
revoke_key user_id key_id = do
  keys ← execute (λ db. select (λ k. k.id == key_id) (keys_of user_id db))
  found ← scalar_one_or_none keys
  key ← or_raise found (not_found "API Key not found or access denied.")
  now ← gets (λ w. w.clock)
  update (revoke_in key.id now)

abbrev pub no_account : Exn
no_account = not_found "Billing account not found."

unfoldable pub get_balance : ℕ → Exec World BillingAccount
get_balance user_id = do
  rows ← execute (billing_of user_id)
  found ← scalar_one_or_none rows
  or_raise found no_account

abbrev pub deposit_tx : BillingAccount → ℤ → BillingTransaction
deposit_tx billing amount = record {
  billing_account_id = billing.id;
  amount = amount;
  type = deposit;
}

-- The sum and the amount go into their columns each by itself. The answer has the sum as Python has it.
abbrev pub add_deposit : Decimal → BillingAccount → Exec World Decimal
add_deposit amount billing =
    let sum = add_amount billing.balance amount in
    if fits_numeric (column_value amount) && fits_numeric (column_value sum)
    then (do
      update (post billing.id (column_value sum) (deposit_tx billing (column_value amount)))
      pure sum)
    else failed_flush "DBAPIError: numeric field overflow"

-- The new balance. The amount is at least a dollar.
unfoldable pub simulated_deposit : Decimal → ℕ → Exec World Decimal
simulated_deposit amount user_id = do
  raise_if (ltb (pos_part amount.units) (10 ^ amount.places)) (http 422 (message "amount"))
  rows ← execute (billing_of user_id)
  found ← scalar_one_or_none rows
  billing ← or_raise found no_account
  add_deposit amount billing
