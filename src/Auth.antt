-- ===== src/Auth.antt =====
-- app/auth/dependencies.py: who a request comes from.
pub mod Laws
use cortex_cloud_api.Prelude.{
  ℕ, String, str_eq, Bool, true, false, ◌&&◌, not, Option, none, some, List, [], ◌∷◌, select, ltb,
  ◌==◌, if◌then◌else◌,
}
use cortex_cloud_api.Prelude.Int.{ℤ, pos, leb_ℤ}
use cortex_cloud_api.Prelude.Text.{codes, eq_codes, starts_with, lower, is_empty, split}
use cortex_cloud_api.Effects.{
  Exn, http, message, Exec, pure, raise, gets, or_raise, raise_if, ◌>>=◌, ◌>>◌,
}
use cortex_cloud_api.Database.{User, ApiKey, BillingAccount, Db, World}
use cortex_cloud_api.Database.Query.{execute, scalar_one_or_none}
use cortex_cloud_api.Security.{Crypto, decode_access_token, hash_api_key, drop_text}

abbrev pub unauthorized : String → Exn
unauthorized text = http 401 (message text)

abbrev pub no_credentials : Exn
no_credentials = unauthorized "Could not validate credentials"

-- `if not token`
abbrev pub present : Option String → Option String
present none = none
present (some s) = if is_empty s then none else some s

-- A token that still has its scheme before it loses it.
abbrev strip_bearer : String → String
strip_bearer token =
    if starts_with (lower token) (codes "bearer ") then drop_text 7 token else token

-- `Bearer <key>`, in two words.
abbrev pub bearer_key : List String → Option String
bearer_key (scheme ∷ key ∷ []) = if eq_codes (lower scheme) (codes "bearer") then some key else none
bearer_key _ = none

-- `expires_at and expires_at < now`
abbrev pub has_expired : Option ℕ → ℕ → Bool
has_expired none now = false
has_expired (some at) now = ltb at now

abbrev pub is_set : Option ℕ → Bool
is_set none = false
is_set (some at) = true

-- `not billing or billing.balance <= 0`
abbrev pub is_exhausted : Option BillingAccount → Bool
is_exhausted none = true
is_exhausted (some billing) = leb_ℤ billing.balance (pos 0)

abbrev pub exhausted : Exn
exhausted =
    http 402 (message "Billing balance is exhausted or negative. Please top up your account.")

-- The query for the key: its hash, and that it is active.
abbrev pub active_keys : String → Db → List ApiKey
active_keys hashed db = select (λ k. str_eq k.hashed_key hashed && k.is_active) db.api_keys

abbrev pub accounts_of : ℕ → Db → List BillingAccount
accounts_of org db = select (λ a. a.organization_id == org) db.accounts

-- The checks that follow once the key is found.
abbrev pub check_key : ApiKey → Exec World ApiKey
check_key key = do
  now ← gets (λ w. w.clock)
  raise_if (has_expired key.expires_at now) (unauthorized "API Key has expired.")
  raise_if (is_set key.revoked_at) (unauthorized "API Key has been revoked.")
  accounts ← execute (accounts_of key.organization_id)
  billing ← scalar_one_or_none accounts
  raise_if (is_exhausted billing) exhausted
  pure key

module _ (c : Crypto) where
  abbrev pub verify_plain_key : String → Exec World ApiKey
  verify_plain_key plain_key = do
    keys ← execute (active_keys (hash_api_key c plain_key))
    found ← scalar_one_or_none keys
    key ← or_raise found (unauthorized "Invalid or inactive API Key.")
    check_key key

  -- The value of the Authorization header, if there is one.
  unfoldable pub verify_api_key : Option String → Exec World ApiKey
  verify_api_key authorization = do
    header ←
        or_raise (present authorization)
          (unauthorized "Missing Authorization Header. Provide Bearer API key.")
    plain_key ←
        or_raise (bearer_key (split header))
          (unauthorized "Invalid Authorization header format. Must be 'Bearer <key>'.")
    verify_plain_key plain_key

  unfoldable pub get_current_user : Option String → Exec World User
  get_current_user token = do
    given ← or_raise (present token) no_credentials
    now ← gets (λ w. w.clock)
    user_id ← or_raise (decode_access_token c (strip_bearer given) now) no_credentials
    users ← execute (λ db. select (λ u. (u.id == user_id) && u.is_active) db.users)
    found ← scalar_one_or_none users
    or_raise found no_credentials

  unfoldable pub get_current_admin : Option String → Exec World User
  unfolding get_current_user
  get_current_admin token = do
    user ← get_current_user token
    raise_if (not user.is_admin) (http 403 (message "The user does not have enough privileges"))
    pure user
