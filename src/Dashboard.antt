-- ===== src/Dashboard.antt =====
-- app/api/dashboard/routes.py: accounts of users, their API keys and their billing. A row's
-- `created_at` is its place in its table: the newest is the last.
pub mod Decimals
pub mod Accounts
pub mod Reports
pub mod Money
pub mod Deposits
pub mod Access
pub mod EndToEnd
pub mod Revocation
use cortex_cloud_api.Prelude.{
  ℕ, suc, ◌+◌, String, str_eq, Bool, true, false, ◌&&◌, not, Option, none, some, List, [], ◌∷◌,
  ◌++◌, map, select, any, ◌==◌, if◌then◌else◌, concat_map, reverse_onto,
}
use cortex_cloud_api.Effects.{
  Exn, http, message, Exec, pure, raise, gets, or_raise, raise_if, ◌>>=◌, ◌>>◌,
}
use cortex_cloud_api.Database.{
  User, Organization, OrganizationMember, ApiKey, BillingAccount, BillingTransaction, deposit, Db,
  World,
}
use cortex_cloud_api.Database.Query.{execute, scalar_one_or_none, update, failed_flush}

-- `select(Organization).join(OrganizationMember).filter(OrganizationMember.user_id == user.id)`
abbrev pub organizations_of : ℕ → Db → List Organization
organizations_of user_id db =
    concat_map
      (λ o.
        map (λ m. o)
          (select (λ m. (m.organization_id == o.id) && (m.user_id == user_id)) db.members))
      db.organizations

-- Rows joined to the user's organizations by the organization that each belongs to.
abbrev pub joined : {A : Type 0} → (A → ℕ) → List A → ℕ → Db → List A
joined organization_id rows user_id db =
    concat_map
      (λ row.
        map (λ o. row) (select (λ o. o.id == organization_id row) (organizations_of user_id db)))
      rows

abbrev pub keys_of : ℕ → Db → List ApiKey
keys_of = λ user_id db. joined (λ k. k.organization_id) db.api_keys user_id db

abbrev pub billing_of : ℕ → Db → List BillingAccount
billing_of = λ user_id db. joined (λ a. a.organization_id) db.accounts user_id db

abbrev pub not_found : String → Exn
not_found text = http 404 (message text)

-- `.order_by(….created_at.desc())`
abbrev pub newest_first : {A : Type 0} → List A → List A
newest_first rows = reverse_onto [] rows
