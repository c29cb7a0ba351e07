-- ===== src/Database.antt =====
-- The rows of the gateway's tables (app/models/registry.py, user.py, org.py, key.py, billing.py,
-- usage.py), and the state of one running request. Ids are the numbers of the uuids that the
-- database hands out. Money is in micro-dollars, the six decimals of the Numeric(12, 6) columns; a
-- model's prices are in units of $0.0001 for a million tokens, the four decimals of Numeric(10, 4).
pub mod Query
pub mod Rules
pub mod Keeps
use cortex_cloud_api.Prelude.{ℕ, String, Bool, Option, List}
use cortex_cloud_api.Prelude.Int.{ℤ}
use cortex_cloud_api.Effects.{Detail}

-- Of the capability flags, the gateway reads `capabilities.get("fallback_model")`.
pub record ModelRegistry : Type 0 where
  pub id : ℕ
  pub name : String
  pub provider : String
  pub provider_model_name : String
  pub context_length : ℕ
  pub prompt_token_price : ℕ
  pub completion_token_price : ℕ
  pub is_active : Bool
  pub fallback_model : Option String

pub record User : Type 0 where
  pub id : ℕ
  pub email : String
  pub hashed_password : String
  pub is_active : Bool
  pub is_admin : Bool

pub record Organization : Type 0 where
  pub id : ℕ
  pub name : String
  pub owner_id : ℕ

pub record OrganizationMember : Type 0 where
  pub organization_id : ℕ
  pub user_id : ℕ
  pub role : String

-- `rate_limit_rpm` is `permissions.get("rate_limit_rpm")`, the one permission that is read.
pub record ApiKey : Type 0 where
  pub id : ℕ
  pub organization_id : ℕ
  pub name : String
  pub prefix : String
  pub hashed_key : String
  pub is_active : Bool
  pub rate_limit_rpm : Option ℕ
  pub daily_limit : Option ℤ
  pub monthly_limit : Option ℤ
  pub expires_at : Option ℕ
  pub revoked_at : Option ℕ

pub record BillingAccount : Type 0 where
  pub id : ℕ
  pub organization_id : ℕ
  pub balance : ℤ
  pub tier : String

-- The values of the column `type`.
pub data TransactionType : Type 0 where
  deposit usage_charge refund : TransactionType

pub record BillingTransaction : Type 0 where
  pub billing_account_id : ℕ
  pub amount : ℤ
  pub type : TransactionType

pub record UsageLog : Type 0 where
  pub organization_id : ℕ
  pub api_key_id : Option ℕ
  pub correlation_id : ℕ
  pub provider : String
  pub model : String
  pub prompt_tokens : ℤ
  pub completion_tokens : ℤ
  pub total_tokens : ℤ
  pub cost : ℕ
  pub latency_ms : ℕ
  pub status_code : ℕ
  pub error_message : Option Detail
  pub request_path : String
  pub client_ip : String
  pub created_at : ℕ

pub record Db : Type 0 where
  pub models : List ModelRegistry
  pub users : List User
  pub organizations : List Organization
  pub members : List OrganizationMember
  pub api_keys : List ApiKey
  pub accounts : List BillingAccount
  pub transactions : List BillingTransaction
  pub usage_logs : List UsageLog
  -- the uuid that the next new row gets
  pub next_id : ℕ

-- The state of a request: the database, the clock in milliseconds, the number of calls that went
-- to an upstream provider, the milliseconds spent asleep between them, and whether the request's
-- session has had a failed flush, after which it refuses every statement until a rollback.
pub record World : Type 0 where
  pub db : Db
  pub clock : ℕ
  pub calls : ℕ
  pub slept : ℕ
  pub pending_rollback : Bool
