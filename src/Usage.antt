-- ===== src/Usage.antt =====
-- app/services/usage.py: the cost of a request, its usage log, and the charge. A cost is a whole
-- number of micro-dollars. Before it is rounded it is a whole number of ten-thousandths of one: a
-- price is in units of $0.0001 for a million tokens. Decimal arithmetic is exact here, since its 28
-- digits hold the cost of any 32-bit numbers of tokens; and a float that is read from a column of six
-- decimals goes back into it unchanged.
pub mod Uuid
pub mod Cost
pub mod Ledger
pub mod Charging
pub mod Guarantees
use cortex_cloud_api.Prelude.{
  ℕ, suc, ◌+◌, ◌*◌, ◌/◌, ◌%◌, ◌<◌, String, Bool, true, false, ◌&&◌, ◌||◌, not, Option, none, some,
  List, [], ◌∷◌, ◌++◌, map, ltb, leb, ◌==◌, any, select, if◌then◌else◌,
}
use cortex_cloud_api.Prelude.Int.{ℤ, pos, negsuc, pos_part, neg_part, ◌+ℤ◌, ◌-ℤ◌, ltb_ℤ}
use cortex_cloud_api.Effects.{Detail, message, Exn, other, Exec, pure, or_raise, ◌>>=◌, ◌>>◌}
use cortex_cloud_api.Database.{
  ModelRegistry, BillingAccount, BillingTransaction, usage_charge, UsageLog, Db, World,
}
use cortex_cloud_api.Database.Query.{execute, scalar_one_or_none, update, failed_flush}
use cortex_cloud_api.Registry.{get_model_by_name}
use Uuid.{uuid_of}

-- The arguments of `record_usage`.
pub record Usage : Type 0 where
  pub organization_id : ℕ
  pub api_key_id : Option ℕ
  pub correlation_id : String
  pub model_name : String
  pub prompt_tokens : ℤ
  pub completion_tokens : ℤ
  pub latency_ms : ℕ
  pub status_code : ℕ
  pub request_path : String
  pub client_ip : String
  pub error_message : Option Detail

-- `if tokens > 0`
abbrev pub billable : ℤ → ℕ
billable tokens = if ltb_ℤ (pos 0) tokens then pos_part tokens else 0

-- `quantize` rounds to the nearest, and a tie to the even neighbour.
unfoldable pub round_half_even : ℕ → ℕ → ℕ
round_half_even n d =
    if ltb (2 * (n % d)) d
    then n / d
    else if ltb d (2 * (n % d))
    then n / d + 1
    else n / d + n / d % 2

abbrev pub prompt_price : Option ModelRegistry → ℕ
prompt_price none = 0
prompt_price (some model) = model.prompt_token_price

abbrev pub completion_price : Option ModelRegistry → ℕ
completion_price none = 0
completion_price (some model) = model.completion_token_price

abbrev pub provider_name : Option ModelRegistry → String
provider_name none = "unknown"
provider_name (some model) = model.provider

unfoldable pub cost_of : Option ModelRegistry → ℤ → ℤ → ℕ
unfolding round_half_even
cost_of model prompt_tokens completion_tokens =
    round_half_even
      (billable prompt_tokens * prompt_price model
        + billable completion_tokens * completion_price model)
      10000

-- Numeric(12, 6) holds six digits before the point.
abbrev pub numeric_limit : ℕ
numeric_limit = 1_000_000_000_000

abbrev pub fits_numeric : ℤ → Bool
fits_numeric x = ltb (pos_part x + neg_part x) numeric_limit

abbrev pub usage_log : Usage → Option ModelRegistry → ℕ → ℕ → UsageLog
usage_log u model correlation_id now = record {
  organization_id = u.organization_id;
  api_key_id = u.api_key_id;
  correlation_id = correlation_id;
  provider = provider_name model;
  model = u.model_name;
  prompt_tokens = u.prompt_tokens;
  completion_tokens = u.completion_tokens;
  total_tokens = u.prompt_tokens +ℤ u.completion_tokens;
  cost = cost_of model u.prompt_tokens u.completion_tokens;
  latency_ms = u.latency_ms;
  status_code = u.status_code;
  error_message = u.error_message;
  request_path = u.request_path;
  client_ip = u.client_ip;
  created_at = now;
}

abbrev pub set_balance : ℕ → ℤ → BillingAccount → BillingAccount
set_balance id balance a = if a.id == id then record a { balance = balance } else a

-- A new balance and its ledger transaction.
abbrev pub post : ℕ → ℤ → BillingTransaction → Db → Db
post id balance tx db = record db {
  accounts = map (set_balance id balance) db.accounts;
  transactions = db.transactions ++ tx ∷ [];
}

abbrev pub charge_tx : BillingAccount → ℕ → BillingTransaction
charge_tx account cost = record {
  billing_account_id = account.id;
  amount = pos 0 -ℤ pos cost;
  type = usage_charge;
}

-- What the session holds to be written: the charge of the account, if there is one.
abbrev pub charge : Option BillingAccount → ℕ → Db → Db
charge none cost db = db
charge (some account) cost db =
    post account.id (account.balance -ℤ pos cost) (charge_tx account cost) db

abbrev pub charge_fits : Option BillingAccount → ℕ → Bool
charge_fits none cost = true
charge_fits (some account) cost = fits_numeric (account.balance -ℤ pos cost)

abbrev pub add_log : UsageLog → Db → Db
add_log log db = record db { usage_logs = db.usage_logs ++ log ∷ [] }

abbrev pub write_usage : UsageLog → Option BillingAccount → Exec World UsageLog
write_usage log account = do update (λ db. charge account log.cost (add_log log db)); pure log

-- The flush: the unique index on `correlation_id` and the width of the columns may refuse it.
abbrev pub flush_usage : UsageLog → Option BillingAccount → Bool → Exec World UsageLog
flush_usage log account taken =
    if taken
    then failed_flush "IntegrityError: usage_logs.correlation_id"
    else if ltb log.cost numeric_limit && charge_fits account log.cost
    then write_usage log account
    else failed_flush "DBAPIError: numeric field overflow"

unfoldable pub commit_usage : UsageLog → Option BillingAccount → Exec World UsageLog
commit_usage log account = do
  taken ← execute (λ db. any (λ l. l.correlation_id == log.correlation_id) db.usage_logs)
  flush_usage log account taken

-- `if cost > 0 and status_code == 200`: the account of the organization.
unfoldable pub account_to_charge : Usage → ℕ → Exec World (Option BillingAccount)
account_to_charge u cost =
    if ltb 0 cost && (u.status_code == 200)
    then (do
      rows ← execute (λ db. select (λ a. a.organization_id == u.organization_id) db.accounts)
      scalar_one_or_none rows)
    else pure none

-- The parts of `record_usage` that follow the lookup of the model and the parse of the uuid.
abbrev pub record_at : Usage → Option ModelRegistry → ℕ → Exec World UsageLog
record_at u model id w =
    (account_to_charge u (usage_log u model id w.clock).cost
        >>= commit_usage (usage_log u model id w.clock))
      w

abbrev pub record_with : Usage → Option ModelRegistry → Exec World UsageLog
record_with u model = do
  id ←
      or_raise (uuid_of u.correlation_id)
        (other (message "ValueError: badly formed hexadecimal UUID string"))
  record_at u model id

unfoldable pub record_usage : Usage → Exec World UsageLog
unfolding account_to_charge commit_usage
record_usage u = do model ← get_model_by_name u.model_name; record_with u model
