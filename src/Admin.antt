-- ===== src/Admin.antt =====
-- app/admin/routes.py, behind `get_current_admin`. A row's `created_at` is its place in its table:
-- the newest is the last.
pub mod Totals
use cortex_cloud_api.Prelude.{
  ℕ, suc, ◌+◌, ◌*◌, String, str_eq, Bool, true, false, ◌&&◌, Option, none, some, List, [], ◌∷◌, map,
  select, ltb, leb, ◌==◌, take, if◌then◌else◌,
}
use cortex_cloud_api.Prelude.Int.{ℤ, pos, pos_part, neg_part, ◌+ℤ◌, is_nonzero}
use cortex_cloud_api.Prelude.Text.{codes, eq_codes, lower}
use cortex_cloud_api.Effects.{
  Exn, http, other, message, about, Result, ok, raised, lift, Exec, pure, raise, gets, or_raise,
  raise_if, ◌>>=◌, ◌>>◌,
}
use cortex_cloud_api.Database.{
  ModelRegistry, User, ApiKey, BillingTransaction, TransactionType, deposit, usage_charge, refund,
  UsageLog, Db, World,
}
use cortex_cloud_api.Database.Query.{execute}
use cortex_cloud_api.Registry.{get_model_by_name, create_model, toggle_model_active}
use cortex_cloud_api.Dashboard.{newest_first}

abbrev pub is_there : {A : Type 0} → Option A → Bool
is_there none = false
is_there (some a) = true

unfoldable pub admin_create_model : ModelRegistry → Exec World ModelRegistry
admin_create_model payload = do
  existing ← get_model_by_name payload.name
  raise_if (is_there existing)
      (http 400 (about "Model name already exists in registry." payload.name))
  create_model payload

unfoldable pub admin_toggle_model : ℕ → Bool → Exec World ModelRegistry
admin_toggle_model model_id is_active = do
  model ← toggle_model_active model_id is_active
  or_raise model (http 404 (message "Model not found in registry."))

unfoldable pub admin_view_users : Exec World (List User)
admin_view_users = execute (λ db. newest_first db.users)

unfoldable pub admin_view_keys : Exec World (List ApiKey)
admin_view_keys = execute (λ db. newest_first db.api_keys)

unfoldable pub admin_view_usage : ℕ → Exec World (List UsageLog)
admin_view_usage limit = execute (λ db. take limit (newest_first db.usage_logs))

abbrev pub same_type : TransactionType → TransactionType → Bool
same_type deposit deposit = true
same_type usage_charge usage_charge = true
same_type refund refund = true
same_type _ _ = false

-- `select(func.sum(BillingTransaction.amount)).filter(BillingTransaction.type == …)`
abbrev pub sum_of : TransactionType → List BillingTransaction → ℤ
sum_of type [] = pos 0
sum_of type (t ∷ ts) = if same_type t.type type then t.amount +ℤ sum_of type ts else sum_of type ts

pub record Revenue : Type 0 where
  pub revenue : ℕ
  pub deposits : ℤ
  pub ledger_balance : ℤ

-- `result.scalar() or 0.0`: the sum of no rows is NULL, and a sum of nought counts as false too; then
-- it is a float, and else a Decimal.
pub data Sum : Type 0 where
  decimal : ℤ → Sum
  float_zero : Sum

abbrev pub or_zero : ℤ → Sum
or_zero total = if is_nonzero total then decimal total else float_zero

abbrev pub type_error : Exn
type_error = other (message "TypeError: unsupported operand type(s) for +")

-- Python does not add a Decimal and a float.
abbrev pub add_sums : Sum → Sum → Result ℤ
add_sums (decimal a) (decimal b) = ok (a +ℤ b)
add_sums float_zero float_zero = ok (pos 0)
add_sums _ _ = raised type_error

-- `float(…)`
abbrev pub float_of : Sum → ℤ
float_of (decimal a) = a
float_of float_zero = pos 0

abbrev pub revenue_with : Sum → Sum → ℤ → Revenue
revenue_with total_debits total_deposits ledger_balance = record {
  revenue = pos_part (float_of total_debits) + neg_part (float_of total_debits);
  deposits = float_of total_deposits;
  ledger_balance = ledger_balance;
}

abbrev pub revenue_of : Sum → Sum → Exec World Revenue
revenue_of total_debits total_deposits = do
  ledger_balance ← lift (add_sums total_deposits total_debits)
  pure (revenue_with total_debits total_deposits ledger_balance)

unfoldable pub admin_view_revenue : Exec World Revenue
admin_view_revenue = do
  total_debits ← execute (λ db. or_zero (sum_of usage_charge db.transactions))
  total_deposits ← execute (λ db. or_zero (sum_of deposit db.transactions))
  revenue_of total_debits total_deposits

-- A provider's requests, and those that failed with 5xx.
pub record Stats : Type 0 where
  pub provider : String
  pub total : ℕ
  pub failed : ℕ

abbrev failure_of : UsageLog → ℕ
failure_of log = if leb 500 log.status_code then 1 else 0

abbrev count_log : UsageLog → List Stats → List Stats
count_log log [] = record { provider = log.provider; total = 1; failed = failure_of log } ∷ []
count_log log (s ∷ rest) =
    let later = s ∷ count_log log rest in
    if str_eq s.provider log.provider
    then record s { total = suc s.total; failed = s.failed + failure_of log } ∷ rest
    else later

-- `.group_by(UsageLog.provider)`
abbrev pub stats_of : List UsageLog → List Stats
stats_of [] = []
stats_of (log ∷ logs) = count_log log (stats_of logs)

pub data ProviderStatus : Type 0 where
  inactive healthy degraded unhealthy : ProviderStatus

-- The rate is `failed / total`; it is compared with 0.05 and with 0.15.
unfoldable status_of : ℕ → ℕ → ProviderStatus
status_of total failed =
    if total == 0
    then inactive
    else if ltb (100 * failed) (5 * total)
    then healthy
    else if ltb (100 * failed) (15 * total)
    then degraded
    else unhealthy

-- `stats.get(provider.lower(), (0, 0))`, whose keys are in lower case too: of two providers that
-- differ in case only, the later group counts.
abbrev lookup_stats : String → List Stats → Stats
lookup_stats provider [] = record { provider = provider; total = 0; failed = 0 }
lookup_stats provider (s ∷ rest) =
    let later = lookup_stats provider rest in
    if (later.total == 0) && eq_codes (lower s.provider) (lower provider) then s else later

pub record Health : Type 0 where
  pub provider : String
  pub status : ProviderStatus
  pub requests : ℕ
  pub errors : ℕ

abbrev health_of : List Stats → String → Health
health_of stats provider = record {
  provider = provider;
  status = status_of (lookup_stats provider stats).total (lookup_stats provider stats).failed;
  requests = (lookup_stats provider stats).total;
  errors = (lookup_stats provider stats).failed;
}

abbrev providers : List String
providers = "openai" ∷ "anthropic" ∷ "gemini" ∷ "groq" ∷ []

-- The logs of the last fifteen minutes.
abbrev recent : ℕ → Db → List UsageLog
recent now db = select (λ l. leb now (l.created_at + 900_000)) db.usage_logs

unfoldable pub admin_provider_health : Exec World (List Health)
unfolding status_of
admin_provider_health = do
  now ← gets (λ w. w.clock)
  logs ← execute (recent now)
  pure (map (health_of (stats_of logs)) providers)
