-- ===== src/Tests/Samples.antt =====
-- A small database, and the parameters of the model at concrete functions.
use cortex_cloud_api.Prelude.{
  ℕ, String, true, false, Option, none, some, [], ◌∷◌, str_eq, if◌then◌else◌,
}
use cortex_cloud_api.Prelude.Int.{pos}
use cortex_cloud_api.Effects.{message, http, ok, raised}
use cortex_cloud_api.Database.{
  ModelRegistry, ApiKey, BillingAccount, BillingTransaction, deposit, Db, World, User,
}
use cortex_cloud_api.Security.{Crypto}
use cortex_cloud_api.Routing.{Provider, ProviderContext, ProviderKeys, Answer}
use cortex_cloud_api.Usage.{Usage}

abbrev pub model_at : ℕ → String → String → Option String → ModelRegistry
model_at id name provider fallback = record {
  id = id;
  name = name;
  provider = provider;
  provider_model_name = name;
  context_length = 8192;
  prompt_token_price = 25_000;
  completion_token_price = 100_000;
  is_active = true;
  fallback_model = fallback;
}

abbrev pub sonnet : ModelRegistry
sonnet = model_at 1 "sonnet" "Anthropic" (some "gpt")

abbrev pub gpt : ModelRegistry
gpt = model_at 2 "gpt" "openai" none

abbrev pub account_at : ℕ → ℕ → ℕ → BillingAccount
account_at id org balance = record {
  id = id;
  organization_id = org;
  balance = pos balance;
  tier = "free";
}

abbrev pub seed_at : ℕ → ℕ → BillingTransaction
seed_at id amount = record { billing_account_id = id; amount = pos amount; type = deposit }

-- A parameter that stands for the cryptography: its hash is the key itself.
abbrev pub crypto : Crypto
crypto = record {
  hashpw = λ password salt. password;
  checkpw = λ plain hashed. some (str_eq plain hashed);
  hmac = λ key. key;
  jwt_encode = λ expires subject. "token";
  jwt_decode = λ token now. if str_eq token "token" then some 20 else none;
}

abbrev pub key : ApiKey
key = record {
  id = 5;
  organization_id = 30;
  name = "default";
  prefix = "cx-live-";
  hashed_key = "cx-live-0123";
  is_active = true;
  rate_limit_rpm = some 200;
  daily_limit = none;
  monthly_limit = none;
  expires_at = none;
  revoked_at = none;
}

abbrev pub user : User
user = record {
  id = 20;
  email = "a@b.co";
  hashed_password = "password";
  is_active = true;
  is_admin = false;
}

abbrev pub database : Db
database = record {
  models = sonnet ∷ gpt ∷ [];
  users = user ∷ [];
  organizations = record { id = 30; name = "a's Workspace"; owner_id = 20 } ∷ [];
  members = record { organization_id = 30; user_id = 20; role = "admin" } ∷ [];
  api_keys = key ∷ [];
  accounts = account_at 40 30 10_000_000 ∷ account_at 41 31 10_000_000 ∷ [];
  transactions = seed_at 40 10_000_000 ∷ seed_at 41 10_000_000 ∷ [];
  usage_logs = [];
  next_id = 100;
}

abbrev pub world : World
world = record { db = database; clock = 5000; calls = 0; slept = 0; pending_rollback = false }

abbrev pub usage_with : ℕ → Usage
usage_with status_code = record {
  organization_id = 30;
  api_key_id = some 5;
  correlation_id = "00000000-0000-0000-0000-00000000002a";
  model_name = "gpt";
  prompt_tokens = pos 1000;
  completion_tokens = pos 500;
  latency_ms = 900;
  status_code = status_code;
  request_path = "/v1/chat/completions";
  client_ip = "127.0.0.1";
  error_message = none;
}

abbrev pub provider_keys : ProviderKeys
provider_keys provider = some "secret"

-- Anthropic is overloaded, every other provider answers.
abbrev pub answers : ℕ → Provider → ProviderContext → String → Answer String
answers n Provider.anthropic ctx request = record {
  result = raised (http 503 (message "overloaded"));
  took = 100;
}
answers n provider ctx request = record { result = ok "hello"; took = 100 }
