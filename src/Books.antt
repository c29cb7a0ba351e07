-- ===== src/Books.antt =====
-- app/database/session.py: the requests that write to the database, one after another, each with a
-- session of its own. They are those of app/api/dashboard/routes.py, app/admin/routes.py and
-- app/api/v1/completions.py.
pub mod Sums
pub mod Sound
pub mod Handlers
pub mod Kept
pub mod Rows
pub mod Tables
pub mod Indexed
pub mod Revenue
use cortex_cloud_api.Prelude.{ℕ, zero, ◌+◌, String, Bool, false, Option, List, [], ◌∷◌}
use cortex_cloud_api.Prelude.Int.{ℤ}
use cortex_cloud_api.Effects.{Exec}
use cortex_cloud_api.Database.{ModelRegistry, Db, World}
use cortex_cloud_api.Schemas.{ChatCompletionRequest, EmbeddingsRequest, EmbeddingsResponse}
use cortex_cloud_api.Routing.{Provider, ProviderContext, Answer}
use cortex_cloud_api.Edge.{Request}
use cortex_cloud_api.Admin.{admin_create_model, admin_toggle_model}
use cortex_cloud_api.Dashboard.Decimals.{Decimal}
use cortex_cloud_api.Dashboard.Accounts.{register, create_key, revoke_key, simulated_deposit}
use cortex_cloud_api.Completions.{Call, embeddings}
use cortex_cloud_api.Completions.Streams.{in_session}
use cortex_cloud_api.Completions.Endpoint.{Services, complete}

-- The requests, with what their dependencies hand on: the id of the user, or the call of a key that
-- has passed its limits.
pub data Write : Type 0 where
  -- the email, the password and the salt
  registers : String → String → ℕ → Write
  -- the user, the name of the key, its limits, and its random part
  creates_key : ℕ → String → Option ℤ → Option ℤ → String → Write
  -- the user and the key
  revokes_key : ℕ → ℕ → Write
  -- the amount and the user
  deposits : Decimal → ℕ → Write
  creates_model : ModelRegistry → Write
  toggles_model : ℕ → Bool → Write
  completes : Request → ChatCompletionRequest → Call → Write
  embeds : EmbeddingsRequest → Call → Write
  -- the milliseconds until the next request
  waits : ℕ → Write

-- `get_db`: the session is closed however the request ends, so the next one has a fresh one.
abbrev pub get_db : {A : Type 0} → Exec World A → World → World
get_db m w = (in_session m w).1

-- The services of the completions, and what the embeddings take: Python's `str`, and the answers of
-- the providers.
module _ (services : Services) (str_item : ℤ → String) (str_items : List ℤ → String)
    (answer : ℕ → Provider → ProviderContext → EmbeddingsRequest → Answer EmbeddingsResponse) where
  unfoldable pub serve : Write → World → World
  serve (registers email password salt) = get_db (register services.crypto email password salt)
  serve (creates_key user_id name daily_limit monthly_limit random_part) =
      get_db (create_key services.crypto user_id name daily_limit monthly_limit random_part)
  serve (revokes_key user_id key_id) = get_db (revoke_key user_id key_id)
  serve (deposits amount user_id) = get_db (simulated_deposit amount user_id)
  serve (creates_model row) = get_db (admin_create_model row)
  serve (toggles_model id is_active) = get_db (admin_toggle_model id is_active)
  serve (completes http_request request call) = get_db (complete services http_request request call)
  serve (embeds request call) =
      get_db (embeddings services.tiktoken services.keys str_item str_items answer call request)
  serve (waits ms) = λ w. record w { clock = w.clock + ms }

  abbrev pub serve_all : List Write → World → World
  serve_all [] w = w
  serve_all (x ∷ rest) w = serve_all rest (serve x w)

-- The tables as the migrations leave them, at a given time.
abbrev pub migrated : ℕ → World
migrated clock = record {
  db = record {
    models = [];
    users = [];
    organizations = [];
    members = [];
    api_keys = [];
    accounts = [];
    transactions = [];
    usage_logs = [];
    next_id = zero;
  };
  clock = clock;
  calls = zero;
  slept = zero;
  pending_rollback = false;
}
