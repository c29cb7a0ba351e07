-- ===== src/Books/Kept.antt =====
-- What each operation keeps of the database, a history of requests keeps.
use cortex_cloud_api.Prelude.{ℕ, false, String, Bool, Option, List, All, [], ◌∷◌}
use cortex_cloud_api.Prelude.Int.{ℤ}
use cortex_cloud_api.Effects.{Exec}
use cortex_cloud_api.Database.{ModelRegistry, Db, World}
use cortex_cloud_api.Database.Keeps.{Keeps}
use cortex_cloud_api.Schemas.{EmbeddingsRequest, EmbeddingsResponse}
use cortex_cloud_api.Security.{Crypto}
use cortex_cloud_api.Routing.{Provider, ProviderContext, Answer}
use cortex_cloud_api.Usage.{Usage, record_usage}
use cortex_cloud_api.Admin.{admin_create_model, admin_toggle_model}
use cortex_cloud_api.Dashboard.Decimals.{Decimal}
use cortex_cloud_api.Dashboard.Accounts.{register, create_key, revoke_key, simulated_deposit}
use cortex_cloud_api.Completions.{embeddings}
use cortex_cloud_api.Completions.Keeps.{complete-Keeps, embeddings-Keeps}
use cortex_cloud_api.Completions.Endpoint.{Services, complete}
use cortex_cloud_api.Books.{
  Write, registers, creates_key, revokes_key, deposits, creates_model, toggles_model, completes,
  embeds, waits, get_db, serve, serve_all,
}

-- Every operation that writes keeps `P` of the database, however it ends, where the amounts of deposits
-- are as `D` says.
pub record Kept (P : Db → Type 0) (D : Decimal → Type 0) : Type 0 where
  pub usage : (u : Usage) → Keeps P (record_usage u)
  pub registration :
      (c : Crypto) (email password : String) (salt : ℕ) → Keeps P (register c email password salt)
  pub key_creation :
      (c : Crypto) (user_id : ℕ) (name : String) (daily_limit monthly_limit : Option ℤ)
      (random_part : String)
      → Keeps P (create_key c user_id name daily_limit monthly_limit random_part)
  pub revocation : (user_id key_id : ℕ) → Keeps P (revoke_key user_id key_id)
  pub payment :
      (amount : Decimal) (user_id : ℕ) → D amount → Keeps P (simulated_deposit amount user_id)
  pub model_creation : (row : ModelRegistry) → Keeps P (admin_create_model row)
  pub toggle : (id : ℕ) (is_active : Bool) → Keeps P (admin_toggle_model id is_active)

-- A request whose amount, if it is a deposit, is as `D` says.
abbrev pub Pays : (Decimal → Type 0) → Write → Type 0
Pays D (deposits amount user_id) = D amount
Pays D _ = Unit

-- Where every amount will do.
Pays-any : (x : Write) → Pays (λ amount. Unit) x
Pays-any (registers email password salt) = tt
Pays-any (creates_key user_id name daily_limit monthly_limit random_part) = tt
Pays-any (revokes_key user_id key_id) = tt
Pays-any (deposits amount user_id) = tt
Pays-any (creates_model row) = tt
Pays-any (toggles_model id is_active) = tt
Pays-any (completes http_request request call) = tt
Pays-any (embeds request call) = tt
Pays-any (waits ms) = tt

pub All-Pays : (requests : List Write) → All (Pays (λ amount. Unit)) requests
All-Pays [] = tt
All-Pays (x ∷ rest) = (Pays-any x, All-Pays rest)

module _ (P : Db → Type 0) (D : Decimal → Type 0) (kept : Kept P D) where
  -- A session of its own does not matter to the database.
  get_db-Keeps :
      {A : Type 0} (m : Exec World A) (w : World) → Keeps P m → P w.db → P (get_db m w).db
  get_db-Keeps m w k h = k (record w { pending_rollback = false }) h

  module _ (services : Services) (str_item : ℤ → String) (str_items : List ℤ → String)
      (answer : ℕ
        → Provider
        → ProviderContext
        → EmbeddingsRequest
        → Answer EmbeddingsResponse) where
    serve_keeps :
        (x : Write) (w : World)
        → Pays D x
        → P w.db
        → P (serve services str_item str_items answer x w).db
    unfolding serve
    serve_keeps (registers email password salt) w h =
        get_db-Keeps (register services.crypto email password salt) w
          (kept.registration services.crypto email password salt)
    serve_keeps (creates_key user_id name daily_limit monthly_limit random_part) w h =
        get_db-Keeps (create_key services.crypto user_id name daily_limit monthly_limit random_part)
          w (kept.key_creation services.crypto user_id name daily_limit monthly_limit random_part)
    serve_keeps (revokes_key user_id key_id) w h =
        get_db-Keeps (revoke_key user_id key_id) w (kept.revocation user_id key_id)
    serve_keeps (deposits amount user_id) w h =
        get_db-Keeps (simulated_deposit amount user_id) w (kept.payment amount user_id h)
    serve_keeps (creates_model row) w h =
        get_db-Keeps (admin_create_model row) w (kept.model_creation row)
    serve_keeps (toggles_model id is_active) w h =
        get_db-Keeps (admin_toggle_model id is_active) w (kept.toggle id is_active)
    serve_keeps (completes http_request request call) w h =
        get_db-Keeps (complete services http_request request call) w
          (complete-Keeps P kept.usage call services http_request request)
    serve_keeps (embeds request call) w h =
        get_db-Keeps
          (embeddings services.tiktoken services.keys str_item str_items answer call request) w
          (embeddings-Keeps P kept.usage call services.tiktoken services.keys str_item str_items
            answer request)
    serve_keeps (waits ms) w h = λ p. p

    pub serve_all_keeps :
        (requests : List Write) (w : World)
        → All (Pays D) requests
        → P w.db
        → P (serve_all services str_item str_items answer requests w).db
    serve_all_keeps [] w all h = h
    serve_all_keeps (x ∷ rest) w (one, all) h =
        serve_all_keeps rest (serve services str_item str_items answer x w) all
          (serve_keeps x w one h)
