-- ===== src/Routing/Routes.antt =====
-- app/routing/router.py: the calls of the providers, and the three `route_*` methods.
use cortex_cloud_api.Prelude.{
  ℕ, suc, ◌+◌, String, Bool, true, false, ◌&&◌, Option, none, some, if◌then◌else◌,
}
use cortex_cloud_api.Prelude.Text.{is_empty}
use cortex_cloud_api.Effects.{
  Detail, both_failed, Exn, http, other, str_exn, Exec, pure, raise, catch, or_raise, ◌>>=◌,
}
use cortex_cloud_api.Database.{ModelRegistry, World}
use cortex_cloud_api.Registry.{get_model_by_name}
use cortex_cloud_api.Routing.{
  Provider, ProviderContext, ProviderKeys, Answer, get_provider, get_provider_api_key, unregistered,
  unregistered_embedding, is_retryable, execute_with_retry,
}

-- One call of a provider's method, which the clock and the number of calls record.
abbrev pub call_provider : {R : Type 0} → (ℕ → Answer R) → Exec World R
call_provider answer w =
    let a = answer w.calls in (a.result, record w { calls = suc w.calls; clock = w.clock + a.took })

-- `except HTTPException as e`: any other exception passes.
abbrev pub on_http : {S A : Type 0} → (ℕ → Detail → Exec S A) → Exn → Exec S A
on_http handler (http code detail) = handler code detail
on_http handler (other detail) = raise (other detail)

abbrev pub catch_http : {S A : Type 0} → Exec S A → (ℕ → Detail → Exec S A) → Exec S A
catch_http m handler = catch m (on_http handler)

-- `if fallback_name and …`: the name, if there is one that is not empty.
abbrev pub fallback_name : Option String → Bool
fallback_name none = false
fallback_name (some name) = if is_empty name then false else true

abbrev pub name_of : Option String → String
name_of none = ""
name_of (some name) = name

module _ (keys : ProviderKeys) {Req R : Type 0} where
  -- `_execute_chat_completion` and `_execute_embeddings`: the two differ in the method that the
  -- provider is asked for, which is `answer`.
  unfoldable pub execute_request :
      (ℕ → Provider → ProviderContext → Req → Answer R)
      → String
      → Req
      → ModelRegistry
      → Exec World R
  execute_request answer correlation_id request model = do
    provider ← get_provider model.provider
    api_key ← get_provider_api_key keys model.provider
    let ctx : ProviderContext = record {
      api_key = api_key;
      provider_model_name = model.provider_model_name;
      correlation_id = correlation_id;
    }
    call_provider (λ n. answer n provider ctx request)

-- A stream that a provider's generator will produce when it is first asked for a chunk: nothing of
-- the provider's code runs before that.
pub record Stream (Req : Type 0) : Type 0 where
  pub provider : Provider
  pub context : ProviderContext
  pub request : Req

module _ (keys : ProviderKeys) {Req : Type 0} where
  -- `_execute_chat_completion_stream`
  unfoldable pub execute_stream : String → Req → ModelRegistry → Exec World (Stream Req)
  execute_stream correlation_id request model = do
    provider ← get_provider model.provider
    api_key ← get_provider_api_key keys model.provider
    pure (record {
      provider = provider;
      context = record {
        api_key = api_key;
        provider_model_name = model.provider_model_name;
        correlation_id = correlation_id;
      };
      request = request;
    })

module _ {A : Type 0} (run : ModelRegistry → Exec World A) where
  -- The model that is asked, and the answer.
  abbrev pub with_model : ModelRegistry → Exec World (A × ModelRegistry)
  with_model model = do a ← run model; pure (a, model)

  abbrev pub try_fallback :
      String → Exn → ℕ → String → Option ModelRegistry → Exec World (A × ModelRegistry)
  try_fallback requested primary code name none = raise primary
  try_fallback requested primary code name (some fallback) =
      catch (with_model fallback)
        λ err. raise (http 502 (both_failed requested code name (str_exn err)))

  -- `except HTTPException as primary_err`, for a primary model that failed with 429 or 5xx.
  abbrev pub on_primary_error : String → ModelRegistry → ℕ → Detail → Exec World (A × ModelRegistry)
  on_primary_error requested model code detail =
      if fallback_name model.fallback_model && is_retryable code
      then (do
        fallback ← get_model_by_name (name_of model.fallback_model)
        try_fallback requested (http code detail) code (name_of model.fallback_model) fallback)
      else raise (http code detail)

  abbrev pub try_primary : String → ModelRegistry → Exec World (A × ModelRegistry)
  try_primary requested model = catch_http (with_model model) (on_primary_error requested model)

  abbrev pub primary_of : String → Option ModelRegistry → Exec World (A × ModelRegistry)
  primary_of requested none = raise (unregistered requested)
  primary_of requested (some model) = try_primary requested model

  -- The part that `route_chat_completion` and `route_chat_completion_stream` share: the primary
  -- model, then its fallback model if the primary fails with 429 or 5xx.
  unfoldable pub route_with_fallback : String → Exec World (A × ModelRegistry)
  route_with_fallback requested = do found ← get_model_by_name requested; primary_of requested found

  -- `route_embeddings` has no fallback.
  unfoldable pub route_without_fallback : String → Exec World (A × ModelRegistry)
  route_without_fallback requested = do
    found ← get_model_by_name requested
    model ← or_raise found (unregistered_embedding requested)
    with_model model

module _ (keys : ProviderKeys) {Req R : Type 0}
    (answer : ℕ → Provider → ProviderContext → Req → Answer R) where
  -- The answer, its latency, and the model that gave it.
  unfoldable pub route_chat_completion :
      String → Req → String → Exec World ((R × ℕ) × ModelRegistry)
  route_chat_completion requested request correlation_id =
      route_with_fallback
        (λ model. execute_with_retry (execute_request keys answer correlation_id request model))
        requested

  unfoldable pub route_embeddings : String → Req → String → Exec World ((R × ℕ) × ModelRegistry)
  route_embeddings requested request correlation_id =
      route_without_fallback
        (λ model. execute_with_retry (execute_request keys answer correlation_id request model))
        requested

module _ (keys : ProviderKeys) {Req : Type 0} where
  unfoldable pub route_chat_completion_stream :
      String → Req → String → Exec World (Stream Req × ModelRegistry)
  route_chat_completion_stream requested request correlation_id =
      route_with_fallback (execute_stream keys correlation_id request) requested
