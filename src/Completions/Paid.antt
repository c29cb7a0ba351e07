-- ===== src/Completions/Paid.antt =====
-- app/x402/routes.py: the endpoints behind the paywall, and the list of models, which app/api/v1/models.py
-- shares. Nothing is recorded or charged here.
use cortex_cloud_api.Prelude.{ℕ, ◌+◌, String, Option, none, some, List, [], ◌∷◌, ◌++◌, map, arith}
use cortex_cloud_api.Prelude.Int.{ℤ}
use cortex_cloud_api.Effects.{
  wrapped, Exn, http, other, str_exn, ok, Exec, pure, raise, catch, ◌>>=◌,
}
use cortex_cloud_api.Database.{ModelRegistry, World}
use cortex_cloud_api.Schemas.{
  ChatCompletionRequest, ChatCompletionResponse, EmbeddingsRequest, EmbeddingsResponse, ModelObject,
}
use cortex_cloud_api.Tokenizer.{Tiktoken}
use cortex_cloud_api.Registry.{get_active_models}
use cortex_cloud_api.Routing.{Provider, ProviderContext, ProviderKeys, Answer}
use cortex_cloud_api.Routing.Routes.{route_chat_completion, route_embeddings}
use cortex_cloud_api.Routing.Bounds.{Costs, route_chat_completion-Costs, Costs-catch, Costs-bind}
use cortex_cloud_api.Completions.{Call, relabel}
use cortex_cloud_api.Completions.Streams.{Produced, Streamed, Line, chunk, done, error}

-- An HTTPException goes on; any other exception becomes a 502.
abbrev pub to_http : {A : Type 0} → String → Exn → Exec World A
to_http text (http status_code detail) = raise (http status_code detail)
to_http text (other detail) = raise (http 502 (wrapped text detail))

module _ (keys : ProviderKeys)
    (answer : ℕ
      → Provider
      → ProviderContext
      → ChatCompletionRequest
      → Answer ChatCompletionResponse)
    (correlation_id : String) (request : ChatCompletionRequest) where
  abbrev rename : (ChatCompletionResponse × ℕ) × ModelRegistry → Exec World ChatCompletionResponse
  rename ((response, latency_ms), routed) = pure (record response { model = request.model })

  -- `x402_chat_completions`, for a request that does not ask for a stream.
  unfoldable pub x402_chat_completions : Exec World ChatCompletionResponse
  x402_chat_completions =
      catch (route_chat_completion keys answer request.model request correlation_id >>= rename)
        (to_http "CortexCloud router error: ")

  to_http-Costs :
      (e : Exn) (v : World)
      → Costs 0 0 v (to_http {A = ChatCompletionResponse} "CortexCloud router error: " e v).1
  to_http-Costs (http code d) v = ground arith
  to_http-Costs (other d) v = ground arith

  -- A paid completion makes at most six calls of providers, sleeps at most three seconds, and writes
  -- nothing to the database.
  pub x402_chat_completions-Costs : (w : World) → Costs 6 3000 w (x402_chat_completions w).1
  unfolding x402_chat_completions
  x402_chat_completions-Costs w =
      Costs-catch {c' = 0} {s' = 0}
        (route_chat_completion keys answer request.model request correlation_id >>= rename)
        (to_http "CortexCloud router error: ") w
        (Costs-bind {c' = 0} {s' = 0}
          (route_chat_completion keys answer request.model request correlation_id) rename w
          (route_chat_completion-Costs keys answer request.model request correlation_id w)
          (λ a v. ground arith))
        to_http-Costs

module _ (tiktoken : Tiktoken) (keys : ProviderKeys) (str_item : ℤ → String)
    (str_items : List ℤ → String)
    (answer : ℕ → Provider → ProviderContext → EmbeddingsRequest → Answer EmbeddingsResponse)
    (call : Call) (request : EmbeddingsRequest) where
  abbrev rename_embeddings :
      (EmbeddingsResponse × ℕ) × ModelRegistry → Exec World EmbeddingsResponse
  rename_embeddings ((response, latency_ms), routed) =
      pure (relabel tiktoken keys str_item str_items answer call request response)

  -- `x402_embeddings`; of `call`, it has the correlation id.
  unfoldable pub x402_embeddings : Exec World EmbeddingsResponse
  x402_embeddings =
      catch
        (route_embeddings keys answer request.model request call.correlation_id
          >>= rename_embeddings)
        (to_http "CortexCloud embeddings error: ")

-- `_x402_stream_wrapper`
abbrev stream_end : Option Exn → List Line
stream_end none = done ∷ []
stream_end (some e) = error (wrapped "Gateway error: " (str_exn e)) ∷ done ∷ []

unfoldable pub x402_stream_wrapper : Produced → World → Streamed
x402_stream_wrapper produced w = record {
  lines = map chunk produced.chunks ++ stream_end produced.failure;
  ended = ok tt;
  after = record w { clock = w.clock + produced.took };
}

-- `created_at`, in seconds, of a model.
abbrev model_object : (ModelRegistry → Option ℕ) → ModelRegistry → ModelObject
model_object created_at model = record {
  id = model.name;
  created = elim (created_at model) [ none ↦ 1718000000 | some at ↦ at ];
  owned_by = model.provider;
}

-- `x402_list_models`, and `list_models` for a valid key.
unfoldable pub list_models : (ModelRegistry → Option ℕ) → Exec World (List ModelObject)
list_models created_at = do
  db_models ← get_active_models
  pure (map (model_object created_at) db_models)
