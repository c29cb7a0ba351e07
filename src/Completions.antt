-- ===== src/Completions.antt =====
-- app/api/v1/completions.py: the OpenAI-compatible endpoints for a key that has passed the limits.
pub mod Guarantees
pub mod Streams
pub mod Losses
pub mod Paid
pub mod Endpoint
pub mod Entry
pub mod Keeps
use cortex_cloud_api.Prelude.{
  ℕ, ◌+◌, ◌-◌, String, Bool, true, false, Option, none, some, List, [], ◌∷◌, ◌++◌, map, ◌==◌,
  if◌then◌else◌,
}
use cortex_cloud_api.Prelude.Int.{ℤ, pos, is_nonzero}
use cortex_cloud_api.Prelude.Text.{concat, is_empty}
use cortex_cloud_api.Effects.{
  Detail, wrapped, Exn, http, other, str_exn, Result, ok, raised, Exec, pure, raise, gets, lift,
  catch, ◌>>=◌, ◌>>◌,
}
use cortex_cloud_api.Database.{ModelRegistry, ApiKey, UsageLog, World}
use cortex_cloud_api.Schemas.{
  ChatCompletionRequest, ChatCompletionResponse, ChatCompletionStreamResponse,
  ChatCompletionStreamChoice, UsageInfo, ChatCompletionMessage, EmbeddingsInput, one_text, texts,
  tokens, token_lists, EmbeddingsRequest, EmbeddingsResponse,
}
use cortex_cloud_api.Tokenizer.{Tiktoken, count_tokens, count_messages_tokens}
use cortex_cloud_api.Routing.{Provider, ProviderContext, ProviderKeys, Answer}
use cortex_cloud_api.Routing.Routes.{route_chat_completion, route_embeddings}
use cortex_cloud_api.Usage.{Usage, record_usage}

-- What an endpoint knows of its request before it routes it.
pub record Call : Type 0 where
  pub api_key : ApiKey
  pub correlation_id : String
  pub client_ip : String
  pub request_path : String
  pub start_time : ℕ

abbrev pub usage_of : Call → String → ℤ → ℤ → ℕ → ℕ → Option Detail → Usage
usage_of call model_name prompt_tokens completion_tokens latency_ms status_code error = record {
  organization_id = call.api_key.organization_id;
  api_key_id = some call.api_key.id;
  correlation_id = call.correlation_id;
  model_name = model_name;
  prompt_tokens = prompt_tokens;
  completion_tokens = completion_tokens;
  latency_ms = latency_ms;
  status_code = status_code;
  request_path = call.request_path;
  client_ip = call.client_ip;
  error_message = error;
}

-- A failed request is logged with the tokens of its prompt, and its error goes on; an error that is
-- no HTTPException goes on as a 502.
module _ (call : Call) (model text : String) (prompt_tokens : Exec World ℕ) where
  abbrev pub log_failure : ℕ → Detail → Exec World UsageLog
  log_failure status_code detail = do
    now ← gets (λ w. w.clock)
    n ← prompt_tokens
    record_usage
        (usage_of call model (pos n) (pos 0) (now - call.start_time) status_code (some detail))

  abbrev pub on_failure : {A : Type 0} → Exn → Exec World A
  on_failure (http status_code detail) =
      log_failure status_code detail >> raise (http status_code detail)
  on_failure (other detail) = log_failure 500 detail >> raise (http 502 (wrapped text detail))

module _ (tiktoken : Tiktoken) (keys : ProviderKeys)
    (answer : ℕ
      → Provider
      → ProviderContext
      → ChatCompletionRequest
      → Answer ChatCompletionResponse)
    (call : Call) (request : ChatCompletionRequest) where
  abbrev pub completion_usage : ChatCompletionResponse → ℕ → ModelRegistry → Usage
  completion_usage response latency_ms routed =
      usage_of call routed.name response.usage.prompt_tokens response.usage.completion_tokens
        latency_ms 200 none

  abbrev pub bill_completion :
      (ChatCompletionResponse × ℕ) × ModelRegistry → Exec World ChatCompletionResponse
  bill_completion ((response, latency_ms), routed) = do
    record_usage (completion_usage response latency_ms routed)
    pure (record response { model = request.model })

  -- `chat_completions`, for a request that does not ask for a stream.
  unfoldable pub chat_completions : Exec World ChatCompletionResponse
  chat_completions =
      catch
        (route_chat_completion keys answer request.model request call.correlation_id
          >>= bill_completion)
        (on_failure call request.model "CortexCloud router error: "
          (lift (count_messages_tokens tiktoken request.messages request.model)))

module _ (tiktoken : Tiktoken) (keys : ProviderKeys) (str_item : ℤ → String)
    (str_items : List ℤ → String)
    (answer : ℕ → Provider → ProviderContext → EmbeddingsRequest → Answer EmbeddingsResponse)
    (call : Call) (request : EmbeddingsRequest) where
  abbrev sum_tokens : List String → ℕ
  sum_tokens [] = 0
  sum_tokens (s ∷ rest) = count_tokens tiktoken s request.model + sum_tokens rest

  -- The tokens of the input, by its own count. `str_item` and `str_items` are Python's `str`.
  abbrev pub estimate : EmbeddingsInput → ℕ
  estimate (one_text s) = count_tokens tiktoken s request.model
  estimate (texts items) = sum_tokens items
  estimate (tokens items) = sum_tokens (map str_item items)
  estimate (token_lists items) = sum_tokens (map str_items items)

  abbrev pub embedded_tokens : EmbeddingsResponse → ℤ
  embedded_tokens response =
      if is_nonzero response.usage.prompt_tokens
      then response.usage.prompt_tokens
      else pos (estimate request.input)

  abbrev pub relabel : EmbeddingsResponse → EmbeddingsResponse
  relabel response = record response {
    model = request.model;
    usage = record response.usage {
      prompt_tokens = embedded_tokens response;
      total_tokens = embedded_tokens response;
    };
  }

  abbrev pub bill_embeddings :
      (EmbeddingsResponse × ℕ) × ModelRegistry → Exec World EmbeddingsResponse
  bill_embeddings ((response, latency_ms), routed) = do
    record_usage (usage_of call routed.name (embedded_tokens response) (pos 0) latency_ms 200 none)
    pure (relabel response)

  unfoldable pub embeddings : Exec World EmbeddingsResponse
  embeddings =
      catch
        (route_embeddings keys answer request.model request call.correlation_id >>= bill_embeddings)
        (on_failure call request.model "CortexCloud embeddings error: " (pure 0))
