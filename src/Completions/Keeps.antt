-- ===== src/Completions/Keeps.antt =====
-- What `record_usage` keeps of the database, every completion keeps: nothing else writes to it.
use cortex_cloud_api.Prelude.{◌-◌, ℕ, String, none, some, List}
use cortex_cloud_api.Prelude.Int.{ℤ, pos}
use cortex_cloud_api.Effects.{Detail, Exn, http, other, Exec, pure, lift, ◌>>=◌}
use cortex_cloud_api.Database.{ModelRegistry, Db, World}
use cortex_cloud_api.Database.Keeps.{Keeps, bind-Keeps, catch-Keeps, if-Keeps, same-Keeps}
use cortex_cloud_api.Schemas.{
  ChatCompletionRequest, ChatCompletionResponse, EmbeddingsRequest, EmbeddingsResponse,
}
use cortex_cloud_api.Tokenizer.{Tiktoken, count_messages_tokens}
use cortex_cloud_api.Routing.{Provider, ProviderContext, ProviderKeys, Answer}
use cortex_cloud_api.Routing.Routes.{
  Stream, route_chat_completion, route_chat_completion_stream, route_embeddings,
}
use cortex_cloud_api.Routing.Bounds.{
  route_chat_completion-Costs, route_chat_completion_stream-Costs, route_embeddings-Costs,
}
use cortex_cloud_api.Edge.{Request}
use cortex_cloud_api.Usage.{Usage, record_usage}
use cortex_cloud_api.Completions.{
  Call, usage_of, log_failure, on_failure, completion_usage, bill_completion, chat_completions,
  bill_embeddings, embeddings, embedded_tokens,
}
use cortex_cloud_api.Completions.Streams.{stream_completion_wrapper_keeps}
use cortex_cloud_api.Completions.Endpoint.{Services, complete, stream_out}

module _ (P : Db → Type 0) (keeps : (u : Usage) → Keeps P (record_usage u)) (call : Call) where
  module _ (model text : String) (n : Exec World ℕ) (counts : Keeps P n) where
    log_failure-Keeps :
        (code : ℕ) (detail : Detail) → Keeps P (log_failure call model text n code detail)
    log_failure-Keeps code detail w =
        bind-Keeps P n _ counts
          (λ m.
            keeps
              (usage_of call model (pos m) (pos 0) (w.clock - call.start_time) code (some detail)))
          w

    on_failure-Keeps : (A : Type 0) (e : Exn) → Keeps P (on_failure call model text n {A = A} e)
    on_failure-Keeps A (http code detail) =
        bind-Keeps P (log_failure call model text n code detail) _ (log_failure-Keeps code detail)
          λ log w h. h
    on_failure-Keeps A (other detail) =
        bind-Keeps P (log_failure call model text n 500 detail) _ (log_failure-Keeps 500 detail)
          λ log w h. h

  module _ (tiktoken : Tiktoken) (keys : ProviderKeys)
      (answer : ℕ
        → Provider
        → ProviderContext
        → ChatCompletionRequest
        → Answer ChatCompletionResponse)
      (request : ChatCompletionRequest) where
    bill_completion-Keeps :
        (a : (ChatCompletionResponse × ℕ) × ModelRegistry)
        → Keeps P (bill_completion tiktoken keys answer call request a)
    bill_completion-Keeps ((response, latency_ms), routed) =
        bind-Keeps P
          (record_usage
            (completion_usage tiktoken keys answer call request response latency_ms routed))
          _ (keeps (completion_usage tiktoken keys answer call request response latency_ms routed))
          λ log w h. h

    pub chat_completions-Keeps : Keeps P (chat_completions tiktoken keys answer call request)
    unfolding chat_completions
    chat_completions-Keeps =
        catch-Keeps P
          (route_chat_completion keys answer request.model request call.correlation_id
            >>= bill_completion tiktoken keys answer call request)
          _
          (bind-Keeps P
            (route_chat_completion keys answer request.model request call.correlation_id) _
            (same-Keeps P
              (route_chat_completion keys answer request.model request call.correlation_id)
              (λ w.
                (route_chat_completion-Costs keys answer request.model request call.correlation_id
                  w).db_same))
            bill_completion-Keeps)
          (on_failure-Keeps request.model "CortexCloud router error: "
            (lift (count_messages_tokens tiktoken request.messages request.model)) (λ w h. h) _)

  module _ (tiktoken : Tiktoken) (keys : ProviderKeys) (str_item : ℤ → String)
      (str_items : List ℤ → String)
      (answer : ℕ → Provider → ProviderContext → EmbeddingsRequest → Answer EmbeddingsResponse)
      (request : EmbeddingsRequest) where
    bill_embeddings-Keeps :
        (a : (EmbeddingsResponse × ℕ) × ModelRegistry)
        → Keeps P (bill_embeddings tiktoken keys str_item str_items answer call request a)
    bill_embeddings-Keeps ((response, latency_ms), routed) =
        bind-Keeps P (record_usage u) _ (keeps u) λ log w h. h
      where
        u : Usage
        u =
            usage_of call routed.name
              (embedded_tokens tiktoken keys str_item str_items answer call request response)
              (pos 0) latency_ms 200 none

    pub embeddings-Keeps : Keeps P (embeddings tiktoken keys str_item str_items answer call request)
    unfolding embeddings
    embeddings-Keeps =
        catch-Keeps P
          (route_embeddings keys answer request.model request call.correlation_id
            >>= bill_embeddings tiktoken keys str_item str_items answer call request)
          _
          (bind-Keeps P (route_embeddings keys answer request.model request call.correlation_id) _
            (same-Keeps P (route_embeddings keys answer request.model request call.correlation_id)
              (λ w.
                (route_embeddings-Costs keys answer request.model request call.correlation_id
                  w).db_same))
            bill_embeddings-Keeps)
          (on_failure-Keeps request.model "CortexCloud embeddings error: " (pure 0) (λ w h. h) _)

  module _ (services : Services) (http_request : Request) (request : ChatCompletionRequest) where
    stream_out-Keeps :
        (s : Stream ChatCompletionRequest × ModelRegistry)
        → Keeps P (stream_out services http_request request call s)
    stream_out-Keeps (stream, routed) w h =
        stream_completion_wrapper_keeps services.tiktoken call request routed.name
          (services.produce stream w) P keeps w h

    -- A completion, as a whole or as a stream.
    pub complete-Keeps : Keeps P (complete services http_request request call)
    complete-Keeps =
        if-Keeps P request.stream _ _
          (bind-Keeps P
            (route_chat_completion_stream services.keys request.model request call.correlation_id) _
            (same-Keeps P
              (route_chat_completion_stream services.keys request.model request call.correlation_id)
              (λ w.
                (route_chat_completion_stream-Costs services.keys request.model request
                  call.correlation_id w).db_same))
            stream_out-Keeps)
          (bind-Keeps P
            (chat_completions services.tiktoken services.keys services.answer call request) _
            (chat_completions-Keeps services.tiktoken services.keys services.answer request)
            λ response w h. h)
