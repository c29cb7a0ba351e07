-- ===== src/Completions/Endpoint.antt =====
-- app/api/v1/completions.py: `POST /v1/chat/completions` with its dependencies: the key is verified, its
-- limits are checked, and the completion is answered, as a whole or as a stream.
use cortex_cloud_api.Prelude.{ℕ, String, none, some, if◌then◌else◌}
use cortex_cloud_api.Effects.{ok, Exec, pure, ◌>>=◌}
use cortex_cloud_api.Database.{ModelRegistry, ApiKey, World}
use cortex_cloud_api.Schemas.{ChatCompletionRequest, ChatCompletionResponse}
use cortex_cloud_api.Security.{Crypto}
use cortex_cloud_api.Auth.{verify_api_key}
use cortex_cloud_api.Edge.{Request, Edge, client_host, in_world}
use cortex_cloud_api.RateLimit.{Luck, KeyNames, check_api_key_limits}
use cortex_cloud_api.Tokenizer.{Tiktoken}
use cortex_cloud_api.Routing.{Provider, ProviderContext, ProviderKeys, Answer}
use cortex_cloud_api.Routing.Routes.{Stream, route_chat_completion_stream}
use cortex_cloud_api.X402.Challenge.{given}
use cortex_cloud_api.Completions.{Call, chat_completions}
use cortex_cloud_api.Completions.Streams.{Produced, Streamed, stream_completion_wrapper}

-- What a client gets.
pub data Answered : Type 0 where
  whole : ChatCompletionResponse → Answered
  streamed : Streamed → Answered

-- The services around the gateway: cryptography, Redis and the names of its keys, the tokenizer, and
-- the providers, with what each of their streams will produce.
pub record Services : Type 0 where
  pub crypto : Crypto
  pub luck : Luck
  pub names : KeyNames
  pub tiktoken : Tiktoken
  pub keys : ProviderKeys
  pub answer :
      ℕ → Provider → ProviderContext → ChatCompletionRequest → Answer ChatCompletionResponse
  pub produce : Stream ChatCompletionRequest → World → Produced
  pub uuid4 : World → String

module _ (services : Services) (http_request : Request) (request : ChatCompletionRequest) where
  -- `x_correlation_id or str(uuid.uuid4())`
  abbrev pub correlation_id : World → String
  correlation_id w = elim (given http_request.x_correlation_id) [
    | none ↦ services.uuid4 w
    | some id ↦ id
  ]

  abbrev pub call_of : ApiKey → World → Call
  call_of api_key w = record {
    api_key = api_key;
    correlation_id = correlation_id w;
    client_ip = client_host http_request;
    request_path = http_request.path;
    start_time = w.clock;
  }

  abbrev pub stream_out : Call → Stream ChatCompletionRequest × ModelRegistry → Exec World Answered
  stream_out call (stream, routed) w =
      let s =
        stream_completion_wrapper services.tiktoken call request routed.name
          (services.produce stream w) w in
      (ok (streamed s), s.after)

  abbrev pub complete : Call → Exec World Answered
  complete call =
      if request.stream
      then route_chat_completion_stream services.keys request.model request call.correlation_id
        >>= stream_out call
      else (do
        response ← chat_completions services.tiktoken services.keys services.answer call request
        pure (whole response))

  abbrev pub start : ApiKey → Exec World Answered
  start api_key w = complete (call_of api_key w) w

  abbrev pub checked : ApiKey → Exec Edge Answered
  checked api_key = do
    admitted ← check_api_key_limits services.luck services.names api_key
    in_world (start admitted)

  unfoldable pub post_chat_completions : Exec Edge Answered
  post_chat_completions = do
    api_key ← in_world (verify_api_key services.crypto http_request.authorization)
    checked api_key
