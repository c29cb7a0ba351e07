-- ===== src/Tests/Completed.antt =====
-- Completions for the sample key.
use cortex_cloud_api.Prelude.{some, ℕ, ◌≡◌, refl, String, false, none, [], ◌∷◌}
use cortex_cloud_api.Prelude.Int.{pos, ◌+ℤ◌}
use cortex_cloud_api.Effects.{http, message, ok, raised}
use cortex_cloud_api.Effects.After.{After}
use cortex_cloud_api.Schemas.{ChatCompletionRequest, user, Content, text, ChatCompletionResponse}
use cortex_cloud_api.Routing.{Provider, ProviderContext, Answer}
use cortex_cloud_api.Tokenizer.{Tiktoken, counted, count_messages_tokens, count_tokens}
use cortex_cloud_api.Usage.Ledger.{IsBalanced}
use cortex_cloud_api.Usage.Uuid.{uuid_of}
use cortex_cloud_api.Completions.{Call, chat_completions}
use cortex_cloud_api.Completions.Guarantees.{IsServed, FailedSafely, chat_completions-After}
use cortex_cloud_api.Completions.Streams.{Produced, stream_completion_wrapper}
use cortex_cloud_api.Completions.Losses.{IsUnbilled, stream_completion_wrapper-IsUnbilled}
use cortex_cloud_api.Completions.Endpoint.{Services, post_chat_completions}
use cortex_cloud_api.Completions.Entry.{IsAdmittedByKey, post_chat_completions-IsAdmittedByKey}
use cortex_cloud_api.Edge.{Request}
use cortex_cloud_api.Tests.Gateway.{luck, edge, paid_request}
use cortex_cloud_api.Tests.Samples.{crypto, world, key, provider_keys}

abbrev pub tiktoken : Tiktoken
tiktoken = record { cl100k_base = λ s. counted 2; for_model = λ model s. counted 2 }

abbrev pub ask : Content → ChatCompletionRequest
ask content = record {
  model = "sonnet";
  messages =
      record { role = user; content = content; name = none; tool_call_id = none; tool_calls = none }
      ∷ [];
  temperature = none;
  top_p = none;
  stream = false;
  max_tokens = none;
  response_format = none;
  tools = none;
  tool_choice = none;
  rest = [];
}

abbrev reply : ChatCompletionResponse
reply = record {
  id = "chatcmpl-1";
  created = 5;
  model = "gpt";
  choices = [];
  usage = record { prompt_tokens = pos 1000; completion_tokens = pos 500; total_tokens = pos 1500 };
}

abbrev replies :
    ℕ → Provider → ProviderContext → ChatCompletionRequest → Answer ChatCompletionResponse
replies n Provider.anthropic ctx request = record {
  result = raised (http 503 (message "overloaded"));
  took = 100;
}
replies n provider ctx request = record { result = ok reply; took = 100 }

abbrev pub call_with : String → Call
call_with correlation_id = record {
  api_key = key;
  correlation_id = correlation_id;
  client_ip = "127.0.0.1";
  request_path = "/v1/chat/completions";
  start_time = 5000;
}

abbrev pub call : Call
call = call_with "00000000-0000-0000-0000-00000000002a"

abbrev bad_call : Call
bad_call = call_with "my-trace"

abbrev produced : Produced
produced = record { chunks = []; failure = none; took = 10 }

chat_completions-After_example :
    After
      (IsServed tiktoken provider_keys replies call (ask (text "hi")) world)
      (FailedSafely world.db)
      (chat_completions tiktoken provider_keys replies call (ask (text "hi")) world)
chat_completions-After_example =
    chat_completions-After tiktoken provider_keys replies call (ask (text "hi")) world

balanced : IsBalanced world.db
unfolding ◌+ℤ◌
balanced = (refl, (refl, tt))

no_uuid : uuid_of "my-trace" ≡ none
unfolding uuid_of
no_uuid = refl

seven : count_messages_tokens tiktoken (ask (text "hi")).messages (ask (text "hi")).model ≡ ok 7
unfolding count_messages_tokens count_tokens
seven = refl

stream_completion_wrapper-IsUnbilled_example :
    IsUnbilled tiktoken bad_call
      (ask (text "hi"))
      "gpt"
      produced
      no_uuid
      world
      (stream_completion_wrapper tiktoken bad_call (ask (text "hi")) "gpt" produced world)
stream_completion_wrapper-IsUnbilled_example =
    stream_completion_wrapper-IsUnbilled tiktoken bad_call (ask (text "hi")) "gpt" produced no_uuid
      7 world seven refl

abbrev pub keyed_request : Request
keyed_request = record paid_request { authorization = some "Bearer cx-live-0123" }

abbrev pub services : Services
services = record {
  crypto = crypto;
  luck = luck;
  names = record { minute = λ id. "minute"; day = λ id. "day"; month = λ id. "month" };
  tiktoken = tiktoken;
  keys = provider_keys;
  answer = replies;
  produce = λ stream w. produced;
  uuid4 = λ w. "00000000-0000-0000-0000-00000000002b";
}

post_chat_completions-IsAdmittedByKey_example :
    IsAdmittedByKey services keyed_request
      (ask (text "hi"))
      edge
      (post_chat_completions services keyed_request (ask (text "hi")) edge)
post_chat_completions-IsAdmittedByKey_example =
    post_chat_completions-IsAdmittedByKey services keyed_request (ask (text "hi")) edge
