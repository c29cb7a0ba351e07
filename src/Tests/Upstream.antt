-- ===== src/Tests/Upstream.antt =====
-- A stream and a reply of Anthropic's, and a stream of OpenAI's.
use cortex_cloud_api.Prelude.{
  String, str_eq, Option, none, some, List, [], ◌∷◌, ◌≡◌, refl, ap, All, if◌then◌else◌,
}
use cortex_cloud_api.Prelude.Int.{pos}
use cortex_cloud_api.Effects.{message, ok, raised}
use cortex_cloud_api.Json.{
  Json, null, boolean, int, float, str, arr, obj, end, object_of, lookup_field,
}
use cortex_cloud_api.Providers.{Python, Arrived, replied, HttpStream, opened, upstream_error}
use cortex_cloud_api.Providers.Anthropic.Blocks
use cortex_cloud_api.Providers.Anthropic.Blocks.{
  Block, text_part, tool_part, translated, sent_back, normal, translate_response_lem,
  content_blocks-translate_response,
}
use cortex_cloud_api.Providers.Anthropic.Events.{
  Event, Others, message_start, tool_start, text_delta, json_delta, message_delta, event_data, Sent,
  lines_of, read_events, unsent,
}
use cortex_cloud_api.Providers.Anthropic.Guarantees.{anthropic_stream_refines}
use cortex_cloud_api.Providers.Anthropic.Request.{
  AnthropicData, from_user, from_assistant, translate_request, content_blocks,
}
use cortex_cloud_api.Providers.Anthropic.Results.{
  results_in, given_results, results_in-translate_request,
}
use cortex_cloud_api.Providers.Anthropic.Stream.{chat_completion_stream, ending_of}
use cortex_cloud_api.Providers.Gateway.{Upstreams, answer_chat}
use cortex_cloud_api.Providers.OpenAi
use cortex_cloud_api.Providers.OpenAi.{Pydantic, OpenAiData, cut_off}
use cortex_cloud_api.Providers.OpenAi.Alias.{AsksModel}
use cortex_cloud_api.Providers.OpenAi.Stream.{
  before_done, all_chunks, ended_by, chat_completion_stream_lem,
}
use cortex_cloud_api.Providers.Refusals.{reply_to, refused_once}
use cortex_cloud_api.Providers.View.{nothing, read_chunks}
use cortex_cloud_api.Routing.{openai, anthropic, ProviderContext, provider_map, execute_with_retry}
use cortex_cloud_api.Routing.Routes.{execute_request}
use cortex_cloud_api.Schemas.{
  ChatCompletionRequest, ChatCompletionStreamResponse, ChatCompletionChoice, user, assistant, tool,
  text, parts, absent,
}
use cortex_cloud_api.Tests.Completed.{ask}
use cortex_cloud_api.Tests.Samples.{sonnet, world, provider_keys}

abbrev begin : Event
begin = message_start "msg_1" (pos 12)

abbrev hello : Event
hello = text_delta (pos 0) "Hello"

abbrev calls_tool : Event
calls_tool = tool_start (pos 1) "toolu_1" "weather"

abbrev piece : Event
piece = json_delta (pos 1) "{}"

abbrev last_event : Event
last_event = message_delta "tool_use" (pos 7)

abbrev others : Others
others = record {
  outer = [];
  inner = ("model", str "claude") ∷ ("stop_sequence", null) ∷ [];
  usage = ("cache_read_input_tokens", int (pos 3)) ∷ [];
}

abbrev other_fields : Blocks.Others
other_fields = record { reply = ("model", str "claude") ∷ ("stop_sequence", null) ∷ []; usage = [] }

-- The text of an event's data is a letter here.
abbrev pub python : Python
python = record {
  loads = λ s.
      if str_eq s "a"
      then some (event_data begin others)
      else if str_eq s "b"
      then some (event_data hello others)
      else if str_eq s "c"
      then some (event_data calls_tool others)
      else if str_eq s "d"
      then some (event_data piece others)
      else if str_eq s "e"
      then some (event_data last_event others)
      else if str_eq s "{}"
      then some (obj end)
      else none;
  dumps = λ value. "{}";
  str_of = λ value. "[]";
}

abbrev sent : List Sent
sent =
    record { event = begin; others = others; body = "a"; at = 1 }
    ∷ record { event = hello; others = others; body = "b"; at = 2 }
    ∷ record { event = calls_tool; others = others; body = "c"; at = 3 }
    ∷ record { event = piece; others = others; body = "d"; at = 4 }
    ∷ record { event = last_event; others = others; body = "e"; at = 5 }
    ∷ []

abbrev send : ProviderContext → AnthropicData → HttpStream
send context data_sent = opened 200 "" (lines_of sent) none

abbrev pub ctx : ProviderContext
ctx = record { api_key = "secret"; provider_model_name = "claude"; correlation_id = "cid" }

abbrev asked : ChatCompletionRequest
asked = ask (text "hi")

abbrev asked_message : AnthropicData
asked_message = record {
  model = "claude";
  max_tokens = 4096;
  temperature = none;
  top_p = none;
  system_prompt = none;
  messages = from_user (text "hi") ∷ [];
  tools = none;
  tool_choice = none;
}

asked_translated : translate_request python asked "claude" ≡ ok asked_message
unfolding translate_request
asked_translated = refl

anthropic_stream_refines_example :
    ((chat_completion_stream python send "0" asked ctx).1
      ≡ ending_of "Failed to connect to Anthropic stream: " none)
    × (read_chunks (chat_completion_stream python send "0" asked ctx).0 nothing
        ≡ (read_events sent (unsent "0")).view)
anthropic_stream_refines_example =
    anthropic_stream_refines python send "0" asked ctx asked_message "" sent none asked_translated
      refl (refl, (refl, (refl, (refl, (refl, tt)))))

abbrev blocks : List Block
blocks = tool_part "toolu_1" "weather" (obj end) ∷ text_part "Hello" ∷ []

content_blocks-translate_response_example :
    All
      (λ (choice : ChatCompletionChoice).
        content_blocks python (sent_back choice.message) ≡ ok (normal blocks))
      (translated python 9 "sonnet" "msg_1" blocks "end_turn" (pos 12) (pos 7)).choices
content_blocks-translate_response_example =
    content_blocks-translate_response python "0" 9 "sonnet" "msg_1" blocks "end_turn" (pos 12)
      (pos 7) other_fields (translated python 9 "sonnet" "msg_1" blocks "end_turn" (pos 12) (pos 7))
      (translate_response_lem python "0" 9 "sonnet" "msg_1" blocks "end_turn" (pos 12) (pos 7)
        other_fields)
      (refl, (tt, tt))

-- A conversation with a tool call and its result, and a picture.
abbrev tool_call : Json
tool_call = object_of (
    ("id", str "toolu_1")
    ∷ ("function", object_of (("name", str "weather") ∷ ("arguments", str "{}") ∷ []))
    ∷ [])

abbrev picture : Json
picture = object_of (
    ("type", str "image_url")
    ∷ ("image_url", object_of (("url", str "data:image/png;base64,AAAA") ∷ []))
    ∷ [])

abbrev conversation : ChatCompletionRequest
conversation = record asked {
  messages =
      record {
        role = user;
        content = parts (picture ∷ []);
        name = none;
        tool_call_id = none;
        tool_calls = none;
      }
      ∷ record {
        role = assistant;
        content = absent;
        name = none;
        tool_call_id = none;
        tool_calls = some (tool_call ∷ []);
      }
      ∷ record {
        role = tool;
        content = text "rain";
        name = none;
        tool_call_id = some "toolu_1";
        tool_calls = none;
      }
      ∷ [];
}

abbrev block_of : String → List (String × Json) → Json
block_of type entries = object_of (("type", str type) ∷ entries)

abbrev conversation_sent : AnthropicData
conversation_sent = record asked_message {
  messages =
      from_user (
        parts (
          block_of "image" (
            (
              "source",
              block_of "base64" (("media_type", str "image/png") ∷ ("data", str "AAAA") ∷ []),
            )
            ∷ [])
          ∷ []))
      ∷ from_assistant (
          block_of "tool_use"
            (("id", str "toolu_1") ∷ ("name", str "weather") ∷ ("input", obj end) ∷ [])
          ∷ [])
      ∷ from_user (
          parts (
            block_of "tool_result" (("tool_use_id", str "toolu_1") ∷ ("content", str "rain") ∷ [])
            ∷ []))
      ∷ [];
}

conversation_translated : translate_request python conversation "claude" ≡ ok conversation_sent
unfolding translate_request content_blocks
conversation_translated = refl

results_in-translate_request_example :
    results_in conversation_sent.messages ≡ given_results conversation.messages
results_in-translate_request_example =
    results_in-translate_request python conversation "claude" conversation_sent
      conversation_translated

-- The upstream refuses the key.
abbrev refusing : Upstreams
refusing = record {
  openai_chat = λ n url context body. replied 401 "no" none;
  openai_embeddings = λ n url context body. replied 401 "no" none;
  anthropic_messages = λ n context body. replied 401 "bad key" none;
  gemini_generate = λ n context body. replied 401 "no" none;
  gemini_embed = λ n context body. replied 401 "no" none;
  fresh = λ n. "0";
  hex = λ n k. "0";
  now = λ n. 9;
  took = λ n. 100;
}

abbrev named_chunk : Option Json → Option ChatCompletionStreamResponse
named_chunk (some (str s)) =
    some record { id = "0"; created = 1; model = s; choices = []; usage = none }
named_chunk _ = none

abbrev chunk_from : Json → Option ChatCompletionStreamResponse
chunk_from (obj fs) = named_chunk (lookup_field "model" fs)
chunk_from _ = none

abbrev pydantic : Pydantic
pydantic = record {
  as_response = λ value. none;
  as_stream_response = chunk_from;
  as_embeddings = λ value. none;
}

known_provider : provider_map "Anthropic" ≡ some anthropic
unfolding provider_map
known_provider = refl

refused_reply :
    reply_to python refusing 0 anthropic
      (record ctx { provider_model_name = "sonnet"; correlation_id = "cid" })
      asked
    ≡ ok (replied 401 "bad key" none)
unfolding translate_request
refused_reply = refl

refused_once_example :
    execute_with_retry
      (execute_request provider_keys (answer_chat python pydantic refusing) "cid" asked sonnet)
      world
    ≡ (
      raised (upstream_error 401 "Anthropic error: " "bad key"),
      record world { calls = 1; clock = 5100 },
    )
refused_once_example =
    refused_once python pydantic refusing provider_keys "cid" asked sonnet anthropic "secret" world
      401 "bad key" none known_provider refl refused_reply refl refl

abbrev openai_lines : List Arrived
openai_lines =
    record { line = "data: m"; at = 1 }
    ∷ record { line = "data: [DONE]"; at = 2 }
    ∷ record { line = "data: m"; at = 3 }
    ∷ []

abbrev openai_python : Python
openai_python = record python {
  loads = λ s. if str_eq s "m" then some (object_of (("model", str "gpt-4o") ∷ [])) else none;
}

abbrev openai_send : String → ProviderContext → OpenAiData ChatCompletionRequest → HttpStream
openai_send url context body = opened 200 "" openai_lines (some (message "reset"))

chat_completion_stream_lem_example :
    OpenAi.chat_completion_stream openai openai_python pydantic openai_send asked ctx ≡ (
      all_chunks openai_python pydantic "sonnet" (before_done openai_lines).0,
      ended_by (before_done openai_lines).1 (cut_off (some (message "reset"))),
    )
chat_completion_stream_lem_example =
    chat_completion_stream_lem openai openai_python pydantic openai_send asked ctx "" openai_lines
      (some (message "reset")) refl

named_chunk-model :
    (o : Option Json) (c : ChatCompletionStreamResponse)
    → named_chunk o ≡ some c
    → o ≡ some (str c.model)
named_chunk-model (some (str s)) c h = ap (λ t. model_in t) h
  where
    model_in : Option ChatCompletionStreamResponse → Option Json
    model_in none = none
    model_in (some d) = some (str d.model)
named_chunk-model (some null) c h = cc
named_chunk-model (some (boolean b)) c h = cc
named_chunk-model (some (int n)) c h = cc
named_chunk-model (some (float t)) c h = cc
named_chunk-model (some (arr es)) c h = cc
named_chunk-model (some (obj fs)) c h = cc
named_chunk-model none c h = cc

some-none : {c : ChatCompletionStreamResponse} → none ≡ some c → ⊥
some-none h = cc

pydantic-AsksModel : AsksModel pydantic
pydantic-AsksModel (obj fs) c h = (fs, refl, named_chunk-model (lookup_field "model" fs) c h)
pydantic-AsksModel null c h = elim (some-none h) [ ]
pydantic-AsksModel (boolean b) c h = elim (some-none h) [ ]
pydantic-AsksModel (int n) c h = elim (some-none h) [ ]
pydantic-AsksModel (float t) c h = elim (some-none h) [ ]
pydantic-AsksModel (str t) c h = elim (some-none h) [ ]
pydantic-AsksModel (arr es) c h = elim (some-none h) [ ]
