-- ===== src/Providers/Anthropic/Reply.antt =====
-- app/providers/anthropic.py: `_translate_response`, `chat_completion` and `embeddings`.
use cortex_cloud_api.Prelude.{ℕ, String, Option, none, some, List, [], ◌∷◌, ◌++◌, if◌then◌else◌}
use cortex_cloud_api.Prelude.Int.{pos, ◌+ℤ◌}
use cortex_cloud_api.Prelude.Text.{concat, is_empty}
use cortex_cloud_api.Effects.{message, http, Result, ok, raised}
use cortex_cloud_api.Effects.Results.{◌>>=◌, map_result}
use cortex_cloud_api.Json.{Json, int, str, arr, obj, end, nil, object_of}
use cortex_cloud_api.Json.Access.{get, get_or, items_of, is_str, add_text, as_text, as_int}
use cortex_cloud_api.Providers.{Python, HttpReply, answer_with}
use cortex_cloud_api.Providers.Anthropic.Request.{AnthropicData, translate_request}
use cortex_cloud_api.Routing.{ProviderContext}
use cortex_cloud_api.Schemas.{
  UsageInfo, FinishReason, stop, length, tool_calls, ChatCompletionRequest, ChatCompletionResponse,
  EmbeddingsRequest, EmbeddingsResponse,
}

-- `content_text` and `tool_calls`, as the loop over the blocks builds them.
pub record Read : Type 0 where
  pub content_text : String
  pub calls : List Json

abbrev read_text : Json → Read → Result Read
read_text block read = get_or block "text" (str "") >>= λ value.
    map_result (λ longer. record read { content_text = longer }) (add_text read.content_text value)

abbrev pub openai_call : Python → Json → Json → Json → Json
openai_call python id name input = object_of (
    ("id", id)
    ∷ ("type", str "function")
    ∷ ("function", object_of (("name", name) ∷ ("arguments", str (python.dumps input)) ∷ []))
    ∷ [])

abbrev read_tool_use : Python → Json → Read → Result Read
read_tool_use python block read = get block "id" >>= λ id. get block "name" >>= λ name.
    get_or block "input" (obj end) >>= λ input.
    ok (record read { calls = read.calls ++ openai_call python id name input ∷ [] })

abbrev read_typed : Python → Json → Json → Read → Result Read
read_typed python type block read =
    if is_str "text" type
    then read_text block read
    else if is_str "tool_use" type
    then read_tool_use python block read
    else ok read

abbrev pub read_block : Python → Json → Read → Result Read
read_block python block read = get block "type" >>= λ type. read_typed python type block read

abbrev pub read_blocks : Python → List Json → Read → Result Read
read_blocks python [] read = ok read
read_blocks python (block ∷ rest) read = read_block python block read >>= read_blocks python rest

abbrev pub finish_of : Json → FinishReason
finish_of stop_reason =
    if is_str "end_turn" stop_reason
    then stop
    else if is_str "max_tokens" stop_reason
    then length
    else if is_str "tool_use" stop_reason
    then tool_calls
    else stop

abbrev pub usage_info : Json → Json → Result UsageInfo
usage_info prompt completion = as_int prompt >>= λ m. as_int completion >>= λ n.
    ok record { prompt_tokens = m; completion_tokens = n; total_tokens = m +ℤ n }

abbrev pub unless_blank : String → Option String
unless_blank s = if is_empty s then none else some s

abbrev pub unless_none : List Json → Option (List Json)
unless_none [] = none
unless_none (call ∷ rest) = some (call ∷ rest)

-- `fresh` is the text of `uuid.uuid4()`.
unfoldable pub translate_response :
    Python → String → ℕ → Json → String → Result ChatCompletionResponse
translate_response python fresh now reply gateway_model =
    get_or reply "content" (arr nil) >>= λ content. items_of content >>= λ blocks.
    read_blocks python blocks (record { content_text = ""; calls = [] }) >>= λ read.
    get reply "stop_reason" >>= λ stop_reason. get_or reply "usage" (obj end) >>= λ usage.
    get_or usage "input_tokens" (int (pos 0)) >>= λ prompt.
    get_or usage "output_tokens" (int (pos 0)) >>= λ completion.
    usage_info prompt completion >>= λ counted.
    get_or reply "id" (str (concat "chatcmpl-" fresh)) >>= λ id. as_text id >>= λ id_text.
    ok record {
      id = id_text;
      created = now;
      model = gateway_model;
      choices =
          record {
            index = 0;
            message = record {
              role = "assistant";
              content = unless_blank read.content_text;
              tool_calls = unless_none read.calls;
            };
            finish_reason = some (finish_of stop_reason);
          }
          ∷ [];
      usage = counted;
    }

-- `post` is the upstream: what it replies to a translated request.
unfoldable pub chat_completion :
    Python
    → (ProviderContext → AnthropicData → HttpReply)
    → String
    → ℕ
    → ChatCompletionRequest
    → ProviderContext
    → Result ChatCompletionResponse
chat_completion python post fresh now request ctx =
    translate_request python request ctx.provider_model_name >>= λ sent.
    answer_with "Failed to connect to Anthropic: " "Anthropic error: "
      (λ reply. translate_response python fresh now reply request.model) (post ctx sent)

unfoldable pub embeddings : EmbeddingsRequest → ProviderContext → Result EmbeddingsResponse
embeddings request ctx =
    raised (http 501 (message "Anthropic provider does not support text embeddings."))
