-- ===== src/Providers/Gemini/Reply.antt =====
-- app/providers/gemini.py: `_translate_response` and `chat_completion`. The n-th `uuid.uuid4().hex[:8]`
-- of a reply is a parameter.
use cortex_cloud_api.Prelude.{
  ℕ, String, Option, none, some, List, [], ◌∷◌, ◌++◌, length, if◌then◌else◌,
}
use cortex_cloud_api.Prelude.Int.{pos, ◌+ℤ◌}
use cortex_cloud_api.Prelude.Text.{concat}
use cortex_cloud_api.Effects.{Result, ok}
use cortex_cloud_api.Effects.Results.{◌>>=◌, map_result}
use cortex_cloud_api.Json.{Json, int, str, arr, obj, end, nil}
use cortex_cloud_api.Json.Access.{
  get, get_or, items_of, is_str, add_text, as_int, has_key, item_at, first_of,
}
use cortex_cloud_api.Providers.{Python, HttpReply, answer_with}
use cortex_cloud_api.Providers.Anthropic.Reply.{openai_call, unless_blank, unless_none}
use cortex_cloud_api.Providers.Gemini.Request.{GeminiData, translate_request}
use cortex_cloud_api.Routing.{ProviderContext}
use cortex_cloud_api.Schemas.{
  UsageInfo, FinishReason, stop, tool_calls, content_filter, ChatCompletionRequest,
  ChatCompletionResponse,
}
use cortex_cloud_api.Schemas

-- `content_text` and `tool_calls`, as the loop over the parts builds them.
pub record Read : Type 0 where
  pub content_text : String
  pub calls : List Json

-- The function call of a part: its name and its arguments.
abbrev pub call_of : Json → Result (Json × Json)
call_of part = item_at "functionCall" part >>= λ fc.
    get fc "name" >>= λ name. get_or fc "args" (obj end) >>= λ args. ok (name, args)

abbrev read_call : Python → (ℕ → String) → Json → Read → Result Read
read_call python hex part read =
    map_result
      (λ (name, args). record read {
        calls =
            read.calls
            ++ openai_call python (str (concat "call_" (hex (length read.calls)))) name args ∷ [];
      })
      (call_of part)

abbrev read_text : Json → Read → Result Read
read_text part read = item_at "text" part >>= λ value.
    map_result (λ longer. record read { content_text = longer }) (add_text read.content_text value)

abbrev read_other : Python → (ℕ → String) → Json → Read → Result Read
read_other python hex part read = has_key "functionCall" part >>= λ has_call.
    (if has_call then read_call python hex part read else ok read)

abbrev pub read_part : Python → (ℕ → String) → Json → Read → Result Read
read_part python hex part read = has_key "text" part >>= λ has_text.
    (if has_text then read_text part read else read_other python hex part read)

abbrev pub read_parts : Python → (ℕ → String) → List Json → Read → Result Read
read_parts python hex [] read = ok read
read_parts python hex (part ∷ rest) read =
    read_part python hex part read >>= read_parts python hex rest

abbrev pub finish_of : Json → FinishReason
finish_of reason =
    if is_str "STOP" reason
    then stop
    else if is_str "MAX_TOKENS" reason
    then Schemas.FinishReason.length
    else if is_str "SAFETY" reason
    then content_filter
    else stop

abbrev reason_with : List Json → FinishReason → FinishReason
reason_with [] reason = reason
reason_with (call ∷ rest) reason = tool_calls

-- The message of the first candidate, and its reason.
abbrev pub read_candidate : Python → (ℕ → String) → Option Json → Result (Read × FinishReason)
read_candidate python hex none = ok (record { content_text = ""; calls = [] }, stop)
read_candidate python hex (some cand) = get_or cand "content" (obj end) >>= λ content.
    get_or content "parts" (arr nil) >>= λ value. items_of value >>= λ items.
    read_parts python hex items (record { content_text = ""; calls = [] }) >>= λ read.
    get cand "finishReason" >>= λ reason. ok (read, reason_with read.calls (finish_of reason))

-- `fresh` is the text of `uuid.uuid4()` for the response.
unfoldable pub translate_response :
    Python → (ℕ → String) → String → ℕ → Json → String → Result ChatCompletionResponse
translate_response python hex fresh now reply gateway_model =
    get_or reply "candidates" (arr nil) >>= λ candidates. first_of candidates >>= λ candidate.
    read_candidate python hex candidate >>= λ (read, reason).
    get_or reply "usageMetadata" (obj end) >>= λ usage.
    get_or usage "promptTokenCount" (int (pos 0)) >>= as_int >>= λ prompt.
    get_or usage "candidatesTokenCount" (int (pos 0)) >>= as_int >>= λ completion.
    get_or usage "totalTokenCount" (int (prompt +ℤ completion)) >>= as_int >>= λ total. ok record {
      id = concat "chatcmpl-" fresh;
      created = now;
      model = gateway_model;
      choices =
          record {
            index = 0;
            message = record {
              role = "assistant";
              content = unless_blank read.content_text;
              tool_calls = unless_none read.calls;
            };
            finish_reason = some reason;
          }
          ∷ [];
      usage = record {
        prompt_tokens = prompt;
        completion_tokens = completion;
        total_tokens = total;
      };
    }

-- `post` is the upstream: what it replies to a translated request.
unfoldable pub chat_completion :
    Python
    → (ProviderContext → GeminiData → HttpReply)
    → (ℕ → String)
    → String
    → ℕ
    → ChatCompletionRequest
    → ProviderContext
    → Result ChatCompletionResponse
chat_completion python post hex fresh now request ctx = translate_request python request >>= λ sent.
    answer_with "Failed to connect to Gemini: " "Gemini error: "
      (λ reply. translate_response python hex fresh now reply request.model) (post ctx sent)
