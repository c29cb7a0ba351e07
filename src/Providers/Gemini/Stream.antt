-- ===== src/Providers/Gemini/Stream.antt =====
-- app/providers/gemini.py: `chat_completion_stream`. The state of the generator goes from line to
-- line; each chunk is stamped with the time at which its line arrived.
use cortex_cloud_api.Prelude.{
  ℕ, suc, String, Bool, true, false, Option, none, some, List, [], ◌∷◌, ◌==◌, ◌||◌, if◌then◌else◌,
}
use cortex_cloud_api.Prelude.Int.{pos}
use cortex_cloud_api.Prelude.Strings.{strip_by, drop_chars}
use cortex_cloud_api.Prelude.Text.{codes, concat, starts_with, is_blank, is_empty}
use cortex_cloud_api.Effects.{Detail, Result, ok, raised}
use cortex_cloud_api.Effects.Results.{◌>>=◌}
use cortex_cloud_api.Json.{Json, int, str, arr, obj, nil, end, object_of, is_true}
use cortex_cloud_api.Json.Access.{
  get, get_or, is_str, items_of, as_optional_text, has_key, item_at, first_of,
}
use cortex_cloud_api.Providers.{
  Python, Arrived, HttpStream, unreachable_stream, opened, bad_gateway, upstream_error, Yielded,
  yields_then, yield_chunk, or_raised, empty_delta, only_choice, stream_chunk,
}
use cortex_cloud_api.Providers.Anthropic.Reply.{usage_info}
use cortex_cloud_api.Providers.Gemini.Reply.{call_of}
use cortex_cloud_api.Providers.Gemini.Request.{GeminiData, translate_request}
use cortex_cloud_api.Routing.{ProviderContext}
use cortex_cloud_api.Schemas.{
  ChatCompletionRequest, ChatCompletionStreamChoice, ChoiceDelta, FinishReason, stop, length,
  tool_calls, UsageInfo,
}

-- The local variables of the generator, and how many tool calls have got an id.
pub record Reading : Type 0 where
  pub prompt_tokens : Json
  pub completion_tokens : Json
  pub calls : ℕ

abbrev pub initial : Reading
initial = record { prompt_tokens = int (pos 0); completion_tokens = int (pos 0); calls = 0 }

-- The reasons that the stream maps: SAFETY is not among them.
abbrev pub stream_reason : Json → Option FinishReason
stream_reason reason =
    if is_str "STOP" reason
    then some stop
    else if is_str "MAX_TOKENS" reason
    then some length
    else none

abbrev is_list_mark : ℕ → Bool
is_list_mark c = (c == b'[') || (c == b']') || (c == b',') || (c == b' ') || (c == b'\t')

-- The text of a line that is parsed; none where the line is passed over.
abbrev unless_empty : String → Option String
unless_empty s = if is_empty s then none else some s

abbrev pub data_of : String → Option String
data_of line =
    if is_empty (strip_by is_blank line)
    then none
    else if starts_with (codes line) (codes "data: ")
    then some (strip_by is_blank (drop_chars 6 line))
    else if starts_with (codes line) (codes "[") || starts_with (codes line) (codes ",")
    then unless_empty (strip_by is_list_mark line)
    else some line

module _ (python : Python) (hex : ℕ → String) (msg_id : String) (model : String) where
  abbrev chunk_with :
      ℕ → List ChatCompletionStreamChoice → Option UsageInfo → Reading → Yielded Reading
  chunk_with now choices usage s = yield_chunk (stream_chunk (str msg_id) model now choices usage) s

  abbrev pub role_chunk : ℕ → Reading → Yielded Reading
  role_chunk now s =
      chunk_with now (only_choice (record empty_delta { role = some "assistant" }) none) none s

  abbrev text_chunk : ℕ → Json → Option FinishReason → Reading → Yielded Reading
  text_chunk now part reason s = or_raised (item_at "text" part >>= as_optional_text) (λ content.
      chunk_with now (only_choice (record empty_delta { content = content }) reason) none s)

  abbrev call_delta : String → Json × Json → ChoiceDelta
  call_delta id (name, args) = record empty_delta {
    tool_calls = some (
        object_of (
          ("index", int (pos 0))
          ∷ ("id", str id)
          ∷ ("type", str "function")
          ∷ ("function", object_of (("name", name) ∷ ("arguments", str (python.dumps args)) ∷ []))
          ∷ [])
        ∷ []);
  }

  abbrev call_chunk : ℕ → Json → Reading → Yielded Reading
  call_chunk now part s = or_raised (call_of part) (λ call.
      chunk_with now
        (only_choice (call_delta (concat "call_" (hex s.calls)) call) (some tool_calls)) none
        (record s { calls = suc s.calls }))

  abbrev on_other : ℕ → Json → Bool → Reading → Yielded Reading
  on_other now part true s = call_chunk now part s
  on_other now part false s = ([], ok s)

  abbrev on_text : ℕ → Json → Option FinishReason → Bool → Reading → Yielded Reading
  on_text now part reason true s = text_chunk now part reason s
  on_text now part reason false s =
      or_raised (has_key "functionCall" part) (λ has_call. on_other now part has_call s)

  abbrev pub on_part : ℕ → Json → Option FinishReason → Reading → Yielded Reading
  on_part now part reason s =
      or_raised (has_key "text" part) (λ has_text. on_text now part reason has_text s)

  abbrev pub on_parts : ℕ → List Json → Option FinishReason → Reading → Yielded Reading
  on_parts now [] reason s = ([], ok s)
  on_parts now (part ∷ rest) reason s =
      yields_then (on_part now part reason s) (on_parts now rest reason)

  abbrev on_candidate : ℕ → Option Json → Reading → Yielded Reading
  on_candidate now none s = ([], ok s)
  on_candidate now (some cand) s =
      or_raised
        (get_or cand "content" (obj end) >>= λ content. get cand "finishReason" >>= λ reason.
          get_or content "parts" (arr nil) >>= items_of >>= λ items. ok (items, reason))
        (λ (items, reason). on_parts now items (stream_reason reason) s)

  abbrev read_usage : Json → Reading → Result Reading
  read_usage usage s = get_or usage "promptTokenCount" s.prompt_tokens >>= λ prompt.
      get_or usage "candidatesTokenCount" s.completion_tokens >>= λ completion.
      ok (record s { prompt_tokens = prompt; completion_tokens = completion })

  abbrev counted : Json → Reading → Result Reading
  counted usage s = if is_true usage then read_usage usage s else ok s

  unfoldable pub on_chunk : ℕ → Json → Reading → Yielded Reading
  on_chunk now chunk s =
      or_raised
        (get_or chunk "candidates" (arr nil) >>= λ candidates.
          get_or chunk "usageMetadata" (obj end) >>= λ usage.
          counted usage s >>= λ after. first_of candidates >>= λ candidate. ok (candidate, after))
        (λ (candidate, after). on_candidate now candidate after)

  abbrev on_parsed : ℕ → Option Json → Reading → Yielded Reading
  on_parsed now none s = ([], ok s)
  on_parsed now (some chunk) s = on_chunk now chunk s

  abbrev pub on_text_of : ℕ → Option String → Reading → Yielded Reading
  on_text_of now none s = ([], ok s)
  on_text_of now (some text) s = on_parsed now (python.loads text) s

  abbrev pub on_line : Arrived → Reading → Yielded Reading
  on_line arrived s = on_text_of arrived.at (data_of arrived.line) s

  -- The chunk of the usage, at the end of the body.
  abbrev pub usage_chunk : ℕ → Reading → Yielded (Unit {0})
  usage_chunk now s =
      or_raised (usage_info s.prompt_tokens s.completion_tokens)
        (λ usage. yields_then (chunk_with now [] (some usage) s) (λ after. ([], ok tt)))

  abbrev pub at_end : ℕ → Option Detail → Reading → Yielded (Unit {0})
  at_end now none s = usage_chunk now s
  at_end now (some e) s = ([], raised (bad_gateway "Failed to connect to Gemini stream: " e))

  abbrev pub on_lines : List Arrived → ℕ → Option Detail → Reading → Yielded (Unit {0})
  on_lines [] now cut s = at_end now cut s
  on_lines (arrived ∷ rest) now cut s = yields_then (on_line arrived s) (on_lines rest now cut)

-- When the answer's head arrived and when its body ended.
pub record Times : Type 0 where
  pub begun : ℕ
  pub ended : ℕ

abbrev pub stream_of :
    Python → (ℕ → String) → String → String → Times → HttpStream → Yielded (Unit {0})
stream_of python hex fresh model times (unreachable_stream e) =
    ([], raised (bad_gateway "Failed to connect to Gemini stream: " e))
stream_of python hex fresh model times (opened code body lines cut) =
    if code == 200
    then yields_then (role_chunk python hex (concat "chatcmpl-" fresh) model times.begun initial)
        (on_lines python hex (concat "chatcmpl-" fresh) model lines times.ended cut)
    else ([], raised (upstream_error code "Gemini streaming error: " body))

unfoldable pub chat_completion_stream :
    Python
    → (ProviderContext → GeminiData → HttpStream)
    → (ℕ → String)
    → String
    → Times
    → ChatCompletionRequest
    → ProviderContext
    → Yielded (Unit {0})
chat_completion_stream python send hex fresh times request ctx =
    or_raised (translate_request python request)
      (λ sent. stream_of python hex fresh request.model times (send ctx sent))
