-- ===== src/Providers/Anthropic/Stream.antt =====
-- app/providers/anthropic.py: `chat_completion_stream`. The state of the generator goes from line to
-- line; each chunk is stamped with the time at which its line arrived.
use cortex_cloud_api.Prelude.{
  ℕ, String, str_eq, Option, none, some, List, [], ◌∷◌, ◌==◌, if◌then◌else◌,
}
use cortex_cloud_api.Prelude.Int.{pos}
use cortex_cloud_api.Prelude.Strings.{strip_by, drop_chars}
use cortex_cloud_api.Prelude.Text.{codes, concat, starts_with, is_blank, is_empty}
use cortex_cloud_api.Effects.{Detail, Result, ok, raised}
use cortex_cloud_api.Effects.Results.{◌>>=◌}
use cortex_cloud_api.Json.{Json, int, str, obj, end, object_of}
use cortex_cloud_api.Json.Access.{get, get_or, is_str, add_text, as_optional_text, as_key, same_key}
use cortex_cloud_api.Providers.{
  Python, Arrived, HttpStream, unreachable_stream, opened, bad_gateway, upstream_error, Yielded,
  yields_then, yield_chunk, or_raised, empty_delta, only_choice, stream_chunk,
}
use cortex_cloud_api.Providers.Anthropic.Reply.{finish_of, usage_info}
use cortex_cloud_api.Providers.Anthropic.Request.{AnthropicData, translate_request}
use cortex_cloud_api.Routing.{ProviderContext}
use cortex_cloud_api.Schemas.{
  ChatCompletionRequest, ChatCompletionStreamChoice, ChoiceDelta, UsageInfo,
}

-- The value of `tool_calls_stream` at an index.
pub record ToolCall : Type 0 where
  pub id : Json
  pub name : Json
  pub input_accumulated : String

abbrev pub ToolCalls : Type 0
ToolCalls = List (Json × ToolCall)

-- The local variables of the generator.
pub record Reading : Type 0 where
  pub msg_id : Json
  pub prompt_tokens : Json
  pub completion_tokens : Json
  pub tool_calls_stream : ToolCalls
  pub event_type : String

abbrev pub find_call : Json → ToolCalls → Option ToolCall
find_call index [] = none
find_call index ((k, call) ∷ rest) = if same_key k index then some call else find_call index rest

-- `tool_calls_stream[index] = call`
abbrev pub set_call : Json → ToolCall → ToolCalls → ToolCalls
set_call index call [] = (index, call) ∷ []
set_call index call ((k, old) ∷ rest) =
    let later = set_call index call rest in
    if same_key k index then (k, call) ∷ rest else (k, old) ∷ later

module _ (model : String) where
  abbrev chunk_with :
      ℕ → List ChatCompletionStreamChoice → Option UsageInfo → Reading → Yielded Reading
  chunk_with now choices usage s = yield_chunk (stream_chunk s.msg_id model now choices usage) s

  abbrev delta_chunk : ℕ → ChoiceDelta → Reading → Yielded Reading
  delta_chunk now delta s = chunk_with now (only_choice delta none) none s

  abbrev pub message_start : ℕ → Json → Reading → Yielded Reading
  message_start now event s =
      or_raised
        (get_or event "message" (obj end) >>= λ body. get_or body "id" s.msg_id >>= λ id.
          get_or event "message" (obj end) >>= λ again. get_or again "usage" (obj end) >>= λ usage.
          get_or usage "input_tokens" (int (pos 0)) >>= λ prompt. ok (id, prompt))
        (λ (id, prompt).
          delta_chunk now (record empty_delta { role = some "assistant" })
            (record s { msg_id = id; prompt_tokens = prompt }))

  abbrev first_delta : Json → ToolCall → ChoiceDelta
  first_delta index call = record empty_delta {
    tool_calls = some (
        object_of (
          ("index", index)
          ∷ ("id", call.id)
          ∷ ("type", str "function")
          ∷ ("function", object_of (("name", call.name) ∷ ("arguments", str "") ∷ []))
          ∷ [])
        ∷ []);
  }

  abbrev start_call : ℕ → Json → Json → Reading → Yielded Reading
  start_call now index block s =
      or_raised
        (as_key index >>= λ key. get block "id" >>= λ id. get block "name" >>= λ name.
          ok (key, record { id = id; name = name; input_accumulated = "" }))
        (λ (key, call).
          delta_chunk now (first_delta index call)
            (record s { tool_calls_stream = set_call key call s.tool_calls_stream }))

  abbrev started_block : ℕ → Json × Json × Json → Reading → Yielded Reading
  started_block now (index, block, type) s =
      if is_str "tool_use" type then start_call now index block s else ([], ok s)

  abbrev pub content_block_start : ℕ → Json → Reading → Yielded Reading
  content_block_start now event s =
      or_raised
        (get_or event "index" (int (pos 0)) >>= λ index.
          get_or event "content_block" (obj end) >>= λ block.
          get block "type" >>= λ type. ok (index, block, type))
        (λ started. started_block now started s)

  abbrev text_delta : ℕ → Json → Reading → Yielded Reading
  text_delta now delta s =
      or_raised (get_or delta "text" (str "") >>= as_optional_text)
        (λ content. delta_chunk now (record empty_delta { content = content }) s)

  abbrev next_delta : Json → Json → ChoiceDelta
  next_delta index piece = record empty_delta {
    tool_calls = some (
        object_of (("index", index) ∷ ("function", object_of (("arguments", piece) ∷ [])) ∷ [])
        ∷ []);
  }

  abbrev grown : Json → Json → ToolCall → Json → Reading → Result Reading
  grown key index call piece s = add_text call.input_accumulated piece >>= λ longer. ok (record s {
    tool_calls_stream =
        set_call key (record call { input_accumulated = longer }) s.tool_calls_stream;
  })

  abbrev grow_call : ℕ → Json → Json → Json → Option ToolCall → Reading → Yielded Reading
  grow_call now key index piece none s = ([], ok s)
  grow_call now key index piece (some call) s =
      or_raised (grown key index call piece s)
        (λ after. delta_chunk now (next_delta index piece) after)

  abbrev input_json_delta : ℕ → Json → Json → Reading → Yielded Reading
  input_json_delta now index delta s =
      or_raised
        (get_or delta "partial_json" (str "") >>= λ piece. as_key index >>= λ key. ok (piece, key))
        (λ (piece, key). grow_call now key index piece (find_call key s.tool_calls_stream) s)

  abbrev grown_block : ℕ → Json × Json × Json → Reading → Yielded Reading
  grown_block now (index, delta, type) s =
      if is_str "text_delta" type
      then text_delta now delta s
      else if is_str "input_json_delta" type
      then input_json_delta now index delta s
      else ([], ok s)

  abbrev pub content_block_delta : ℕ → Json → Reading → Yielded Reading
  content_block_delta now event s =
      or_raised
        (get_or event "index" (int (pos 0)) >>= λ index. get_or event "delta" (obj end) >>= λ delta.
          get delta "type" >>= λ type. ok (index, delta, type))
        (λ grown. grown_block now grown s)

  -- The chunk of the usage, whose counts have to be numbers.
  abbrev usage_chunk : ℕ → Reading → Yielded Reading
  usage_chunk now s =
      or_raised (usage_info s.prompt_tokens s.completion_tokens)
        (λ usage. chunk_with now [] (some usage) s)

  abbrev pub message_delta : ℕ → Json → Reading → Yielded Reading
  message_delta now event s =
      or_raised
        (get_or event "usage" (obj end) >>= λ usage.
          get_or usage "output_tokens" s.completion_tokens >>= λ completion.
          get_or event "delta" (obj end) >>= λ delta.
          get delta "stop_reason" >>= λ reason. ok (completion, reason))
        (λ (completion, reason).
          yields_then
            (chunk_with now (only_choice empty_delta (some (finish_of reason))) none
              (record s { completion_tokens = completion }))
            (usage_chunk now))

  unfoldable pub on_event : ℕ → String → Json → Reading → Yielded Reading
  on_event now event_type event s =
      if str_eq event_type "message_start"
      then message_start now event s
      else if str_eq event_type "content_block_start"
      then content_block_start now event s
      else if str_eq event_type "content_block_delta"
      then content_block_delta now event s
      else if str_eq event_type "message_delta"
      then message_delta now event s
      else ([], ok s)

  abbrev on_data : ℕ → Option Json → Reading → Yielded Reading
  on_data now none s = ([], ok s)
  on_data now (some event) s = on_event now s.event_type event s

  unfoldable pub on_line : Python → Arrived → Reading → Yielded Reading
  on_line python arrived s =
      if is_empty (strip_by is_blank arrived.line)
      then ([], ok s)
      else if starts_with (codes arrived.line) (codes "event:")
      then ([], ok (record s { event_type = strip_by is_blank (drop_chars 6 arrived.line) }))
      else if starts_with (codes arrived.line) (codes "data:")
      then on_data arrived.at (python.loads (strip_by is_blank (drop_chars 5 arrived.line))) s
      else ([], ok s)

  -- All the lines, and then the error that cuts them off, if one does.
  abbrev pub on_lines : Python → List Arrived → Result (Unit {0}) → Reading → Yielded (Unit {0})
  on_lines python [] ending s = ([], ending)
  on_lines python (arrived ∷ rest) ending s =
      yields_then (on_line python arrived s) (on_lines python rest ending)

abbrev pub initial : String → Reading
initial fresh = record {
  msg_id = str (concat "chatcmpl-" fresh);
  prompt_tokens = int (pos 0);
  completion_tokens = int (pos 0);
  tool_calls_stream = [];
  event_type = "";
}

abbrev pub ending_of : String → Option Detail → Result (Unit {0})
ending_of prefix none = ok tt
ending_of prefix (some e) = raised (bad_gateway prefix e)

abbrev stream_of : Python → String → String → HttpStream → Yielded (Unit {0})
stream_of python fresh model (unreachable_stream e) =
    ([], raised (bad_gateway "Failed to connect to Anthropic stream: " e))
stream_of python fresh model (opened code body lines cut) =
    if code == 200
    then on_lines model python lines (ending_of "Failed to connect to Anthropic stream: " cut)
        (initial fresh)
    else ([], raised (upstream_error code "Anthropic streaming error: " body))

unfoldable pub chat_completion_stream :
    Python
    → (ProviderContext → AnthropicData → HttpStream)
    → String
    → ChatCompletionRequest
    → ProviderContext
    → Yielded (Unit {0})
chat_completion_stream python send fresh request ctx =
    or_raised (translate_request python request ctx.provider_model_name)
      (λ sent. stream_of python fresh request.model (send ctx sent))
