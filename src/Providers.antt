-- ===== src/Providers.antt =====
-- app/providers: what the translations for the upstream APIs share. The json module, `str` and the
-- replies of the upstreams are parameters.
pub mod Images
pub mod View
pub mod Billing
pub mod Anthropic
pub mod Gemini
pub mod OpenAi
pub mod Gateway
pub mod Refusals
use cortex_cloud_api.Prelude.{
  ℕ, String, Bool, false, Option, none, some, List, [], ◌∷◌, ◌++◌, ◌==◌, if◌then◌else◌,
}
use cortex_cloud_api.Prelude.Text.{concat}
use cortex_cloud_api.Effects.{Detail, message, wrapped, Exn, http, other, Result, ok, raised}
use cortex_cloud_api.Effects.Results.{◌>>=◌, or_else}
use cortex_cloud_api.Json.{Json, null, int, str, obj, end, object_of}
use cortex_cloud_api.Json.Access.{get, get_or, as_text, type_error}
use cortex_cloud_api.Prelude.Int.{pos}
use cortex_cloud_api.Schemas.{
  Content, absent, text, parts, ChatCompletionMessage, ChatCompletionRequest, UsageInfo,
  ChoiceDelta, ChatCompletionStreamChoice, ChatCompletionStreamResponse, FinishReason,
}

pub record Python : Type 0 where
  -- `json.loads`; `none` is an exception
  pub loads : String → Option Json
  -- `json.dumps`
  pub dumps : Json → String
  -- `str` of a value that is no text
  pub str_of : Json → String

-- How a POST with httpx ends: a RequestError with its text, or a status code, a text and, unless it
-- is no JSON, its value.
pub data HttpReply : Type 0 where
  unreachable : Detail → HttpReply
  replied : ℕ → String → Option Json → HttpReply

-- A line of a streamed body, and when it arrives.
pub record Arrived : Type 0 where
  pub line : String
  pub at : ℕ

-- How a streamed POST goes: no connection; or a status code, the text and the lines of the body and
-- the RequestError that cuts them off, if one does.
pub data HttpStream : Type 0 where
  unreachable_stream : Detail → HttpStream
  opened : ℕ → String → List Arrived → Option Detail → HttpStream

abbrev pub not_json : Exn
not_json = other (message "JSONDecodeError")

abbrev pub parsed : Option Json → Result Json
parsed none = raised not_json
parsed (some value) = ok value

-- `except httpx.RequestError as e`
abbrev pub bad_gateway : String → Detail → Exn
bad_gateway prefix e = http 502 (wrapped prefix e)

abbrev pub upstream_error : ℕ → String → String → Exn
upstream_error code prefix body = http code (wrapped prefix (message body))

-- The end of each call: the error of the connection, the upstream's error, or the translated reply.
abbrev pub answer_with : {A : Type 0} → String → String → (Json → Result A) → HttpReply → Result A
answer_with connect error translate (unreachable e) = raised (bad_gateway connect e)
answer_with connect error translate (replied code body value) =
    if code == 200 then parsed value >>= translate else raised (upstream_error code error body)

-- The chunks that a generator has yielded, and how it goes on.
abbrev pub Yielded : Type 0 → Type 0
Yielded S = List ChatCompletionStreamResponse × Result S

abbrev pub yields_then : {S T : Type 0} → Yielded S → (S → Yielded T) → Yielded T
yields_then (chunks, raised e) next = (chunks, raised e)
yields_then (chunks, ok s) next = (chunks ++ (next s).0, (next s).1)

-- A chunk that could be built is yielded; an exception before that ends the generator.
abbrev pub yield_chunk : {S : Type 0} → Result ChatCompletionStreamResponse → S → Yielded S
yield_chunk (raised e) s = ([], raised e)
yield_chunk (ok chunk) s = (chunk ∷ [], ok s)

abbrev pub or_raised : {S A : Type 0} → Result A → (A → Yielded S) → Yielded S
or_raised (raised e) next = ([], raised e)
or_raised (ok a) next = next a

abbrev pub empty_delta : ChoiceDelta
empty_delta = record { role = none; content = none; tool_calls = none }

abbrev pub only_choice : ChoiceDelta → Option FinishReason → List ChatCompletionStreamChoice
only_choice delta reason = record { index = 0; delta = delta; finish_reason = reason } ∷ []

-- `ChatCompletionStreamResponse(...)`, whose `id` has to be a text.
abbrev pub stream_chunk :
    Json
    → String
    → ℕ
    → List ChatCompletionStreamChoice
    → Option UsageInfo
    → Result ChatCompletionStreamResponse
stream_chunk id model now choices usage = as_text id >>= λ text.
    ok record { id = text; created = now; model = model; choices = choices; usage = usage }

-- `json.loads(func_args_str)`, with `{}` where that raises.
abbrev pub loads_arguments : Python → Json → Json
loads_arguments python (str s) = elim (python.loads s) [ none ↦ obj end | some value ↦ value ]
loads_arguments python _ = obj end

-- A tool call of the request: its name and its arguments.
abbrev pub function_of : Python → Json → Result (Json × Json)
function_of python call = get_or call "function" (obj end) >>= λ function.
    get function "name" >>= λ name. get_or call "function" (obj end) >>= λ again.
    get_or again "arguments" (str "{}") >>= λ arguments. ok (name, loads_arguments python arguments)
