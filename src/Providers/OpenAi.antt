-- ===== src/Providers/OpenAi.antt =====
-- app/providers/openai.py, groq.py and nvidia.py: the providers whose upstreams speak the OpenAI API.
-- `model_validate` of pydantic is a parameter.
pub mod Stream
pub mod Alias
use cortex_cloud_api.Prelude.{
  String, Bool, true, false, Option, none, some, List, [], ◌∷◌, ◌++◌, ◌==◌, str_eq, if◌then◌else◌,
}
use cortex_cloud_api.Prelude.Strings.{strip_by, drop_chars}
use cortex_cloud_api.Prelude.Text.{codes, concat, starts_with, is_blank, is_empty}
use cortex_cloud_api.Effects.{Detail, Result, ok, raised}
use cortex_cloud_api.Effects.Results.{◌>>=◌}
use cortex_cloud_api.Json.{Json, str}
use cortex_cloud_api.Json.Access.{has_key, set_item, validation_error}
use cortex_cloud_api.Providers.{
  Python, Arrived, HttpReply, HttpStream, unreachable_stream, opened, answer_with, bad_gateway,
  upstream_error, Yielded,
}
use cortex_cloud_api.Routing.{Provider, openai, anthropic, gemini, groq, nvidia, ProviderContext}
use cortex_cloud_api.Schemas.{
  ChatCompletionRequest, ChatCompletionResponse, ChatCompletionStreamResponse, EmbeddingsRequest,
  EmbeddingsResponse,
}

-- `model_validate` of the three responses; `none` is a ValidationError.
pub record Pydantic : Type 0 where
  pub as_response : Json → Option ChatCompletionResponse
  pub as_stream_response : Json → Option ChatCompletionStreamResponse
  pub as_embeddings : Json → Option EmbeddingsResponse

abbrev pub validated : {A : Type 0} → (Json → Option A) → Json → Result A
validated validate value = elim (validate value) [ none ↦ raised validation_error | some a ↦ ok a ]

-- `base_url` of the three classes.
unfoldable pub base_url : Provider → String
base_url groq = "https://api.groq.com/openai/v1"
base_url nvidia = "https://integrate.api.nvidia.com/v1"
base_url _ = "https://api.openai.com/v1"

-- What is sent: the request with the provider's name of the model; a stream also asks for its usage.
pub record OpenAiData (R : Type 0) : Type 0 where
  pub body : R
  pub include_usage : Bool

abbrev pub plain : {R : Type 0} → R → OpenAiData R
plain body = record { body = body; include_usage = false }

abbrev pub chat_body : ChatCompletionRequest → ProviderContext → ChatCompletionRequest
chat_body request ctx = record request { model = ctx.provider_model_name }

module _ (p : Provider) (pydantic : Pydantic) where
  -- `post` is the upstream: what it replies at a URL.
  unfoldable pub chat_completion :
      (String → ProviderContext → OpenAiData ChatCompletionRequest → HttpReply)
      → ChatCompletionRequest
      → ProviderContext
      → Result ChatCompletionResponse
  chat_completion post request ctx =
      answer_with "Failed to connect to OpenAI: " "OpenAI error: " (validated pydantic.as_response)
        (post (concat (base_url p) "/chat/completions") ctx (plain (chat_body request ctx)))

  unfoldable pub embeddings :
      (String → ProviderContext → OpenAiData EmbeddingsRequest → HttpReply)
      → EmbeddingsRequest
      → ProviderContext
      → Result EmbeddingsResponse
  embeddings post request ctx =
      answer_with "Failed to connect to OpenAI: " "OpenAI error: "
        (validated pydantic.as_embeddings)
        (post (concat (base_url p) "/embeddings") ctx
          (plain (record request { model = ctx.provider_model_name })))

-- What a line says: nothing to read, the end, or the text of a chunk.
pub data Said : Type 0 where
  nothing_said : Said
  said_done : Said
  said : String → Said

abbrev done_or_text : String → Said
done_or_text content = if str_eq content "[DONE]" then said_done else said content

unfoldable pub said_by : String → Said
said_by line =
    if is_empty (strip_by is_blank line)
    then nothing_said
    else if starts_with (codes line) (codes "data: ")
    then done_or_text (strip_by is_blank (drop_chars 6 line))
    else nothing_said

abbrev pub loaded : Option Json → Result Json
loaded none = raised validation_error
loaded (some value) = ok value

-- The alias of the gateway in place of the model's name, if the chunk has one.
abbrev pub patched : String → Json → Result Json
patched model value = has_key "model" value >>= λ has_model.
    (if has_model then set_item "model" (str model) value else ok value)

-- The chunk of a text; every exception on the way is passed over.
abbrev pub read_chunk : Python → Pydantic → String → String → Result ChatCompletionStreamResponse
read_chunk python pydantic model content =
    loaded (python.loads content) >>= patched model >>= validated pydantic.as_stream_response

abbrev pub as_list : {A : Type 0} → Result A → List A
as_list (ok a) = a ∷ []
as_list (raised e) = []

abbrev pub yield_before :
    List ChatCompletionStreamResponse → Yielded (Unit {0}) → Yielded (Unit {0})
yield_before chunks (later, ending) = (chunks ++ later, ending)

abbrev pub on_said : Python → Pydantic → String → Said → Yielded (Unit {0}) → Yielded (Unit {0})
on_said python pydantic model nothing_said rest = rest
on_said python pydantic model said_done rest = ([], ok tt)
on_said python pydantic model (said content) rest =
    yield_before (as_list (read_chunk python pydantic model content)) rest

abbrev pub on_lines :
    Python → Pydantic → String → List Arrived → Result (Unit {0}) → Yielded (Unit {0})
on_lines python pydantic model [] ending = ([], ending)
on_lines python pydantic model (arrived ∷ rest) ending =
    on_said python pydantic model (said_by arrived.line)
      (on_lines python pydantic model rest ending)

abbrev pub cut_off : Option Detail → Result (Unit {0})
cut_off none = ok tt
cut_off (some e) = raised (bad_gateway "Failed to connect to OpenAI stream: " e)

abbrev stream_of : Python → Pydantic → String → HttpStream → Yielded (Unit {0})
stream_of python pydantic model (unreachable_stream e) = ([], cut_off (some e))
stream_of python pydantic model (opened code body lines cut) =
    if code == 200
    then on_lines python pydantic model lines (cut_off cut)
    else ([], raised (upstream_error code "OpenAI streaming error: " body))

abbrev pub streaming : ChatCompletionRequest → ProviderContext → OpenAiData ChatCompletionRequest
streaming request ctx = record {
  body = record request { model = ctx.provider_model_name; stream = true };
  include_usage = true;
}

unfoldable pub chat_completion_stream :
    Provider
    → Python
    → Pydantic
    → (String → ProviderContext → OpenAiData ChatCompletionRequest → HttpStream)
    → ChatCompletionRequest
    → ProviderContext
    → Yielded (Unit {0})
chat_completion_stream p python pydantic send request ctx =
    stream_of python pydantic request.model
      (send (concat (base_url p) "/chat/completions") ctx (streaming request ctx))
