-- ===== src/Providers/Gemini/Guarantees.antt =====
-- app/providers/gemini.py and app/api/v1/completions.py: what a client sees of a stream of Gemini's
-- that has no line of JSON, and what it is billed for.
use cortex_cloud_api.Prelude.{ℕ, ◌-◌, String, Option, none, some, List, [], ◌∷◌, ◌≡◌, refl, All}
use cortex_cloud_api.Prelude.Int.{pos, ◌+ℤ◌}
use cortex_cloud_api.Prelude.Text.{concat}
use cortex_cloud_api.Effects.{ok}
use cortex_cloud_api.Completions.{usage_of}
use cortex_cloud_api.Completions
use cortex_cloud_api.Tokenizer.{Tiktoken}
use cortex_cloud_api.Completions.Streams.{billed}
use cortex_cloud_api.Providers.{Python, Arrived, HttpStream, opened}
use cortex_cloud_api.Providers.Gemini.Request.{GeminiData, translate_request}
use cortex_cloud_api.Providers.Gemini.Stream.{
  Times, Reading, initial, data_of, on_lines, usage_chunk, on_text_of, chat_completion_stream,
}
use cortex_cloud_api.Providers.View.{nothing, read_chunks}
use cortex_cloud_api.Routing.{ProviderContext}
use cortex_cloud_api.Schemas.{ChatCompletionRequest}

-- A line that the stream passes over: it has no text to parse, or none that is JSON.
abbrev IsSkipped : Python → Option String → Type 0
IsSkipped python none = Unit
IsSkipped python (some text) = python.loads text ≡ none

abbrev pub IsUnparsed : Python → Arrived → Type 0
IsUnparsed python arrived = IsSkipped python (data_of arrived.line)

on_text_of-unparsed :
    (python : Python) (hex : ℕ → String) (msg_id model : String) (now : ℕ) (o : Option String)
    (s : Reading)
    → IsSkipped python o
    → on_text_of python hex msg_id model now o s ≡ ([], ok s)
on_text_of-unparsed python hex msg_id model now none s h = refl
on_text_of-unparsed python hex msg_id model now (some text) s h = rw h refl

on_lines-unparsed :
    (python : Python) (hex : ℕ → String) (msg_id model : String) (lines : List Arrived) (now : ℕ)
    (s : Reading)
    → All (IsUnparsed python) lines
    → on_lines python hex msg_id model lines now none s ≡ usage_chunk python hex msg_id model now s
on_lines-unparsed python hex msg_id model [] now s h = refl
on_lines-unparsed python hex msg_id model (arrived ∷ rest) now s (h, hs) =
    rw (on_text_of-unparsed python hex msg_id model arrived.at (data_of arrived.line) s h)
      (on_lines-unparsed python hex msg_id model rest now s hs)

module _ (python : Python) (send : ProviderContext → GeminiData → HttpStream) (hex : ℕ → String)
    (fresh : String) (times : Times) (request : ChatCompletionRequest) (ctx : ProviderContext)
    (tiktoken : Tiktoken) (call : Completions.Call) (routed_model_name : String) (took : ℕ) where
  -- If no line of an answer with status 200 is JSON by itself, the client is shown no text, the
  -- generator ends without an exception, and the stream is billed for no tokens, whatever was counted
  -- of the prompt: the usage that the provider reports is nought, so nothing is estimated.
  pub unparsed_stream_free :
      (message : GeminiData) (body : String) (lines : List Arrived) (prompt now : ℕ)
      → translate_request python request ≡ ok message
      → send ctx message ≡ opened 200 body lines none
      → All (IsUnparsed python) lines
      → let streamed = chat_completion_stream python send hex fresh times request ctx in
        ((read_chunks streamed.0 nothing).text ≡ "")
        × (streamed.1 ≡ ok tt)
        × (billed tiktoken call request routed_model_name
              (record { chunks = streamed.0; failure = none; took = took })
              prompt
              now
            ≡ usage_of call routed_model_name (pos 0) (pos 0) (now - call.start_time) 200 none)
  unfolding chat_completion_stream ◌+ℤ◌
  unparsed_stream_free message body lines prompt now e f h = rw e (
      rw f (
        rw
          (on_lines-unparsed python hex (concat "chatcmpl-" fresh) request.model lines times.ended
            initial h)
          (refl, refl, refl)))
