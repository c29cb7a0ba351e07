-- ===== src/Providers/OpenAi/Stream.antt =====
-- app/providers/openai.py: what of a streamed body reaches the client.
use cortex_cloud_api.Prelude.{
  String, Bool, true, false, Option, List, [], ◌∷◌, ◌++◌, ◌≡◌, refl, ap, ◌∙◌,
}
use cortex_cloud_api.Prelude.Text.{concat}
use cortex_cloud_api.Effects.{Detail, Result, ok}
use cortex_cloud_api.Providers.{Python, Arrived, HttpStream, opened}
use cortex_cloud_api.Providers.OpenAi.{
  Pydantic, OpenAiData, Said, nothing_said, said_done, said, said_by, read_chunk, as_list, on_said,
  on_lines, base_url, streaming, cut_off, chat_completion_stream,
}
use cortex_cloud_api.Routing.{Provider, ProviderContext}
use cortex_cloud_api.Schemas.{ChatCompletionRequest, ChatCompletionStreamResponse}

-- The lines before the one that says that the stream is done, and whether there is one.
abbrev before : Said → Arrived → List Arrived × Bool → List Arrived × Bool
before said_done arrived rest = ([], true)
before nothing_said arrived (lines, done) = (arrived ∷ lines, done)
before (said content) arrived (lines, done) = (arrived ∷ lines, done)

abbrev pub before_done : List Arrived → List Arrived × Bool
before_done [] = ([], false)
before_done (arrived ∷ rest) = before (said_by arrived.line) arrived (before_done rest)

abbrev pub ended_by : Bool → Result (Unit {0}) → Result (Unit {0})
ended_by true ending = ok tt
ended_by false ending = ending

module _ (python : Python) (pydantic : Pydantic) (model : String) where
  abbrev pub chunks_of : Said → List ChatCompletionStreamResponse
  chunks_of (said content) = as_list (read_chunk python pydantic model content)
  chunks_of nothing_said = []
  chunks_of said_done = []

  -- The chunks that the lines hold, each read by itself.
  abbrev pub all_chunks : List Arrived → List ChatCompletionStreamResponse
  all_chunks [] = []
  all_chunks (arrived ∷ rest) = chunks_of (said_by arrived.line) ++ all_chunks rest

  step-all_chunks :
      (arrived : Arrived) (s : Said) (rest : List Arrived) (ending : Result (Unit {0}))
      → said_by arrived.line ≡ s
      → on_said python pydantic model s
          (all_chunks (before_done rest).0, ended_by (before_done rest).1 ending)
        ≡ (
          all_chunks (before s arrived (before_done rest)).0,
          ended_by (before s arrived (before_done rest)).1 ending,
        )
  step-all_chunks arrived nothing_said rest ending h = rw h refl
  step-all_chunks arrived said_done rest ending h = refl
  step-all_chunks arrived (said content) rest ending h = rw h refl

  on_lines-all_chunks :
      (lines : List Arrived) (ending : Result (Unit {0}))
      → on_lines python pydantic model lines ending
        ≡ (all_chunks (before_done lines).0, ended_by (before_done lines).1 ending)
  on_lines-all_chunks [] ending = refl
  on_lines-all_chunks (arrived ∷ rest) ending =
      ap (on_said python pydantic model (said_by arrived.line)) (on_lines-all_chunks rest ending)
      ∙ step-all_chunks arrived (said_by arrived.line) rest ending refl

-- A stream that is answered with status 200 gives the client, for each line before the mark of its end,
-- the chunk that the line holds, if it holds one, in the order of the lines, and nothing of what comes
-- after the mark; and where there is a mark, it ends without an exception, even if the connection is
-- cut off later, and else as the connection does.
pub chat_completion_stream_lem :
    (p : Provider) (python : Python) (pydantic : Pydantic)
    (send : String → ProviderContext → OpenAiData ChatCompletionRequest → HttpStream)
    (request : ChatCompletionRequest) (ctx : ProviderContext) (body : String) (lines : List Arrived)
    (cut : Option Detail)
    → send (concat (base_url p) "/chat/completions") ctx (streaming request ctx)
      ≡ opened 200 body lines cut
    → chat_completion_stream p python pydantic send request ctx ≡ (
      all_chunks python pydantic request.model (before_done lines).0,
      ended_by (before_done lines).1 (cut_off cut),
    )
unfolding chat_completion_stream
chat_completion_stream_lem p python pydantic send request ctx body lines cut h =
    rw h (on_lines-all_chunks python pydantic request.model lines (cut_off cut))
