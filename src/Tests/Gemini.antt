-- ===== src/Tests/Gemini.antt =====
-- Streams of Gemini's.
use cortex_cloud_api.Prelude.{ℕ, ◌-◌, String, none, List, [], ◌∷◌, ◌≡◌, refl}
use cortex_cloud_api.Prelude.Int.{pos}
use cortex_cloud_api.Effects.{ok}
use cortex_cloud_api.Completions.{usage_of}
use cortex_cloud_api.Completions.Streams.{billed}
use cortex_cloud_api.Json.{object_of, str}
use cortex_cloud_api.Providers.{Python, Arrived, HttpStream, opened}
use cortex_cloud_api.Providers.Gemini.Guarantees.{unparsed_stream_free}
use cortex_cloud_api.Providers.Gemini.Request.{GeminiData, from_user, translate_request}
use cortex_cloud_api.Providers.Gemini.Stream.{Times, chat_completion_stream}
use cortex_cloud_api.Providers.View.{nothing, read_chunks}
use cortex_cloud_api.Routing.{ProviderContext}
use cortex_cloud_api.Schemas.{ChatCompletionRequest, text}
use cortex_cloud_api.Tests.Completed.{ask, call, tiktoken}
use cortex_cloud_api.Tests.Upstream.{ctx}

abbrev python : Python
python = record { loads = λ s. none; dumps = λ value. "{}"; str_of = λ value. "[]" }

abbrev hex : ℕ → String
hex n = "0"

abbrev times : Times
times = record { begun = 0; ended = 3 }

abbrev asked : ChatCompletionRequest
asked = ask (text "hi")

abbrev asked_contents : GeminiData
asked_contents = record {
  generation_config = none;
  contents = record { role = from_user; parts = object_of (("text", str "hi") ∷ []) ∷ [] } ∷ [];
  system_instruction = none;
  function_declarations = none;
}

asked_translated : translate_request python asked ≡ ok asked_contents
unfolding translate_request
asked_translated = refl

-- An array over several lines, which are no JSON one by one.
abbrev array_lines : List Arrived
array_lines =
    record { line = "[{"; at = 1 }
    ∷ record { line = "  \"candidates\": []"; at = 1 }
    ∷ record { line = "}"; at = 2 }
    ∷ record { line = "]"; at = 2 }
    ∷ []

abbrev send_array : ProviderContext → GeminiData → HttpStream
send_array context body = opened 200 "" array_lines none

unparsed_stream_free_example :
    let streamed = chat_completion_stream python send_array hex "0" times asked ctx in
    ((read_chunks streamed.0 nothing).text ≡ "")
    × (streamed.1 ≡ ok tt)
    × (billed tiktoken call asked "gemini-pro"
          (record { chunks = streamed.0; failure = none; took = 3 })
          7
          5000
        ≡ usage_of call "gemini-pro" (pos 0) (pos 0) (5000 - call.start_time) 200 none)
unparsed_stream_free_example =
    unparsed_stream_free python send_array hex "0" times asked ctx tiktoken call "gemini-pro" 3
      asked_contents "" array_lines 7 5000 asked_translated refl (refl, (refl, (refl, (refl, tt))))
