-- ===== src/Completions/Streams.antt =====
-- app/api/v1/completions.py: the wrapper around a provider's stream. What a provider's generator
-- yields is a parameter: its chunks, the exception that ends it, if one does, and the time it takes.
use cortex_cloud_api.Prelude.{
  ℕ, ◌+◌, ◌-◌, String, false, Option, none, some, List, [], ◌∷◌, ◌++◌, map,
}
use cortex_cloud_api.Prelude.Int.{pos}
use cortex_cloud_api.Prelude.Text.{concat}
use cortex_cloud_api.Effects.{Detail, wrapped, Exn, str_exn, Result, ok, raised, Exec}
use cortex_cloud_api.Database.{UsageLog, Db, World}
use cortex_cloud_api.Database.Keeps.{Keeps}
use cortex_cloud_api.Schemas.{ChatCompletionRequest, ChatCompletionStreamResponse, UsageInfo}
use cortex_cloud_api.Tokenizer.{Tiktoken, count_tokens, count_messages_tokens}
use cortex_cloud_api.Usage.{Usage, record_usage}
use cortex_cloud_api.Usage.Ledger.{IsBalanced}
use cortex_cloud_api.Usage.Guarantees.{record_usage-IsBalanced}
use cortex_cloud_api.Completions.{Call, usage_of}

pub record Produced : Type 0 where
  pub chunks : List ChatCompletionStreamResponse
  pub failure : Option Exn
  pub took : ℕ

-- A line of the event stream.
pub data Line : Type 0 where
  chunk : ChatCompletionStreamResponse → Line
  done : Line
  error : Detail → Line

-- What the client has got, how the generator ended, and the world it left.
pub record Streamed : Type 0 where
  pub lines : List Line
  pub ended : Result (Unit {0})
  pub after : World

-- `async with AsyncSessionLocal() as db`: a session of its own, without the state of the request's.
abbrev pub own_session : {A : Type 0} → World → Result A × World → Result A × World
own_session w (r, v) = (r, record v { pending_rollback = w.pending_rollback })

abbrev pub in_session : {A : Type 0} → Exec World A → Exec World A
in_session m w = own_session w (m (record w { pending_rollback = false }))

abbrev delta_text : ChatCompletionStreamResponse → String
delta_text c = elim c.choices [
  | [] ↦ ""
  | choice ∷ rest ↦ elim choice.delta.content [ none ↦ "" | some s ↦ s ]
]

abbrev accumulated : List ChatCompletionStreamResponse → String
accumulated [] = ""
accumulated (c ∷ rest) = concat (delta_text c) (accumulated rest)

-- The usage of the last chunk that reports one.
abbrev pub reported : List ChatCompletionStreamResponse → Option UsageInfo
reported [] = none
reported (c ∷ rest) = elim (reported rest) [ some u ↦ some u | none ↦ c.usage ]

module _ (tiktoken : Tiktoken) (call : Call) (request : ChatCompletionRequest)
    (routed_model_name : String) (produced : Produced) where
  abbrev pub billed_with : Option UsageInfo → ℕ → ℕ → Usage
  billed_with (some u) prompt_tokens now =
      usage_of call routed_model_name u.prompt_tokens u.completion_tokens (now - call.start_time)
        200 none
  billed_with none prompt_tokens now =
      usage_of call routed_model_name (pos prompt_tokens)
        (pos (count_tokens tiktoken (accumulated produced.chunks) routed_model_name))
        (now - call.start_time) 200 none

  abbrev pub billed : ℕ → ℕ → Usage
  billed = billed_with (reported produced.chunks)

  abbrev pub failed_usage : ℕ → ℕ → Exn → Usage
  failed_usage prompt_tokens now e =
      usage_of call routed_model_name (pos prompt_tokens) (pos 0) (now - call.start_time) 500
        (some (str_exn e))

  abbrev pub delivered : List Line
  delivered = map chunk produced.chunks

  -- `except Exception as e`, once `lines` are out.
  abbrev pub failed_end : List Line → Exn → Result UsageLog × World → Streamed
  failed_end lines e (ok log, v) = record {
    lines = lines ++ error (wrapped "Gateway error: " (str_exn e)) ∷ done ∷ [];
    ended = ok tt;
    after = v;
  }
  failed_end lines e (raised x, v) = record { lines = lines; ended = raised x; after = v }

  abbrev pub on_error : List Line → ℕ → Exn → World → Streamed
  on_error lines prompt_tokens e w =
      failed_end lines e (in_session (record_usage (failed_usage prompt_tokens w.clock e)) w)

  abbrev pub finished : ℕ → Result UsageLog × World → Streamed
  finished prompt_tokens (ok log, v) = record {
    lines = delivered ++ done ∷ [];
    ended = ok tt;
    after = v;
  }
  finished prompt_tokens (raised e, v) = on_error (delivered ++ done ∷ []) prompt_tokens e v

  abbrev pub stream_chunks : ℕ → Option Exn → World → Streamed
  stream_chunks prompt_tokens (some e) w = on_error delivered prompt_tokens e w
  stream_chunks prompt_tokens none w =
      finished prompt_tokens (in_session (record_usage (billed prompt_tokens w.clock)) w)

  abbrev pub passed : World → World
  passed w = record w { clock = w.clock + produced.took }

  -- The prompt is counted before the first chunk, outside the `try`.
  abbrev pub stream_counted : Result ℕ → World → Streamed
  stream_counted (raised e) w = record { lines = []; ended = raised e; after = w }
  stream_counted (ok prompt_tokens) w = stream_chunks prompt_tokens produced.failure (passed w)

  unfoldable pub stream_completion_wrapper : World → Streamed
  stream_completion_wrapper w =
      stream_counted (count_messages_tokens tiktoken request.messages request.model) w

  -- What `record_usage` keeps of the database, a stream keeps.
  module _ (P : Db → Type 0) (keeps : (u : Usage) → Keeps P (record_usage u)) where
    session-Keeps : (u : Usage) → Keeps P (in_session (record_usage u))
    session-Keeps u w h = keeps u (record w { pending_rollback = false }) h

    failed_end_keeps :
        (lines : List Line) (e : Exn) (r : Result UsageLog × World)
        → P r.1.db
        → P (failed_end lines e r).after.db
    failed_end_keeps lines e (ok log, v) h = h
    failed_end_keeps lines e (raised x, v) h = h

    on_error_keeps :
        (lines : List Line) (n : ℕ) (e : Exn) (w : World)
        → P w.db
        → P (on_error lines n e w).after.db
    on_error_keeps lines n e w h =
        failed_end_keeps lines e (in_session (record_usage (failed_usage n w.clock e)) w)
          (session-Keeps (failed_usage n w.clock e) w h)

    finished_keeps : (n : ℕ) (r : Result UsageLog × World) → P r.1.db → P (finished n r).after.db
    finished_keeps n (ok log, v) h = h
    finished_keeps n (raised e, v) h = on_error_keeps (delivered ++ done ∷ []) n e v h

    chunks_keep :
        (n : ℕ) (failure : Option Exn) (w : World) → P w.db → P (stream_chunks n failure w).after.db
    chunks_keep n (some e) w h = on_error_keeps delivered n e w h
    chunks_keep n none w h =
        finished_keeps n (in_session (record_usage (billed n w.clock)) w)
          (session-Keeps (billed n w.clock) w h)

    counted_keeps : (count : Result ℕ) (w : World) → P w.db → P (stream_counted count w).after.db
    counted_keeps (raised e) w h = h
    counted_keeps (ok n) w h = chunks_keep n produced.failure (passed w) h

    pub stream_completion_wrapper_keeps :
        (w : World) → P w.db → P (stream_completion_wrapper w).after.db
    unfolding stream_completion_wrapper
    stream_completion_wrapper_keeps w h =
        counted_keeps (count_messages_tokens tiktoken request.messages request.model) w h

  -- However a stream ends, every balance stays equal to the sum of its account's transactions.
  pub stream_completion_wrapper-IsBalanced :
      (w : World) → IsBalanced w.db → IsBalanced (stream_completion_wrapper w).after.db
  stream_completion_wrapper-IsBalanced =
      stream_completion_wrapper_keeps IsBalanced record_usage-IsBalanced
