-- ===== src/Completions/Losses.antt =====
-- Streams that are served and not billed, and streams that are not served.
use cortex_cloud_api.Prelude.{
  ℕ, ◌≡◌, refl, ap, ◌∙◌, String, Bool, true, false, Option, none, some, List, [], ◌∷◌, ◌++◌, inl,
  inr, any, arith, Bool-cases,
}
use cortex_cloud_api.Prelude.Text.{is_empty}
use cortex_cloud_api.Effects.{Exn, Result, ok, raised}
use cortex_cloud_api.Effects.After.{After, After-weaken}
use cortex_cloud_api.Database.{UsageLog, World}
use cortex_cloud_api.Database.Rules.{Unchanged}
use cortex_cloud_api.Schemas.{
  ChatCompletionRequest, ChatCompletionMessage, Content, absent, text, parts, UsageInfo,
}
use cortex_cloud_api.Tokenizer.{
  Tiktoken, count_messages_tokens, count_content, count_message, count_from, add, sum, no_get,
}
use cortex_cloud_api.Usage.{Usage, record_usage}
use cortex_cloud_api.Usage.Uuid.{uuid_of}
use cortex_cloud_api.Usage.Charging.{Recorded, record_usage-After}
use cortex_cloud_api.Completions.{Call}
use cortex_cloud_api.Completions.Streams.{
  Produced, Streamed, Line, done, in_session, billed, failed_usage, delivered, failed_end, on_error,
  finished, billed_with, reported, stream_chunks, stream_counted, passed, stream_completion_wrapper,
}

-- A usage whose correlation id is no uuid is refused, and the database stays as it was.
Refused : {A : Type 0} → World → Result A × World → Type 0
Refused w r = (e : Exn) × (r.0 ≡ raised e) × (r.1.db ≡ w.db)

Refused-After :
    {A : Type 0} (w : World) (r : Result A × World) → After (λ a v. ⊥) (Unchanged w) r → Refused w r
unfolding Refused
Refused-After w (ok a, v) h = absurd h
Refused-After w (raised e, v) h = (e, refl, h)

no_uuid : {id : ℕ} (o : Option ℕ) → o ≡ none → o ≡ some id → ⊥
no_uuid none h k = cc
no_uuid (some n) h k = cc

record_usage-Refused :
    (u : Usage) (w : World) → uuid_of u.correlation_id ≡ none → Refused w (record_usage u w)
record_usage-Refused u w bad = Refused-After w (record_usage u w) (
    After-weaken (Recorded u w) (λ a v. ⊥) (Unchanged w) (Unchanged w) (record_usage u w)
      (record_usage-After u w) (λ log v r. no_uuid (uuid_of u.correlation_id) bad r.uuid)
      (λ e v h. h))

session-Refused :
    (u : Usage) (w : World)
    → uuid_of u.correlation_id ≡ none
    → Refused w (in_session (record_usage u) w)
unfolding Refused
session-Refused u w bad = record_usage-Refused u (record w { pending_rollback = false }) bad

module _ (tiktoken : Tiktoken) (call : Call) (request : ChatCompletionRequest)
    (routed_model_name : String) (produced : Produced)
    (bad : uuid_of call.correlation_id ≡ none) where
  -- All of the stream is out, the generator has raised, and nothing is written.
  abbrev pub IsUnbilled : World → Streamed → Type 0
  IsUnbilled w s =
      (s.lines ≡ delivered tiktoken call request routed_model_name produced ++ done ∷ [])
      × (s.after.db ≡ w.db)
      × ((e : Exn) × (s.ended ≡ raised e))

  failed-Unbilled :
      (w : World) (x : Exn) (r : Result UsageLog × World)
      → Refused w r
      → IsUnbilled w (
          failed_end tiktoken call request routed_model_name produced
            (delivered tiktoken call request routed_model_name produced ++ done ∷ [])
            x
            r)
  unfolding Refused
  failed-Unbilled w x (ok log, v) (e, h, k) = cc
  failed-Unbilled w x (raised y, v) (e, h, k) = (refl, k, (y, refl))

  weaken-Unbilled : (w v : World) (s : Streamed) → v.db ≡ w.db → IsUnbilled v s → IsUnbilled w s
  weaken-Unbilled w v s e (h, k, l) = (h, k ∙ e, l)

  error-Unbilled :
      (n : ℕ) (x : Exn) (w v : World)
      → v.db ≡ w.db
      → IsUnbilled w (
          on_error tiktoken call request routed_model_name produced
            (delivered tiktoken call request routed_model_name produced ++ done ∷ [])
            n
            x
            v)
  error-Unbilled n x w v e =
      weaken-Unbilled w v (on_error tiktoken call request routed_model_name produced lines n x v) e
        (failed-Unbilled v x (in_session (record_usage u) v) (session-Refused u v bad))
    where
      u : Usage
      u = failed_usage tiktoken call request routed_model_name produced n v.clock x

      lines : List Line
      lines = delivered tiktoken call request routed_model_name produced ++ done ∷ []

  finished-Unbilled :
      (n : ℕ) (w : World) (r : Result UsageLog × World)
      → Refused w r
      → IsUnbilled w (finished tiktoken call request routed_model_name produced n r)
  unfolding Refused
  finished-Unbilled n w (ok log, v) (e, h, k) = cc
  finished-Unbilled n w (raised x, v) (e, h, k) = error-Unbilled n x w v k

  billed_id :
      (o : Option UsageInfo) (n now : ℕ)
      → uuid_of
          (billed_with tiktoken call request routed_model_name produced o n now).correlation_id
        ≡ none
  billed_id none n now = bad
  billed_id (some u) n now = bad

  chunks-Unbilled :
      (n : ℕ) (failure : Option Exn) (w v : World)
      → v.db ≡ w.db
      → failure ≡ none
      → IsUnbilled w (stream_chunks tiktoken call request routed_model_name produced n failure v)
  chunks-Unbilled n (some e) w v same ends = cc
  chunks-Unbilled n none w v same ends =
      weaken-Unbilled w v (stream_chunks tiktoken call request routed_model_name produced n none v)
        same
        (finished-Unbilled n v (in_session (record_usage u) v)
          (session-Refused u v (billed_id (reported produced.chunks) n v.clock)))
    where
      u : Usage
      u = billed tiktoken call request routed_model_name produced n v.clock

  counted-Unbilled :
      (count : Result ℕ) (n : ℕ) (w : World)
      → count ≡ ok n
      → produced.failure ≡ none
      → IsUnbilled w (stream_counted tiktoken call request routed_model_name produced count w)
  counted-Unbilled (raised e) n w counts ends = cc
  counted-Unbilled (ok m) n w counts ends =
      chunks-Unbilled m produced.failure w
        (passed tiktoken call request routed_model_name produced w) refl ends

  -- When the prompt can be counted and the provider's stream ends well, but the correlation id is no
  -- uuid, the client gets every chunk and the end of the stream, the generator raises, and nothing is
  -- logged or charged.
  pub stream_completion_wrapper-IsUnbilled :
      (n : ℕ) (w : World)
      → count_messages_tokens tiktoken request.messages request.model ≡ ok n
      → produced.failure ≡ none
      → IsUnbilled w (stream_completion_wrapper tiktoken call request routed_model_name produced w)
  unfolding stream_completion_wrapper
  stream_completion_wrapper-IsUnbilled n w counts ends =
      counted-Unbilled (count_messages_tokens tiktoken request.messages request.model) n w counts
        ends

-- A message without content, as an assistant's that only calls tools.
abbrev pub is_contentless : ChatCompletionMessage → Bool
is_contentless message = elim message.content [
  | absent ↦ true
  | text s ↦ is_empty s
  | parts ps ↦ false
]

module _ (tiktoken : Tiktoken) (model : String) where
  content_uncounted :
      (c : Content)
      → (elim c [ absent ↦ true | text s ↦ is_empty s | parts ps ↦ false ]) ≡ true
      → (e : Exn) × (count_content tiktoken c model ≡ raised e)
  content_uncounted absent h = (no_get tiktoken, refl)
  content_uncounted (text s) h = (no_get tiktoken, rw h refl)
  content_uncounted (parts ps) h = cc

  IsRaised : Result ℕ → Type 0
  IsRaised r = (e : Exn) × (r ≡ raised e)

  message_uncounted :
      (m : ChatCompletionMessage)
      → is_contentless m ≡ true
      → IsRaised (count_message tiktoken m model)
  unfolding IsRaised
  message_uncounted m h = let (e, p) = content_uncounted m.content h in (e, ap (add tiktoken _) p)

  sum_left : (r rest : Result ℕ) → IsRaised r → IsRaised (sum tiktoken r rest)
  unfolding IsRaised
  sum_left (ok n) rest (e, h) = cc
  sum_left (raised x) rest h = (x, refl)

  sum_right : (r rest : Result ℕ) → IsRaised rest → IsRaised (sum tiktoken r rest)
  unfolding IsRaised
  sum_right (ok n) rest (e, h) = (e, ap (add tiktoken n) h)
  sum_right (raised x) rest h = (x, refl)

  messages_uncounted :
      (messages : List ChatCompletionMessage)
      → any is_contentless messages ≡ true
      → IsRaised (count_from tiktoken messages model)
  messages_uncounted [] h = cc
  messages_uncounted (m ∷ rest) h = elim (Bool-cases (is_contentless m)) [
    | inl bare ↦
        sum_left (count_message tiktoken m model) (count_from tiktoken rest model)
          (message_uncounted m bare)
    | inr full ↦
        sum_right (count_message tiktoken m model) (count_from tiktoken rest model)
          (messages_uncounted rest (grind (arith, full, h)))
  ]

module _ (tiktoken : Tiktoken) (call : Call) (request : ChatCompletionRequest)
    (routed_model_name : String) (produced : Produced) (w : World) where
  -- Nothing is sent, and the generator has raised.
  abbrev pub IsUnserved : Streamed → Type 0
  IsUnserved s = (s.lines ≡ []) × (s.after ≡ w) × ((e : Exn) × (s.ended ≡ raised e))

  counted-Unserved :
      (count : Result ℕ)
      → IsRaised tiktoken request.model count
      → IsUnserved (stream_counted tiktoken call request routed_model_name produced count w)
  unfolding IsRaised
  counted-Unserved (ok n) (e, h) = cc
  counted-Unserved (raised x) h = (refl, refl, (x, refl))

  -- When any message has no content, as an assistant's that only calls tools, the client of a stream
  -- gets nothing, not even an error: the generator raises before the first chunk.
  pub contentless_stream :
      any is_contentless request.messages ≡ true
      → IsUnserved (stream_completion_wrapper tiktoken call request routed_model_name produced w)
  unfolding stream_completion_wrapper count_messages_tokens
  contentless_stream h =
      counted-Unserved (count_from tiktoken request.messages request.model)
        (messages_uncounted tiktoken request.model request.messages h)
