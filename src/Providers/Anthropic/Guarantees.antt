-- ===== src/Providers/Anthropic/Guarantees.antt =====
-- app/providers/anthropic.py and app/api/v1/completions.py: what a client sees of a stream of
-- Anthropic's, and what it is billed for.
use cortex_cloud_api.Prelude.{String, Option, none, some, List, [], ◌∷◌, ◌≡◌, refl, ap, ◌∙◌, All}
use cortex_cloud_api.Prelude.Int.{ℤ, pos, ◌+ℤ◌}
use cortex_cloud_api.Effects.{Detail, ok}
use cortex_cloud_api.Completions.Streams.{reported}
use cortex_cloud_api.Providers.{Python, HttpStream, opened}
use cortex_cloud_api.Providers.Billing.{reported-read_chunks}
use cortex_cloud_api.Providers.View.{View, nothing, read_chunks}
use cortex_cloud_api.Providers.Anthropic.Events.{
  Event, message_start, text_start, tool_start, text_delta, json_delta, block_stop, message_delta,
  message_stop, ping, Message, read_event, Sent, IsFaithful, lines_of, read_events, unsent,
}
use cortex_cloud_api.Providers.Anthropic.Refinement.{on_lines-Shows}
use cortex_cloud_api.Providers.Anthropic.Request.{AnthropicData, translate_request}
use cortex_cloud_api.Providers.Anthropic.Stream.{chat_completion_stream, ending_of}
use cortex_cloud_api.Routing.{ProviderContext}
use cortex_cloud_api.Schemas.{ChatCompletionRequest, UsageInfo}

-- What the events report of the tokens, read without the rest of the message.
abbrev usage_after : Event → ℤ → Option UsageInfo → Option UsageInfo
usage_after (message_delta reason output) prompt old =
    some
      record { prompt_tokens = prompt; completion_tokens = output; total_tokens = prompt +ℤ output }
usage_after _ prompt old = old

abbrev prompt_after : Event → ℤ → ℤ
prompt_after (message_start id input) prompt = input
prompt_after _ prompt = prompt

abbrev pub last_usage : List Sent → ℤ → Option UsageInfo → Option UsageInfo
last_usage [] prompt old = old
last_usage (sent ∷ rest) prompt old =
    last_usage rest (prompt_after sent.event prompt) (usage_after sent.event prompt old)

read_event-usage :
    (e : Event) (m : Message) → (read_event e m).view.usage ≡ usage_after e m.prompt m.view.usage
read_event-usage (message_start id input) m = refl
read_event-usage (text_start i) m = refl
read_event-usage (tool_start i id name) m = refl
read_event-usage (text_delta i s) m = refl
read_event-usage (json_delta i s) m = refl
read_event-usage (block_stop i) m = refl
read_event-usage (message_delta reason output) m = refl
read_event-usage message_stop m = refl
read_event-usage ping m = refl

read_event-prompt : (e : Event) (m : Message) → (read_event e m).prompt ≡ prompt_after e m.prompt
read_event-prompt (message_start id input) m = refl
read_event-prompt (text_start i) m = refl
read_event-prompt (tool_start i id name) m = refl
read_event-prompt (text_delta i s) m = refl
read_event-prompt (json_delta i s) m = refl
read_event-prompt (block_stop i) m = refl
read_event-prompt (message_delta reason output) m = refl
read_event-prompt message_stop m = refl
read_event-prompt ping m = refl

read_events-last_usage :
    (sent : List Sent) (m : Message)
    → (read_events sent m).view.usage ≡ last_usage sent m.prompt m.view.usage
read_events-last_usage [] m = refl
read_events-last_usage (sent ∷ rest) m =
    rw (← read_event-usage sent.event m, ← read_event-prompt sent.event m)
      (read_events-last_usage rest (read_event sent.event m))

module _ (python : Python) (send : ProviderContext → AnthropicData → HttpStream) (fresh : String)
    (request : ChatCompletionRequest) (ctx : ProviderContext) where
  -- If the request can be translated, and the upstream answers it with status 200 and the lines of
  -- some events of the Messages API, then a client that reads the chunks has at the end the text,
  -- the tool calls with their arguments, the reason and the usage that the events make up; and the
  -- generator ends as the connection does.
  pub anthropic_stream_refines :
      (message : AnthropicData) (body : String) (sent : List Sent) (cut : Option Detail)
      → translate_request python request ctx.provider_model_name ≡ ok message
      → send ctx message ≡ opened 200 body (lines_of sent) cut
      → All (IsFaithful python) sent
      → ((chat_completion_stream python send fresh request ctx).1
          ≡ ending_of "Failed to connect to Anthropic stream: " cut)
        × (read_chunks (chat_completion_stream python send fresh request ctx).0 nothing
            ≡ (read_events sent (unsent fresh)).view)
  unfolding chat_completion_stream
  anthropic_stream_refines message body sent cut e f h = rw e (
      rw f (
        on_lines-Shows request.model python sent
          (ending_of "Failed to connect to Anthropic stream: " cut) "" (unsent fresh) h))

  -- Under the same conditions, the usage that the gateway bills the stream by is the last that
  -- Anthropic reported: the input tokens of the message_start before it, the output tokens of the
  -- message_delta, and their sum; and nothing is reported if no message_delta arrived.
  pub reported_usage_lem :
      (message : AnthropicData) (body : String) (sent : List Sent) (cut : Option Detail)
      → translate_request python request ctx.provider_model_name ≡ ok message
      → send ctx message ≡ opened 200 body (lines_of sent) cut
      → All (IsFaithful python) sent
      → reported (chat_completion_stream python send fresh request ctx).0
        ≡ last_usage sent (pos 0) none
  reported_usage_lem message body sent cut e f h =
      reported-read_chunks (chat_completion_stream python send fresh request ctx).0
      ∙ ap View.usage (anthropic_stream_refines message body sent cut e f h).1
      ∙ read_events-last_usage sent (unsent fresh)
