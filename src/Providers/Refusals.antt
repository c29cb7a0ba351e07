-- ===== src/Providers/Refusals.antt =====
-- app/routing/router.py and app/providers: how an upstream's refusal of a completion comes back.
use cortex_cloud_api.Prelude.{
  ℕ, suc, ◌+◌, ◌≡◌, refl, ap, ◌∙◌, String, false, Option, none, some, ◌==◌,
}
use cortex_cloud_api.Effects.{
  Exn, Result, ok, raised, Exec, raise, or_raise, bind-ok, ◌>>=◌ as ◌and_then◌,
}
use cortex_cloud_api.Effects.Results.{map_result, ◌>>=◌}
use cortex_cloud_api.Json.{Json}
use cortex_cloud_api.Database.{ModelRegistry, World}
use cortex_cloud_api.Prelude.Text.{concat}
use cortex_cloud_api.Providers.{Python, HttpReply, replied, answer_with, upstream_error}
use cortex_cloud_api.Providers.Anthropic.Reply as AnthropicReply
use cortex_cloud_api.Providers.Anthropic.Request as AnthropicRequest
use cortex_cloud_api.Providers.Gateway
use cortex_cloud_api.Providers.Gateway.{Upstreams, answer_chat}
use cortex_cloud_api.Providers.Gemini.Reply as GeminiReply
use cortex_cloud_api.Providers.Gemini.Request as GeminiRequest
use cortex_cloud_api.Providers.OpenAi
use cortex_cloud_api.Providers.OpenAi.{Pydantic, plain, chat_body, base_url}
use cortex_cloud_api.Routing.{
  Provider, openai, anthropic, gemini, groq, nvidia, ProviderContext, ProviderKeys, provider_map,
  truthy, unsupported, unconfigured, get_provider, get_provider_api_key, is_retryable, is_transient,
  as_http, execute_with_retry,
}
use cortex_cloud_api.Routing.Retry.{retry_from_raise}
use cortex_cloud_api.Routing.Routes.{call_provider, execute_request}
use cortex_cloud_api.Schemas.{ChatCompletionRequest, ChatCompletionResponse}

-- What the upstream of a provider replies to the request, if that can be translated.
abbrev pub reply_to :
    Python → Upstreams → ℕ → Provider → ProviderContext → ChatCompletionRequest → Result HttpReply
reply_to python up n anthropic ctx request =
    map_result (up.anthropic_messages n ctx)
      (AnthropicRequest.translate_request python request ctx.provider_model_name)
reply_to python up n gemini ctx request =
    map_result (up.gemini_generate n ctx) (GeminiRequest.translate_request python request)
reply_to python up n p ctx request =
    ok (
      up.openai_chat n (concat (base_url p) "/chat/completions") ctx
        (plain (chat_body request ctx)))

abbrev pub error_prefix : Provider → String
error_prefix anthropic = "Anthropic error: "
error_prefix gemini = "Gemini error: "
error_prefix _ = "OpenAI error: "

answer_with_refusal :
    {A : Type 0} (connect error : String) (translate : Json → Result A) (code : ℕ) (body : String)
    (value : Option Json)
    → (code == 200) ≡ false
    → answer_with connect error translate (replied code body value)
      ≡ raised (upstream_error code error body)
answer_with_refusal connect error translate code body value h = rw h refl

sent_refusal :
    {S A : Type 0} (post : S → HttpReply) (connect error : String) (translate : Json → Result A)
    (code : ℕ) (body : String) (value : Option Json) (r : Result S)
    → map_result post r ≡ ok (replied code body value)
    → (code == 200) ≡ false
    → (r >>= λ sent. answer_with connect error translate (post sent))
      ≡ raised (upstream_error code error body)
sent_refusal post connect error translate code body value (ok s) e h =
    let same : post s ≡ replied code body value = cc in
    rw same (answer_with_refusal connect error translate code body value h)
sent_refusal post connect error translate code body value (raised x) e h = cc

module _ (python : Python) (pydantic : Pydantic) (up : Upstreams) where
  chat_completion_refusal :
      (n : ℕ) (p : Provider) (ctx : ProviderContext) (request : ChatCompletionRequest) (code : ℕ)
      (body : String) (value : Option Json)
      → reply_to python up n p ctx request ≡ ok (replied code body value)
      → (code == 200) ≡ false
      → Gateway.chat_completion python pydantic up n p ctx request
        ≡ raised (upstream_error code (error_prefix p) body)
  unfolding Gateway.chat_completion AnthropicReply.chat_completion GeminiReply.chat_completion
      OpenAi.chat_completion
  chat_completion_refusal n anthropic ctx request code body value e h =
      sent_refusal (up.anthropic_messages n ctx) "Failed to connect to Anthropic: "
        "Anthropic error: " _ code body value
        (AnthropicRequest.translate_request python request ctx.provider_model_name) e h
  chat_completion_refusal n gemini ctx request code body value e h =
      sent_refusal (up.gemini_generate n ctx) "Failed to connect to Gemini: " "Gemini error: " _
        code body value (GeminiRequest.translate_request python request) e h
  chat_completion_refusal n openai ctx request code body value e h =
      sent_refusal (up.openai_chat n (concat (base_url openai) "/chat/completions") ctx)
        "Failed to connect to OpenAI: " "OpenAI error: " (OpenAi.validated pydantic.as_response)
        code body value (ok (plain (chat_body request ctx))) e h
  chat_completion_refusal n groq ctx request code body value e h =
      sent_refusal (up.openai_chat n (concat (base_url groq) "/chat/completions") ctx)
        "Failed to connect to OpenAI: " "OpenAI error: " (OpenAi.validated pydantic.as_response)
        code body value (ok (plain (chat_body request ctx))) e h
  chat_completion_refusal n nvidia ctx request code body value e h =
      sent_refusal (up.openai_chat n (concat (base_url nvidia) "/chat/completions") ctx)
        "Failed to connect to OpenAI: " "OpenAI error: " (OpenAi.validated pydantic.as_response)
        code body value (ok (plain (chat_body request ctx))) e h

module _ (python : Python) (pydantic : Pydantic) (up : Upstreams) (keys : ProviderKeys)
    (correlation_id : String) (request : ChatCompletionRequest) (model : ModelRegistry)
    (provider : Provider) (api_key : String) where
  abbrev attempt : Exec World ChatCompletionResponse
  attempt = execute_request keys (answer_chat python pydantic up) correlation_id request model

  abbrev context : ProviderContext
  context = record {
    api_key = api_key;
    provider_model_name = model.provider_model_name;
    correlation_id = correlation_id;
  }

  abbrev called : World → World
  called w = record w { calls = suc w.calls; clock = w.clock + up.took w.calls }

  abbrev calling : Provider → String → Exec World ChatCompletionResponse
  calling p key = call_provider λ n.
      answer_chat python pydantic up n p
        (record {
          api_key = key;
          provider_model_name = model.provider_model_name;
          correlation_id = correlation_id;
        })
        request

  provider_found :
      (w : World)
      → provider_map model.provider ≡ some provider
      → get_provider model.provider w ≡ (ok provider, w)
  unfolding get_provider
  provider_found w known = ap (λ o. or_raise o (unsupported model.provider) w) known

  key_found :
      (w : World)
      → provider_map model.provider ≡ some provider
      → truthy (keys provider) ≡ some api_key
      → get_provider_api_key keys model.provider w ≡ (ok api_key, w)
  unfolding get_provider_api_key
  key_found w known set =
      ap
        (λ o.
          (elim o as (λ x. Exec World String) [
            | none ↦ raise (unconfigured model.provider)
            | some p ↦ or_raise (truthy (keys p)) (unconfigured model.provider)
          ])
            w)
        known
      ∙ ap (λ o. or_raise o (unconfigured model.provider) w) set

  attempt_calls :
      (w : World)
      → provider_map model.provider ≡ some provider
      → truthy (keys provider) ≡ some api_key
      → attempt w
        ≡ (Gateway.chat_completion python pydantic up w.calls provider context request, called w)
  unfolding execute_request
  attempt_calls w known set =
      bind-ok (get_provider model.provider)
        (λ p. get_provider_api_key keys model.provider and_then calling p) w
        (provider_found w known)
      ∙ bind-ok (get_provider_api_key keys model.provider) (calling provider) w
          (key_found w known set)

  refusal_raised :
      (w : World) (x : Exn)
      → (attempt w).0 ≡ raised x
      → is_transient x ≡ false
      → execute_with_retry attempt w ≡ (raised (as_http x), (attempt w).1)
  unfolding execute_with_retry
  refusal_raised w x e t = rw (retry_from_raise attempt 3 2 0 none w x e (rw t refl)) refl

  -- A completion that the upstream of a configured provider refuses with a status code that is not to
  -- be tried again comes back as that code with the upstream's text, after one call and without a
  -- pause, whichever the provider is.
  pub refused_once :
      (w : World) (code : ℕ) (body : String) (value : Option Json)
      → provider_map model.provider ≡ some provider
      → truthy (keys provider) ≡ some api_key
      → reply_to python up w.calls provider context request ≡ ok (replied code body value)
      → (code == 200) ≡ false
      → is_retryable code ≡ false
      → execute_with_retry attempt w
        ≡ (raised (upstream_error code (error_prefix provider) body), called w)
  refused_once w code body value known set e h t =
      let ran = attempt_calls w known set in
      let refused =
        chat_completion_refusal python pydantic up w.calls provider context request code body value
          e h in
      refusal_raised w (upstream_error code (error_prefix provider) body)
        (ap (λ r. r.0) ran ∙ refused) t
      ∙ ap (λ v. (raised (upstream_error code (error_prefix provider) body), v)) (ap (λ r. r.1) ran)
