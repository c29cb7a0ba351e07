-- ===== src/Providers/Gateway.antt =====
-- app/routing/router.py and app/providers: the providers behind the routing. The upstreams, the ids
-- and the times are parameters; an upstream is asked for the n-th time.
use cortex_cloud_api.Prelude.{ℕ, String}
use cortex_cloud_api.Effects.{Result}
use cortex_cloud_api.Providers.{Python, HttpReply}
use cortex_cloud_api.Providers.Anthropic.Reply as AnthropicReply
use cortex_cloud_api.Providers.Anthropic.Request.{AnthropicData}
use cortex_cloud_api.Providers.Gemini.Embeddings as GeminiEmbeddings
use cortex_cloud_api.Providers.Gemini.Embeddings.{EmbedData}
use cortex_cloud_api.Providers.Gemini.Reply as GeminiReply
use cortex_cloud_api.Providers.Gemini.Request.{GeminiData}
use cortex_cloud_api.Providers.OpenAi
use cortex_cloud_api.Providers.OpenAi.{OpenAiData, Pydantic}
use cortex_cloud_api.Routing.{Provider, anthropic, gemini, ProviderContext, Answer}
use cortex_cloud_api.Schemas.{
  ChatCompletionRequest, ChatCompletionResponse, EmbeddingsRequest, EmbeddingsResponse,
}

pub record Upstreams : Type 0 where
  pub openai_chat : ℕ → String → ProviderContext → OpenAiData ChatCompletionRequest → HttpReply
  pub openai_embeddings : ℕ → String → ProviderContext → OpenAiData EmbeddingsRequest → HttpReply
  pub anthropic_messages : ℕ → ProviderContext → AnthropicData → HttpReply
  pub gemini_generate : ℕ → ProviderContext → GeminiData → HttpReply
  pub gemini_embed : ℕ → ProviderContext → EmbedData → HttpReply
  -- the texts of `uuid.uuid4()`, the time and the milliseconds of the n-th call
  pub fresh : ℕ → String
  pub hex : ℕ → ℕ → String
  pub now : ℕ → ℕ
  pub took : ℕ → ℕ

module _ (python : Python) (pydantic : Pydantic) (up : Upstreams) where
  -- `provider.chat_completion(request, ctx)`, for an instance of the class.
  unfoldable pub chat_completion :
      ℕ → Provider → ProviderContext → ChatCompletionRequest → Result ChatCompletionResponse
  chat_completion n anthropic ctx request =
      AnthropicReply.chat_completion python (up.anthropic_messages n) (up.fresh n) (up.now n)
        request ctx
  chat_completion n gemini ctx request =
      GeminiReply.chat_completion python (up.gemini_generate n) (up.hex n) (up.fresh n) (up.now n)
        request ctx
  chat_completion n p ctx request = OpenAi.chat_completion p pydantic (up.openai_chat n) request ctx

  unfoldable pub embeddings :
      ℕ → Provider → ProviderContext → EmbeddingsRequest → Result EmbeddingsResponse
  embeddings n anthropic ctx request = AnthropicReply.embeddings request ctx
  embeddings n gemini ctx request = GeminiEmbeddings.embeddings (up.gemini_embed n) request ctx
  embeddings n p ctx request = OpenAi.embeddings p pydantic (up.openai_embeddings n) request ctx

  -- What the routing is given for each call.
  abbrev pub answer_chat :
      ℕ → Provider → ProviderContext → ChatCompletionRequest → Answer ChatCompletionResponse
  answer_chat n p ctx request = record {
    result = chat_completion n p ctx request;
    took = up.took n;
  }

  abbrev pub answer_embeddings :
      ℕ → Provider → ProviderContext → EmbeddingsRequest → Answer EmbeddingsResponse
  answer_embeddings n p ctx request = record {
    result = embeddings n p ctx request;
    took = up.took n;
  }
