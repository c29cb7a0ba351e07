-- ===== src/X402/Discovery.antt =====
-- app/x402/bazaar.py: the discovery document.
pub mod Extensions
use cortex_cloud_api.Prelude.{String, List, [], ◌∷◌, map}
use cortex_cloud_api.Prelude.Text.{concat}
use cortex_cloud_api.Json.{Json, str, arr, elems_of, object_of}
use cortex_cloud_api.X402.Challenge.{X402Settings}
use cortex_cloud_api.X402.Mcp.{or_null}
use Extensions.{
  Sdk, chat_completions_discovery, embeddings_discovery, models_discovery, chat_mcp_discovery,
  embeddings_mcp_discovery,
}

-- A route of the document.
pub record Route : Type 0 where
  pub key : String
  pub description : String
  pub price_usd : String
  pub extensions : Json

abbrev route_json : Route → String × Json
route_json r = (
  r.key,
  object_of (
      ("description", str r.description)
      ∷ ("price_usd", str r.price_usd)
      ∷ ("extensions", r.extensions)
      ∷ []),
)

-- `facilitator_url` is `settings.X402_FACILITATOR_URL`.
module _ (sdk : Sdk) (settings : X402Settings) (facilitator_url : String) where
  abbrev pub routes : List Route
  routes =
      record {
        key = "POST /x402/v1/chat/completions";
        description = "OpenAI-compatible chat completions.";
        price_usd = "0.005";
        extensions = chat_completions_discovery sdk;
      }
      ∷ record {
        key = "POST /x402/v1/responses";
        description = "OpenAI-compatible chat completions (alias).";
        price_usd = "0.005";
        extensions = chat_completions_discovery sdk;
      }
      ∷ record {
        key = "POST /x402/v1/embeddings";
        description = "OpenAI-compatible text embeddings.";
        price_usd = "0.001";
        extensions = embeddings_discovery sdk;
      }
      ∷ record {
        key = "GET /x402/v1/models";
        description = "List available models (free).";
        price_usd = "0.00";
        extensions = models_discovery sdk;
      }
      ∷ []

  abbrev mcp : Json
  mcp = object_of (
      ("transport", str "sse")
      ∷ ("endpoint", str (concat settings.resource_base "/x402/v1/mcp"))
      ∷ (
        "tools",
        arr (
            elems_of (
              (object_of (
                ("tool_name", str "chat_completions")
                ∷ ("extensions", chat_mcp_discovery sdk settings)
                ∷ []))
              ∷ (object_of (
                  ("tool_name", str "embeddings")
                  ∷ ("extensions", embeddings_mcp_discovery sdk settings)
                  ∷ []))
              ∷ [])),
      )
      ∷ [])

  unfoldable pub build_discovery_doc : Json
  build_discovery_doc = object_of (
      ("version", str "1.0")
      ∷ ("gateway", str "CortexCloud")
      ∷ (
        "description",
        str
            "Pay-per-call AI inference gateway for autonomous agents. No signup, no API key. Pay per request in USDC on Base via x402.",
      )
      ∷ (
        "payment",
        object_of (
            ("scheme", str "exact")
            ∷ ("network", str settings.network)
            ∷ ("asset", str "0x833589fCD6eDb6E08f4c7C32D4f71b54bdA02913")
            ∷ ("payTo", or_null settings.wallet_address)
            ∷ ("facilitator", str facilitator_url)
            ∷ []),
      )
      ∷ ("routes", object_of (map route_json routes))
      ∷ ("mcp", mcp)
      ∷ [])
