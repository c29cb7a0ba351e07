-- ===== src/Tests/Mcp.antt =====
-- A quote of the MCP endpoint, and the prices of the discovery document.
use cortex_cloud_api.Prelude.{none, some, ◌≡◌, refl, inl, String}
use cortex_cloud_api.Json.{str}
use cortex_cloud_api.Tests.Gateway.{settings, request_to}
use cortex_cloud_api.Tests.Upstream.{python}
use cortex_cloud_api.X402.Challenge.{price_of}
use cortex_cloud_api.X402.Discovery.Extensions.{Sdk}
use cortex_cloud_api.X402.Mcp.{call_tool}
use cortex_cloud_api.X402.Pricing.{usd_to_usdc_atomic}
use cortex_cloud_api.X402.Quotes.{endpoint_of, amount_of, call_tool-price_of}

named_endpoint :
    endpoint_of (call_tool settings python (str "chat_completions"))
    ≡ some "https://cortexcloud.org/x402/v1/chat/completions"
unfolding call_tool
named_endpoint = refl

call_tool-price_of_example :
    (price : String) × (price_of settings (request_to "/x402/v1/chat/completions" none)
      ≡ some price)
    × (amount_of (call_tool settings python (str "chat_completions"))
        ≡ some (usd_to_usdc_atomic price))
call_tool-price_of_example =
    call_tool-price_of settings python (request_to "/x402/v1/chat/completions" none)
      "chat_completions" refl refl (inl refl) named_endpoint

abbrev sdk : Sdk
sdk = record {
  declare_discovery_extension = λ input schema body_type example. schema;
  declare_mcp_discovery_extension = λ name description schema transport example. schema;
}
