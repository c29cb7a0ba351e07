-- ===== src/X402/Listed.antt =====
-- app/x402/bazaar.py and app/middleware/x402.py: the prices that the discovery document lists.
use cortex_cloud_api.Prelude.{
  ◌≡◌, refl, String, str_eq, true, Option, none, some, All, if◌then◌else◌,
}
use cortex_cloud_api.Prelude.Text.{concat, path_after_space}
use cortex_cloud_api.Edge.{Request}
use cortex_cloud_api.X402.Challenge.{X402Settings, price_of, is_given}
use cortex_cloud_api.X402.Discovery.{Route, routes}
use cortex_cloud_api.X402.Discovery.Extensions.{Sdk}
use cortex_cloud_api.X402.Quotes.{price_of_path}

-- What the paywall asks for, if the document lists a price.
abbrev pub asked : String → Option String
asked usd = if str_eq usd "0.00" then none else some (concat "$" usd)

-- A request to the path of a route is asked for the price that the route lists.
abbrev pub IsListed : X402Settings → Request → Route → Type 0
IsListed settings request route =
    price_of settings (record request { path = path_after_space route.key }) ≡ asked route.price_usd

-- When payments are on, the paywall asks every request to a route of the discovery document, with a
-- Bearer key or without, for the price that the document lists, and for none where it lists $0.00.
pub routes-AreListed :
    (sdk : Sdk) (settings : X402Settings) (facilitator_url : String) (request : Request)
    → settings.enabled ≡ true
    → is_given settings.wallet_address ≡ true
    → All (IsListed settings request) (routes sdk settings facilitator_url)
unfolding path_after_space price_of
routes-AreListed sdk settings facilitator_url request on wallet = (
  price_of_path settings (record request { path = "/x402/v1/chat/completions" })
      "/x402/v1/chat/completions" "$0.005" on wallet refl refl refl refl,
  (
    price_of_path settings (record request { path = "/x402/v1/responses" }) "/x402/v1/responses"
        "$0.005" on wallet refl refl refl refl,
    (
      price_of_path settings (record request { path = "/x402/v1/embeddings" }) "/x402/v1/embeddings"
          "$0.001" on wallet refl refl refl refl,
      (rw (on, wallet) refl, tt),
    ),
  ),
)
