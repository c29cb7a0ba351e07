-- ===== src/App.antt =====
-- app/main.py: the routers, and what is around them. How a router finds an operation is as Starlette
-- documents it, without the redirects of paths that differ by a slash at their end; the pages of the
-- documentation that FastAPI adds are left out.
pub mod Routers
pub mod Prices
pub mod Metered
pub mod Probes
pub mod Total
use cortex_cloud_api.Prelude.{
  ℕ, String, str_eq, Bool, true, false, not, ◌&&◌, ◌||◌, List, [], ◌∷◌, ◌++◌, ◌==◌, map,
  if◌then◌else◌,
}
use cortex_cloud_api.Prelude.Int.{pos}
use cortex_cloud_api.Prelude.Text.{codes, concat, eq_codes, starts_with}
use cortex_cloud_api.Effects.{pure}
use cortex_cloud_api.Json.{Json, boolean, int, str, object_of}
use cortex_cloud_api.Edge.{Response, Edge, Handler}
use cortex_cloud_api.Middleware.{app, trace}
use cortex_cloud_api.RateLimit.{Luck}
use cortex_cloud_api.X402.{Outside}
use cortex_cloud_api.X402.Challenge.{X402Settings, respond, is_given}
use cortex_cloud_api.X402.Mcp.{or_null}

-- The functions that answer requests, by their names.
pub data Operation : Type 0 where
  favicon home x402_discovery : Operation
  chat_completions embeddings list_models activity pricing : Operation
  register login get_me create_key list_keys revoke_key : Operation
  get_balance get_transactions simulated_deposit : Operation
  get_analytics get_request_history get_dashboard_models : Operation
  admin_create_model admin_toggle_model admin_view_users admin_view_keys : Operation
  admin_view_usage admin_view_revenue admin_provider_health : Operation
  x402_chat_completions x402_embeddings x402_list_models : Operation
  bazaar_discovery mcp_sse x402_status : Operation
  data_prices data_coin_search data_dex_search data_dex_pairs : Operation
  base_balance base_token_balance base_nonce : Operation

-- A path, or a path with one parameter: what is before it, and what is behind it.
pub data Template : Type 0 where
  exact : String → Template
  with_param : String → String → Template

pub record Route : Type 0 where
  pub method : String
  pub template : Template
  pub operation : Operation

abbrev pub route : String → Template → Operation → Route
route method template operation = record {
  method = method;
  template = template;
  operation = operation;
}

-- A parameter is a text without `/` that is not empty.
abbrev after_segment : List ℕ → List ℕ
after_segment [] = []
after_segment (c ∷ s) = let rest = after_segment s in if c == b'/' then c ∷ s else rest

abbrev fills : List ℕ → List ℕ → Bool
fills suffix [] = false
fills suffix (c ∷ s) = not (c == b'/') && eq_codes (after_segment s) suffix

abbrev behind : List ℕ → List ℕ → List ℕ
behind [] s = s
behind (p ∷ prefix) [] = []
behind (p ∷ prefix) (c ∷ s) = behind prefix s

abbrev pub matches : Template → String → Bool
matches (exact path) p = str_eq p path
matches (with_param prefix suffix) p =
    starts_with (codes p) (codes prefix) && fills (codes suffix) (behind (codes prefix) (codes p))

pub data Found : Type 0 where
  found : Operation → Found
  method_not_allowed not_found : Found

-- The first route with the path and the method. `partial` is whether a route before had the path.
abbrev pub find : List Route → Bool → String → String → Found
find [] partial method path = if partial then method_not_allowed else not_found
find (r ∷ rest) partial method path =
    let later = find rest (partial || matches r.template path) method path in
    if matches r.template path && str_eq r.method method then found r.operation else later

abbrev under : String → Template → Template
under prefix (exact path) = exact (concat prefix path)
under prefix (with_param before behind) = with_param (concat prefix before) behind

-- `app.include_router(router, prefix=prefix)`
abbrev pub include_router : List Route → String → List Route
include_router router prefix =
    map (λ (r : Route). record r { template = under prefix r.template }) router

-- `_x402_active`, when every router can be imported.
abbrev pub is_active : X402Settings → Bool
is_active settings = settings.enabled && is_given settings.wallet_address

abbrev text_detail : String → Json
text_detail text = object_of (("detail", str text) ∷ [])

abbrev pub not_allowed : Response
not_allowed = respond 405 (text_detail "Method Not Allowed")

abbrev pub missing : Response
missing = respond 404 (text_detail "Not Found")

-- `x402_discovery`, where `facilitator_url` is `settings.X402_FACILITATOR_URL`.
unfoldable pub discovery_doc : X402Settings → String → Json
discovery_doc settings facilitator_url =
    if not (is_active settings)
    then object_of (
        ("x402", boolean false)
        ∷ ("message", str "x402 payment gateway is not enabled on this instance.")
        ∷ [])
    else object_of (
        ("x402", boolean true)
        ∷ ("version", int (pos 2))
        ∷ ("facilitator", str facilitator_url)
        ∷ ("network", str settings.network)
        ∷ ("wallet", or_null settings.wallet_address)
        ∷ (
          "endpoints",
          object_of (
              ("chat_completions", str "/x402/v1/chat/completions")
              ∷ ("embeddings", str "/x402/v1/embeddings")
              ∷ ("models", str "/x402/v1/models")
              ∷ []),
        )
        ∷ ("docs", str "https://github.com/jonahthan433/CortexCloudAPI")
        ∷ [])

-- What the operations answer, each with the correlation id, and the CORS middleware are parameters.
module _ (operations : Operation → String → Handler) (cors : Handler → Handler) where
  abbrev pub answer_found : Found → String → Handler
  answer_found (found operation) id request = operations operation id request
  answer_found method_not_allowed id request = pure not_allowed
  answer_found not_found id request = pure missing

  abbrev pub router : List Route → String → Handler
  router table id request = answer_found (find table false request.method request.path) id request

  -- The middlewares in the order in which they run: the paywall and the limit for each IP, if
  -- payments are on, then the tracing, then CORS.
  unfoldable pub gateway : List Route → (Edge → String) → X402Settings → Outside → Luck → Handler
  gateway table uuid4 settings out luck =
      if is_active settings
      then app uuid4 settings out luck (λ id. cors (router table id))
      else trace uuid4 (λ id. cors (router table id))
