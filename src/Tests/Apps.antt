-- ===== src/Tests/Apps.antt =====
-- The application over operations that answer nothing.
use cortex_cloud_api.Prelude.{◌≡◌, refl, true, false, String, none, some, [], ◌∷◌}
use cortex_cloud_api.Effects.{ok, pure}
use cortex_cloud_api.Json.{Json, null, boolean, object_of}
use cortex_cloud_api.Edge.{Request, Edge, Handler, verify, settle}
use cortex_cloud_api.Middleware.Order.{going_on}
use cortex_cloud_api.Prelude.Text.{path_after_space}
use cortex_cloud_api.RateLimit.{hit_set, is_rate_limited}
use cortex_cloud_api.Tests.Gateway.{luck, settings, outside, request_to, edge, uuid4}
use cortex_cloud_api.X402.{judge_verify, judge_settle, approved}
use cortex_cloud_api.X402.Challenge.{respond, price_of, validation_body, challenge}
use cortex_cloud_api.X402.Outcomes.{reply_to, posted_to}
use cortex_cloud_api.X402.Pricing.{usd_to_usdc_atomic}
use cortex_cloud_api.App.{
  Operation, x402_chat_completions, admin_toggle_model, favicon, find, found, not_found, gateway,
}
use cortex_cloud_api.App.Metered.{IsMetered, whole, gateway-IsMetered}
use cortex_cloud_api.App.Probes.{inside, preflight_challenged}
use cortex_cloud_api.App.Routers.{routes}
use cortex_cloud_api.App.Total.{IsAnswered, gateway-IsAnswered}

abbrev operations : Operation → String → Handler
operations op id request = pure (respond 200 null)

abbrev cors : Handler → Handler
cors h = h

abbrev as_method : String → Request → Request
as_method method request = record request { method = method }

abbrev paid_request : Request
paid_request = request_to "/x402/v1/responses" (some "e30=")

toggle : find (routes false) false "PATCH" "/v1/admin/models/7d/toggle" ≡ found admin_toggle_model
toggle = refl

toggle_nothing : find (routes false) false "PATCH" "/v1/admin/models//toggle" ≡ not_found
toggle_nothing = refl

-- The decorator of the health check stands on the icon.
health : find (routes true) false "GET" "/health" ≡ found favicon
health = refl

gateway-IsMetered_example :
    IsMetered operations cors uuid4 settings outside luck paid_request edge x402_chat_completions
gateway-IsMetered_example =
    gateway-IsMetered operations cors uuid4 settings outside luck paid_request edge
      x402_chat_completions refl refl

abbrev preflight : Request
preflight = as_method "OPTIONS" (request_to "/x402/v1/embeddings" none)

priced : price_of settings preflight ≡ some "$0.001"
unfolding price_of path_after_space
priced = refl

preflight_challenged_example :
    whole operations cors uuid4 settings outside luck preflight edge
    ≡ (ok (challenge settings "/x402/v1/embeddings" (usd_to_usdc_atomic "$0.001")), edge)
preflight_challenged_example =
    preflight_challenged operations cors uuid4 settings outside luck preflight edge "$0.001" refl
      priced refl

abbrev probe : Request
probe = as_method "GET" paid_request

abbrev limiter : Handler
limiter = inside operations cors uuid4 settings outside luck probe edge

abbrev body : Json
body = validation_body settings (usd_to_usdc_atomic "$0.005") null

abbrev verification : Json
verification = object_of (("isValid", boolean true) ∷ [])

abbrev settlement : Json
settlement = object_of (("success", boolean true) ∷ [])

abbrev paying : Edge
paying = posted_to settings outside limiter probe verify body edge

probe_priced : price_of settings probe ≡ some "$0.005"
unfolding price_of path_after_space
probe_priced = refl

verified :
    judge_verify (reply_to settings outside limiter probe verify body edge) ≡ approved verification
unfolding judge_verify
verified = refl

settled :
    judge_settle (reply_to settings outside limiter probe settle body paying) ≡ approved settlement
unfolding judge_settle
settled = refl

is_idle :
    (is_rate_limited luck "ratelimit:x402:ip:10.0.0.1" 60 60
      (going_on probe (posted_to settings outside limiter probe settle body paying))).0
    ≡ ok false
unfolding is_rate_limited hit_set
is_idle = refl

gateway-IsAnswered_example :
    IsAnswered (gateway operations cors (routes true) uuid4 settings outside luck paid_request edge)
gateway-IsAnswered_example =
    gateway-IsAnswered operations cors (routes true) uuid4 settings outside luck paid_request edge
