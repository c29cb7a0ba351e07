-- ===== src/Tests/Marketplace.antt =====
-- A payment for prices, with a service that asks for patience; and hits of a key after a silence.
use cortex_cloud_api.Prelude.{
  ◌≡◌, refl, String, true, false, none, some, List, [], ◌∷◌, ◌++◌, arith,
}
use cortex_cloud_api.Effects.{ok}
use cortex_cloud_api.Json.{Json, null, boolean, object_of}
use cortex_cloud_api.Edge.{Request, Edge, Handler, verify, settle}
use cortex_cloud_api.Edge.Redis.{Hit, empty_set}
use cortex_cloud_api.Middleware.Order.{going_on}
use cortex_cloud_api.RateLimit.{hit_set, is_rate_limited}
use cortex_cloud_api.RateLimit.Recovery.{limited_hits-recovers}
use cortex_cloud_api.RateLimit.Window.{limited_hits}
use cortex_cloud_api.Tests.Gateway.{luck, settings, outside, request_to, edge, uuid4}
use cortex_cloud_api.X402.{Reply, replied, judge_verify, judge_settle, approved}
use cortex_cloud_api.X402.Challenge.{price_of, validation_body}
use cortex_cloud_api.X402.Data.{Query, coin_search}
use cortex_cloud_api.X402.Data.Unserved.{inside}
use cortex_cloud_api.X402.Outcomes.{reply_to, posted_to}
use cortex_cloud_api.X402.Pricing.{usd_to_usdc_atomic}
use cortex_cloud_api.Prelude.Text.{path_after_space}

abbrev upstream : String → Reply
upstream url = replied 429 "Too many requests" none

abbrev query : Query
query = coin_search "eth"

abbrev request : Request
request = request_to "/x402/v1/data/coins/search" (some "e30=")

abbrev limiter : Handler
limiter = inside settings outside luck uuid4 upstream query request edge

abbrev body : Json
body = validation_body settings (usd_to_usdc_atomic "$0.001") null

abbrev verification : Json
verification = object_of (("isValid", boolean true) ∷ [])

abbrev settlement : Json
settlement = object_of (("success", boolean true) ∷ [])

abbrev paying : Edge
paying = posted_to settings outside limiter request verify body edge

priced : price_of settings request ≡ some "$0.001"
unfolding price_of path_after_space
priced = refl

verified :
    judge_verify (reply_to settings outside limiter request verify body edge)
    ≡ approved verification
unfolding judge_verify
verified = refl

settled :
    judge_settle (reply_to settings outside limiter request settle body paying)
    ≡ approved settlement
unfolding judge_settle
settled = refl

is_idle :
    (is_rate_limited luck "ratelimit:x402:ip:10.0.0.1" 60 60
      (going_on request (posted_to settings outside limiter request settle body paying))).0
    ≡ ok false
unfolding is_rate_limited hit_set
is_idle = refl

abbrev hits : List Hit
hits =
    record { time = 1000; suffix = 1 }
    ∷ record { time = 2000; suffix = 2 }
    ∷ record { time = 3000; suffix = 3 }
    ∷ []

abbrev late : Hit
late = record { time = 70_000; suffix = 4 }

limited_hits-recovers_example :
    limited_hits 2 60_000 empty_set (hits ++ late ∷ [])
    ≡ limited_hits 2 60_000 empty_set hits ++ false ∷ []
limited_hits-recovers_example =
    limited_hits-recovers 2 60_000 hits late (omega arith) (omega arith)
      (omega arith, refl, (omega arith, refl, (omega arith, refl, (omega arith, refl, tt))))
      (omega arith, (omega arith, (omega arith, tt)))
