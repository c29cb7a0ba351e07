-- ===== src/Tests/Limits.antt =====
-- The limits and the paywall on the sample gateway.
use cortex_cloud_api.Prelude.{◌≡◌, refl, ◌<◌, true, false, none, some, List, [], ◌∷◌, arith}
use cortex_cloud_api.Prelude.Int.{pos}
use cortex_cloud_api.Prelude.Text.{path_after_space}
use cortex_cloud_api.Effects.{ok}
use cortex_cloud_api.Effects.After.{After}
use cortex_cloud_api.Json.{Json, null, boolean, object_of}
use cortex_cloud_api.Edge.{Edge, Handler, verify, settle}
use cortex_cloud_api.Edge.Redis.{Hit, empty_set}
use cortex_cloud_api.RateLimit.{
  hit_set, is_rate_limited, daily, check_cap, limit_response, x402_rate_limit,
}
use cortex_cloud_api.RateLimit.Calendar.{to_midnight, month_start}
use cortex_cloud_api.RateLimit.Window.{limited_hits, limited_from, limited_hits_lem}
use cortex_cloud_api.RateLimit.Caps.{IsAdmitted, check_cap-Admitted}
use cortex_cloud_api.X402.{dispatch, judge_verify, judge_settle, approved}
use cortex_cloud_api.X402.Challenge.{price_of, validation_body}
use cortex_cloud_api.X402.Pricing.{usd_to_usdc_atomic}
use cortex_cloud_api.X402.Outcomes.{reply_to, posted_to, Outcome, dispatch-Outcome}
use cortex_cloud_api.Middleware.{trace, app}
use cortex_cloud_api.Middleware.Order.{going_on, settled_then_limited}
use cortex_cloud_api.RateLimit.{KeyNames, check_api_key_limits}
use cortex_cloud_api.RateLimit.ApiKeys.{IsWithinLimits, check_api_key_limits-After}
use cortex_cloud_api.Tests.Samples.{key}
use cortex_cloud_api.Tests.Gateway.{
  luck, settings, outside, paid_request, free_request, edge, busy_edge, routes, uuid4,
}

abbrev hits : List Hit
hits =
    record { time = 1000; suffix = 1 }
    ∷ record { time = 2000; suffix = 2 }
    ∷ record { time = 3000; suffix = 3 }
    ∷ record { time = 61_500; suffix = 4 }
    ∷ []

-- Two requests a minute: the third is limited, and still counts against the fourth.
limited : limited_hits 2 60_000 empty_set hits ≡ false ∷ false ∷ true ∷ true ∷ []
unfolding limited_hits hit_set
limited = refl

limited_hits_lem_example : limited_hits 2 60_000 empty_set hits ≡ limited_from 2 60_000 [] hits
limited_hits_lem_example =
    limited_hits_lem 2 60_000 hits (omega arith)
      (omega arith, refl, (omega arith, refl, (omega arith, refl, (omega arith, refl, tt))))

-- 15 March 2024, 12:00 UTC.
march : month_start 1_710_504_000_000 ≡ 1_709_251_200_000
unfolding month_start
march = refl

some_time : 0 < to_midnight edge.world.clock
unfolding to_midnight
some_time = omega arith

check_cap-Admitted_example :
    After
      (λ a v. IsAdmitted luck daily (λ id. "key") 5 (pos 10) edge some_time v)
      (λ e v. v.world ≡ edge.world)
      (check_cap luck daily (λ id. "key") 5 (some (pos 10)) edge)
check_cap-Admitted_example = check_cap-Admitted luck daily (λ id. "key") 5 (pos 10) edge some_time

price : price_of settings paid_request ≡ some "$0.005"
unfolding price_of path_after_space
price = refl

dispatch-Outcome_example :
    Outcome settings outside
      (routes "cid")
      paid_request
      (usd_to_usdc_atomic "$0.005")
      edge
      (dispatch settings outside (routes "cid") paid_request edge)
dispatch-Outcome_example =
    dispatch-Outcome settings outside (routes "cid") paid_request "$0.005" edge price

free : price_of settings free_request ≡ none
unfolding price_of path_after_space
free = refl

abbrev valid : Json
valid = object_of (("isValid", boolean true) ∷ [])

abbrev success : Json
success = object_of (("success", boolean true) ∷ [])

-- The body of the calls to the facilitator.
abbrev body : Json
body = validation_body settings (usd_to_usdc_atomic "$0.005") null

abbrev limiter : Handler
limiter = x402_rate_limit luck (trace uuid4 routes)

verified :
    judge_verify (reply_to settings outside limiter paid_request verify body busy_edge)
    ≡ approved valid
unfolding judge_verify
verified = refl

abbrev paying : Edge
paying = posted_to settings outside limiter paid_request verify body busy_edge

settled :
    judge_settle (reply_to settings outside limiter paid_request settle body paying)
    ≡ approved success
unfolding judge_settle
settled = refl

is_busy :
    (is_rate_limited luck "ratelimit:x402:ip:10.0.0.1" 60 60 (
      going_on paid_request (posted_to settings outside limiter paid_request settle body paying))).0
    ≡ ok true
unfolding is_rate_limited hit_set
is_busy = refl

settled_then_limited_example :
    (app uuid4 settings outside luck routes paid_request busy_edge).0
    ≡ ok (record limit_response {
      payment_response = some (object_of (("success", boolean true) ∷ ("details", success) ∷ []));
    })
settled_then_limited_example =
    settled_then_limited settings outside luck routes uuid4 paid_request busy_edge "$0.005" "e30="
      null valid success price refl refl verified settled refl is_busy

abbrev names : KeyNames
names = record { minute = λ id. "minute"; day = λ id. "day"; month = λ id. "month" }

check_api_key_limits-After_example :
    After
      (IsWithinLimits luck names key edge)
      (λ e v. v.world ≡ edge.world)
      (check_api_key_limits luck names key edge)
check_api_key_limits-After_example = check_api_key_limits-After luck names key edge
