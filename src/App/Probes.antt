-- ===== src/App/Probes.antt =====
-- app/main.py: requests to a priced path that no operation answers: preflights, and other methods.
use cortex_cloud_api.Prelude.{◌≡◌, refl, ap, ◌∙◌, String, true, false, none, some}
use cortex_cloud_api.Prelude.Text.{codes, concat, starts_with}
use cortex_cloud_api.Effects.{Result, ok}
use cortex_cloud_api.Json.{Json}
use cortex_cloud_api.Edge.{Request, Response, Edge, Handler, verify, settle, client_host}
use cortex_cloud_api.Middleware.{set_id}
use cortex_cloud_api.Middleware.Order.{
  paid_run, forward_run, going_on, settled_with, trace_run, unlimited_run,
}
use cortex_cloud_api.RateLimit.{Luck, is_rate_limited}
use cortex_cloud_api.X402.{
  Outside, payment_header, judge_verify, judge_settle, approved, demand, dispatch,
}
use cortex_cloud_api.X402.Challenge.{X402Settings, price_of, validation_body, challenge}
use cortex_cloud_api.X402.Outcomes.{reply_to, posted_to}
use cortex_cloud_api.X402.Pricing.{usd_to_usdc_atomic}
use cortex_cloud_api.App.{
  Operation, Found, method_not_allowed, find, is_active, answer_found, router, not_allowed,
}
use cortex_cloud_api.App.Metered.{inner, whole, whole_active}
use cortex_cloud_api.App.Routers.{routes}

module _ (operations : Operation → String → Handler) (cors : Handler → Handler)
    (uuid4 : Edge → String) (settings : X402Settings) (out : Outside) (luck : Luck)
    (request : Request) (s : Edge) where
  -- When payments are on, a request to a priced path that presents no payment is answered with the
  -- challenge, whatever its method is, and nothing else happens: CORS, which is inside of the paywall,
  -- never sees a preflight.
  pub preflight_challenged :
      (price : String)
      → is_active settings ≡ true
      → price_of settings request ≡ some price
      → payment_header settings out request ≡ none
      → whole operations cors uuid4 settings out luck request s
        ≡ (ok (challenge settings request.path (usd_to_usdc_atomic price)), s)
  unfolding dispatch
  preflight_challenged price active asked bare =
      whole_active operations cors uuid4 settings out luck request s active
      ∙ rw (asked, dispatch) (rw (bare, demand) refl)

  abbrev pub inside : Handler
  inside = inner operations cors uuid4 settings out luck

  router_refuses :
      (id : String) (table : Found) (t : Edge)
      → table ≡ method_not_allowed
      → (answer_found operations cors table id request t).0 ≡ ok not_allowed
  router_refuses id table t e = rw e refl

  cors_refuses :
      (id : String) (t : Edge)
      → ((h : Handler) → cors h request ≡ h request)
      → find (routes (is_active settings)) false request.method request.path ≡ method_not_allowed
      → (cors (router operations cors (routes (is_active settings)) id) request t).0
        ≡ ok not_allowed
  cors_refuses id t passes f =
      ap (λ (h : Edge → Result Response × Edge). (h t).0)
        (passes (router operations cors (routes (is_active settings)) id))
      ∙ router_refuses id (find (routes (is_active settings)) false request.method request.path) t f

  -- When payments are on, a request to a priced path under /x402/v1, with a method that no route there
  -- has, presents a payment, which the facilitator verifies and settles, the limit is not reached, and
  -- CORS lets it pass, then it is answered with 405 and the settlement: the call is paid for.
  pub settled_then_not_allowed :
      (price header : String) (payment verify_data settle_data : Json)
      → is_active settings ≡ true
      → price_of settings request ≡ some price
      → payment_header settings out request ≡ some header
      → out.decode_payment header ≡ some payment
      → judge_verify (
          reply_to settings out inside request verify
            (validation_body settings (usd_to_usdc_atomic price) payment)
            s)
        ≡ approved verify_data
      → judge_settle (
          reply_to settings out inside request settle
            (validation_body settings (usd_to_usdc_atomic price) payment)
            (posted_to settings out inside request verify
              (validation_body settings (usd_to_usdc_atomic price) payment)
              s))
        ≡ approved settle_data
      → starts_with (codes request.path) (codes "/x402/v1") ≡ true
      → (is_rate_limited luck (concat "ratelimit:x402:ip:" (client_host request)) 60 60 (
          going_on request (
            posted_to settings out inside request settle
              (validation_body settings (usd_to_usdc_atomic price) payment)
              (posted_to settings out inside request verify
                (validation_body settings (usd_to_usdc_atomic price) payment)
                s)))).0
        ≡ ok false
      → ((h : Handler) → cors h request ≡ h request)
      → find (routes (is_active settings)) false request.method request.path ≡ method_not_allowed
      → (id : String) × ((whole operations cors uuid4 settings out luck request s).0
          ≡ ok (settled_with settle_data (set_id uuid4 id not_allowed)))
  settled_then_not_allowed price header payment verify_data settle_data active a p d v e g l passes
        f =
      (
        _,
        ap (λ (r : Result Response × Edge). r.0)
              (whole_active operations cors uuid4 settings out luck request s active
                ∙ paid_run settings out inside request s price header payment verify_data
                    settle_data a p d v e)
            ∙ forward_run settings out inside request settle_data _ _ (
                unlimited_run luck _ request _ g l
                ∙ trace_run uuid4
                    (λ id. cors (router operations cors (routes (is_active settings)) id)) request _
                    not_allowed (cors_refuses _ _ passes f)),
      )
