-- ===== src/App/Metered.antt =====
-- app/main.py: the application as a whole, over the operations that are paid and those that are not.
use cortex_cloud_api.Prelude.{
  ◌≤◌, ◌≡◌, refl, sym, subst, ◌∙◌, ◌⊎◌, inl, inr, String, true, false, Option, none, some,
}
use cortex_cloud_api.Edge.{Request, Edge, Handler}
use cortex_cloud_api.Middleware.{app, trace}
use cortex_cloud_api.Middleware.Order.{going_on}
use cortex_cloud_api.RateLimit.{Luck, x402_rate_limit}
use cortex_cloud_api.X402.{Outside, dispatch}
use cortex_cloud_api.X402.Challenge.{X402Settings, price_of}
use cortex_cloud_api.X402.Outcomes.{Outcome, dispatch-Outcome, dispatch_free}
use cortex_cloud_api.X402.Prices.{price_of_le}
use cortex_cloud_api.X402.Pricing.{usd_to_usdc_atomic}
use cortex_cloud_api.App.{Operation, found, find, is_active, router, gateway}
use cortex_cloud_api.App.Prices.{is_paid, is_asked, find-asked}
use cortex_cloud_api.App.Routers.{routes}

module _ (operations : Operation → String → Handler) (cors : Handler → Handler)
    (uuid4 : Edge → String) (settings : X402Settings) (out : Outside) (luck : Luck) where
  -- What is inside the paywall.
  abbrev pub inner : Handler
  inner =
      x402_rate_limit luck
        (trace uuid4 (λ id. cors (router operations cors (routes (is_active settings)) id)))

  abbrev pub whole : Handler
  whole = gateway operations cors (routes (is_active settings)) uuid4 settings out luck

  module _ (request : Request) (s : Edge) where
    -- The request is asked for at least a thousandth of a dollar, and is turned away or pays.
    pub record IsCharged : Type 0 where
      pub price : String
      pub asked : price_of settings request ≡ some price
      pub enough : 1000 ≤ usd_to_usdc_atomic price
      pub outcome :
          Outcome settings out inner request (usd_to_usdc_atomic price) s (whole request s)

    -- A paid operation is charged for; to any other one the request goes on as it is.
    abbrev pub IsMetered : Operation → Type 0
    IsMetered op =
        ((is_paid op ≡ true) × IsCharged)
        ⊎ ((is_paid op ≡ false) × (whole request s ≡ inner request (going_on request s)))

    pub whole_active :
        is_active settings ≡ true → whole request s ≡ dispatch settings out inner request s
    unfolding gateway app
    whole_active active = rw active refl

    IsMetered-by :
        (op : Operation) (listed : Option String)
        → is_active settings ≡ true
        → price_of settings request ≡ listed
        → is_asked listed ≡ is_paid op
        → IsMetered op
    IsMetered-by op none active e a =
        inr (sym a, whole_active active ∙ dispatch_free settings out inner request s e)
    IsMetered-by op (some price) active e a = inl (
      sym a,
      record {
        price = price;
        asked = e;
        enough = price_of_le settings request price e;
        outcome =
            subst (Outcome settings out inner request (usd_to_usdc_atomic price) s)
              (sym (whole_active active)) (dispatch-Outcome settings out inner request price s e);
      },
    )

-- When payments are on, a request whose path and method the table gives to one of the nine paid
-- operations is asked for at least a thousandth of a dollar, and then either the paywall turns it away,
-- or the facilitator verified and settled its payment before it went on; and a request that the table
-- gives to any other operation goes on as it is.
pub gateway-IsMetered :
    (operations : Operation → String → Handler) (cors : Handler → Handler) (uuid4 : Edge → String)
    (settings : X402Settings) (out : Outside) (luck : Luck) (request : Request) (s : Edge)
    (op : Operation)
    → is_active settings ≡ true
    → find (routes (is_active settings)) false request.method request.path ≡ found op
    → IsMetered operations cors uuid4 settings out luck request s op
gateway-IsMetered operations cors uuid4 settings out luck request s op active e =
    IsMetered-by operations cors uuid4 settings out luck request s op (price_of settings request)
      active refl (find-asked settings request op active e)
