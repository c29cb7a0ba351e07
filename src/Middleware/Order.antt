-- ===== src/Middleware/Order.antt =====
-- What the tracing guarantees, and what the order of the middlewares means for a payment.
use cortex_cloud_api.Prelude.{
  ◌≡◌, refl, ap, ◌∙◌, ◌⊎◌, inl, inr, String, true, false, some, [], ◌∷◌, ◌++◌,
}
use cortex_cloud_api.Prelude.Text.{codes, concat, starts_with}
use cortex_cloud_api.Effects.{Exn, Result, ok, raised, catch, ◌>>=◌, Result-cases}
use cortex_cloud_api.Json.{Json, boolean, object_of}
use cortex_cloud_api.Edge.{Request, Response, Edge, Handler, verify, settle, client_host, forwarded}
use cortex_cloud_api.RateLimit.{Luck, is_rate_limited, x402_rate_limit, limit_response}
use cortex_cloud_api.X402.{
  Outside, dispatch, payment_header, judge_verify, judge_settle, approved, forward, add_response,
  demand, charge_payment, after_verify, after_settle,
}
use cortex_cloud_api.X402.Challenge.{X402Settings, price_of, validation_body}
use cortex_cloud_api.X402.Pricing.{usd_to_usdc_atomic}
use cortex_cloud_api.X402.Outcomes.{reply_to, posted_to}
use cortex_cloud_api.Middleware.{trace, correlation_id_of, internal_error, set_id, app}

module _ (uuid4 : Edge → String) (call_next : String → Handler) (request : Request) (s : Edge) where
  abbrev id : String
  id = correlation_id_of uuid4 request s

  -- Every traced request gets a response, which carries its correlation id: the inner response, or a
  -- 500 if the inside raised an exception.
  pub trace_lem :
      ((response : Response) × ((call_next id request s).0 ≡ ok response)
        × ((trace uuid4 call_next request s).0 ≡ ok (set_id uuid4 id response)))
      ⊎ ((exc : Exn) × ((call_next id request s).0 ≡ raised exc)
          × ((trace uuid4 call_next request s).0 ≡ ok (internal_error uuid4 id)))
  unfolding trace
  trace_lem = elim (Result-cases (call_next id request s).0) [
    | inl (response, e) ↦ inl (response, e, rw (e, catch, ◌>>=◌) refl)
    | inr (exc, e) ↦ inr (exc, e, rw (e, catch, ◌>>=◌) refl)
  ]

module _ (settings : X402Settings) (out : Outside) (call_next : Handler) (request : Request)
    (s : Edge) (price header : String) (payment verify_data settle_data : Json)
    (asked : price_of settings request ≡ some price)
    (presented : payment_header settings out request ≡ some header)
    (decoded : out.decode_payment header ≡ some payment) where
  abbrev body : Json
  body = validation_body settings (usd_to_usdc_atomic price) payment

  abbrev paying : Edge
  paying = posted_to settings out call_next request verify body s

  -- The state once the payment is settled.
  abbrev pub paid : Edge
  paid = posted_to settings out call_next request settle body paying

  pub paid_run :
      judge_verify (reply_to settings out call_next request verify body s) ≡ approved verify_data
      → judge_settle (reply_to settings out call_next request settle body paying)
        ≡ approved settle_data
      → dispatch settings out call_next request s
        ≡ (forward settings out call_next request
              >>= add_response settings out call_next request settle_data)
            paid
  unfolding dispatch
  paid_run v e =
      rw (asked, dispatch)
        (rw (presented, demand)
          (rw (decoded, charge_payment) (rw (v, after_verify) (rw (e, after_settle) refl))))

-- The state in which the limit is asked: the request went on.
abbrev pub going_on : Request → Edge → Edge
going_on request s = record s { events = s.events ++ forwarded request ∷ [] }

pub limited_run :
    (luck : Luck) (inner : Handler) (request : Request) (t : Edge)
    → starts_with (codes request.path) (codes "/x402/v1") ≡ true
    → (is_rate_limited luck (concat "ratelimit:x402:ip:" (client_host request)) 60 60 t).0 ≡ ok true
    → (x402_rate_limit luck inner request t).0 ≡ ok limit_response
unfolding x402_rate_limit
limited_run luck inner request t g l = rw (g, ◌>>=◌) (rw (l, ◌>>=◌) refl)

pub forward_run :
    (settings : X402Settings) (out : Outside) (call_next : Handler) (request : Request)
    (settle_data : Json) (t : Edge) (response : Response)
    → (call_next request (going_on request t)).0 ≡ ok response
    → ((forward settings out call_next request
          >>= add_response settings out call_next request settle_data)
        t).0
      ≡ ok (record response {
        payment_response =
            some (object_of (("success", boolean true) ∷ ("details", settle_data) ∷ []));
      })
forward_run settings out call_next request settle_data t response e = rw (e, ◌>>=◌) refl

-- The response of the inside, and the one with the settlement.
abbrev pub settled_with : Json → Response → Response
settled_with settle_data response = record response {
  payment_response = some (object_of (("success", boolean true) ∷ ("details", settle_data) ∷ []));
}

pub trace_run :
    (uuid4 : Edge → String) (inner : String → Handler) (request : Request) (t : Edge)
    (response : Response)
    → (inner (correlation_id_of uuid4 request t) request t).0 ≡ ok response
    → (trace uuid4 inner request t).0
      ≡ ok (set_id uuid4 (correlation_id_of uuid4 request t) response)
unfolding trace
trace_run uuid4 inner request t response e = rw (e, catch, ◌>>=◌) refl

pub unlimited_run :
    (luck : Luck) (inner : Handler) (request : Request) (t : Edge)
    → starts_with (codes request.path) (codes "/x402/v1") ≡ true
    → (is_rate_limited luck (concat "ratelimit:x402:ip:" (client_host request)) 60 60 t).0
      ≡ ok false
    → (x402_rate_limit luck inner request t).0
      ≡ (inner request
          (is_rate_limited luck (concat "ratelimit:x402:ip:" (client_host request)) 60 60 t).1).0
unfolding x402_rate_limit
unlimited_run luck inner request t g l = rw (g, ◌>>=◌) (rw (l, ◌>>=◌) refl)

module _ (settings : X402Settings) (out : Outside) (luck : Luck) (routes : String → Handler)
    (uuid4 : Edge → String) (request : Request) (s : Edge) where
  abbrev inside : Handler
  inside = x402_rate_limit luck (trace uuid4 routes)

  -- The limit for each IP is inside the paywall: when a request to /x402/v1 that a price is asked for
  -- presents a payment, which the facilitator verifies and settles, and the limit is reached, the
  -- settled request is answered with 429 and the settlement.
  pub settled_then_limited :
      (price header : String) (payment verify_data settle_data : Json)
      → price_of settings request ≡ some price
      → payment_header settings out request ≡ some header
      → out.decode_payment header ≡ some payment
      → judge_verify (
          reply_to settings out inside request verify
            (validation_body settings (usd_to_usdc_atomic price) payment)
            s)
        ≡ approved verify_data
      → judge_settle (
          reply_to settings out inside request settle
            (validation_body settings (usd_to_usdc_atomic price) payment)
            (posted_to settings out inside request verify
              (validation_body settings (usd_to_usdc_atomic price) payment)
              s))
        ≡ approved settle_data
      → starts_with (codes request.path) (codes "/x402/v1") ≡ true
      → (is_rate_limited luck (concat "ratelimit:x402:ip:" (client_host request)) 60 60 (
          going_on request (
            posted_to settings out inside request settle
              (validation_body settings (usd_to_usdc_atomic price) payment)
              (posted_to settings out inside request verify
                (validation_body settings (usd_to_usdc_atomic price) payment)
                s)))).0
        ≡ ok true
      → (app uuid4 settings out luck routes request s).0
        ≡ ok (record limit_response {
          payment_response =
              some (object_of (("success", boolean true) ∷ ("details", settle_data) ∷ []));
        })
  unfolding app
  settled_then_limited price header payment verify_data settle_data a p d v e g l =
      ap (λ (r : Result Response × Edge). r.0)
        (paid_run settings out inside request s price header payment verify_data settle_data a p d v
          e)
      ∙ forward_run settings out inside request settle_data _ limit_response
          (limited_run luck (trace uuid4 routes) request _ g l)
