-- ===== src/X402/Data/Unserved.antt =====
-- app/x402/data_routes.py behind the middlewares: what becomes of a payment when no data comes.
use cortex_cloud_api.Prelude.{ℕ, ◌≡◌, refl, ap, ◌∙◌, String, true, false, Option, some, ◌==◌}
use cortex_cloud_api.Prelude.Text.{codes, concat, starts_with}
use cortex_cloud_api.Effects.{Result, ok}
use cortex_cloud_api.Json.{Json}
use cortex_cloud_api.Edge.{Request, Response, Edge, Handler, verify, settle, client_host}
use cortex_cloud_api.Middleware.{trace, app, set_id}
use cortex_cloud_api.Middleware.Order.{
  paid_run, forward_run, going_on, settled_with, trace_run, unlimited_run,
}
use cortex_cloud_api.RateLimit.{Luck, is_rate_limited, x402_rate_limit}
use cortex_cloud_api.X402.{
  Outside, Reply, replied, payment_header, judge_verify, judge_settle, approved,
}
use cortex_cloud_api.X402.Challenge.{X402Settings, price_of, validation_body}
use cortex_cloud_api.X402.Data.{Query, url_of, unserved, answer, serve}
use cortex_cloud_api.X402.Outcomes.{reply_to, posted_to}
use cortex_cloud_api.X402.Pricing.{usd_to_usdc_atomic}

answer-unserved :
    (upstream : String → Reply) (query : Query) (code : ℕ) (text : String) (json : Option Json)
    → upstream (url_of query) ≡ replied code text json
    → (code == 200) ≡ false
    → answer upstream query ≡ ok (unserved query text)
unfolding answer
answer-unserved upstream query code text json u n = rw u (rw n refl)

module _ (settings : X402Settings) (out : Outside) (luck : Luck) (uuid4 : Edge → String)
    (upstream : String → Reply) (query : Query) (request : Request) (s : Edge) where
  abbrev pub inside : Handler
  inside = x402_rate_limit luck (trace uuid4 (λ id. serve upstream query))

  -- When a request to /x402/v1 that a price is asked for presents a payment, which the facilitator
  -- verifies and settles, the limit is not reached, and the service behind the data endpoint answers
  -- with a status that is not 200, then the client gets a 502, with at most 300 characters of what the
  -- service wrote, together with the settlement: the call is paid for.
  pub settled_then_unserved :
      (price header text : String) (payment verify_data settle_data : Json) (code : ℕ)
      (json : Option Json)
      → price_of settings request ≡ some price
      → payment_header settings out request ≡ some header
      → out.decode_payment header ≡ some payment
      → judge_verify (
          reply_to settings out inside request verify
            (validation_body settings (usd_to_usdc_atomic price) payment)
            s)
        ≡ approved verify_data
      → judge_settle (
          reply_to settings out inside request settle
            (validation_body settings (usd_to_usdc_atomic price) payment)
            (posted_to settings out inside request verify
              (validation_body settings (usd_to_usdc_atomic price) payment)
              s))
        ≡ approved settle_data
      → starts_with (codes request.path) (codes "/x402/v1") ≡ true
      → (is_rate_limited luck (concat "ratelimit:x402:ip:" (client_host request)) 60 60 (
          going_on request (
            posted_to settings out inside request settle
              (validation_body settings (usd_to_usdc_atomic price) payment)
              (posted_to settings out inside request verify
                (validation_body settings (usd_to_usdc_atomic price) payment)
                s)))).0
        ≡ ok false
      → upstream (url_of query) ≡ replied code text json
      → (code == 200) ≡ false
      → (id : String) × ((app uuid4 settings out luck (λ id. serve upstream query) request s).0
          ≡ ok (settled_with settle_data (set_id uuid4 id (unserved query text))))
  unfolding app
  settled_then_unserved price header text payment verify_data settle_data code json a p d v e g l u
        n =
      (
        _,
        ap (λ (r : Result Response × Edge). r.0)
              (paid_run settings out inside request s price header payment verify_data settle_data a
                p d v e)
            ∙ forward_run settings out inside request settle_data _ _ (
                unlimited_run luck (trace uuid4 (λ id. serve upstream query)) request _ g l
                ∙ trace_run uuid4 (λ id. serve upstream query) request _ (unserved query text)
                    (answer-unserved upstream query code text json u n)),
      )
