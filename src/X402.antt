-- ===== src/X402.antt =====
-- app/middleware/x402.py: the paywall. The facilitator, base64 and the signing of its headers are
-- parameters.
pub mod Pricing
pub mod Schemas
pub mod Challenge
pub mod Outcomes
pub mod Prices
pub mod Mcp
pub mod Data
pub mod Quotes
pub mod Discovery
pub mod Listed
pub mod Status
pub mod Health
use cortex_cloud_api.Prelude.{
  ℕ, String, str_eq, Bool, true, false, ◌&&◌, ◌||◌, not, Option, none, some, List, [], ◌∷◌, ◌++◌,
  ◌==◌, if◌then◌else◌,
}
use cortex_cloud_api.Prelude.Int.{pos}
use cortex_cloud_api.Prelude.Text.{codes, concat, starts_with, is_empty}
use cortex_cloud_api.Effects.{Result, ok, raised, Exec, pure, gets, ◌>>=◌, ◌>>◌, modify}
use cortex_cloud_api.Json.{
  Json, null, boolean, int, str, arr, obj, elems_of, object_of, lookup_field, is_true,
}
use cortex_cloud_api.Edge.{
  Request, Response, Edge, Event, posted, forwarded, Endpoint, verify, settle, Handler,
}
use Pricing.{path_pricing, path_descriptions, get, usd_to_usdc_atomic}
use Schemas.{bazaar_schemas}
use Challenge.{
  X402Settings, challenge, charged, error_of, error_with, given, has_bearer, is_given,
  payment_requirements, price_of, requirements, respond, validation_body,
}

-- What a POST gives: an exception, or a response: its status code, its text and, unless it is no
-- JSON, its value.
pub data Reply : Type 0 where
  failed : Reply
  replied : ℕ → String → Option Json → Reply

abbrev pub Headers : Type 0
Headers = List (String × String)

pub record Outside : Type 0 where
  -- `json.loads(base64.b64decode(header))`; `none` is an exception
  pub decode_payment : String → Option Json
  -- `create_cdp_auth_headers(id, secret)()`; `none` is an exception
  pub cdp_auth_headers : String → String → Option (Endpoint → Headers)
  -- the facilitator's reply, after the events so far
  pub post : List Event → Endpoint → Json → Headers → Reply

abbrev pub undecodable : Response
undecodable =
    respond 400
      (error_of "Invalid X-PAYMENT header format. Must be base64-encoded JSON PaymentPayload.")

-- `data.get(key, False)`, by its truth value; `none` is the exception of a value without `get`.
abbrev pub flag : String → Json → Option Bool
flag key (obj fields) = elim (lookup_field key fields) [
  | none ↦ some false
  | some v ↦ some (is_true v)
]
flag key _ = none

abbrev either : Option Bool → Option Bool → Option Bool
either none b = none
either (some true) b = some true
either (some false) b = b

-- What the answer to a POST comes to: it failed, it was refused with a response, or it is approved.
pub data Verdict : Type 0 where
  refused : Response → Verdict
  approved : Json → Verdict

abbrev judge_data : Option Bool → Json → Response → Response → Verdict
judge_data none json broken invalid = refused broken
judge_data (some false) json broken invalid = refused invalid
judge_data (some true) json broken invalid = approved json

abbrev judge : String → String → String → (Json → Option Bool) → Reply → Verdict
judge network_error status_error invalid test failed =
    refused (respond 502 (error_of network_error))
judge network_error status_error invalid test (replied status_code text json) =
    if status_code == 200
    then elim json [
      | none ↦ refused (respond 502 (error_of network_error))
      | some value ↦
          judge_data (test value) value (respond 502 (error_of network_error))
            (respond 402 (error_with invalid value))
    ]
    else refused (respond 402 (error_of (concat status_error text)))

unfoldable pub judge_verify : Reply → Verdict
judge_verify =
    judge "CDP facilitator verification network error." "Facilitator verification failed: "
      "Payment signature is invalid." (λ json. either (flag "isValid" json) (flag "success" json))

unfoldable pub judge_settle : Reply → Verdict
judge_settle =
    judge "CDP facilitator settlement network error." "Facilitator settlement failed: "
      "Payment settlement failed." (flag "success")

module _ (settings : X402Settings) (out : Outside) where
  -- A static Bearer key goes with every call, unless the keys for signing are set.
  abbrev facilitator_headers : Headers
  facilitator_headers = elim (given settings.facilitator_api_key) [
    | none ↦ []
    | some key ↦ ("Authorization", concat "Bearer " key) ∷ []
  ]

  abbrev content_type : Headers
  content_type = ("Content-Type", "application/json") ∷ []

  unfoldable pub headers_for : Endpoint → Headers
  headers_for endpoint = elim (given settings.facilitator_api_key_id) [
    | none ↦ content_type ++ facilitator_headers
    | some id ↦ elim (given settings.facilitator_api_key_secret) [
      | none ↦ content_type ++ facilitator_headers
      | some secret ↦ elim (out.cdp_auth_headers id secret) [
        | none ↦ content_type
        | some headers ↦ content_type ++ headers endpoint
      ]
    ]
  ]

  abbrev pub post_to : Endpoint → Json → Exec Edge Reply
  post_to endpoint body s = (
    ok (out.post s.events endpoint body (headers_for endpoint)),
    record s { events = s.events ++ posted endpoint body (headers_for endpoint) ∷ [] },
  )

  -- `request.headers.get("X-PAYMENT") or request.headers.get("PAYMENT-SIGNATURE")`
  abbrev pub payment_header : Request → Option String
  payment_header request = elim (given request.x_payment) [
    | some x ↦ some x
    | none ↦ given request.payment_signature
  ]

  module _ (call_next : Handler) (request : Request) where
    abbrev pub forward : Exec Edge Response
    forward = do
      modify (λ s. record s { events = s.events ++ forwarded request ∷ [] })
      call_next request

    abbrev pub add_response : Json → Response → Exec Edge Response
    add_response settle_data response = pure (record response {
      payment_response =
          some (object_of (("success", boolean true) ∷ ("details", settle_data) ∷ []));
    })

    abbrev pub after_settle : Verdict → Exec Edge Response
    after_settle (refused response) = pure response
    after_settle (approved settle_data) = forward >>= add_response settle_data

    abbrev pub after_verify : Json → Verdict → Exec Edge Response
    after_verify body (refused response) = pure response
    after_verify body (approved verify_data) = do
      reply ← post_to settle body
      after_settle (judge_settle reply)

    abbrev pub charge_payment : ℕ → String → Exec Edge Response
    charge_payment amount header = elim (out.decode_payment header) [
      | none ↦ pure undecodable
      | some payment ↦ do
        reply ← post_to verify (validation_body settings amount payment)
        after_verify (validation_body settings amount payment) (judge_verify reply)
    ]

    abbrev pub demand : ℕ → Exec Edge Response
    demand amount = elim (payment_header request) [
      | none ↦ pure (challenge settings request.path amount)
      | some header ↦ charge_payment amount header
    ]

    -- `X402PaymentMiddleware.dispatch`
    unfoldable pub dispatch : Exec Edge Response
    dispatch = elim (price_of settings request) [
      | none ↦ forward
      | some price ↦ demand (usd_to_usdc_atomic price)
    ]
