-- ===== src/X402/Challenge.antt =====
-- app/middleware/x402.py: which requests are asked for a price, and the challenge that says so.
use cortex_cloud_api.Prelude.{
  ℕ, String, str_eq, Bool, true, false, ◌&&◌, ◌||◌, not, Option, none, some, [], ◌∷◌, if◌then◌else◌,
}
use cortex_cloud_api.Prelude.Int.{pos}
use cortex_cloud_api.Prelude.Text.{codes, concat, starts_with, is_empty}
use cortex_cloud_api.Json.{Json, int, str, arr, elems_of, object_of}
use cortex_cloud_api.Edge.{Request, Response}
use cortex_cloud_api.X402.Pricing.{path_pricing, path_descriptions, get}
use cortex_cloud_api.X402.Schemas.{bazaar_schemas}

pub record X402Settings : Type 0 where
  pub enabled : Bool
  pub wallet_address : Option String
  pub network : String
  pub resource_base : String
  pub facilitator_api_key : Option String
  pub facilitator_api_key_id : Option String
  pub facilitator_api_key_secret : Option String

-- A text that is there and not empty.
abbrev pub given : Option String → Option String
given none = none
given (some s) = if is_empty s then none else some s

abbrev pub is_given : Option String → Bool
is_given o = elim (given o) [ none ↦ false | some s ↦ true ]

abbrev get_or : Option String → String → String
get_or none default = default
get_or (some s) default = s

-- A request with a Bearer key passes, except on the paths of /x402/.
abbrev pub has_bearer : Request → Bool
has_bearer request = elim (given request.authorization) [
  | none ↦ false
  | some auth ↦
      starts_with (codes auth) (codes "Bearer ")
      && not (starts_with (codes request.path) (codes "/x402/"))
]

-- A free route is passed, and so is a request with a key.
abbrev pub charged : Bool → Option String → Option String
charged bearer none = none
charged bearer (some price) = if str_eq price "$0.00" || bearer then none else some price

-- The price that a request is asked for, if any.
unfoldable pub price_of : X402Settings → Request → Option String
price_of settings request =
    if not settings.enabled || not (is_given settings.wallet_address)
    then none
    else charged (has_bearer request) (get request.path path_pricing)

-- The amount, whose text the source sends, is kept as the number.
unfoldable pub payment_requirements : X402Settings → ℕ → Json
payment_requirements settings amount = object_of (
    ("scheme", str "exact")
    ∷ ("network", str settings.network)
    ∷ ("asset", str "0x833589fCD6eDb6E08f4c7C32D4f71b54bdA02913")
    ∷ ("amount", int (pos amount))
    ∷ ("payTo", str (get_or settings.wallet_address ""))
    ∷ ("maxTimeoutSeconds", int (pos 60))
    ∷ ("extra", object_of (("name", str "USD Coin") ∷ ("version", str "2") ∷ []))
    ∷ [])

abbrev body_schema : String → Json → Json
body_schema name schema = object_of (("properties", object_of ((name, schema) ∷ [])) ∷ [])

unfoldable pub requirements : X402Settings → String → ℕ → Json
requirements settings path amount =
    let schemas = bazaar_schemas path in
    object_of (
      ("x402Version", int (pos 2))
      ∷ (
        "resource",
        object_of (
            ("url", str (concat settings.resource_base path))
            ∷ (
              "description",
              str (get_or (get path path_descriptions) "CortexCloud API resource access"),
            )
            ∷ ("mimeType", str "application/json")
            ∷ []),
      )
      ∷ ("accepts", arr (elems_of (payment_requirements settings amount ∷ [])))
      ∷ (
        "extensions",
        object_of (
            (
              "bazaar",
              object_of (
                  (
                    "schema",
                    object_of (
                        (
                          "properties",
                          object_of (
                              ("input", body_schema "body" schemas.input)
                              ∷ ("output", body_schema "example" schemas.output)
                              ∷ []),
                        )
                        ∷ []),
                  )
                  ∷ []),
            )
            ∷ []),
      )
      ∷ [])

unfoldable pub validation_body : X402Settings → ℕ → Json → Json
validation_body settings amount payment = object_of (
    ("x402Version", int (pos 2))
    ∷ ("paymentPayload", payment)
    ∷ ("paymentRequirements", payment_requirements settings amount)
    ∷ [])

abbrev pub respond : ℕ → Json → Response
respond status_code content = record {
  status_code = status_code;
  content = content;
  payment_required = none;
  payment_response = none;
  correlation_id = none;
}

abbrev pub error_of : String → Json
error_of text = object_of (("error", str text) ∷ [])

abbrev pub error_with : String → Json → Json
error_with text details = object_of (("error", str text) ∷ ("details", details) ∷ [])

abbrev pub challenge : X402Settings → String → ℕ → Response
challenge settings path amount = record (respond 402 (requirements settings path amount)) {
  payment_required = some (requirements settings path amount);
}
