-- ===== src/X402/Quotes.antt =====
-- app/x402/bazaar_routes.py and app/middleware/x402.py: what the MCP endpoint quotes and what the
-- paywall asks for.
use cortex_cloud_api.Prelude.{
  ℕ, ◌+◌, ◌*◌, ◌-◌, ◌≡◌, refl, sym, ap, subst, ◌∙◌, ◌⊎◌, inl, inr, String, str_eq, Bool, true,
  false, not, ◌&&◌, Option, none, some, Option-cases, List, [], ◌∷◌,
}
use cortex_cloud_api.Prelude.Strings.{concat_cancel}
use cortex_cloud_api.Prelude.Text.{codes, concat, starts_with, path_after_space}
use cortex_cloud_api.Edge.{Request}
use cortex_cloud_api.Json.{Json, str, obj, lookup_field}
use cortex_cloud_api.Providers.{Python}
use cortex_cloud_api.X402.Challenge.{X402Settings, price_of, is_given, given, has_bearer, charged}
use cortex_cloud_api.X402.Mcp.{call_tool}
use cortex_cloud_api.X402.Pricing.{get, path_pricing, usd_to_usdc_atomic}

-- A text field, and a field, of an answer.
abbrev as_text : Option Json → Option String
as_text (some (str s)) = some s
as_text _ = none

abbrev field_of : String → Option Json → Option Json
field_of key (some (obj fs)) = lookup_field key fs
field_of key _ = none

abbrev pub endpoint_of : Json → Option String
endpoint_of answer = as_text (field_of "endpoint" (some answer))

-- The number that the digits of a text write.
abbrev digits : ℕ → List ℕ → ℕ
digits n [] = n
digits n (c ∷ s) = digits (10 * n + (c - 48)) s

abbrev number : Option String → Option ℕ
number none = none
number (some s) = some (digits 0 (codes s))

abbrev pub amount_of : Json → Option ℕ
amount_of answer =
    number (as_text (field_of "maxAmountRequired" (field_of "payment" (some answer))))

and_not : (b c : Bool) → c ≡ true → (b && not c) ≡ false
and_not true c h = rw h refl
and_not false c h = refl

-- On a path of /x402/ a Bearer key does not pass the paywall.
pub has_bearer_x402 :
    (request : Request)
    → starts_with (codes request.path) (codes "/x402/") ≡ true
    → has_bearer request ≡ false
has_bearer_x402 request h = elim (Option-cases (given request.authorization)) [
  | inl e ↦ rw (e, has_bearer) refl
  | inr (auth, e) ↦ rw (e, has_bearer) (and_not _ _ h)
]

-- A request to a path of /x402/ with a price is asked for it, when payments are on.
pub price_of_path :
    (settings : X402Settings) (request : Request) (path price : String)
    → settings.enabled ≡ true
    → is_given settings.wallet_address ≡ true
    → request.path ≡ path
    → starts_with (codes path) (codes "/x402/") ≡ true
    → get path path_pricing ≡ some price
    → str_eq price "$0.00" ≡ false
    → price_of settings request ≡ some price
unfolding price_of
price_of_path settings request path price on wallet e x listed asked =
    rw (on, wallet)
      (ap (λ o. charged (has_bearer request) o) (ap (λ p. get p path_pricing) e ∙ listed)
        ∙ ap (λ b. charged b (some price)) (has_bearer_x402 request (rw e x))
        ∙ rw asked refl)

abbrev IsQuoted : X402Settings → Request → Json → Type 0
IsQuoted settings request answer =
    (price : String) × (price_of settings request ≡ some price)
    × (amount_of answer ≡ some (usd_to_usdc_atomic price))

abbrev IsTool : String → Type 0
IsTool name = (name ≡ "chat_completions") ⊎ (name ≡ "embeddings")

path_of :
    (base path path' : String) → some (concat base path) ≡ some (concat base path') → path' ≡ path
path_of base path path' h = sym (concat_cancel base path path' (cc))

module _ (settings : X402Settings) (python : Python) (request : Request)
    (on : settings.enabled ≡ true) (wallet : is_given settings.wallet_address ≡ true) where
  IsQuoted-chat :
      endpoint_of (call_tool settings python (str "chat_completions"))
        ≡ some (concat settings.resource_base request.path)
      → IsQuoted settings request (call_tool settings python (str "chat_completions"))
  unfolding call_tool usd_to_usdc_atomic path_after_space
  IsQuoted-chat e = (
    "$0.005",
    price_of_path settings request "/x402/v1/chat/completions" "$0.005" on wallet
        (path_of settings.resource_base "/x402/v1/chat/completions" request.path e) refl refl refl,
    refl,
  )

  IsQuoted-embeddings :
      endpoint_of (call_tool settings python (str "embeddings"))
        ≡ some (concat settings.resource_base request.path)
      → IsQuoted settings request (call_tool settings python (str "embeddings"))
  unfolding call_tool usd_to_usdc_atomic path_after_space
  IsQuoted-embeddings e = (
    "$0.001",
    price_of_path settings request "/x402/v1/embeddings" "$0.001" on wallet
        (path_of settings.resource_base "/x402/v1/embeddings" request.path e) refl refl refl,
    refl,
  )

-- When payments are on, a request to the endpoint that the MCP answer for one of the two tools names is
-- asked for a price by the paywall, with a Bearer key or without, and the answer quotes that price.
pub call_tool-price_of :
    (settings : X402Settings) (python : Python) (request : Request) (name : String)
    → settings.enabled ≡ true
    → is_given settings.wallet_address ≡ true
    → IsTool name
    → endpoint_of (call_tool settings python (str name))
      ≡ some (concat settings.resource_base request.path)
    → IsQuoted settings request (call_tool settings python (str name))
call_tool-price_of settings python request name on wallet (inl chat) e =
    subst (λ n. IsQuoted settings request (call_tool settings python (str n))) (sym chat)
      (IsQuoted-chat settings python request on wallet (rw chat at e))
call_tool-price_of settings python request name on wallet (inr embeddings) e =
    subst (λ n. IsQuoted settings request (call_tool settings python (str n))) (sym embeddings)
      (IsQuoted-embeddings settings python request on wallet (rw embeddings at e))
