-- ===== src/X402/Pricing.antt =====
-- app/x402/pricing.py: the prices of the paid routes.
use cortex_cloud_api.Prelude.{
  ℕ, zero, suc, ◌+◌, ◌-◌, ◌*◌, ◌^◌, String, str_eq, ◌&&◌, Option, none, some, List, [], ◌∷◌, leb,
  ◌==◌, if◌then◌else◌,
}
use cortex_cloud_api.Prelude.Text.{codes, path_after_space}

abbrev pub or_else : Option String → Option String → Option String
or_else (some later) o = some later
or_else none o = o

-- A dict of texts. Of two entries with one key, the later counts.
abbrev pub get : String → List (String × String) → Option String
get key [] = none
get key ((k, v) ∷ entries) = or_else (get key entries) (if str_eq k key then some v else none)

abbrev pub route_pricing : List (String × String)
route_pricing =
    ("POST /x402/v1/chat/completions", "$0.005")
    ∷ ("POST /x402/v1/responses", "$0.005")
    ∷ ("POST /x402/v1/embeddings", "$0.001")
    ∷ ("GET /x402/v1/models", "$0.00")
    ∷ ("GET /x402/v1/data/base/balance", "$0.001")
    ∷ ("GET /x402/v1/data/base/token-balance", "$0.001")
    ∷ ("GET /x402/v1/data/base/nonce", "$0.001")
    ∷ ("GET /x402/v1/data/prices", "$0.001")
    ∷ ("GET /x402/v1/data/coins/search", "$0.001")
    ∷ ("GET /x402/v1/data/dex/search", "$0.001")
    ∷ ("GET /x402/v1/data/dex/pairs", "$0.001")
    ∷ []

abbrev pub route_descriptions : List (String × String)
route_descriptions =
    (
      "POST /x402/v1/chat/completions",
      "OpenAI-compatible chat completions via CortexCloud AI gateway.",
    )
    ∷ (
      "POST /x402/v1/responses",
      "OpenAI-compatible chat completions (alias) via CortexCloud AI gateway.",
    )
    ∷ ("POST /x402/v1/embeddings", "OpenAI-compatible text embeddings via CortexCloud AI gateway.")
    ∷ []

-- The views by path of the two tables: a key loses its method.
abbrev by_path : List (String × String) → List (String × String)
by_path [] = []
by_path ((k, v) ∷ entries) = (path_after_space k, v) ∷ by_path entries

abbrev pub path_pricing : List (String × String)
path_pricing = by_path route_pricing

abbrev pub path_descriptions : List (String × String)
path_descriptions = by_path route_descriptions

abbrev digit : ℕ → Option ℕ
digit c = if leb b'0' c && leb c b'9' then some (c - 48) else none

-- The digits after the point: six places count, the rest is cut off.
abbrev fraction : ℕ → ℕ → List ℕ → ℕ
fraction places amount [] = amount * 10 ^ places
fraction zero amount (c ∷ s) = elim (digit c) [ none ↦ 0 | some d ↦ fraction zero amount s ]
fraction (suc places) amount (c ∷ s) = elim (digit c) [
  | none ↦ 0
  | some d ↦ fraction places (10 * amount + d) s
]

abbrev whole : ℕ → List ℕ → ℕ
whole amount [] = amount * 1_000_000
whole amount (c ∷ s) =
    if c == b'.'
    then fraction 6 amount s
    else elim (digit c) [ none ↦ 0 | some d ↦ whole (10 * amount + d) s ]

abbrev lstrip_dollar : List ℕ → List ℕ
lstrip_dollar [] = []
lstrip_dollar (c ∷ s) = if c == b'$' then lstrip_dollar s else c ∷ s

-- The micro-dollars of a price, 0 for a text that is no decimal number. The source multiplies
-- floats, whose product is exact on the prices of the table. (`float` also reads signs, exponents and
-- blanks, which the table does not use.)
unfoldable pub usd_to_usdc_atomic : String → ℕ
usd_to_usdc_atomic price = whole 0 (lstrip_dollar (codes price))
