-- ===== src/X402/Data.antt =====
-- app/x402/data_routes.py: the data marketplace. What CoinGecko and DEXScreener answer to a URL is a
-- parameter.
pub mod Unserved
use cortex_cloud_api.Prelude.{String, Option, none, some, [], ◌∷◌, ◌==◌, if◌then◌else◌}
use cortex_cloud_api.Prelude.Strings.{take_chars}
use cortex_cloud_api.Prelude.Text.{concat}
use cortex_cloud_api.Effects.{Exn, other, message, Result, ok, raised}
use cortex_cloud_api.Json.{Json, str, object_of}
use cortex_cloud_api.Edge.{Response, Handler}
use cortex_cloud_api.X402.{Reply, failed, replied}
use cortex_cloud_api.X402.Challenge.{respond}

-- The four endpoints with their query parameters.
pub data Query : Type 0 where
  -- `data_prices(ids, vs)`
  prices : String → String → Query
  -- `data_coin_search(q)`
  coin_search : String → Query
  -- `data_dex_search(q)`
  dex_search : String → Query
  -- `data_dex_pairs(chain, pair)`
  dex_pairs : String → String → Query

abbrev cg_base : String
cg_base = "https://api.coingecko.com/api/v3"

abbrev dex_base : String
dex_base = "https://api.dexscreener.com/latest/dex"

-- The parameters go into the URL as they are.
unfoldable pub url_of : Query → String
url_of (prices ids vs) =
    concat cg_base (concat "/simple/price?ids=" (concat ids (concat "&vs_currencies=" vs)))
url_of (coin_search q) = concat cg_base (concat "/search?query=" q)
url_of (dex_search q) = concat dex_base (concat "/search?q=" q)
url_of (dex_pairs chain pair) = concat dex_base (concat "/tokens/" (concat chain (concat "/" pair)))

abbrev pub error_name : Query → String
error_name (prices ids vs) = "upstream_coingecko"
error_name (coin_search q) = "upstream_coingecko"
error_name (dex_search q) = "upstream_dexscreener"
error_name (dex_pairs chain pair) = "upstream_dexscreener"

-- The answer to a status that is not 200.
abbrev pub unserved : Query → String → Response
unserved query text =
    respond 502
      (object_of (("error", str (error_name query)) ∷ ("detail", str (take_chars 300 text)) ∷ []))

-- `JSONResponse(r.json())`
abbrev pub served : Option Json → Result Response
served none = raised (other (message "JSONDecodeError"))
served (some value) = ok (respond 200 value)

abbrev pub relayed : Query → Reply → Result Response
relayed query failed = raised (other (message "RequestError"))
relayed query (replied status_code text json) =
    if status_code == 200 then served json else ok (unserved query text)

unfoldable pub answer : (String → Reply) → Query → Result Response
answer upstream query = relayed query (upstream (url_of query))

-- The endpoint that a request with the parameters of `query` reaches.
abbrev pub serve : (String → Reply) → Query → Handler
serve upstream query request s = (answer upstream query, s)
