-- ===== src/OnChain.antt =====
-- app/x402/onchain_routes.py: reads of the Base chain over several public RPC endpoints. What an
-- endpoint answers to a payload is a parameter.
pub mod Fallback
use cortex_cloud_api.Prelude.{
  ℕ, zero, suc, ◌-◌, String, str_eq, Bool, true, false, ◌||◌, Option, none, some, List, [], ◌∷◌,
  ◌++◌, length, any, ◌==◌, if◌then◌else◌,
}
use cortex_cloud_api.Prelude.Int.{pos}
use cortex_cloud_api.Prelude.Text.{codes, eq_codes, starts_with, contains, lower}
use cortex_cloud_api.Effects.{Exn, other, message, Result, ok, raised}
use cortex_cloud_api.Json.{
  Json, null, boolean, int, float, str, arr, obj, elems, elems_of, object_of, lookup_field,
}
use cortex_cloud_api.Usage.Uuid.{remove_from, hex_value}
use cortex_cloud_api.X402.{Reply, failed, replied}

abbrev pub rpc_endpoints : List String
rpc_endpoints =
    "https://mainnet.base.org" ∷ "https://base-rpc.publicnode.com" ∷ "https://1rpc.io/base" ∷ []

-- `KNOWN_TOKENS.get(token.lower(), token)`
abbrev pub token_address : String → String
token_address token =
    if eq_codes (lower token) (codes "usdc")
    then "0x833589fCD6eDb6E08f4c7C32D4f71b54bdA02913"
    else if eq_codes (lower token) (codes "weth")
    then "0x4200000000000000000000000000000000000006"
    else if eq_codes (lower token) (codes "dai")
    then "0x50c5725949A6F0c72E6C4a641F24049A917DB0Cb"
    else if eq_codes (lower token) (codes "usdt")
    then "0xfde4C96c8593536E31F229EA8f37b2ADa2699bb2"
    else token

abbrev pub zeros : ℕ → List ℕ → List ℕ
zeros zero s = s
zeros (suc n) s = b'0' ∷ zeros n s

-- `a.lower().replace("0x", "").rjust(64, "0")`, by its code points.
unfoldable pub addr : String → List ℕ
addr a = let bare = remove_from (codes "0x") 0 (lower a) in zeros (64 - length bare) bare

abbrev is_result : Json → Bool
is_result (str s) = str_eq s "result"
is_result _ = false

-- `"result" in j`; `none` is a TypeError.
abbrev pub has_result : Json → Option Bool
has_result (obj fields) = elim (lookup_field "result" fields) [
  | none ↦ some false
  | some v ↦ some true
]
has_result (arr es) = some (any is_result (elems es))
has_result (str s) = some (contains (codes s) (codes "result"))
has_result _ = none

abbrev keep_if : Option Bool → Json → Option Json
keep_if (some true) j = some j
keep_if _ j = none

abbrev result_of : Option Json → Option Json
result_of none = none
result_of (some j) = keep_if (has_result j) j

-- What a reply is good for: a JSON value with a result, under status 200.
abbrev pub answer_of : Reply → Option Json
answer_of failed = none
answer_of (replied status_code text json) = if status_code == 200 then result_of json else none

abbrev pub payload_of : String → List Json → Json
payload_of method params = object_of (
    ("jsonrpc", str "2.0")
    ∷ ("method", str method)
    ∷ ("params", arr (elems_of params))
    ∷ ("id", int (pos 1))
    ∷ [])

-- `int(hexstr, 16)`, on hexadecimal digits with or without 0x; other texts, which Python reads in
-- part, are refused here.
abbrev drop_two : List ℕ → List ℕ
drop_two (a ∷ b ∷ s) = s
drop_two s = s

abbrev strip_0x : List ℕ → List ℕ
strip_0x s = if starts_with s (codes "0x") then drop_two s else s

abbrev value_error : Exn
value_error = other (message "ValueError")

abbrev pub decode_hex : List ℕ → Result ℕ
decode_hex [] = raised value_error
decode_hex (c ∷ s) = elim (hex_value (some 0) (c ∷ s)) [ none ↦ raised value_error | some n ↦ ok n ]

abbrev pub decode_hex_int : Json → Result ℕ
decode_hex_int (str s) = decode_hex (strip_0x (codes s))
decode_hex_int _ = raised (other (message "TypeError"))

-- `res["result"]`, of a value that is no object a TypeError.
abbrev read_result : Json → Result Json
read_result (obj fields) = elim (lookup_field "result" fields) [
  | none ↦ raised (other (message "KeyError"))
  | some v ↦ ok v
]
read_result _ = raised (other (message "TypeError"))

-- What an endpoint answers: a number, or the error `upstream_base_rpc` with status 502.
pub data Reading : Type 0 where
  upstream_error : Reading
  number : ℕ → Reading

abbrev as_number : Result ℕ → Result Reading
as_number (ok n) = ok (number n)
as_number (raised e) = raised e

abbrev decoded : (Json → Result ℕ) → Result Json → Result Reading
decoded decode (ok v) = as_number (decode v)
decoded decode (raised e) = raised e

abbrev reading : (Json → Result ℕ) → Option Json → Result Reading
reading decode none = ok upstream_error
reading decode (some j) = decoded decode (read_result j)

-- A result that is no text with 0x counts as nought.
abbrev decode_balance : Json → Result ℕ
decode_balance (str s) = if starts_with (codes s) (codes "0x") then decode_hex_int (str s) else ok 0
decode_balance _ = ok 0

module _ (post : String → Json → Reply) where
  -- The answer, and the endpoints that were asked.
  abbrev pub try_next :
      Json → String → Option Json → Option Json × List String → Option Json × List String
  try_next payload url (some j) rest = (some j, url ∷ [])
  try_next payload url none rest = (rest.0, url ∷ rest.1)

  unfoldable pub call_from : Json → List String → Option Json × List String
  call_from payload [] = (none, [])
  call_from payload (url ∷ urls) =
      try_next payload url (answer_of (post url payload)) (call_from payload urls)

  unfoldable pub rpc_call : String → List Json → Option Json × List String
  rpc_call method params = call_from (payload_of method params) rpc_endpoints

  -- The balance in wei; the response also has it as a float of ether.
  unfoldable pub base_balance : String → Result Reading
  base_balance address =
      reading decode_hex_int (rpc_call "eth_getBalance" (str address ∷ str "latest" ∷ [])).0

  unfoldable pub base_nonce : String → Result Reading
  base_nonce address =
      reading decode_hex_int
        (rpc_call "eth_getTransactionCount" (str address ∷ str "latest" ∷ [])).0

  -- `text` writes code points as a text.
  unfoldable pub base_token_balance : (List ℕ → String) → String → String → Result Reading
  base_token_balance text address token =
      reading decode_balance
        (rpc_call "eth_call" (
          object_of (
            ("to", str (token_address token))
            ∷ ("data", str (text (codes "0x70a08231" ++ addr address)))
            ∷ [])
          ∷ str "latest"
          ∷ [])).0
