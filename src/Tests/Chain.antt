-- ===== src/Tests/Chain.antt =====
-- Reads of the chain, with a first endpoint that is down.
use cortex_cloud_api.Prelude.{String, str_eq, ◌≡◌, refl, some, [], ◌∷◌, if◌then◌else◌}
use cortex_cloud_api.Effects.{ok}
use cortex_cloud_api.Json.{Json, str, object_of}
use cortex_cloud_api.X402.{Reply, failed, replied}
use cortex_cloud_api.OnChain.{rpc_endpoints, payload_of, call_from, rpc_call, base_balance, number}
use cortex_cloud_api.OnChain.Fallback.{IsFirst, rpc_call-IsFirst}

abbrev post : String → Json → Reply
post url payload =
    if str_eq url "https://mainnet.base.org"
    then failed
    else replied 200 "" (some (object_of (("result", str "0xff") ∷ [])))

read : base_balance post "0x12" ≡ ok (number 255)
unfolding base_balance rpc_call call_from
read = refl

rpc_call-IsFirst_example :
    IsFirst post
      (payload_of "eth_getBalance" (str "0x12" ∷ []))
      rpc_endpoints
      (rpc_call post "eth_getBalance" (str "0x12" ∷ []))
rpc_call-IsFirst_example = rpc_call-IsFirst post "eth_getBalance" (str "0x12" ∷ [])
