-- ===== src/Tests/Routes.antt =====
-- Routing: a request whose primary provider is overloaded.
use cortex_cloud_api.Prelude.{String, ◌≡◌, refl, arith}
use cortex_cloud_api.Effects.{Exec}
use cortex_cloud_api.Database.{ModelRegistry, World}
use cortex_cloud_api.Registry.{get_model_by_name}
use cortex_cloud_api.Routing.{
  execute_with_retry, retry_from, provider_map, get_provider, get_provider_api_key,
}
use cortex_cloud_api.Routing.Routes.{execute_request, route_with_fallback, route_chat_completion}
use cortex_cloud_api.Routing.Retry.{IsRetry, execute_with_retry_lem}
use cortex_cloud_api.Routing.Rounds.{retry_from-terminates}
use cortex_cloud_api.Routing.Fallback.{Routed, route_with_fallback-Routed}
use cortex_cloud_api.Routing.{Provider, ProviderKeys}
use cortex_cloud_api.Registry.{toggle_model_active}
use cortex_cloud_api.Prelude.{false, none, some}
use cortex_cloud_api.Effects.{ok}
use cortex_cloud_api.Tests.Samples.{gpt, sonnet, world, provider_keys, answers}

abbrev ask : ModelRegistry → Exec World String
ask model = execute_request provider_keys answers "cid" "hi" model

-- Three calls of the primary provider, then one of the fallback's.
fallback_calls : (route_chat_completion provider_keys answers "sonnet" "hi" "cid" world).1.calls ≡ 4
unfolding route_chat_completion route_with_fallback get_model_by_name execute_with_retry retry_from
    execute_request get_provider get_provider_api_key provider_map
fallback_calls = refl

fallback_slept :
    (route_chat_completion provider_keys answers "sonnet" "hi" "cid" world).1.slept ≡ 1500
unfolding route_chat_completion route_with_fallback get_model_by_name execute_with_retry retry_from
    execute_request get_provider get_provider_api_key provider_map
fallback_slept = refl

execute_with_retry_lem_example : IsRetry (ask sonnet) world (execute_with_retry (ask sonnet) world)
execute_with_retry_lem_example = execute_with_retry_lem (ask sonnet) world

route_with_fallback-Routed_example :
    Routed
      (λ m. execute_with_retry (ask m))
      "sonnet"
      world
      (route_with_fallback (λ m. execute_with_retry (ask m)) "sonnet" world).0
      (route_with_fallback (λ m. execute_with_retry (ask m)) "sonnet" world).1
route_with_fallback-Routed_example =
    route_with_fallback-Routed (λ m. execute_with_retry (ask m)) "sonnet" world

abbrev no_keys : ProviderKeys
no_keys provider = none

openai_known : provider_map gpt.provider ≡ some Provider.openai
unfolding provider_map
openai_known = refl

switched : (toggle_model_active 2 false world).0 ≡ ok (some (record gpt { is_active = false }))
unfolding toggle_model_active
switched = refl

retry_from-terminates_example :
    retry_from (ask sonnet) 3 10 0 none world ≡ retry_from (ask sonnet) 3 3 0 none world
retry_from-terminates_example =
    retry_from-terminates (ask sonnet) 3 10 none world (omega arith) (omega arith)
