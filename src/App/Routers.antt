-- ===== src/App/Routers.antt =====
-- app/main.py: the table of routes, from the decorators of the operations. Of several decorators of one
-- operation the last is the first route.
use cortex_cloud_api.Prelude.{Bool, List, [], ◌∷◌, ◌++◌, if◌then◌else◌}
use cortex_cloud_api.App.{
  chat_completions, embeddings, activity, pricing, list_models, register, login, get_me, create_key,
  list_keys, revoke_key, get_balance, get_transactions, simulated_deposit, get_analytics,
  get_request_history, get_dashboard_models, admin_create_model, admin_toggle_model,
  admin_view_users, admin_view_keys, admin_view_usage, admin_view_revenue, admin_provider_health,
  x402_chat_completions, x402_embeddings, x402_list_models, bazaar_discovery, mcp_sse, x402_status,
  data_prices, data_coin_search, data_dex_search, data_dex_pairs, base_balance, base_token_balance,
  base_nonce, favicon, home, x402_discovery, exact, with_param, Route, route, include_router,
}

abbrev pub completions_router : List Route
completions_router =
    route "POST" (exact "/responses") chat_completions
    ∷ route "POST" (exact "/chat/completions") chat_completions
    ∷ route "POST" (exact "/embeddings") embeddings
    ∷ []

abbrev pub activity_router : List Route
activity_router = route "GET" (exact "/activity") activity ∷ []

abbrev pub pricing_router : List Route
pricing_router = route "GET" (exact "/pricing") pricing ∷ []

abbrev pub models_router : List Route
models_router = route "GET" (exact "/models") list_models ∷ []

abbrev pub dashboard_router : List Route
dashboard_router =
    route "POST" (exact "/auth/register") register
    ∷ route "POST" (exact "/auth/login") login
    ∷ route "GET" (exact "/auth/me") get_me
    ∷ route "POST" (exact "/api-keys") create_key
    ∷ route "GET" (exact "/api-keys") list_keys
    ∷ route "DELETE" (with_param "/api-keys/" "") revoke_key
    ∷ route "GET" (exact "/billing/balance") get_balance
    ∷ route "GET" (exact "/billing/transactions") get_transactions
    ∷ route "POST" (exact "/billing/deposit") simulated_deposit
    ∷ route "GET" (exact "/analytics") get_analytics
    ∷ route "GET" (exact "/requests") get_request_history
    ∷ route "GET" (exact "/models") get_dashboard_models
    ∷ []

abbrev pub admin_router : List Route
admin_router =
    route "POST" (exact "/models") admin_create_model
    ∷ route "PATCH" (with_param "/models/" "/toggle") admin_toggle_model
    ∷ route "GET" (exact "/users") admin_view_users
    ∷ route "GET" (exact "/api-keys") admin_view_keys
    ∷ route "GET" (exact "/usage") admin_view_usage
    ∷ route "GET" (exact "/revenue") admin_view_revenue
    ∷ route "GET" (exact "/provider-health") admin_provider_health
    ∷ []

abbrev pub x402_router : List Route
x402_router =
    route "POST" (exact "/responses") x402_chat_completions
    ∷ route "POST" (exact "/chat/completions") x402_chat_completions
    ∷ route "POST" (exact "/embeddings") x402_embeddings
    ∷ route "GET" (exact "/models") x402_list_models
    ∷ []

abbrev pub bazaar_router : List Route
bazaar_router =
    route "GET" (exact "/.well-known/bazaar") bazaar_discovery
    ∷ route "GET" (exact "/mcp") mcp_sse
    ∷ []

abbrev pub status_router : List Route
status_router = route "GET" (exact "/status") x402_status ∷ []

abbrev pub data_router : List Route
data_router =
    route "GET" (exact "/data/prices") data_prices
    ∷ route "GET" (exact "/data/coins/search") data_coin_search
    ∷ route "GET" (exact "/data/dex/search") data_dex_search
    ∷ route "GET" (exact "/data/dex/pairs") data_dex_pairs
    ∷ []

abbrev pub onchain_router : List Route
onchain_router =
    route "GET" (exact "/data/base/balance") base_balance
    ∷ route "GET" (exact "/data/base/token-balance") base_token_balance
    ∷ route "GET" (exact "/data/base/nonce") base_nonce
    ∷ []

-- The routers that are included when payments are on.
abbrev pub x402_routes : List Route
x402_routes =
    include_router x402_router "/x402/v1"
    ++ (include_router bazaar_router "/x402/v1"
        ++ (include_router status_router "/x402/v1"
            ++ (include_router data_router "/x402/v1" ++ include_router onchain_router "/x402/v1")))

abbrev pub routes : Bool → List Route
routes x402_active =
    route "GET" (exact "/favicon.ico") favicon
    ∷ route "GET" (exact "/health") favicon
    ∷ route "GET" (exact "/") home
    ∷ (include_router completions_router "/v1"
        ++ (include_router activity_router "/x402/v1"
            ++ (include_router pricing_router "/x402/v1"
                ++ (include_router models_router "/v1"
                    ++ (include_router dashboard_router "/v1/dashboard"
                        ++ (include_router admin_router "/v1/admin"
                            ++ ((if x402_active then x402_routes else [])
                                ++ route "GET" (exact "/.well-known/x402.json") x402_discovery
                                  ∷ [])))))))
