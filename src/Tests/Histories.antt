-- ===== src/Tests/Histories.antt =====
-- A history of requests from the migrations on: a model is made, a user registers, pays in, makes a
-- key, and completes a chat with it.
use cortex_cloud_api.Prelude.{All, arith, ℕ, ◌≡◌, refl, String, Option, none, [], ◌∷◌, List}
use cortex_cloud_api.Prelude.Int.{ℤ, pos, ◌+ℤ◌, ◌-ℤ◌}
use cortex_cloud_api.Effects.{ok, raised, http, message}
use cortex_cloud_api.Database.{ModelRegistry, BillingAccount, World}
use cortex_cloud_api.Schemas.{text, EmbeddingsRequest, EmbeddingsResponse}
use cortex_cloud_api.Routing.{Provider, ProviderContext, Answer}
use cortex_cloud_api.Admin.{type_error, admin_view_revenue}
use cortex_cloud_api.Completions.{Call}
use cortex_cloud_api.Completions.Streams.{in_session}
use cortex_cloud_api.Books.{
  Write, waits, creates_model, registers, deposits, creates_key, completes, serve, serve_all,
  migrated,
}
use cortex_cloud_api.Books.Sums.{balances}
use cortex_cloud_api.Books.Sound.{IsSound}
use cortex_cloud_api.Books.Indexed.{serve_all-IsIndexed, migrated-IsIndexed, lookups_answer}
use cortex_cloud_api.Books.Tables.{IsIndexed}
use cortex_cloud_api.Books.Kept.{Pays}
use cortex_cloud_api.Dashboard.Decimals.{add_amount, round_28, column_value}
use cortex_cloud_api.Books.Revenue.{
  serve_all-IsSound, admin_view_revenue-balances, migrated-IsSound, HasMicros, IsShown,
}
use cortex_cloud_api.Security.{generate_api_key}
use cortex_cloud_api.Admin.{admin_create_model}
use cortex_cloud_api.Registry.{get_model_by_name, create_model}
use cortex_cloud_api.Routing.{
  execute_with_retry, retry_from, get_provider, get_provider_api_key, provider_map,
}
use cortex_cloud_api.Routing.Routes.{route_chat_completion, route_with_fallback, execute_request}
use cortex_cloud_api.Usage.{record_usage, account_to_charge, commit_usage, cost_of, round_half_even}
use cortex_cloud_api.Usage.Uuid.{uuid_of}
use cortex_cloud_api.Completions.{chat_completions}
use cortex_cloud_api.Dashboard.Accounts.{new_key, register, simulated_deposit, create_key}
use cortex_cloud_api.Tests.Samples.{crypto, gpt, usage_with}
use cortex_cloud_api.Tests.Completed.{services, keyed_request, call_with, ask}

abbrev str_item : ℤ → String
str_item _ = "1"

abbrev str_items : List ℤ → String
str_items _ = "[1]"

abbrev refusing : ℕ → Provider → ProviderContext → EmbeddingsRequest → Answer EmbeddingsResponse
refusing _ _ _ _ = record { result = raised (http 503 (message "overloaded")); took = 10 }

abbrev new_call : Call
new_call = record (call_with "00000000-0000-0000-0000-00000000002a") {
  api_key = new_key crypto 4 2 "ci" none none "9f";
}

abbrev history : List Write
history =
    creates_model gpt
    ∷ registers "a@b.co" "password" 0
    ∷ waits 1000
    ∷ deposits (record { units = pos 5; places = 0 }) 1
    ∷ deposits (record { units = pos 50; places = 2 }) 1
    ∷ creates_key 1 "ci" none none "9f"
    ∷ completes keyed_request (record (ask (text "hi")) { model = "gpt" }) new_call
    ∷ registers "a@b.co" "password" 0
    ∷ []

abbrev shown : World
shown = serve_all services str_item str_items refusing history (migrated 5000)

in_micros : All (Pays HasMicros) history
in_micros = (tt, (tt, (tt, (omega arith, (omega arith, (tt, (tt, (tt, tt))))))))

serve_all-IsSound_example : IsSound shown.db
serve_all-IsSound_example =
    serve_all-IsSound services str_item str_items refusing history (migrated 5000) in_micros
      (migrated-IsSound 5000)

admin_view_revenue-balances_example : IsShown shown
admin_view_revenue-balances_example =
    admin_view_revenue-balances services str_item str_items refusing 5000 history in_micros

-- After a registration alone, there is no charge.
not_shown :
    (in_session admin_view_revenue (
      serve_all services str_item str_items refusing
        (registers "a@b.co" "password" 0 ∷ [])
        (migrated 5000))).0
    ≡ raised type_error
unfolding serve register admin_view_revenue ◌+ℤ◌
not_shown = refl

-- The bonus of $10 and $5 paid in, less the $0.0075 of the completion. The deposit of half a dollar and
-- the second registration are refused.
fifteen : balances shown.db.accounts ≡ pos 14_992_500
unfolding serve register simulated_deposit add_amount round_28 column_value create_key
    admin_create_model create_model get_model_by_name chat_completions route_chat_completion
    route_with_fallback execute_with_retry retry_from execute_request get_provider
    get_provider_api_key provider_map record_usage account_to_charge commit_usage cost_of
    round_half_even uuid_of generate_api_key ◌+ℤ◌ ◌-ℤ◌
fifteen = refl

serve_all-IsIndexed_example : IsIndexed shown.db
serve_all-IsIndexed_example =
    serve_all-IsIndexed services str_item str_items refusing history (migrated 5000)
      (migrated-IsIndexed 5000)

lookups_answer_example :
    ((model : Option ModelRegistry) × ((in_session (get_model_by_name "gpt") shown).0 ≡ ok model))
    × ((account : Option BillingAccount) × ((in_session
            (account_to_charge (usage_with 200) 7500)
            shown).0
          ≡ ok account))
lookups_answer_example =
    lookups_answer services str_item str_items refusing 5000 history "gpt" (usage_with 200) 7500
