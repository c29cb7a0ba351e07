-- ===== src/Tests/Money.antt =====
-- Usage: charges on the sample database.
use cortex_cloud_api.Prelude.{◌+◌, ◌*◌, ◌≤◌, ◌≡◌, ◌≢◌, refl, some, none, [], ◌∷◌, map, arith}
use cortex_cloud_api.Prelude.Int.{pos, ◌+ℤ◌, ◌-ℤ◌}
use cortex_cloud_api.Effects.After.{After}
use cortex_cloud_api.Database.{BillingAccount}
use cortex_cloud_api.Database.Rules.{Unchanged}
use cortex_cloud_api.Registry.{get_model_by_name}
use cortex_cloud_api.Usage.{cost_of, round_half_even, record_usage, account_to_charge, commit_usage}
use cortex_cloud_api.Usage.Uuid.{uuid_of}
use cortex_cloud_api.Usage.Cost.{exact, cost_of_near}
use cortex_cloud_api.Usage.Ledger.{IsBalanced}
use cortex_cloud_api.Usage.Charging.{Recorded, record_usage-After}
use cortex_cloud_api.Usage.Guarantees.{record_usage-IsBalanced}
use cortex_cloud_api.Tests.Samples.{gpt, database, world, usage_with}

-- $2.50 and $10.00 for a million tokens: 1000 and 500 tokens cost $0.0075.
gpt_costs : cost_of (some gpt) (pos 1000) (pos 500) ≡ 7500
unfolding cost_of round_half_even
gpt_costs = refl

balances_after :
    map (λ (a : BillingAccount). a.balance) (record_usage (usage_with 200) world).1.db.accounts
    ≡ pos 9_992_500 ∷ pos 10_000_000 ∷ []
unfolding record_usage account_to_charge commit_usage get_model_by_name cost_of round_half_even
    uuid_of ◌-ℤ◌
balances_after = refl

database-IsBalanced : IsBalanced database
unfolding ◌+ℤ◌
database-IsBalanced = (refl, (refl, tt))

record_usage-IsBalanced_example : IsBalanced (record_usage (usage_with 200) world).1.db
record_usage-IsBalanced_example = record_usage-IsBalanced (usage_with 200) world database-IsBalanced

record_usage-After_example :
    After (Recorded (usage_with 200) world) (Unchanged world) (record_usage (usage_with 200) world)
record_usage-After_example = record_usage-After (usage_with 200) world

not_200 : (usage_with 503).status_code ≢ 200
not_200 = λ h. omega (arith, h)

cost_of_near_example :
    (10000 * cost_of (some gpt) (pos 1001) (pos 3) ≤ exact (some gpt) (pos 1001) (pos 3) + 5000)
    × (exact (some gpt) (pos 1001) (pos 3) ≤ 10000 * cost_of (some gpt) (pos 1001) (pos 3) + 5000)
cost_of_near_example = cost_of_near (some gpt) (pos 1001) (pos 3)

-- What `int` takes beside digits.
prefixed : uuid_of "0x_0000000000000000000000000000a" ≡ some 10
unfolding uuid_of
prefixed = refl

underscored : uuid_of "+0000000000000000000000000000_2a" ≡ some 42
unfolding uuid_of
underscored = refl

twice_underscored : uuid_of "0000000000000000000000000000__2a" ≡ none
unfolding uuid_of
twice_underscored = refl
