-- ===== src/Tests/Seeds.antt =====
-- Development data in the sample database.
use cortex_cloud_api.Prelude.{ℕ, Bool, ◌≡◌, refl, [], ◌∷◌, map, select, ◌==◌}
use cortex_cloud_api.Prelude.Int.{pos, ◌+ℤ◌}
use cortex_cloud_api.Effects.{ok}
use cortex_cloud_api.Seed.{seed, seed_models}
use cortex_cloud_api.Seed.Again.{seed_twice}
use cortex_cloud_api.Security.{generate_api_key}
use cortex_cloud_api.Tests.Samples.{crypto, world}
use cortex_cloud_api.Usage.Ledger.{total}

abbrev salt : Bool → ℕ
salt is_admin = 0

seeded : (seed crypto salt "4567" world).0 ≡ ok tt
unfolding seed seed_models generate_api_key
seeded = refl

seed_twice_example :
    seed crypto salt "89ab" (seed crypto salt "4567" world).1
    ≡ (ok tt, (seed crypto salt "4567" world).1)
seed_twice_example = seed_twice crypto salt salt "4567" "89ab" world seeded

-- The developer's account, 108, has a thousand dollars, and no transaction says where from.
seeded_balance :
    map (λ a. a.balance) (select (λ a. a.id == 108) (seed crypto salt "4567" world).1.db.accounts)
    ≡ pos 1_000_000_000 ∷ []
unfolding seed seed_models generate_api_key
seeded_balance = refl

seeded_total : total 108 (seed crypto salt "4567" world).1.db.transactions ≡ pos 0
unfolding seed seed_models generate_api_key ◌+ℤ◌
seeded_total = refl
