-- ===== src/Tests/Dashboards.antt =====
-- The dashboard and the administrator on the sample database.
use cortex_cloud_api.Prelude.{◌≡◌, refl, none, some, arith}
use cortex_cloud_api.Prelude.Int.{ℤ, pos, negsuc, ◌+ℤ◌}
use cortex_cloud_api.Prelude.Text.{split}
use cortex_cloud_api.Effects.{ok, raised}
use cortex_cloud_api.Database.{ApiKey}
use cortex_cloud_api.Security.{generate_api_key, hash_api_key}
use cortex_cloud_api.Auth.{verify_api_key, unauthorized}
use cortex_cloud_api.Usage.{round_half_even}
use cortex_cloud_api.Dashboard.Decimals.{Decimal, add_amount, round_28, column_value}
use cortex_cloud_api.Dashboard.Accounts.{simulated_deposit, create_key, revoke_key, new_key}
use cortex_cloud_api.Dashboard.Money.{IsLedger}
use cortex_cloud_api.Dashboard.EndToEnd.{created_key_passes}
use cortex_cloud_api.Dashboard.Revocation.{revoked_key_refused}
use cortex_cloud_api.Tests.Samples.{crypto, database, world, account_at}

database-IsLedger : IsLedger database
unfolding ◌+ℤ◌
database-IsLedger = record {
  balanced = (refl, (refl, tt));
  booked = (omega arith, (omega arith, tt));
  opened = (omega arith, (omega arith, tt));
}

abbrev micros : ℤ → Decimal
micros units = record { units = units; places = 6 }

deposited :
    (simulated_deposit (record { units = pos 5; places = 0 }) 20 world).0
    ≡ ok (micros (pos 15_000_000))
unfolding simulated_deposit add_amount round_28 round_half_even column_value ◌+ℤ◌
deposited = refl

-- Half a micro-dollar is rounded away from nought, so a balance below nought loses one that the
-- transaction has.
fraction_below_nought :
    (column_value (add_amount (negsuc 4_999_999) (record { units = pos 10_000_005; places = 7 }))
      ≡ negsuc 3_999_999)
    × (negsuc 4_999_999 +ℤ column_value (record { units = pos 10_000_005; places = 7 })
        ≡ negsuc 3_999_998)
unfolding add_amount round_28 round_half_even column_value ◌+ℤ◌
fraction_below_nought = (refl, refl)

-- With 32 digits, the sum is rounded to 28 first.
abbrev long : Decimal
long = record { units = pos 10_000_004_999_999_999_999_999_999_999_999; places = 31 }

rounded_twice :
    (column_value (add_amount (pos 300_000) long) ≡ pos 1_300_001)
    × (column_value long ≡ pos 1_000_000)
unfolding add_amount round_28 round_half_even column_value ◌+ℤ◌
rounded_twice = (refl, refl)

abbrev made_key : ApiKey
made_key = new_key crypto 100 30 "ci" none none "9f"

made :
    (create_key crypto 20 "ci" none none "9f" world).0
    ≡ ok (made_key, (generate_api_key crypto "9f").0)
unfolding create_key generate_api_key
made = refl

created_key_passes_example :
    verify_api_key crypto
      (some "Bearer cx-live-9f")
      (create_key crypto 20 "ci" none none "9f" world).1
    ≡ (ok made_key, (create_key crypto 20 "ci" none none "9f" world).1)
unfolding generate_api_key split
created_key_passes_example =
    created_key_passes crypto world 20 "ci" none none "9f" made_key (generate_api_key crypto "9f").0
      (some "Bearer cx-live-9f") "Bearer cx-live-9f" (account_at 40 30 10_000_000) made refl refl
      refl refl (omega arith)

revoked : (revoke_key 20 5 world).0 ≡ ok tt
unfolding revoke_key
revoked = refl

revoked_key_refused_example :
    (verify_api_key crypto (some "Bearer cx-live-0123") (revoke_key 20 5 world).1).0
    ≡ raised (unauthorized "Invalid or inactive API Key.")
unfolding split hash_api_key
revoked_key_refused_example =
    revoked_key_refused 20 5 world crypto (some "Bearer cx-live-0123") "Bearer cx-live-0123"
      "cx-live-0123" revoked refl refl refl (refl, tt)
