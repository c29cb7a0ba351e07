-- ===== src/Tests/Keys.antt =====
-- Authentication with the sample key.
use cortex_cloud_api.Prelude.{◌≡◌, ◌↔◌, refl, some}
use cortex_cloud_api.Effects.{ok}
use cortex_cloud_api.Security.{hash_api_key}
use cortex_cloud_api.Auth.{verify_api_key}
use cortex_cloud_api.Auth.Laws.{IsAuthorized, verify_api_key_iff}
use cortex_cloud_api.Prelude.Text.{split}
use cortex_cloud_api.Tests.Samples.{crypto, key, world}

key_accepted : (verify_api_key crypto (some "Bearer cx-live-0123") world).0 ≡ ok key
unfolding verify_api_key hash_api_key split
key_accepted = refl

verify_api_key_iff_example :
    (verify_api_key crypto (some "Bearer cx-live-0123") world ≡ (ok key, world))
    ↔ IsAuthorized crypto (some "Bearer cx-live-0123") key world
verify_api_key_iff_example = verify_api_key_iff crypto world (some "Bearer cx-live-0123") key refl
