-- ===== src/Tests/Feeds.antt =====
-- The feed over two blocks, and the status over a Redis with two tallies.
use cortex_cloud_api.Prelude.{
  ℕ, String, str_eq, ◌≡◌, refl, true, some, List, [], ◌∷◌, Bool, leb, if◌then◌else◌,
}
use cortex_cloud_api.Prelude.Int.{pos, ◌+ℤ◌}
use cortex_cloud_api.Activity.{
  Chain, Shown, activity, block_number, get_logs, block_ts, decode_amount,
}
use cortex_cloud_api.Effects.{ok}
use cortex_cloud_api.Json.{Json, str, arr, object_of, elems_of}
use cortex_cloud_api.Json.Access.{is_str}
use cortex_cloud_api.X402.Status.{Tallies, payment_tally}

abbrev reply : Json → Json
reply result = object_of (("result", result) ∷ [])

abbrev log : String → String → String → Json
log hash block amount =
    object_of
      (("transactionHash", str hash) ∷ ("blockNumber", str block) ∷ ("data", str amount) ∷ [])

abbrev logs : List Json
logs = log "0xa1" "0x10" "0x3a98" ∷ log "0xa2" "0x11" "0x0" ∷ log "0xa3" "0x20" "0x1388" ∷ []

abbrev block : Json → Json
block id = object_of (("timestamp", str (if is_str "0x20" id then "0x60" else "0x50")) ∷ [])

abbrev chain : Chain
chain = record {
  block_number = ok (reply (str "0x100"));
  get_logs = λ from_block. ok (reply (arr (elems_of logs)));
  get_block = λ id. ok (reply (block id));
}

abbrev shown : String → ℕ → ℕ → Shown
shown hash amount ts = record { tx_hash = str hash; amount_usdc = amount; ts = ts; age_s = some 4 }

abbrev is_large : Shown → Bool
is_large t = leb 10_000 t.amount_usdc

-- The amount of nought is left out, and the newer block comes first.
feed_of_two : activity chain 100 ≡ record {
  count = 2;
  volume_usdc = 20_000;
  txns = shown "0xa3" 5000 96 ∷ record (shown "0xa1" 15_000 80) { age_s = some 20 } ∷ [];
}
unfolding activity block_number get_logs block_ts decode_amount
feed_of_two = refl

abbrev redis : Tallies
redis = record {
  ping = true;
  keys = some ("x402:pay:a" ∷ "x402:pay:b" ∷ []);
  get = λ key. some (if str_eq key "x402:pay:a" then some " 12 " else some "many");
}

tally_of_two : payment_tally redis ≡ some record { settled_payments = pos 12; keys = 2 }
unfolding ◌+ℤ◌
tally_of_two = refl
