-- ===== src/X402/Status.antt =====
-- app/x402/status_routes.py: the status endpoint. What Redis answers is a parameter.
use cortex_cloud_api.Prelude.{
  ℕ, ◌*◌, ◌+◌, ◌-◌, String, Bool, ◌&&◌, Option, none, some, List, [], ◌∷◌, length, leb, ◌==◌,
  if◌then◌else◌,
}
use cortex_cloud_api.Prelude.Int.{ℤ, pos, ◌+ℤ◌, ◌-ℤ◌}
use cortex_cloud_api.Prelude.Strings.{strip_by}
use cortex_cloud_api.Prelude.Text.{codes, is_int_blank, is_empty}
use cortex_cloud_api.Effects.{Exec, pure, catch, ◌>>=◌}
use cortex_cloud_api.Database.{World}
use cortex_cloud_api.Registry.{get_active_models}
use cortex_cloud_api.X402.Challenge.{X402Settings, is_given}

-- The answers of a Redis client: whether a ping returns, the keys that match `x402:pay:*`, and the
-- value of a key; `none` is an exception.
pub record Tallies : Type 0 where
  pub ping : Bool
  pub keys : Option (List String)
  pub get : String → Option (Option String)

-- `int(text)`, on decimal digits with or without a minus; other texts are refused here.
abbrev digits : ℕ → List ℕ → Option ℕ
digits n [] = some n
digits n (c ∷ s) =
    let rest = digits (10 * n + (c - 48)) s in if leb b'0' c && leb c b'9' then rest else none

abbrev negated : Option ℕ → Option ℤ
negated none = none
negated (some n) = some (pos 0 -ℤ pos n)

abbrev signless : Option ℕ → Option ℤ
signless none = none
signless (some n) = some (pos n)

abbrev signed : List ℕ → Option ℤ
signed [] = none
signed (c ∷ []) = signless (digits 0 (c ∷ []))
signed (c ∷ d ∷ s) =
    if c == b'-' then negated (digits 0 (d ∷ s)) else signless (digits 0 (c ∷ d ∷ s))

abbrev int_of : String → Option ℤ
int_of s = signed (codes (strip_by is_int_blank s))

-- `int(await rc.get(k) or 0)`; an exception is passed over.
abbrev value_of : Option (Option String) → ℤ
value_of none = pos 0
value_of (some none) = pos 0
value_of (some (some s)) =
    if is_empty s then pos 0 else elim (int_of s) [ none ↦ pos 0 | some n ↦ n ]

abbrev pub settled : (String → Option (Option String)) → List String → ℤ
settled get [] = pos 0
settled get (k ∷ rest) = value_of (get k) +ℤ settled get rest

pub record Tally : Type 0 where
  pub settled_payments : ℤ
  pub keys : ℕ

pub record Status : Type 0 where
  pub is_healthy : Bool
  pub x402_enabled : Bool
  pub models_available : ℤ
  pub payment_tally : Option Tally

abbrev tally_of : Tallies → Option (List String) → Option Tally
tally_of redis none = none
tally_of redis (some keys) =
    some record { settled_payments = settled redis.get keys; keys = length keys }

abbrev pub payment_tally : Tallies → Option Tally
payment_tally redis = if redis.ping then tally_of redis redis.keys else none

abbrev counted : Exec World ℤ
counted = get_active_models >>= λ models. pure (pos (length models))

-- The number of active models, or -1 where the database cannot be asked.
abbrev pub model_count : Exec World ℤ
model_count = catch counted (λ e. pure (pos 0 -ℤ pos 1))

-- `status` is "ok", and `redis` "healthy", if `is_healthy`; the latency is left out.
unfoldable pub x402_status : X402Settings → Tallies → Exec World Status
x402_status settings redis = model_count >>= λ models. pure (record {
  is_healthy = redis.ping;
  x402_enabled = settings.enabled && is_given settings.wallet_address;
  models_available = models;
  payment_tally = payment_tally redis;
})
