-- ===== src/Routing.antt =====
-- app/routing/router.py: dispatch of a request to a provider, with retries and a fallback model.
-- The n-th call of a provider's method is answered by a parameter, which gives the result and the
-- milliseconds that it took; the gateway's settings are a parameter too.
pub mod Routes
pub mod Retry
pub mod Rounds
pub mod Bounds
pub mod Fallback
pub mod Settings
use cortex_cloud_api.Prelude.{
  ℕ, zero, suc, ◌+◌, ◌-◌, ◌*◌, ◌^◌, String, Bool, true, false, ◌&&◌, ◌||◌, Option, none, some, ◌==◌,
  ltb, if◌then◌else◌,
}
use cortex_cloud_api.Prelude.Text.{codes, eq_codes, lower, is_empty}
use cortex_cloud_api.Effects.{
  Detail, message, about, wrapped, both_failed, Exn, http, other, str_exn, Result, ok, raised, Exec,
  pure, raise, gets, catch, or_raise, ◌>>=◌, ◌>>◌,
}
use cortex_cloud_api.Database.{ModelRegistry, World}
use cortex_cloud_api.Registry.{get_model_by_name}

-- The classes of `PROVIDER_MAP`.
pub data Provider : Type 0 where
  openai anthropic gemini groq nvidia : Provider

pub record ProviderContext : Type 0 where
  pub api_key : String
  pub provider_model_name : String
  pub correlation_id : String

-- `settings.OPENAI_API_KEY` and its like.
abbrev pub ProviderKeys : Type 0
ProviderKeys = Provider → Option String

-- The answer to a call of a provider, and the milliseconds that it took.
pub record Answer (R : Type 0) : Type 0 where
  pub result : Result R
  pub took : ℕ

-- `PROVIDER_MAP.get(name.lower())`
unfoldable pub provider_map : String → Option Provider
provider_map name =
    if eq_codes (lower name) (codes "openai")
    then some openai
    else if eq_codes (lower name) (codes "anthropic")
    then some anthropic
    else if eq_codes (lower name) (codes "gemini")
    then some gemini
    else if eq_codes (lower name) (codes "groq")
    then some groq
    else if eq_codes (lower name) (codes "nvidia")
    then some nvidia
    else none

abbrev pub unsupported : String → Exn
unsupported name = http 500 (about "Provider is not supported by the gateway." name)

abbrev pub unconfigured : String → Exn
unconfigured name = http 500 (about "API key for provider is not configured on the gateway." name)

abbrev pub unregistered : String → Exn
unregistered model = http 400 (about "Requested model is not registered or active." model)

abbrev pub unregistered_embedding : String → Exn
unregistered_embedding model =
    http 400 (about "Requested embedding model is not registered or active." model)

abbrev pub truthy : Option String → Option String
truthy none = none
truthy (some s) = if is_empty s then none else some s

unfoldable pub get_provider : String → Exec World Provider
get_provider name = or_raise (provider_map name) (unsupported name)

-- `key_map` has the same names as `PROVIDER_MAP`.
unfoldable pub get_provider_api_key : ProviderKeys → String → Exec World String
get_provider_api_key keys name = elim (provider_map name) [
  | none ↦ raise (unconfigured name)
  | some p ↦ or_raise (truthy (keys p)) (unconfigured name)
]

abbrev pub is_retryable : ℕ → Bool
is_retryable code =
    (code == 429) || (code == 500) || (code == 502) || (code == 503) || (code == 504)

-- `await asyncio.sleep(0.5 * 2 ** attempt)`, in milliseconds.
abbrev pub backoff_ms : ℕ → ℕ
backoff_ms attempt = 500 * 2 ^ attempt

abbrev pub sleep : ℕ → World → World
sleep ms w = record w { clock = w.clock + ms; slept = w.slept + ms }

-- An unexpected error is wrapped into a 502.
abbrev pub as_http : Exn → Exn
as_http (http code detail) = http code detail
as_http (other detail) = http 502 (wrapped "Upstream provider connection error: " detail)

-- What is tried again: the retryable status codes, and every unexpected error.
abbrev pub is_transient : Exn → Bool
is_transient (http code detail) = is_retryable code
is_transient (other detail) = true

abbrev last_or_none : Option Exn → Exn
last_or_none none = other (message "TypeError: exceptions must derive from BaseException")
last_or_none (some e) = e

module _ {R : Type 0} (func : Exec World R) (max_retries : ℕ) where
  -- The rounds left of `for attempt in range(max_retries)`, the attempt, and `last_exception`.
  unfoldable pub retry_from : ℕ → ℕ → Option Exn → Exec World R
  retry_from zero attempt last w = (raised (last_or_none last), w)
  retry_from (suc left) attempt last w =
      let (r, w') = func w in
      let again = λ (e : Exn).
        retry_from left (attempt + 1) (some (as_http e)) (sleep (backoff_ms attempt) w') in
      elim r [
        | ok a ↦ (ok a, w')
        | raised e ↦
            if is_transient e && ltb attempt (max_retries - 1)
            then again e
            else (raised (as_http e), w')
      ]

-- `_execute_with_retry` at its default of three attempts: the result, and the latency.
unfoldable pub execute_with_retry : {R : Type 0} → Exec World R → Exec World (R × ℕ)
execute_with_retry func = do
  start ← gets (λ w. w.clock)
  result ← retry_from func 3 3 0 none
  stop ← gets (λ w. w.clock)
  pure (result, stop - start)
