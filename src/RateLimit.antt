-- ===== src/RateLimit.antt =====
-- app/middleware/rate_limit.py and x402_rate_limit.py: the limits on requests.
pub mod Calendar
pub mod Window
pub mod Recovery
pub mod FailOpen
pub mod Commands
pub mod Caps
pub mod Overruns
pub mod Stale
pub mod ApiKeys
use cortex_cloud_api.Prelude.{
  ℕ, suc, ◌+◌, ◌-◌, ◌*◌, String, Bool, true, false, ◌&&◌, Option, none, some, length, select, leb,
  ◌==◌, if◌then◌else◌,
}
use cortex_cloud_api.Prelude.Int.{ℤ, pos, leb_ℤ}
use cortex_cloud_api.Prelude.Text.{concat, codes, starts_with}
use cortex_cloud_api.Effects.{
  Exn, http, other, message, about, Detail, Result, ok, raised, Exec, pure, raise, gets, raise_if,
  catch, ◌>>=◌, ◌>>◌,
}
use cortex_cloud_api.Json.{str, field, end, obj}
use cortex_cloud_api.Database.{ApiKey, UsageLog, Db, World}
use cortex_cloud_api.Database.Query.{execute}
use cortex_cloud_api.Edge.{Request, Response, Edge, Handler, client_host, in_world}
use cortex_cloud_api.Edge.Redis.{
  Hit, SortedSet, Counter, RedisStore, live_hits, purge, add_hit, live_value, counter_for,
  incremented, put,
}
use Calendar.{day_start, month_start, to_midnight}

-- Of the commands that the gateway sends to Redis, which fail; and the random suffix of each hit.
pub record Luck : Type 0 where
  pub fails : ℕ → Bool
  pub suffix : ℕ → ℕ

-- The pipeline on one sorted set: whether the count before the new hit has reached the limit, and
-- the set afterwards, whose key expires five seconds after its window. `window` is in milliseconds.
unfoldable pub hit_set : ℕ → ℕ → Hit → SortedSet → Bool × SortedSet
hit_set limit window hit z =
    let kept = purge window hit.time (live_hits z hit.time) in
    (
      leb limit (length kept),
      record { hits = add_hit hit kept; expires_at = hit.time + window + 5000 },
    )

abbrev pub connection_error : Exn
connection_error = other (message "ConnectionError")

abbrev pub counted : Edge → Edge
counted s = record s { redis = record s.redis { commands = suc s.redis.commands } }

abbrev store : {A : Type 0} → Edge → A × RedisStore → Result A × Edge
store s (a, r) = (ok a, record s { redis = r })

-- One command, which may fail: its answer, and what it makes of the server.
abbrev pub command : {A : Type 0} → Luck → (ℕ → RedisStore → A × RedisStore) → Exec Edge A
command luck run s =
    if luck.fails s.redis.commands
    then (raised connection_error, counted s)
    else store s (run s.world.clock (counted s).redis)

abbrev pub hit_key : Luck → String → ℕ → ℕ → ℕ → RedisStore → Bool × RedisStore
hit_key luck key limit window now r =
    let (limited, z) =
      hit_set limit window (record { time = now; suffix = luck.suffix r.commands }) (r.sets key) in
    (limited, record r { sets = put key z r.sets })

abbrev pub get_key : String → ℕ → RedisStore → Option ℤ × RedisStore
get_key key now r = (live_value (r.counters key) now, r)

abbrev pub set_key : String → ℤ → ℕ → ℕ → RedisStore → Unit {0} × RedisStore
set_key key value ttl now r =
    (tt, record r { counters = put key (some (counter_for value (now + ttl))) r.counters })

abbrev pub incr_key : String → ℕ → RedisStore → Unit {0} × RedisStore
incr_key key now r =
    (tt, record r { counters = put key (some (incremented (r.counters key) now)) r.counters })

abbrev pub limit_response : Response
limit_response = record {
  status_code = 429;
  content = obj (field "error" (str "x402 gateway rate limit exceeded. Slow down and retry.") end);
  payment_required = none;
  payment_response = none;
  correlation_id = none;
}

module _ (luck : Luck) where
  -- `RateLimiter.is_rate_limited(key, limit, window_seconds)`, which lets a request pass on an error.
  unfoldable pub is_rate_limited : String → ℕ → ℕ → Exec Edge Bool
  is_rate_limited key limit window_seconds =
      catch (command luck (hit_key luck key limit (1000 * window_seconds))) λ e. pure false

  unfoldable pub enforce_ip_limit : Request → ℕ → ℕ → Exec Edge (Unit {0})
  enforce_ip_limit request limit window = do
    limited ← is_rate_limited (concat "ratelimit:ip:" (client_host request)) limit window
    raise_if limited (http 429 (message "IP rate limit exceeded. Please try again later."))

  -- `X402RateLimitMiddleware.dispatch`
  unfoldable pub x402_rate_limit : Handler → Handler
  x402_rate_limit call_next request =
      if starts_with (codes request.path) (codes "/x402/v1")
      then (do
        limited ← is_rate_limited (concat "ratelimit:x402:ip:" (client_host request)) 60 60
        if limited then pure limit_response else call_next request)
      else call_next request

-- A cap on the requests of a period: where its counter is, when the period of a time began, and for
-- how long a counter that is primed from the database lives.
pub record Period : Type 0 where
  pub name : String
  pub start : ℕ → ℕ
  pub ttl : ℕ → ℕ

abbrev pub daily : Period
daily = record { name = "daily"; start = day_start; ttl = to_midnight }

abbrev pub monthly : Period
monthly = record { name = "monthly"; start = month_start; ttl = λ now. 30 * 86400 * 1000 }

abbrev is_of : ℕ → Option ℕ → Bool
is_of id none = false
is_of id (some key_id) = key_id == id

-- `select(func.count(UsageLog.id)).filter(…)`
abbrev pub count_logs : ℕ → ℕ → Db → ℕ
count_logs id start db =
    length (select (λ l. is_of id l.api_key_id && leb start l.created_at) db.usage_logs)

abbrev pub limit_reached : Period → Exn
limit_reached p = http 429 (about "API key request limit reached." p.name)

abbrev pub reraise : {A : Type 0} → Exec Edge A → Exn → Exec Edge A
reraise fallback (http code detail) = raise (http code detail)
reraise fallback (other detail) = fallback

module _ (luck : Luck) (p : Period) (key_of : ℕ → String) (id : ℕ) where
  abbrev pub counter_key : String
  counter_key = key_of id

  -- A missing counter is primed with the number of the logs.
  abbrev pub prime : Option ℤ → Exec Edge ℤ
  prime (some value) = pure value
  prime none = do
    now ← gets (λ s. s.world.clock)
    db_count ← in_world (execute (count_logs id (p.start now)))
    command luck (set_key counter_key (pos db_count) (p.ttl now))
    pure (pos db_count)

  abbrev pub count_request : ℤ → Exec Edge (Unit {0})
  count_request limit = do
    cached ← command luck (get_key counter_key)
    current ← prime cached
    raise_if (leb_ℤ limit current) (limit_reached p)
    command luck (incr_key counter_key)

  -- Without Redis, the logs are counted.
  abbrev pub count_in_database : ℤ → Exec Edge (Unit {0})
  count_in_database limit = do
    now ← gets (λ s. s.world.clock)
    db_count ← in_world (execute (count_logs id (p.start now)))
    raise_if (leb_ℤ limit (pos db_count)) (limit_reached p)

  abbrev pub check_cap : Option ℤ → Exec Edge (Unit {0})
  check_cap none = pure tt
  check_cap (some limit) = catch (count_request limit) (reraise (count_in_database limit))

-- The names of the keys of an API key's set and counters, by its id.
pub record KeyNames : Type 0 where
  pub minute : ℕ → String
  pub day : ℕ → String
  pub month : ℕ → String

abbrev pub minute_limit : ApiKey → ℕ
minute_limit key = elim key.rate_limit_rpm [ none ↦ 200 | some n ↦ n ]

unfoldable pub check_api_key_limits : Luck → KeyNames → ApiKey → Exec Edge ApiKey
check_api_key_limits luck names key = do
  limited ← is_rate_limited luck (names.minute key.id) (minute_limit key) 60
  raise_if limited (http 429 (message "API key minute rate limit exceeded."))
  check_cap luck daily names.day key.id key.daily_limit
  check_cap luck monthly names.month key.id key.monthly_limit
  pure key
