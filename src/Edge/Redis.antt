-- ===== src/Edge/Redis.antt =====
-- What the gateway uses of Redis: sorted sets and counters, each with a time at which its key
-- expires. Times are in milliseconds. Any command may fail: which ones do is a parameter of the
-- functions that use them, by the number of commands so far.
use cortex_cloud_api.Prelude.{
  ℕ, ◌+◌, String, str_eq, Bool, true, ◌&&◌, not, Option, none, some, List, [], ◌∷◌, ◌++◌, select,
  leb, ltb, ◌==◌, if◌then◌else◌,
}
use cortex_cloud_api.Prelude.Int.{ℤ, pos, ◌+ℤ◌}

-- A member of a sorted set: its text is the time and a random suffix; its score is the time.
pub record Hit : Type 0 where
  pub time : ℕ
  pub suffix : ℕ

abbrev pub same_hit : Hit → Hit → Bool
same_hit a b = (a.time == b.time) && (a.suffix == b.suffix)

pub record SortedSet : Type 0 where
  pub hits : List Hit
  pub expires_at : ℕ

pub record Counter : Type 0 where
  pub value : ℤ
  pub expires_at : Option ℕ

pub record RedisStore : Type 0 where
  pub sets : String → SortedSet
  pub counters : String → Option Counter
  -- the commands so far
  pub commands : ℕ

abbrev pub empty_set : SortedSet
empty_set = record { hits = []; expires_at = 0 }

-- The hits of a key that has not expired.
abbrev pub live_hits : SortedSet → ℕ → List Hit
live_hits z now = if leb z.expires_at now then [] else z.hits

-- `ZREMRANGEBYSCORE key 0 (now - window)`: a hit stays while it is less than a window old.
abbrev pub purge : ℕ → ℕ → List Hit → List Hit
purge window now hits = select (λ h. ltb now (h.time + window)) hits

-- `ZADD key {member: now}`
abbrev pub add_hit : Hit → List Hit → List Hit
add_hit hit hits = select (λ h. not (same_hit h hit)) hits ++ hit ∷ []

abbrev pub is_live : Option ℕ → ℕ → Bool
is_live none now = true
is_live (some at) now = ltb now at

-- `GET key`
abbrev pub live_value : Option Counter → ℕ → Option ℤ
live_value none now = none
live_value (some c) now = if is_live c.expires_at now then some c.value else none

-- `SET key value EX seconds`
abbrev pub counter_for : ℤ → ℕ → Counter
counter_for value expires_at = record { value = value; expires_at = some expires_at }

-- `INCR key`: a missing key counts from nought and never expires.
abbrev pub incremented : Option Counter → ℕ → Counter
incremented none now = record { value = pos 1; expires_at = none }
incremented (some c) now =
    if is_live c.expires_at now
    then record c { value = c.value +ℤ pos 1 }
    else record { value = pos 1; expires_at = none }

module _ {A : Type 0} where
  -- A key's value replaced.
  abbrev pub put : String → A → (String → A) → String → A
  put key a f k = if str_eq k key then a else f k
