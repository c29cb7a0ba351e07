-- ===== src/RateLimit/Commands.antt =====
-- How a command of Redis and a count of the database end.
use cortex_cloud_api.Prelude.{
  ℕ, ◌≡◌, refl, ap, inl, inr, String, Bool, true, false, if◌then◌else◌, Bool-cases, eq_refl,
}
use cortex_cloud_api.Effects.{Exn, ok, raised}
use cortex_cloud_api.Effects.After.{After}
use cortex_cloud_api.Database.{Db}
use cortex_cloud_api.Database.Query.{pending_rollback_error, execute}
use cortex_cloud_api.Edge.{Edge, in_world}
use cortex_cloud_api.Edge.Redis.{RedisStore, put}
use cortex_cloud_api.RateLimit.{Luck, command, counted}

-- How a command ends: it failed, or it gave its answer and made of the server what it makes.
abbrev pub Ran : {A : Type 0} → (ℕ → RedisStore → A × RedisStore) → Edge → A → Edge → Type 0
Ran run s a v =
    (v.world ≡ s.world)
    × (v.redis ≡ (run s.world.clock (counted s).redis).1)
    × (a ≡ (run s.world.clock (counted s).redis).0)

abbrev pub SameWorld : Edge → Exn → Edge → Type 0
SameWorld s e v = v.world ≡ s.world

-- A command that failed is one that fails.
abbrev pub Failed : Luck → Edge → Exn → Edge → Type 0
Failed luck s e v = (v.world ≡ s.world) × (luck.fails s.redis.commands ≡ true)

pub command-Failed :
    {A : Type 0} (luck : Luck) (run : ℕ → RedisStore → A × RedisStore) (s : Edge)
    → After (Ran run s) (Failed luck s) (command luck run s)
command-Failed luck run s = elim (Bool-cases (luck.fails s.redis.commands)) [
  | inl down ↦ rw down (refl, down)
  | inr up ↦ rw up (refl, refl, refl)
]

pub command_works :
    {A : Type 0} (luck : Luck) (run : ℕ → RedisStore → A × RedisStore) (s : Edge)
    → luck.fails s.redis.commands ≡ false
    → command luck run s ≡ (
      ok (run s.world.clock (counted s).redis).0,
      record s { redis = (run s.world.clock (counted s).redis).1 },
    )
command_works luck run s up = rw up refl

-- A count of the database: the session answers, or it waits for a rollback.
abbrev pub Counted : (Db → ℕ) → Edge → ℕ → Edge → Type 0
Counted query s n v = (v ≡ s) × (n ≡ query s.world.db) × (s.world.pending_rollback ≡ false)

abbrev pub Broken : Edge → Exn → Edge → Type 0
Broken s x v = (v.world ≡ s.world) × (s.world.pending_rollback ≡ true)

count_at :
    (query : Db → ℕ) (s : Edge) (broken : Bool)
    → s.world.pending_rollback ≡ broken
    → After
        (Counted query s)
        (Broken s)
        (if broken then raised pending_rollback_error else ok (query s.world.db), s)
count_at query s true e = (refl, e)
count_at query s false e = (refl, refl, e)

pub count-After :
    (query : Db → ℕ) (s : Edge) → After (Counted query s) (Broken s) (in_world (execute query) s)
count-After query s = count_at query s s.world.pending_rollback refl

pub put_same : {A : Type 0} (key : String) (a : A) (f : String → A) → put key a f key ≡ a
put_same key a f = ap (λ b. if b then a else f key) (eq_refl key)
