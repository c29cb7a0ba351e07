-- ===== src/RateLimit/FailOpen.antt =====
-- The sliding window on the server, and what happens when Redis fails.
use cortex_cloud_api.Prelude.{
  ℕ, suc, ◌*◌, ◌≡◌, refl, ap, ◌⊎◌, inl, inr, String, true, false, if◌then◌else◌, Bool-cases,
  eq_refl,
}
use cortex_cloud_api.Effects.{ok}
use cortex_cloud_api.Edge.{Edge}
use cortex_cloud_api.Edge.Redis.{Hit, put}
use cortex_cloud_api.RateLimit.{Luck, hit_set, is_rate_limited}

module _ (luck : Luck) (key : String) (limit window : ℕ) (s : Edge) where
  abbrev pub now_hit : Hit
  now_hit = record { time = s.world.clock; suffix = luck.suffix (suc s.redis.commands) }

  -- If Redis answers, a request is limited exactly when its hit is, on the set of its key, and the
  -- set takes the hit; if the command fails, the request is let through.
  pub is_rate_limited_lem :
      let (r, v) = is_rate_limited luck key limit window s in
      ((luck.fails s.redis.commands ≡ true) × (r ≡ ok false) × (v.redis.sets ≡ s.redis.sets))
      ⊎ ((luck.fails s.redis.commands ≡ false)
          × (r ≡ ok (hit_set limit (1000 * window) now_hit (s.redis.sets key)).0)
          × (v.redis.sets key ≡ (hit_set limit (1000 * window) now_hit (s.redis.sets key)).1))
  unfolding is_rate_limited
  is_rate_limited_lem = elim (Bool-cases (luck.fails s.redis.commands)) [
    | inl down ↦ rw down (inl (refl, refl, refl))
    | inr up ↦ rw up (inr (refl, refl, stored))
  ]
    where
      stored :
          put key (hit_set limit (1000 * window) now_hit (s.redis.sets key)).1 s.redis.sets key
          ≡ (hit_set limit (1000 * window) now_hit (s.redis.sets key)).1
      stored =
          ap
            (λ b.
              if b
              then (hit_set limit (1000 * window) now_hit (s.redis.sets key)).1
              else s.redis.sets key)
            (eq_refl key)
