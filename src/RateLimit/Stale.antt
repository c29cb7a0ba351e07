-- ===== src/RateLimit/Stale.antt =====
-- app/middleware/rate_limit.py: counters that outlive their period.
use cortex_cloud_api.Prelude.{
  ℕ, ◌+◌, ◌<◌, ◌≡◌, ◌≤◌, refl, ap, ◌∙◌, ◌⊎◌, String, true, false, Option, none, some, List, [], ◌∷◌,
  arith,
}
use cortex_cloud_api.Prelude.Int.{ℤ, pos, leb_ℤ}
use cortex_cloud_api.Effects.{Result, raised, Exec}
use cortex_cloud_api.Edge.{Edge}
use cortex_cloud_api.Edge.Redis.{live_value, counter_for}
use cortex_cloud_api.RateLimit.{
  Luck, Period, monthly, check_cap, limit_reached, command, get_key, incr_key,
}

module _ (luck : Luck) (key_of : ℕ → String) (id : ℕ) (limit : ℤ) (s : Edge)
    (up : luck.fails s.redis.commands ≡ false) where
  -- A counter that lives and has reached the limit refuses the request.
  full_refuses :
      (p : Period) (value : ℤ)
      → live_value (s.redis.counters (key_of id)) s.world.clock ≡ some value
      → leb_ℤ limit value ≡ true
      → (check_cap luck p key_of id (some limit) s).0 ≡ raised (limit_reached p)
  full_refuses p value live full = rw (up) (rw (live) (rw (full) refl))

  -- A monthly counter that was primed with a number of requests that reached the limit refuses every
  -- request of the thirty days behind that: when another month begins meanwhile, it does so however few
  -- requests this month has seen.
  pub monthly_carries_over :
      (primed n : ℕ)
      → s.redis.counters (key_of id) ≡ some (counter_for (pos n) (primed + monthly.ttl primed))
      → leb_ℤ limit (pos n) ≡ true
      → s.world.clock < primed + monthly.ttl primed
      → (check_cap luck monthly key_of id (some limit) s).0 ≡ raised (limit_reached monthly)
  monthly_carries_over primed n c full lives =
      full_refuses monthly (pos n) (ap (λ o. live_value o s.world.clock) c ∙ ground (arith, lives))
        full

module _ (luck : Luck) (p : Period) (key_of : ℕ → String) (id n : ℕ)
    (up : (k : ℕ) → luck.fails k ≡ false) where
  -- The same server and database at another time.
  abbrev pub at : ℕ → Edge → Edge
  at now s = record s { world = record s.world { clock = now } }

  abbrev pub check : Exec Edge (Unit {0})
  check = check_cap luck p key_of id (some (pos n))

  -- The read of a request at one time.
  abbrev pub read_at : ℕ → Edge → Result (Option ℤ) × Edge
  read_at now s = command luck (get_key (key_of id)) (at now s)

  -- The increment of a request at another.
  abbrev pub increment_at : ℕ → Edge → Edge
  increment_at now s = (command luck (incr_key (key_of id)) (at now s)).1

  -- Requests that are checked at some times, each as a whole.
  abbrev pub checks_at : List ℕ → Edge → Edge
  checks_at [] s = s
  checks_at (now ∷ times) s = checks_at times (check (at now s)).1

  -- A counter without an expiry, which is at `k` or at the limit.
  abbrev IsStuck : ℕ → Edge → Type 0
  IsStuck k s =
      (v : ℕ) × (s.redis.counters (key_of id) ≡ some (record { value = pos v; expires_at = none }))
      × ((k ≤ v) ⊎ (n ≤ v))
