-- ===== src/RateLimit/ApiKeys.antt =====
-- What a key has passed when `check_api_key_limits` lets it through.
use cortex_cloud_api.Prelude.{
  ℕ, ◌<◌, ◌≡◌, refl, ◌∙◌, String, Bool, true, false, Option, none, some, arith, Bool-cases, inl,
  inr,
}
use cortex_cloud_api.Prelude.Int.{ℤ}
use cortex_cloud_api.Effects.{Exn, http, message, ok, Exec, pure, raise_if, ◌>>◌}
use cortex_cloud_api.Effects.After.{After, bind-After, After-weaken}
use cortex_cloud_api.Database.{ApiKey}
use cortex_cloud_api.Edge.{Edge}
use cortex_cloud_api.RateLimit.{
  Luck, Period, KeyNames, daily, monthly, check_cap, is_rate_limited, minute_limit,
  check_api_key_limits,
}
use cortex_cloud_api.RateLimit.Calendar.{to_midnight}
use cortex_cloud_api.RateLimit.Caps.{IsAdmitted, check_cap-Admitted}

-- A counter that is primed from the database outlives its request.
abbrev pub Lasts : Period → Type 0
Lasts p = (now : ℕ) → 0 < p.ttl now

pub daily-Lasts : Lasts daily
unfolding to_midnight
daily-Lasts now = ground arith

pub monthly-Lasts : Lasts monthly
monthly-Lasts now = omega arith

module _ (luck : Luck) (p : Period) (lasts : Lasts p) (key_of : ℕ → String) (id : ℕ) where
  -- A cap that is set has admitted the request; without one nothing has happened.
  abbrev pub IsCapped : Option ℤ → Edge → Edge → Type 0
  IsCapped none s v = v ≡ s
  IsCapped (some limit) s v = IsAdmitted luck p key_of id limit s (lasts s.world.clock) v

  cap-After :
      (limit : Option ℤ) (s : Edge)
      → After
          (λ u v. (v.world ≡ s.world) × IsCapped limit s v)
          (λ e v. v.world ≡ s.world)
          (check_cap luck p key_of id limit s)
  cap-After none s = (refl, refl)
  cap-After (some limit) s =
      After-weaken (λ u v. IsAdmitted luck p key_of id limit s (lasts s.world.clock) v)
        (λ u v. (v.world ≡ s.world) × IsAdmitted luck p key_of id limit s (lasts s.world.clock) v)
        (λ e v. v.world ≡ s.world) (λ e v. v.world ≡ s.world)
        (check_cap luck p key_of id (some limit) s)
        (check_cap-Admitted luck p key_of id limit s (lasts s.world.clock)) (λ u v h. (h.0, h))
        (λ e v h. h)

module _ (luck : Luck) (names : KeyNames) (key : ApiKey) (s : Edge) where
  -- The three checks one after another, each in the state that the one before left.
  pub record IsWithinLimits (r : ApiKey) (v : Edge) : Type 0 where
    pub after_minute : Edge
    pub after_day : Edge
    pub same_key : r ≡ key
    pub world_same : v.world ≡ s.world
    pub minute :
        is_rate_limited luck (names.minute key.id) (minute_limit key) 60 s
        ≡ (ok false, after_minute)
    pub day :
        IsCapped luck daily daily-Lasts names.day key.id key.daily_limit after_minute after_day
    pub month : IsCapped luck monthly monthly-Lasts names.month key.id key.monthly_limit after_day v

  abbrev SameWorld : Exn → Edge → Type 0
  SameWorld e v = v.world ≡ s.world

  abbrev limited_error : Exn
  limited_error = http 429 (message "API key minute rate limit exceeded.")

  abbrev day_check : Exec Edge (Unit {0})
  day_check = check_cap luck daily names.day key.id key.daily_limit

  abbrev month_check : Exec Edge (Unit {0})
  month_check = check_cap luck monthly names.month key.id key.monthly_limit

  caps-After :
      (t : Edge)
      → t.world ≡ s.world
      → is_rate_limited luck (names.minute key.id) (minute_limit key) 60 s ≡ (ok false, t)
      → After IsWithinLimits SameWorld ((day_check >> (month_check >> pure key)) t)
  caps-After t e m =
      bind-After
        (λ u v.
          (v.world ≡ t.world)
          × IsCapped luck daily daily-Lasts names.day key.id key.daily_limit t v)
        IsWithinLimits SameWorld day_check (λ u. month_check >> pure key) t
        (After-weaken
          (λ u v.
            (v.world ≡ t.world)
            × IsCapped luck daily daily-Lasts names.day key.id key.daily_limit t v)
          (λ u v.
            (v.world ≡ t.world)
            × IsCapped luck daily daily-Lasts names.day key.id key.daily_limit t v)
          (λ x v. v.world ≡ t.world) SameWorld (day_check t)
          (cap-After luck daily daily-Lasts names.day key.id key.daily_limit t) (λ u v h. h)
          (λ x v h. h ∙ e))
        λ u d hd.
          bind-After
            (λ u v.
              (v.world ≡ d.world)
              × IsCapped luck monthly monthly-Lasts names.month key.id key.monthly_limit d v)
            IsWithinLimits SameWorld month_check (λ u. pure key) d
            (After-weaken
              (λ u v.
                (v.world ≡ d.world)
                × IsCapped luck monthly monthly-Lasts names.month key.id key.monthly_limit d v)
              (λ u v.
                (v.world ≡ d.world)
                × IsCapped luck monthly monthly-Lasts names.month key.id key.monthly_limit d v)
              (λ x v. v.world ≡ d.world) SameWorld (month_check d)
              (cap-After luck monthly monthly-Lasts names.month key.id key.monthly_limit d)
              (λ u v h. h) (λ x v h. h ∙ hd.0 ∙ e))
            λ u v hm. record {
              after_minute = t;
              after_day = d;
              same_key = refl;
              world_same = hm.0 ∙ hd.0 ∙ e;
              minute = m;
              day = hd.1;
              month = hm.1;
            }

  minute-After :
      (limited : Bool) (t : Edge)
      → t.world ≡ s.world
      → is_rate_limited luck (names.minute key.id) (minute_limit key) 60 s ≡ (ok limited, t)
      → After IsWithinLimits SameWorld
          ((raise_if limited limited_error >> (day_check >> (month_check >> pure key))) t)
  minute-After true t e m = e
  minute-After false t e m = caps-After t e m

  window-After :
      After
        (λ limited t.
          (t.world ≡ s.world)
          × (is_rate_limited luck (names.minute key.id) (minute_limit key) 60 s ≡ (ok limited, t)))
        SameWorld
        (is_rate_limited luck (names.minute key.id) (minute_limit key) 60 s)
  unfolding is_rate_limited
  window-After = elim (Bool-cases (luck.fails s.redis.commands)) [
    | inl down ↦ rw down (refl, refl)
    | inr up ↦ rw up (refl, refl)
  ]

  -- A key that passes its limits has passed the window of a minute, then its daily cap, then its monthly
  -- cap, each if it is set; and however the check ends, it leaves the database alone.
  pub check_api_key_limits-After :
      After IsWithinLimits SameWorld (check_api_key_limits luck names key s)
  unfolding check_api_key_limits
  check_api_key_limits-After =
      bind-After
        (λ limited t.
          (t.world ≡ s.world)
          × (is_rate_limited luck (names.minute key.id) (minute_limit key) 60 s ≡ (ok limited, t)))
        IsWithinLimits SameWorld (is_rate_limited luck (names.minute key.id) (minute_limit key) 60)
        (λ limited. raise_if limited limited_error >> (day_check >> (month_check >> pure key))) s
        window-After λ limited t h. minute-After limited t h.0 h.1
