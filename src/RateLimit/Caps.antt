-- ===== src/RateLimit/Caps.antt =====
-- What a passed or refused limit means, and what happens without Redis.
use cortex_cloud_api.Prelude.{
  ℕ, ◌+◌, ◌<◌, ◌≡◌, refl, ap, ◌∙◌, sym, ◌⊎◌, inl, inr, String, true, false, ◌≤◌, suc, Option, none,
  some, arith, Bool-cases,
}
use cortex_cloud_api.Prelude.Int.{ℤ, pos, ◌≤ℤ◌, leb_ℤ, ◌+ℤ◌, +ℤ_parts}
use cortex_cloud_api.Effects.{Exn, http, other, Exec, pure, raise_if, ◌>>=◌, ◌>>◌}
use cortex_cloud_api.Effects.After.{After, bind-After, catch-After, After-weaken}
use cortex_cloud_api.Database.{Db, World}
use cortex_cloud_api.Database.Query.{execute}
use cortex_cloud_api.Edge.{Edge, in_world}
use cortex_cloud_api.Edge.Redis.{Counter, RedisStore, live_value, incremented, counter_for}
use cortex_cloud_api.RateLimit.{
  Luck, Period, command, count_request, count_in_database, check_cap, count_logs, limit_reached,
  reraise, counter_key, get_key, prime, incr_key, set_key,
}
use cortex_cloud_api.RateLimit.Commands.{
  Ran, SameWorld, Failed, command-Failed, Counted, Broken, count-After, put_same,
}

module _ (luck : Luck) (p : Period) (key_of : ℕ → String) (id : ℕ) (limit : ℤ) (s : Edge)
    (lasting : 0 < p.ttl s.world.clock) where
  abbrev key : String
  key = counter_key luck p key_of id

  abbrev logs : ℕ
  logs = count_logs id (p.start s.world.clock) s.world.db

  abbrev value_in : Edge → Option ℤ
  value_in v = live_value (v.redis.counters key) s.world.clock

  -- The requests of the period so far: the counter, or without one the logs.
  abbrev pub Current : ℤ → Type 0
  Current c = (value_in s ≡ some c) ⊎ ((value_in s ≡ none) × (c ≡ pos logs))

  -- One of the check's commands fails, which are three at most.
  abbrev pub RedisFails : Type 0
  RedisFails = (k : ℕ) × (s.redis.commands ≤ k) × (k < s.redis.commands + 3) × (luck.fails k ≡ true)

  -- The request was counted, and the count before it was below the limit; or Redis failed, and the
  -- logs are below the limit.
  abbrev pub IsAdmitted : Edge → Type 0
  IsAdmitted v =
      (v.world ≡ s.world)
      × (((c : ℤ) × Current c × (c +ℤ pos 1 ≤ℤ limit) × (value_in v ≡ some (c +ℤ pos 1)))
          ⊎ (RedisFails × (pos logs +ℤ pos 1 ≤ℤ limit)))

  -- At most `n` commands of the check have been sent.
  abbrev Sent : ℕ → Edge → Type 0
  Sent n v = (s.redis.commands ≤ v.redis.commands) × (v.redis.commands ≤ s.redis.commands + n)

  abbrev Primed : ℤ → Edge → Type 0
  Primed c v = (v.world ≡ s.world) × Current c × (value_in v ≡ some c) × Sent 2 v

  -- Why the logs may be counted instead.
  abbrev Reason : Type 0
  Reason = RedisFails ⊎ (s.world.pending_rollback ≡ true)

  abbrev Lost : Exn → Edge → Type 0
  Lost (http code d) v = v.world ≡ s.world
  Lost (other d) v = (v.world ≡ s.world) × Reason

  Lost-by : (x : Exn) (v : Edge) → v.world ≡ s.world → Reason → Lost x v
  Lost-by (http code d) v e why = e
  Lost-by (other d) v e why = (e, why)

  command-Lost :
      {A : Type 0} (run : ℕ → RedisStore → A × RedisStore) (v : Edge)
      → v.world ≡ s.world
      → Sent 2 v
      → After (Ran run v) Lost (command luck run v)
  command-Lost run v e sent =
      After-weaken (Ran run v) (Ran run v) (Failed luck v) Lost (command luck run v)
        (command-Failed luck run v) (λ a u h. h)
        λ x u k. Lost-by x u (k.0 ∙ e) (inl (v.redis.commands, sent.0, omega (arith, sent.1), k.1))

  count-Lost :
      (query : Db → ℕ) (v : Edge)
      → v.world ≡ s.world
      → After (Counted query v) Lost (in_world (execute query) v)
  count-Lost query v e =
      After-weaken (Counted query v) (Counted query v) (Broken v) Lost (in_world (execute query) v)
        (count-After query v) (λ n u h. h)
        λ x u k. Lost-by x u (k.0 ∙ e) (inr (ap (λ (w : World). w.pending_rollback) (sym e) ∙ k.1))

  live_new :
      (value : ℤ) (now : ℕ)
      → 0 < p.ttl now
      → live_value (some (counter_for value (now + p.ttl now))) now ≡ some value
  live_new value now h = ground arith

  live_incremented :
      (o : Option Counter) (now : ℕ) (c : ℤ)
      → live_value o now ≡ some c
      → live_value (some (incremented o now)) now ≡ some (c +ℤ pos 1)
  live_incremented none now c e = cc
  live_incremented (some o) now c e = ground arith

  set-Primed :
      (v : Edge) (now n : ℕ)
      → v.world ≡ s.world
      → value_in s ≡ none
      → now ≡ s.world.clock
      → n ≡ logs
      → Sent 1 v
      → After Primed Lost ((command luck (set_key key (pos n) (p.ttl now)) >> pure (pos n)) v)
  set-Primed v now n e missing en el sent =
      rw (en, el)
        (bind-After (Ran put_logs v) Primed Lost (command luck put_logs) (λ u. pure (pos logs)) v
          (command-Lost put_logs v e (sent.0, omega (arith, sent.1)))
          λ a u h. (
            h.0 ∙ e,
            inr (missing, refl),
            ap (λ (r : RedisStore). live_value (r.counters key) s.world.clock) h.1
                ∙ ap (λ o. live_value o s.world.clock) (put_same key _ v.redis.counters)
                ∙ ap
                    (λ (w : World).
                      live_value (some (counter_for (pos logs) (w.clock + p.ttl s.world.clock)))
                        s.world.clock)
                    e
                ∙ live_new (pos logs) s.world.clock lasting,
            let more : u.redis.commands ≡ suc v.redis.commands =
                  ap (λ (r : RedisStore). r.commands) h.1 in
                (omega (arith, more, sent.0), omega (arith, more, sent.1)),
          ))
    where
      put_logs : ℕ → RedisStore → Unit {0} × RedisStore
      put_logs = set_key key (pos logs) (p.ttl s.world.clock)

  prime-Primed :
      (cached : Option ℤ) (v : Edge)
      → v.world ≡ s.world
      → value_in v ≡ value_in s
      → cached ≡ value_in s
      → Sent 1 v
      → After Primed Lost (prime luck p key_of id cached v)
  prime-Primed (some c) v e same found sent =
      (e, inl (sym found), same ∙ sym found, (sent.0, omega (arith, sent.1)))
  prime-Primed none v e same found sent =
      bind-After (Counted query v) Primed Lost (in_world (execute query))
        (λ n. command luck (set_key key (pos n) (p.ttl v.world.clock)) >> pure (pos n)) v
        (count-Lost query v e)
        λ n u h. rw h.0 (
          set-Primed v v.world.clock n e (sym found) (ap (λ (w : World). w.clock) e)
            (h.1 ∙ ap (λ (w : World). count_logs id (p.start w.clock) w.db) e) sent)
    where
      query : Db → ℕ
      query = count_logs id (p.start v.world.clock)

  abbrev increment : Exec Edge (Unit {0})
  increment = command luck (incr_key key)

  abbrev Admitted : Unit {0} → Edge → Type 0
  Admitted a v = IsAdmitted v

  increment-Admitted :
      (c : ℤ) (v : Edge) → Primed c v → c +ℤ pos 1 ≤ℤ limit → After Admitted Lost (increment v)
  increment-Admitted c v (e, current, stored, sent) below =
      After-weaken (Ran (incr_key key) v) Admitted Lost Lost (increment v)
        (command-Lost (incr_key key) v e sent)
        (λ a u h. (
          h.0 ∙ e,
          inl (
            c,
            current,
            below,
            ap (λ (r : RedisStore). live_value (r.counters key) s.world.clock) h.1
                ∙ ap (λ o. live_value o s.world.clock) (put_same key _ v.redis.counters)
                ∙ ap
                    (λ (w : World).
                      live_value (some (incremented (v.redis.counters key) w.clock)) s.world.clock)
                    e
                ∙ live_incremented (v.redis.counters key) s.world.clock c stored,
          ),
        ))
        (λ x t k. k)

  below_limit : (c : ℤ) → leb_ℤ limit c ≡ false → c +ℤ pos 1 ≤ℤ limit
  below_limit c h = grind (arith, +ℤ_parts c (pos 1), h)

  test-Admitted :
      (c : ℤ) (v : Edge)
      → Primed c v
      → After Admitted Lost ((raise_if (leb_ℤ limit c) (limit_reached p) >> increment) v)
  test-Admitted c v h = elim (Bool-cases (leb_ℤ limit c)) [
    | inl full ↦ rw full h.0
    | inr free ↦ rw free (increment-Admitted c v h (below_limit c free))
  ]

  abbrev test_and_increment : ℤ → Exec Edge (Unit {0})
  test_and_increment c = raise_if (leb_ℤ limit c) (limit_reached p) >> increment

  cached-Admitted :
      (cached : Option ℤ) (v : Edge)
      → Ran (get_key key) s cached v
      → After Admitted Lost ((prime luck p key_of id cached >>= test_and_increment) v)
  cached-Admitted cached v (e, r, found) =
      bind-After Primed Admitted Lost (prime luck p key_of id cached) test_and_increment v
        (prime-Primed cached v e
          (ap (λ (r : RedisStore). live_value (r.counters key) s.world.clock) r) found
          (let one : v.redis.commands ≡ suc s.redis.commands =
              ap (λ (r : RedisStore). r.commands) r in
            (omega (arith, one), omega (arith, one))))
        test-Admitted

  count_request-Admitted : After Admitted Lost (count_request luck p key_of id limit s)
  count_request-Admitted =
      bind-After (Ran (get_key key) s) Admitted Lost (command luck (get_key key))
        (λ cached. prime luck p key_of id cached >>= test_and_increment) s
        (command-Lost (get_key key) s refl (omega arith, omega arith)) cached-Admitted

  logged-Admitted :
      (n : ℕ) (v : Edge)
      → v.world ≡ s.world
      → n ≡ logs
      → RedisFails
      → After Admitted (SameWorld s) (raise_if (leb_ℤ limit (pos n)) (limit_reached p) v)
  logged-Admitted n v e el down = rw el (elim (Bool-cases (leb_ℤ limit (pos logs))) [
    | inl full ↦ rw full e
    | inr free ↦ rw free (e, inr (down, below_limit (pos logs) free))
  ])

  redis_failed :
      (v : Edge) → v.world ≡ s.world → Reason → v.world.pending_rollback ≡ false → RedisFails
  redis_failed v e (inl down) works = down
  redis_failed v e (inr broken) works =
      let here : v.world.pending_rollback ≡ true =
        ap (λ (w : World). w.pending_rollback) e ∙ broken in
      cc

  count_in_database-Admitted :
      (v : Edge)
      → v.world ≡ s.world
      → Reason
      → After Admitted (SameWorld s) (count_in_database luck p key_of id limit v)
  count_in_database-Admitted v e why =
      bind-After (Counted query v) Admitted (SameWorld s) (in_world (execute query))
        (λ n. raise_if (leb_ℤ limit (pos n)) (limit_reached p)) v
        (After-weaken (Counted query v) (Counted query v) (Broken v) (SameWorld s)
          (in_world (execute query) v) (count-After query v) (λ n u h. h) (λ x u k. k.0 ∙ e))
        λ n u h. rw h.0 (
          logged-Admitted n v e (h.1 ∙ ap (λ (w : World). count_logs id (p.start w.clock) w.db) e)
            (redis_failed v e why h.2))
    where
      query : Db → ℕ
      query = count_logs id (p.start v.world.clock)

  reraise-Admitted :
      (x : Exn) (v : Edge)
      → Lost x v
      → After Admitted (SameWorld s) (reraise (count_in_database luck p key_of id limit) x v)
  reraise-Admitted (http code d) v e = e
  reraise-Admitted (other d) v (e, why) = count_in_database-Admitted v e why

  -- For a period whose counters live for a while, a request passes its cap only below the limit: it
  -- is counted, and the count before it was below; or one of the check's commands of Redis, three at
  -- most, failed, and the number of the period's logs is below. However the check ends, it leaves the
  -- database alone.
  pub check_cap-Admitted : After Admitted (SameWorld s) (check_cap luck p key_of id (some limit) s)
  check_cap-Admitted =
      catch-After Admitted Lost (SameWorld s) (count_request luck p key_of id limit)
        (reraise (count_in_database luck p key_of id limit)) s count_request-Admitted
        reraise-Admitted
