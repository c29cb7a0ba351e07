-- ===== src/RateLimit/Overruns.antt =====
-- app/middleware/rate_limit.py: a cap that several requests check at once. Each reads the counter and
-- adds one to it later; in between, others read it too. The counter is primed and does not expire in
-- the meantime, and Redis answers.
use cortex_cloud_api.Prelude.{
  ℕ, ◌+◌, ◌<◌, ◌≡◌, ap, subst, inl, inr, String, Option, none, some, Option-cases, Bool-cases, List,
  [], ◌∷◌, length, ltb, arith, ◌==◌, eq_refl, if◌then◌else◌,
}
use cortex_cloud_api.Prelude.Int.{ℤ, pos, ◌+ℤ◌, ◌≤ℤ◌, leb_ℤ, int_laws}
use cortex_cloud_api.Edge.Redis.{Counter, RedisStore, is_live, live_value, incremented, put}
use cortex_cloud_api.RateLimit.{get_key, incr_key}

-- The server, and the requests that have read the counter below the limit and not yet added to it.
pub record Checks : Type 0 where
  pub redis : RedisStore
  pub admitted : List ℕ

pub data Action : Type 0 where
  -- `redis.get(key)` and the test, by the request
  check : ℕ → Action
  -- `redis.incr(key)`
  count : ℕ → Action

some_injective : {A : Type 0} (a b : A) → some a ≡ some b → a ≡ b
some_injective a b e = cc

-- A request that is not in the list is not removed from it.
abbrev pub without : ℕ → List ℕ → Option (List ℕ)
without request [] = none
without request (r ∷ rest) =
    let later = without request rest in
    if r == request then some rest else elim later [ none ↦ none | some rs ↦ some (r ∷ rs) ]

length-without :
    (request : ℕ) (rs rest : List ℕ) → without request rs ≡ some rest → length rs ≡ 1 + length rest
length-without request [] rest e = cc
length-without request (r ∷ rs) rest e = elim (Bool-cases (r == request)) [
  | inl here ↦
      let same : rs ≡ rest = some_injective rs rest (rw here at e) in
      omega (arith, ap (λ l. length l) same)
  | inr later ↦ elim (Option-cases (without request rs)) [
    | inl none_left ↦ let wrong : none ≡ some rest = rw (later, none_left) at e in cc
    | inr (left, l) ↦
        let same : r ∷ left ≡ rest = some_injective (r ∷ left) rest (rw (later, l) at e) in
        omega (arith, length-without request rs left l, ap (λ l. length l) same)
  ]
]

counted_up :
    (c : Option Counter) (now : ℕ) (value : ℤ)
    → live_value c now ≡ some value
    → live_value (some (incremented c now)) now ≡ some (value +ℤ pos 1)
counted_up none now value e = cc
counted_up (some c) now value e = elim (Bool-cases (is_live c.expires_at now)) [
  | inl live ↦
      let same : c.value ≡ value = some_injective c.value value (rw live at e) in
      rw (live, incremented) (rw live (ap (λ v. some (v +ℤ pos 1)) same))
  | inr dead ↦ let wrong : none ≡ some value = rw dead at e in cc
]

put_read :
    (key : String) (c : Option Counter) (counters : String → Option Counter) (now : ℕ) {value : ℤ}
    → live_value c now ≡ some value
    → live_value (put key c counters key) now ≡ some value
put_read key c counters now e = rw (eq_refl key) e

module _ (key : String) (limit : ℤ) (now workers : ℕ) where
  abbrev pub admit : ℕ → Option ℤ → Checks → Option Checks
  admit request none s = none
  admit request (some current) s =
      if leb_ℤ limit current then some s else some record s { admitted = request ∷ s.admitted }

  abbrev pub add_one : Option (List ℕ) → Checks → Option Checks
  add_one none s = none
  add_one (some rest) s = some record { redis = (incr_key key now s.redis).1; admitted = rest }

  -- No more than `workers` requests are at work at once. `none` where the action cannot be made.
  unfoldable pub step : Action → Checks → Option Checks
  step (check request) s =
      if ltb (length s.admitted) workers then admit request (get_key key now s.redis).0 s else none
  step (count request) s = add_one (without request s.admitted) s

  abbrev pub and_then : Option Checks → (Checks → Option Checks) → Option Checks
  and_then none f = none
  and_then (some s) f = f s

  abbrev pub run : List Action → Checks → Option Checks
  run [] s = some s
  run (a ∷ rest) s = and_then (step a s) (run rest)

  -- The counter lives and has this value.
  abbrev pub Counts : ℤ → Checks → Type 0
  Counts value s = live_value (s.redis.counters key) now ≡ some value

  -- The counter with those who will add to it is less than the workers above the limit.
  pub record IsBounded (s : Checks) : Type 0 where
    pub value : ℤ
    pub counts : Counts value s
    pub bounded : value +ℤ pos (length s.admitted) +ℤ pos 1 ≤ℤ limit +ℤ pos workers

  abbrev Gives : Option Checks → Type 0
  Gives none = Unit
  Gives (some s) = IsBounded s

  admit-IsBounded :
      (request : ℕ) (s : Checks)
      → IsBounded s
      → length s.admitted < workers
      → Gives (admit request (get_key key now s.redis).0 s)
  admit-IsBounded request s h few = rw h.counts (elim (Bool-cases (leb_ℤ limit h.value)) [
    | inl full ↦ rw full h
    | inr open_ ↦ rw open_ (record {
      value = h.value;
      counts = h.counts;
      bounded = grind (int_laws, h.bounded, open_, few);
    })
  ])

  add_one-IsBounded :
      (request : ℕ) (s : Checks) → IsBounded s → Gives (add_one (without request s.admitted) s)
  add_one-IsBounded request s h = elim (Option-cases (without request s.admitted)) [
    | inl gone ↦ rw gone tt
    | inr (rest, e) ↦ rw e (record {
      value = h.value +ℤ pos 1;
      counts =
          put_read key (some (incremented (s.redis.counters key) now)) s.redis.counters now
            (counted_up (s.redis.counters key) now h.value h.counts);
      bounded = grind (int_laws, h.bounded, length-without request s.admitted rest e);
    })
  ]

  step-IsBounded : (action : Action) (s : Checks) → IsBounded s → Gives (step action s)
  unfolding step
  step-IsBounded (check request) s h = elim (Bool-cases (ltb (length s.admitted) workers)) [
    | inl few ↦ rw few (admit-IsBounded request s h (ground (arith, few)))
    | inr many ↦ rw many tt
  ]
  step-IsBounded (count request) s h = add_one-IsBounded request s h

  next-IsBounded :
      (o : Option Checks) (rest : Checks → Option Checks) (v : Checks)
      → Gives o
      → ((u : Checks) → IsBounded u → rest u ≡ some v → IsBounded v)
      → and_then o rest ≡ some v
      → IsBounded v
  next-IsBounded none rest v g k e = cc
  next-IsBounded (some u) rest v g k e = k u g e

  -- However the reads and the increments of requests interleave, when at most `workers` are between the
  -- two at once, the counter and the requests that will still add to it stay below the limit and the
  -- workers together, if they do at first: a cap is overrun by at most one less than the workers.
  pub run-IsBounded :
      (actions : List Action) (s v : Checks) → IsBounded s → run actions s ≡ some v → IsBounded v
  run-IsBounded [] s v h e = subst IsBounded (some_injective s v e) h
  run-IsBounded (a ∷ rest) s v h e =
      next-IsBounded (step a s) (run rest) v (step-IsBounded a s h)
        (λ u k r. run-IsBounded rest u v k r) e
