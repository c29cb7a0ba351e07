-- ===== src/Routing/Bounds.antt =====
-- What a routed request may cost: the calls, the pauses, and the state that it leaves alone.
use native.Mathlib.Numerals.{towards_suc}
use cortex_cloud_api.Prelude.{
  ℕ, zero, suc, ◌+◌, ◌*◌, ◌^◌, ◌≤◌, ◌<◌, ◌≡◌, refl, inl, inr, String, Option, none, some, arith,
  Bool-cases, ◌&&◌,
}
use cortex_cloud_api.Effects.{
  Exn, http, Detail, Result, ok, raised, Exec, Result-cases, other, catch, or_raise, ◌>>=◌,
}
use cortex_cloud_api.Database.{World, ModelRegistry}
use cortex_cloud_api.Routing.{
  backoff_ms, is_retryable, execute_with_retry, Provider, ProviderContext, ProviderKeys, Answer,
  get_provider, get_provider_api_key, unregistered_embedding,
}
use cortex_cloud_api.Routing.Retry.{
  Retried, here, again, Ends, done, failed, timed, execute_with_retry_lem,
}
use cortex_cloud_api.Registry.{get_model_by_name}
use cortex_cloud_api.Registry.Laws.{get_model_by_name_reads}
use cortex_cloud_api.Routing.Routes.{
  execute_request, with_model, try_fallback, on_primary_error, try_primary, primary_of, on_http,
  execute_stream, route_chat_completion, route_chat_completion_stream, route_with_fallback,
  fallback_name, name_of, route_without_fallback, route_embeddings,
}

-- From `w` to `v` at most `calls` provider calls and `slept` milliseconds of pause; the database and
-- the session are as they were.
pub record Costs (calls slept : ℕ) (w v : World) : Type 0 where
  pub calls_le : v.calls ≤ w.calls + calls
  pub slept_le : v.slept ≤ w.slept + slept
  pub db_same : v.db ≡ w.db
  pub session_same : v.pending_rollback ≡ w.pending_rollback

pub Costs-trans :
    {c s c' s' : ℕ} {u v w : World} → Costs c s u v → Costs c' s' v w → Costs (c + c') (s + s') u w
Costs-trans h k = ground arith

pub Costs-weaken : {c s c' s' : ℕ} {u v : World} → Costs c s u v → c ≤ c' → s ≤ s' → Costs c' s' u v
Costs-weaken h p q = ground arith

double : (k : ℕ) → 500 * 2 ^ (k + 1) ≡ 500 * 2 ^ k + 500 * 2 ^ k
double k = simp towards_suc (omega arith)

timed_world : {R : Type 0} (start : ℕ) (r : Result R) (v : World) → (timed start (r, v)).1 ≡ v
timed_world start (ok a) v = refl
timed_world start (raised e) v = refl

backoff_ms-le : (n : ℕ) → n < 3 → backoff_ms n ≤ 2000
backoff_ms-le zero h = omega arith
backoff_ms-le (suc zero) h = omega arith
backoff_ms-le (suc (suc zero)) h = omega arith
backoff_ms-le (suc (suc (suc n))) h = omega arith

module _ {R : Type 0} (func : Exec World R) (once : (w : World) → Costs 1 0 w (func w).1) where
  -- The attempts from `k` to `n` cost a call each, and their pauses add up to the gap between the
  -- two powers of two.
  Retried-Costs :
      {k n : ℕ} {w u : World}
      → Retried func k n w u
      → (k ≤ n)
        × (u.calls + k ≤ w.calls + n)
        × (u.slept + backoff_ms k ≤ w.slept + backoff_ms n)
        × (u.db ≡ w.db)
        × (u.pending_rollback ≡ w.pending_rollback)
  Retried-Costs (here k w) = (omega arith, omega arith, omega arith, refl, refl)
  Retried-Costs (again {k} {n} {w} {u} e f t r) = ground (arith, Retried-Costs r, once w, double k)

  -- The last attempt, for a loop of three.
  Ends-Costs : {n : ℕ} {u v : World} {r : Result R} → Ends func 3 n u r v → Costs 1 0 u v
  Ends-Costs {u} (done a e r same) = rw same (once u)
  Ends-Costs {u} (failed a e why r same) = rw same (once u)

  -- A retried request makes at most three calls, sleeps at most a second and a half, and leaves the
  -- database alone.
  pub execute_with_retry-Costs : (w : World) → Costs 3 1500 w (execute_with_retry func w).1
  execute_with_retry-Costs w =
      let (n, u, r, v, below, before, last, e) = execute_with_retry_lem func w in
      rw (e, timed_world w.clock r v)
        (ground (arith, Retried-Costs before, Ends-Costs last, backoff_ms-le n below))

module _ (keys : ProviderKeys) {Req R : Type 0}
    (answer : ℕ → Provider → ProviderContext → Req → Answer R) (cid : String) (req : Req) where
  -- One attempt makes at most one call.
  pub execute_request-Costs :
      (m : ModelRegistry) (w : World) → Costs 1 0 w (execute_request keys answer cid req m w).1
  unfolding execute_request get_provider get_provider_api_key
  execute_request-Costs m w = ground arith

pub Costs-bind :
    {A B : Type 0} {c s c' s' : ℕ} (m : Exec World A) (f : A → Exec World B) (w : World)
    → Costs c s w (m w).1
    → ((a : A) (v : World) → Costs c' s' v (f a v).1)
    → Costs (c + c') (s + s') w ((m >>= f) w).1
Costs-bind m f w h k = elim (Result-cases (m w).0) [
  | inl (a, e) ↦ rw (e, ◌>>=◌) (Costs-trans h (k a (m w).1))
  | inr (x, e) ↦ rw (e, ◌>>=◌) (ground (arith, h))
]

pub Costs-catch :
    {A : Type 0} {c s c' s' : ℕ} (m : Exec World A) (f : Exn → Exec World A) (w : World)
    → Costs c s w (m w).1
    → ((x : Exn) (v : World) → Costs c' s' v (f x v).1)
    → Costs (c + c') (s + s') w (catch m f w).1
Costs-catch m f w h k = elim (Result-cases (m w).0) [
  | inl (a, e) ↦ rw (e, catch) (ground (arith, h))
  | inr (x, e) ↦ rw (e, catch) (Costs-trans h (k x (m w).1))
]

-- Looking a model up costs nothing.
looked_up-Costs :
    {A : Type 0} {c s : ℕ} (name : String) (f : Option ModelRegistry → Exec World A) (w : World)
    → ((m : Option ModelRegistry) (v : World) → Costs c s v (f m v).1)
    → Costs c s w ((get_model_by_name name >>= f) w).1
looked_up-Costs name f w h =
    Costs-weaken
      (Costs-bind {c = 0} {s = 0} (get_model_by_name name) f w
        (rw (get_model_by_name_reads name w) (ground arith)) h)
      (omega arith) (omega arith)

module _ {A : Type 0} (run : ModelRegistry → Exec World A) (c s : ℕ)
    (cost : (m : ModelRegistry) (w : World) → Costs c s w (run m w).1) where
  with_model-Costs : (m : ModelRegistry) (w : World) → Costs c s w (with_model run m w).1
  with_model-Costs m w = ground (arith, cost m w)

  try_fallback-Costs :
      (q : String) (e : Exn) (code : ℕ) (name : String) (m : Option ModelRegistry) (w : World)
      → Costs c s w (try_fallback run q e code name m w).1
  try_fallback-Costs q e code name none w = ground arith
  try_fallback-Costs q e code name (some m) w = ground (arith, cost m w)

  on_primary_error-Costs :
      (q : String) (m : ModelRegistry) (code : ℕ) (d : Detail) (w : World)
      → Costs c s w (on_primary_error run q m code d w).1
  on_primary_error-Costs q m code d w =
      elim (Bool-cases (fallback_name m.fallback_model && is_retryable code)) [
        | inl go ↦ rw go (
            looked_up-Costs (name_of m.fallback_model)
              (try_fallback run q (http code d) code (name_of m.fallback_model)) w
              (try_fallback-Costs q (http code d) code (name_of m.fallback_model)))
        | inr stop ↦ rw stop (ground arith)
      ]

  on_error-Costs :
      (q : String) (m : ModelRegistry) (e : Exn) (w : World)
      → Costs c s w (on_http (on_primary_error run q m) e w).1
  on_error-Costs q m (http code d) w = on_primary_error-Costs q m code d w
  on_error-Costs q m (other d) w = ground arith

  try_primary-Costs :
      (q : String) (m : ModelRegistry) (w : World)
      → Costs (c + c) (s + s) w (try_primary run q m w).1
  try_primary-Costs q m w =
      Costs-catch (with_model run m) (on_http (on_primary_error run q m)) w (with_model-Costs m w)
        (on_error-Costs q m)

  primary_of-Costs :
      (q : String) (m : Option ModelRegistry) (w : World)
      → Costs (c + c) (s + s) w (primary_of run q m w).1
  primary_of-Costs q none w = ground arith
  primary_of-Costs q (some m) w = try_primary-Costs q m w

  pub route_with_fallback-Costs :
      (requested : String) (w : World)
      → Costs (c + c) (s + s) w (route_with_fallback run requested w).1
  unfolding route_with_fallback
  route_with_fallback-Costs requested w =
      looked_up-Costs requested (primary_of run requested) w (primary_of-Costs requested)

  found-Costs :
      (q : String) (found : Option ModelRegistry) (w : World)
      → Costs c s w ((or_raise found (unregistered_embedding q) >>= with_model run) w).1
  found-Costs q none w = ground arith
  found-Costs q (some m) w = with_model-Costs m w

  pub route_without_fallback-Costs :
      (requested : String) (w : World) → Costs c s w (route_without_fallback run requested w).1
  unfolding route_without_fallback
  route_without_fallback-Costs requested w =
      looked_up-Costs requested
        (λ found. or_raise found (unregistered_embedding requested) >>= with_model run) w
        (found-Costs requested)

module _ (keys : ProviderKeys) {Req R : Type 0}
    (answer : ℕ → Provider → ProviderContext → Req → Answer R) where
  -- Whatever the providers answer, a chat completion makes at most six calls of providers (three of
  -- the primary model, three of the fallback model), sleeps at most three seconds between them, and
  -- leaves the database and the session as they were.
  pub route_chat_completion-Costs :
      (requested : String) (req : Req) (cid : String) (w : World)
      → Costs 6 3000 w (route_chat_completion keys answer requested req cid w).1
  unfolding route_chat_completion
  route_chat_completion-Costs requested req cid w =
      route_with_fallback-Costs (λ m. execute_with_retry (execute_request keys answer cid req m)) 3
        1500
        (λ m.
          execute_with_retry-Costs (execute_request keys answer cid req m)
            (execute_request-Costs keys answer cid req m))
        requested w

  -- A request for embeddings, which has no fallback, makes at most three calls.
  pub route_embeddings-Costs :
      (requested : String) (req : Req) (cid : String) (w : World)
      → Costs 3 1500 w (route_embeddings keys answer requested req cid w).1
  unfolding route_embeddings
  route_embeddings-Costs requested req cid w =
      route_without_fallback-Costs (λ m. execute_with_retry (execute_request keys answer cid req m))
        3 1500
        (λ m.
          execute_with_retry-Costs (execute_request keys answer cid req m)
            (execute_request-Costs keys answer cid req m))
        requested w

module _ (keys : ProviderKeys) {Req : Type 0} where
  execute_stream-Costs :
      (cid : String) (req : Req) (m : ModelRegistry) (w : World)
      → Costs 0 0 w (execute_stream keys cid req m w).1
  unfolding execute_stream get_provider get_provider_api_key
  execute_stream-Costs cid req m w = ground arith

  -- Routing a stream makes no call of a provider and does not sleep, and leaves the database and the
  -- session as they were.
  pub route_chat_completion_stream-Costs :
      (requested : String) (req : Req) (cid : String) (w : World)
      → Costs 0 0 w (route_chat_completion_stream keys requested req cid w).1
  unfolding route_chat_completion_stream
  route_chat_completion_stream-Costs requested req cid w =
      route_with_fallback-Costs (execute_stream keys cid req) 0 0 (execute_stream-Costs cid req)
        requested w
