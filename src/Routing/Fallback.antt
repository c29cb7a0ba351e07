-- ===== src/Routing/Fallback.antt =====
-- Who answers a routed request, and with which error it fails.
use cortex_cloud_api.Prelude.{
  ℕ, ◌≡◌, refl, inl, inr, true, false, ◌⊎◌, ◌&&◌, String, Option, none, some, arith, Bool-cases,
}
use cortex_cloud_api.Effects.{
  Detail, both_failed, Exn, http, other, str_exn, Result, ok, raised, Exec, Result-cases,
  catch-raised, ◌>>=◌,
}
use cortex_cloud_api.Database.{ModelRegistry, World}
use cortex_cloud_api.Registry.{get_model_by_name}
use cortex_cloud_api.Registry.Laws
use cortex_cloud_api.Registry.Laws.{looked_up}
use cortex_cloud_api.Routing.{is_retryable, unregistered}
use cortex_cloud_api.Routing.Routes.{
  fallback_name, name_of, on_http, with_model, try_fallback, on_primary_error, try_primary,
  primary_of, route_with_fallback,
}

module _ {A : Type 0} (run : ModelRegistry → Exec World A) (requested : String) where
  abbrev Found : String → World → Option ModelRegistry → Type 0
  Found name w found = (get_model_by_name name w).0 ≡ ok found

  -- The primary model fails with 429 or 5xx, in the world that it leaves.
  pub record PrimaryFails (w : World) (primary : ModelRegistry) (code : ℕ) (d : Detail)
      : Type 0 where
    pub failed : (run primary w).0 ≡ raised (http code d)
    pub named : fallback_name primary.fallback_model ≡ true
    pub retryable : is_retryable code ≡ true

  -- The primary model's error is not answered by another model: it is no HTTPException; or no fallback
  -- is named or the status code is not one that falls back; or the fallback is not registered.
  abbrev pub Passes : World → ModelRegistry → Exn → Type 0
  Passes w primary (other d) = Unit
  Passes w primary (http code d) =
      ((fallback_name primary.fallback_model && is_retryable code) ≡ false)
      ⊎ Found (name_of primary.fallback_model) (run primary w).1 none

  -- Every way in which `route_with_fallback` ends, with its result and its last world.
  pub data Routed (w : World) (r : Result (A × ModelRegistry)) (v : World) : Type 0 where
    lookup_failed :
        (e : Exn)
        → (get_model_by_name requested w).0 ≡ raised e
        → r ≡ raised e
        → v ≡ w
        → Routed w r v
    unknown : Found requested w none → r ≡ raised (unregistered requested) → v ≡ w → Routed w r v
    primary :
        (m : ModelRegistry) (a : A)
        → Found requested w (some m)
        → (run m w).0 ≡ ok a
        → r ≡ ok (a, m)
        → v ≡ (run m w).1
        → Routed w r v
    primary_error :
        (m : ModelRegistry) (e : Exn)
        → Found requested w (some m)
        → (run m w).0 ≡ raised e
        → Passes w m e
        → r ≡ raised e
        → v ≡ (run m w).1
        → Routed w r v
    fallback :
        (m n : ModelRegistry) (code : ℕ) (d : Detail) (a : A)
        → Found requested w (some m)
        → PrimaryFails w m code d
        → Found (name_of m.fallback_model) (run m w).1 (some n)
        → (run n (run m w).1).0 ≡ ok a
        → r ≡ ok (a, n)
        → v ≡ (run n (run m w).1).1
        → Routed w r v
    both :
        (m n : ModelRegistry) (code : ℕ) (d : Detail) (e : Exn)
        → Found requested w (some m)
        → PrimaryFails w m code d
        → Found (name_of m.fallback_model) (run m w).1 (some n)
        → (run n (run m w).1).0 ≡ raised e
        → r ≡ raised (http 502 (both_failed requested code (name_of m.fallback_model) (str_exn e)))
        → v ≡ (run n (run m w).1).1
        → Routed w r v
    fallback_lookup_failed :
        (m : ModelRegistry) (code : ℕ) (d : Detail) (e : Exn)
        → Found requested w (some m)
        → PrimaryFails w m code d
        → (get_model_by_name (name_of m.fallback_model) (run m w).1).0 ≡ raised e
        → r ≡ raised e
        → v ≡ (run m w).1
        → Routed w r v

  module _ (w : World) (m : ModelRegistry) (found : Found requested w (some m)) where
    abbrev retry_with : ℕ → Detail → Option ModelRegistry → Exec World (A × ModelRegistry)
    retry_with code d = try_fallback run requested (http code d) code (name_of m.fallback_model)

    abbrev Out : Result (A × ModelRegistry) × World → Type 0
    Out res = Routed w res.0 res.1

    try_fallback-Routed :
        (code : ℕ) (d : Detail) (o : Option ModelRegistry)
        → PrimaryFails w m code d
        → Found (name_of m.fallback_model) (run m w).1 o
        → Out
            (try_fallback run requested (http code d) code (name_of m.fallback_model) o (run m w).1)
    try_fallback-Routed code d none p e =
        primary_error m (http code d) found p.failed (inr e) refl refl
    try_fallback-Routed code d (some n) p e = elim (Result-cases (run n (run m w).1).0) [
      | inl (a, served) ↦ fallback m n code d a found p e served (ground arith) (ground arith)
      | inr (x, lost) ↦ both m n code d x found p e lost (ground arith) (ground arith)
    ]

    fall_back-Routed :
        (code : ℕ) (d : Detail)
        → PrimaryFails w m code d
        → Out ((get_model_by_name (name_of m.fallback_model) >>= retry_with code d) (run m w).1)
    fall_back-Routed code d p =
        elim (Result-cases (get_model_by_name (name_of m.fallback_model) (run m w).1).0) [
          | inl (o, e) ↦
              rw (looked_up (name_of m.fallback_model) (retry_with code d) (run m w).1 o e)
                (try_fallback-Routed code d o p e)
          | inr (x, e) ↦
              rw (Laws.lookup_failed (name_of m.fallback_model) (retry_with code d) (run m w).1 x e)
                (fallback_lookup_failed m code d x found p e refl refl)
        ]

    on_primary_error-Routed :
        (code : ℕ) (d : Detail)
        → (run m w).0 ≡ raised (http code d)
        → Out (on_primary_error run requested m code d (run m w).1)
    on_primary_error-Routed code d e =
        elim (Bool-cases (fallback_name m.fallback_model && is_retryable code)) [
          | inl go ↦ rw go (
              fall_back-Routed code d
                (record { failed = e; named = ground arith; retryable = ground arith }))
          | inr stop ↦ rw stop (primary_error m (http code d) found e (inl stop) refl refl)
        ]

    on_error-Routed :
        (e : Exn)
        → (run m w).0 ≡ raised e
        → Out (on_http (on_primary_error run requested m) e (run m w).1)
    on_error-Routed (http code d) e = on_primary_error-Routed code d e
    on_error-Routed (other d) e = primary_error m (other d) found e tt refl refl

    with_model-raised :
        (x : Exn) → (run m w).0 ≡ raised x → with_model run m w ≡ (raised x, (run m w).1)
    with_model-raised x e = rw (e, ◌>>=◌)

    try_primary-Routed : Out (try_primary run requested m w)
    try_primary-Routed = elim (Result-cases (run m w).0) [
      | inl (a, e) ↦ primary m a found e (ground arith) (ground arith)
      | inr (x, e) ↦
          rw
            (catch-raised (with_model run m) (on_http (on_primary_error run requested m)) w
              (with_model-raised x e))
            (on_error-Routed x e)
    ]

  primary_of-Routed :
      (w : World) (o : Option ModelRegistry)
      → Found requested w o
      → Routed w (primary_of run requested o w).0 (primary_of run requested o w).1
  primary_of-Routed w none e = unknown e refl refl
  primary_of-Routed w (some m) e = try_primary-Routed w m e

  -- A routed request ends in one of the seven ways of `Routed`, and in no other: the primary model
  -- answers; or it fails with 429 or 5xx, a fallback model is named and registered, and that model
  -- answers, or fails too, and the error is a 502 about both; or the primary model's error is no
  -- HTTPException, does not fall back, or has no fallback that is registered, and stands; or a lookup
  -- fails, or no such model is registered, and that is the error.
  pub route_with_fallback-Routed :
      (w : World) → let (r, v) = route_with_fallback run requested w in Routed w r v
  unfolding route_with_fallback
  route_with_fallback-Routed w = elim (Result-cases (get_model_by_name requested w).0) [
    | inl (o, e) ↦
        rw (looked_up requested (primary_of run requested) w o e) (primary_of-Routed w o e)
    | inr (x, e) ↦
        rw (Laws.lookup_failed requested (primary_of run requested) w x e)
          (lookup_failed x e refl refl)
  ]
