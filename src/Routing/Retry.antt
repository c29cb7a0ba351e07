-- ===== src/Routing/Retry.antt =====
-- The retry policy: which attempts are made, what they cost, and what the caller gets.
use cortex_cloud_api.Prelude.{
  ℕ, zero, suc, ◌+◌, ◌-◌, ◌<◌, ◌≡◌, refl, ◌⊎◌, inl, inr, true, false, ◌&&◌, Option, none, some,
  arith, ltb, Bool-cases,
}
use cortex_cloud_api.Effects.{Exn, Result, ok, raised, Exec, Result-cases}
use cortex_cloud_api.Database.{World}
use cortex_cloud_api.Routing.{
  backoff_ms, sleep, as_http, is_transient, retry_from, execute_with_retry,
}

-- From attempt `k` to attempt `n`: each attempt between fails with a transient error, and is
-- followed by its pause.
pub data Retried {R : Type 0} (func : Exec World R) : ℕ → ℕ → World → World → Type 0 where
  here : (k : ℕ) (w : World) → Retried func k k w w
  again :
      {k n : ℕ} {w u : World} (e : Exn)
      → (func w).0 ≡ raised e
      → is_transient e ≡ true
      → Retried func (k + 1) n (sleep (backoff_ms k) (func w).1) u
      → Retried func k n w u

-- How attempt `n` of `max` ends the loop.
pub data Ends {R : Type 0} (func : Exec World R) (max n : ℕ) (u : World) (r : Result R) (v : World)
    : Type 0 where
  done : (a : R) → (func u).0 ≡ ok a → r ≡ ok a → v ≡ (func u).1 → Ends func max n u r v
  failed :
      (e : Exn)
      → (func u).0 ≡ raised e
      → (is_transient e ≡ false) ⊎ (n + 1 ≡ max)
      → r ≡ raised (as_http e)
      → v ≡ (func u).1
      → Ends func max n u r v

module _ {R : Type 0} (func : Exec World R) (max : ℕ) where
  -- The three ways on from an attempt.
  pub retry_from_ok :
      (left k : ℕ) (last : Option Exn) (w : World) (a : R)
      → (func w).0 ≡ ok a
      → retry_from func max (suc left) k last w ≡ (ok a, (func w).1)
  unfolding retry_from
  retry_from_ok left k last w a e = rw (e, retry_from)

  pub retry_from_again :
      (left k : ℕ) (last : Option Exn) (w : World) (x : Exn)
      → (func w).0 ≡ raised x
      → is_transient x ≡ true
      → ltb k (max - 1) ≡ true
      → retry_from func max (suc left) k last w
        ≡ retry_from func max left (k + 1) (some (as_http x)) (sleep (backoff_ms k) (func w).1)
  unfolding retry_from
  retry_from_again left k last w x e t l = rw (e, t, l, retry_from)

  pub retry_from_raise :
      (left k : ℕ) (last : Option Exn) (w : World) (x : Exn)
      → (func w).0 ≡ raised x
      → (is_transient x && ltb k (max - 1)) ≡ false
      → retry_from func max (suc left) k last w ≡ (raised (as_http x), (func w).1)
  unfolding retry_from
  retry_from_raise left k last w x e t = rw (e, t, retry_from)

  abbrev Runs : ℕ → World → Result R × World → Type 0
  Runs k w res =
      (n : ℕ) × (u : World) × (n < max) × Retried func k n w u × Ends func max n u res.0 res.1

  Runs-ok :
      (left k : ℕ) (last : Option Exn) (w : World) (a : R)
      → k < max
      → (func w).0 ≡ ok a
      → Runs k w (retry_from func max (suc left) k last w)
  Runs-ok left k last w a h e =
      rw (retry_from_ok left k last w a e) (k, w, h, here k w, done a e refl refl)

  Runs-raise :
      (left k : ℕ) (last : Option Exn) (w : World) (x : Exn)
      → k < max
      → (func w).0 ≡ raised x
      → (is_transient x ≡ false) ⊎ (k + 1 ≡ max)
      → Runs k w (retry_from func max (suc left) k last w)
  Runs-raise left k last w x h e why =
      rw (retry_from_raise left k last w x e (ground arith))
        (k, w, h, here k w, failed x e why refl refl)

  retry_from-Runs :
      (left k : ℕ) (last : Option Exn) (w : World)
      → k + suc left ≡ max
      → Runs k w (retry_from func max (suc left) k last w)
  retry_from-Runs zero k last w h = elim (Result-cases (func w).0) [
    | inl (a, e) ↦ Runs-ok zero k last w a (omega arith) e
    | inr (x, e) ↦ Runs-raise zero k last w x (omega arith) e (inr (omega arith))
  ]
  retry_from-Runs (suc left) k last w h = elim (Result-cases (func w).0) [
    | inl (a, e) ↦ Runs-ok (suc left) k last w a (omega arith) e
    | inr (x, e) ↦ elim (Bool-cases (is_transient x)) [
      | inl t ↦
          let (n, u, below, r, ends) =
            retry_from-Runs left (k + 1) (some (as_http x)) (sleep (backoff_ms k) (func w).1)
              (omega arith) in
          rw (retry_from_again (suc left) k last w x e t (ground arith))
            (n, u, below, again x e t r, ends)
      | inr f ↦ Runs-raise (suc left) k last w x (omega arith) e (inl f)
    ]
  ]

-- The value with the time since the start.
abbrev pub timed : {R : Type 0} → ℕ → Result R × World → Result (R × ℕ) × World
timed start (ok a, w) = (ok (a, w.clock - start), w)
timed start (raised e, w) = (raised e, w)

pub timed_lem :
    {R : Type 0} (func : Exec World R) (w : World)
    → execute_with_retry func w ≡ timed w.clock (retry_from func 3 3 0 none w)
unfolding execute_with_retry
timed_lem func w = ground arith

abbrev pub IsRetry : {R : Type 0} → Exec World R → World → Result (R × ℕ) × World → Type 0
IsRetry {R} func w res =
    (n : ℕ) × (u : World) × (r : Result R) × (v : World) × (n < 3)
    × Retried func 0 n w u
    × Ends func 3 n u r v
    × (res ≡ timed w.clock (r, v))

-- `_execute_with_retry` makes attempts 0 to n, with n < 3: each attempt before the last fails with
-- a transient error (429, 500, 502, 503, 504, or an unexpected exception) and is followed by a pause
-- of 0.5 * 2 ** k seconds; the last one succeeds, and its value is returned with the time since the
-- start, or it fails for good (its error is not transient, or it is the third attempt), and its
-- error is raised, an unexpected one as a 502.
pub execute_with_retry_lem :
    {R : Type 0} (func : Exec World R) (w : World) → IsRetry func w (execute_with_retry func w)
execute_with_retry_lem func w =
    let (n, u, below, r, ends) = retry_from-Runs func 3 2 0 none w refl in
    let res = retry_from func 3 3 0 none w in (n, u, res.0, res.1, below, r, ends, timed_lem func w)
