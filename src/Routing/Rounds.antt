-- ===== src/Routing/Rounds.antt =====
-- app/routing/router.py: the rounds of a retry are enough.
use cortex_cloud_api.Prelude.{
  ℕ, zero, suc, ◌+◌, ◌-◌, ◌≤◌, ◌<◌, ◌≡◌, sym, ◌∙◌, inl, inr, true, false, ◌&&◌, Option, none, some,
  ltb, Bool-cases, arith,
}
use cortex_cloud_api.Effects.{Exn, Exec, Result-cases}
use cortex_cloud_api.Database.{World}
use cortex_cloud_api.Routing.{retry_from, is_transient, as_http, sleep, backoff_ms}
use cortex_cloud_api.Routing.Retry.{retry_from_ok, retry_from_again, retry_from_raise}

module _ {R : Type 0} (func : Exec World R) (max : ℕ) where
  more_rounds :
      (left more k : ℕ) (last last' : Option Exn) (w : World)
      → k + suc left ≡ max
      → left ≤ more
      → retry_from func max (suc more) k last w ≡ retry_from func max (suc left) k last' w
  more_rounds zero more k last last' w h m = elim (Result-cases (func w).0) [
    | inl (a, e) ↦
        retry_from_ok func max more k last w a e ∙ sym (retry_from_ok func max zero k last' w a e)
    | inr (x, e) ↦
        let ended : (is_transient x && ltb k (max - 1)) ≡ false = ground (arith, h) in
        retry_from_raise func max more k last w x e ended
        ∙ sym (retry_from_raise func max zero k last' w x e ended)
  ]
  more_rounds (suc left) zero k last last' w h m = absurd (omega (arith, m))
  more_rounds (suc left) (suc more) k last last' w h m = elim (Result-cases (func w).0) [
    | inl (a, e) ↦
        retry_from_ok func max (suc more) k last w a e
        ∙ sym (retry_from_ok func max (suc left) k last' w a e)
    | inr (x, e) ↦ elim (Bool-cases (is_transient x)) [
      | inl t ↦
          let early : ltb k (max - 1) ≡ true = ground (arith, h) in
          retry_from_again func max (suc more) k last w x e t early
          ∙ more_rounds left more (k + 1) (some (as_http x)) (some (as_http x))
              (sleep (backoff_ms k) (func w).1) (omega (arith, h)) (omega (arith, m))
          ∙ sym (retry_from_again func max (suc left) k last' w x e t early)
      | inr f ↦
          let ended : (is_transient x && ltb k (max - 1)) ≡ false = ground (arith, f) in
          retry_from_raise func max (suc more) k last w x e ended
          ∙ sym (retry_from_raise func max (suc left) k last' w x e ended)
    ]
  ]

-- A retry of at least one attempt ends within its rounds: with more rounds, and whatever is raised
-- when they run out, it does the same, so the line behind the loop is never reached.
pub retry_from-terminates :
    {R : Type 0} (func : Exec World R) (max more : ℕ) (last : Option Exn) (w : World)
    → 0 < max
    → max ≤ more
    → retry_from func max more 0 last w ≡ retry_from func max max 0 none w
retry_from-terminates func zero more last w h m = absurd (omega (arith, h))
retry_from-terminates func (suc max) zero last w h m = absurd (omega (arith, m))
retry_from-terminates func (suc max) (suc more) last w h m =
    more_rounds func (suc max) max more 0 last none w (omega arith) (omega (arith, m))
