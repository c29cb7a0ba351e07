-- ===== src/X402/Health.antt =====
-- app/x402/status_routes.py: the status endpoint answers in every state.
use Prim.Native.Nat.{Ordering}
use Prim.Native.String.{compare}
use cortex_cloud_api.Prelude.{
  ◌+◌, ◌≡◌, refl, ap, ◌∙◌, ◌⊎◌, inl, inr, Bool, true, false, ◌&&◌, List, [], ◌∷◌, length, select,
  arith, if◌then◌else◌,
}
use cortex_cloud_api.Prelude.Int.{ℤ, pos, ◌-ℤ◌}
use cortex_cloud_api.Effects.{ok, raised, pure, handle, proceed}
use cortex_cloud_api.Database.{ModelRegistry, World}
use cortex_cloud_api.Database.Query.{pending_rollback_error}
use cortex_cloud_api.Registry.{get_active_models, insert_by_name, order_by_name}
use cortex_cloud_api.X402.Challenge.{X402Settings, is_given}
use cortex_cloud_api.X402.Status.{Tallies, Status, payment_tally, model_count, x402_status}

inserted_before :
    (m n : ModelRegistry) (rows : List ModelRegistry) (o : Ordering)
    → compare m.name n.name ≡ o
    → (insert_by_name m (n ∷ rows) ≡ n ∷ insert_by_name m rows)
      ⊎ (insert_by_name m (n ∷ rows) ≡ m ∷ n ∷ rows)
inserted_before m n rows Ordering.gt e = inl (rw (e, insert_by_name) refl)
inserted_before m n rows Ordering.lt e = inr (rw (e, insert_by_name) refl)
inserted_before m n rows Ordering.eq e = inr (rw (e, insert_by_name) refl)

length-insert_by_name :
    (m : ModelRegistry) (rows : List ModelRegistry)
    → length (insert_by_name m rows) ≡ 1 + length rows
length-insert_by_name m [] = refl
length-insert_by_name m (n ∷ rows) = elim (inserted_before m n rows (compare m.name n.name) refl) [
  | inl e ↦ ap (λ l. length l) e ∙ omega (arith, length-insert_by_name m rows)
  | inr e ↦ ap (λ l. length l) e ∙ omega arith
]

length-order_by_name : (rows : List ModelRegistry) → length (order_by_name rows) ≡ length rows
length-order_by_name [] = refl
length-order_by_name (m ∷ rows) =
    omega (arith, length-insert_by_name m (order_by_name rows), length-order_by_name rows)

abbrev available : Bool → List ModelRegistry → ℤ
available broken models =
    if broken then pos 0 -ℤ pos 1 else pos (length (select (λ m. m.is_active) models))

abbrev pub status_of : X402Settings → Tallies → World → Status
status_of settings redis w = record {
  is_healthy = redis.ping;
  x402_enabled = settings.enabled && is_given settings.wallet_address;
  models_available = available w.pending_rollback w.db.models;
  payment_tally = payment_tally redis;
}

counted_at :
    (w : World) (broken : Bool)
    → handle
        (λ e. pure (pos 0 -ℤ pos 1))
        (proceed
          (λ models. pure (pos (length models)))
          (
            if broken
                then raised pending_rollback_error
                else ok (order_by_name (select (λ m. m.is_active) w.db.models)),
            w,
          ))
      ≡ (ok (available broken w.db.models), w)
counted_at w true = refl
counted_at w false =
    ap (λ n. (ok (pos n), w)) (length-order_by_name (select (λ m. m.is_active) w.db.models))

model_count_lem : (w : World) → model_count w ≡ (ok (available w.pending_rollback w.db.models), w)
unfolding get_active_models
model_count_lem w = counted_at w w.pending_rollback

-- In every state of the session and of Redis the status endpoint answers and changes nothing: it
-- reports whether Redis answered, the tally if it did, and the number of active models, or -1 where the
-- database cannot be asked.
pub x402_status_lem :
    (settings : X402Settings) (redis : Tallies) (w : World)
    → x402_status settings redis w ≡ (ok (status_of settings redis w), w)
unfolding x402_status
x402_status_lem settings redis w = rw (model_count_lem w) refl
