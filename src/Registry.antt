-- ===== src/Registry.antt =====
-- app/services/models.py: the model registry service. An error of the database leaves it as it was.
pub mod Laws
pub mod Activation
use Prim.Native.Nat.{Ordering}
use Prim.Native.String.{compare}
use cortex_cloud_api.Prelude.{
  ℕ, suc, ◌+◌, String, str_eq, ◌==◌, Bool, Option, none, some, List, [], ◌∷◌, ◌++◌, map, select,
  any, if◌then◌else◌,
}
use cortex_cloud_api.Effects.{Exec, pure, gets, ◌>>=◌, ◌>>◌}
use cortex_cloud_api.Database.{ModelRegistry, Db, World}
use cortex_cloud_api.Database.Query.{execute, scalar_one_or_none, update, failed_flush}

abbrev pub insert_by_name : ModelRegistry → List ModelRegistry → List ModelRegistry
insert_by_name m [] = m ∷ []
insert_by_name m (n ∷ rows) =
    let later = n ∷ insert_by_name m rows in
    elim (compare m.name n.name) [ Ordering.gt ↦ later | _ ↦ m ∷ n ∷ rows ]

-- `.order_by(ModelRegistry.name)`, in the order of the code points.
abbrev pub order_by_name : List ModelRegistry → List ModelRegistry
order_by_name [] = []
order_by_name (m ∷ rows) = insert_by_name m (order_by_name rows)

unfoldable pub get_active_models : Exec World (List ModelRegistry)
get_active_models = execute (λ db. order_by_name (select (λ m. m.is_active) db.models))

unfoldable pub get_model_by_name : String → Exec World (Option ModelRegistry)
get_model_by_name name = do
  rows ← execute (λ db. select (λ m. str_eq m.name name) db.models)
  scalar_one_or_none rows

abbrev pub with_id : ℕ → ModelRegistry → ModelRegistry
with_id id m = record m { id = id }

-- The row comes with its fields filled in; the database gives it its id, and its unique index on
-- `name` may refuse it.
unfoldable pub create_model : ModelRegistry → Exec World ModelRegistry
create_model row = do
  taken ← execute (λ db. any (λ m. str_eq m.name row.name) db.models)
  id ← gets (λ w. w.db.next_id)
  if taken then failed_flush "IntegrityError: models.name" else do
    update (λ db. record db { models = db.models ++ with_id id row ∷ []; next_id = suc db.next_id })
    pure (with_id id row)

abbrev pub set_active : ℕ → Bool → ModelRegistry → ModelRegistry
set_active id is_active m = if m.id == id then record m { is_active = is_active } else m

abbrev pub toggle_found : ℕ → Bool → Option ModelRegistry → Exec World (Option ModelRegistry)
toggle_found id is_active none = pure none
toggle_found id is_active (some model) = do
  update (λ db. record db { models = map (set_active id is_active) db.models })
  pure (some (record model { is_active = is_active }))

unfoldable pub toggle_model_active : ℕ → Bool → Exec World (Option ModelRegistry)
toggle_model_active id is_active = do
  rows ← execute (λ db. select (λ m. m.id == id) db.models)
  model ← scalar_one_or_none rows
  toggle_found id is_active model
