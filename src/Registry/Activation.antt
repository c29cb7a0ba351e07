-- ===== src/Registry/Activation.antt =====
-- Switching a model on or off, and what the lookup by name makes of it.
use cortex_cloud_api.Prelude.{
  ℕ, String, str_eq, Bool, false, Option, none, some, List, [], ◌∷◌, map, select, ◌==◌, ◌≡◌, refl,
  ap, ◌∙◌, arith,
}
use cortex_cloud_api.Effects.{ok, ◌>>=◌, bind-ok}
use cortex_cloud_api.Effects.After.{After, bind-After, After-ok}
use cortex_cloud_api.Database.{ModelRegistry, Db, World}
use cortex_cloud_api.Database.Query.{execute, scalar_one_or_none}
use cortex_cloud_api.Database.Rules.{Unchanged, IsOnly, execute-After, scalar-After, execute_ok}
use cortex_cloud_api.Registry.{get_model_by_name, set_active, toggle_found, toggle_model_active}

module _ (id : ℕ) (is_active : Bool) (w : World) where
  -- A model that was found is switched, in its one row of the table.
  abbrev pub IsToggled : Option ModelRegistry → World → Type 0
  IsToggled none v = v ≡ w
  IsToggled (some model) v =
      (model.is_active ≡ is_active)
      × (v ≡ record w { db = record w.db { models = map (set_active id is_active) w.db.models } })

  abbrev rows_of : Db → List ModelRegistry
  rows_of db = select (λ m. m.id == id) db.models

  found-After :
      (found : Option ModelRegistry)
      → After IsToggled (Unchanged w) (toggle_found id is_active found w)
  found-After none = refl
  found-After (some model) = (refl, refl)

  -- `toggle_model_active` switches the row with the id and nothing else; or nothing changes.
  pub toggle_model_active-After : After IsToggled (Unchanged w) (toggle_model_active id is_active w)
  unfolding toggle_model_active
  toggle_model_active-After =
      bind-After (λ rows v. (v ≡ w) × (rows ≡ rows_of w.db)) IsToggled (Unchanged w)
        (execute rows_of) (λ rows. scalar_one_or_none rows >>= toggle_found id is_active) w
        (execute-After rows_of w)
        λ rows v h.
          rw (h.0, h.1)
            (bind-After (λ o u. (u ≡ w) × IsOnly (rows_of w.db) o) IsToggled (Unchanged w)
              (scalar_one_or_none (rows_of w.db)) (toggle_found id is_active) w
              (scalar-After (rows_of w.db) w) λ o u k. rw k.0 (found-After o))

  select_toggled :
      (name : String) (models : List ModelRegistry)
      → select (λ m. str_eq m.name name) (map (set_active id is_active) models)
        ≡ map (set_active id is_active) (select (λ m. str_eq m.name name) models)
  select_toggled name [] = refl
  select_toggled name (m ∷ rest) = ground (arith, select_toggled name rest)

  abbrev after : World
  after = (toggle_model_active id is_active w).1

  toggled :
      (model : ModelRegistry)
      → (toggle_model_active id is_active w).0 ≡ ok (some model)
      → IsToggled (some model) after
  toggled model done =
      After-ok (some model) IsToggled (Unchanged w) (toggle_model_active id is_active w)
        toggle_model_active-After done

  -- A switch does not hide a model: once `toggle_model_active` has returned a model, a name that one
  -- row of the table has is still found, switched on or off, provided that the session works.
  pub get_model_by_name-toggled :
      (model row : ModelRegistry) (name : String)
      → w.pending_rollback ≡ false
      → (toggle_model_active id is_active w).0 ≡ ok (some model)
      → select (λ m. str_eq m.name name) w.db.models ≡ row ∷ []
      → get_model_by_name name after ≡ (ok (some (set_active id is_active row)), after)
  unfolding get_model_by_name
  get_model_by_name-toggled model row name session done only =
      let t = toggled model done in
      bind-ok (execute (λ db. select (λ m. str_eq m.name name) db.models)) scalar_one_or_none after
        (execute_ok (λ db. select (λ m. str_eq m.name name) db.models) after
          (ap (λ (v : World). v.pending_rollback) t.1 ∙ session))
      ∙ ap (λ rows. scalar_one_or_none rows after)
          (ap (λ (v : World). select (λ m. str_eq m.name name) v.db.models) t.1
            ∙ select_toggled name w.db.models
            ∙ ap (map (set_active id is_active)) only)
