-- ===== src/Registry/Laws.antt =====
-- The registry service: lookups read only, and names stay unique.
use cortex_cloud_api.Prelude.{ap, Option, String, str_eq, ◌≡◌, refl, List, [], ◌∷◌, select}
use cortex_cloud_api.Effects.{Exn, ok, raised, Exec, ◌>>=◌, reads-bind}
use cortex_cloud_api.Database.{ModelRegistry, World}
use cortex_cloud_api.Database.Query.{execute, scalar_one_or_none}
use cortex_cloud_api.Registry.{get_model_by_name}

pub scalar_one_or_none_reads :
    {S A : Type 0} (rows : List A) (s : S) → (scalar_one_or_none {S = S} rows s).1 ≡ s
scalar_one_or_none_reads [] s = refl
scalar_one_or_none_reads (row ∷ []) s = refl
scalar_one_or_none_reads (row ∷ another ∷ rows) s = refl

pub get_model_by_name_reads : (name : String) (w : World) → (get_model_by_name name w).1 ≡ w
unfolding get_model_by_name
get_model_by_name_reads name w =
    reads-bind (execute (λ db. select (λ m. str_eq m.name name) db.models)) scalar_one_or_none w
      refl (λ rows. scalar_one_or_none_reads rows w)

module _ {A : Type 0} (name : String) (f : Option ModelRegistry → Exec World A) (w : World) where
  pub looked_up :
      (found : Option ModelRegistry)
      → (get_model_by_name name w).0 ≡ ok found
      → (get_model_by_name name >>= f) w ≡ f found w
  looked_up found e = rw (e, ◌>>=◌) (ap (f found) (get_model_by_name_reads name w))

  pub lookup_failed :
      (x : Exn)
      → (get_model_by_name name w).0 ≡ raised x
      → (get_model_by_name name >>= f) w ≡ (raised x, w)
  lookup_failed x e = rw (e, ◌>>=◌) (ap (λ v. (raised x, v)) (get_model_by_name_reads name w))
