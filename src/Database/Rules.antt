-- ===== src/Database/Rules.antt =====
-- The rules of `After` for the statements of a session.
use cortex_cloud_api.Prelude.{
  ap, Bool, true, false, ◌≡◌, refl, List, [], ◌∷◌, Option, none, some, if◌then◌else◌,
}
use cortex_cloud_api.Effects.{Exn, ok, raised}
use cortex_cloud_api.Effects.After.{After}
use cortex_cloud_api.Database.{Db, World}
use cortex_cloud_api.Database.Query.{pending_rollback_error, execute, scalar_one_or_none}

-- A statement that fails has changed nothing of the database.
abbrev pub Unchanged : World → Exn → World → Type 0
Unchanged w e v = v.db ≡ w.db

execute_at :
    {A : Type 0} (query : Db → A) (w : World) (broken : Bool)
    → After
        (λ a v. (v ≡ w) × (a ≡ query w.db))
        (Unchanged w)
        (if broken then raised pending_rollback_error else ok (query w.db), w)
execute_at query w true = refl
execute_at query w false = (refl, refl)

pub execute-After :
    {A : Type 0} (query : Db → A) (w : World)
    → After (λ a v. (v ≡ w) × (a ≡ query w.db)) (Unchanged w) (execute query w)
execute-After query w = execute_at query w w.pending_rollback

-- The row that a query gives, if any.
abbrev pub IsOnly : {A : Type 0} → List A → Option A → Type 0
IsOnly rows none = rows ≡ []
IsOnly rows (some row) = rows ≡ row ∷ []

pub scalar-After :
    {A : Type 0} (rows : List A) (w : World)
    → After (λ row v. (v ≡ w) × IsOnly rows row) (Unchanged w) (scalar_one_or_none rows w)
scalar-After [] w = (refl, refl)
scalar-After (row ∷ []) w = (refl, refl)
scalar-After (row ∷ another ∷ rows) w = refl

-- A session that is not waiting for a rollback answers.
pub execute_ok :
    {A : Type 0} (query : Db → A) (w : World)
    → w.pending_rollback ≡ false
    → execute query w ≡ (ok (query w.db), w)
execute_ok query w h = ap (λ b. (if b then raised pending_rollback_error else ok (query w.db), w)) h
