-- ===== src/Database/Query.antt =====
-- What the handlers use of SQLAlchemy: reading a session, one row or none, and writing it back.
use cortex_cloud_api.Prelude.{String, true, Option, none, some, List, [], ◌∷◌, if◌then◌else◌}
use cortex_cloud_api.Effects.{message, Exn, other, ok, raised, Exec, pure, raise}
use cortex_cloud_api.Database.{Db, World}

abbrev pub pending_rollback_error : Exn
pending_rollback_error = other (message "PendingRollbackError")

abbrev pub multiple_results : Exn
multiple_results = other (message "MultipleResultsFound")

-- A statement that reads the database.
abbrev pub execute : {A : Type 0} → (Db → A) → Exec World A
execute query w = (if w.pending_rollback then raised pending_rollback_error else ok (query w.db), w)

-- `result.scalar_one_or_none()`
abbrev pub scalar_one_or_none : {S A : Type 0} → List A → Exec S (Option A)
scalar_one_or_none [] = pure none
scalar_one_or_none (row ∷ []) = pure (some row)
scalar_one_or_none (row ∷ another ∷ rows) = raise multiple_results

-- `db.add(row)` and what the flush does with it: the rows are appended in the order of the calls.
abbrev pub update : (Db → Db) → Exec World (Unit {0})
update change w = (ok tt, record w { db = change w.db })

-- A commit whose flush the database refuses: nothing of it is kept, and the session is left with
-- the failed transaction.
abbrev pub failed_flush : {A : Type 0} → String → Exec World A
failed_flush reason w = (raised (other (message reason)), record w { pending_rollback = true })
