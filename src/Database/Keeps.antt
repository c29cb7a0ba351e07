-- ===== src/Database/Keeps.antt =====
-- What every call keeps of the database, and the rules for chains of calls.
use cortex_cloud_api.Prelude.{◌≡◌, refl, Bool, true, false, List, [], ◌∷◌, if◌then◌else◌}
use cortex_cloud_api.Prelude.{Option, none, some}
use cortex_cloud_api.Effects.{
  Exn, Result, ok, raised, Exec, catch, handle, proceed, or_raise, ◌>>=◌,
}
use cortex_cloud_api.Effects.After.{After, After-state, After-weaken}
use cortex_cloud_api.Database.{Db, World}
use cortex_cloud_api.Database.Query.{pending_rollback_error, execute, scalar_one_or_none}
use cortex_cloud_api.Database.Rules.{Unchanged}

module _ (P : Db → Type 0) where
  -- However the call ends, `P` holds of the database if it did before.
  abbrev pub Keeps : {A : Type 0} → Exec World A → Type 0
  Keeps m = (w : World) → P w.db → P (m w).1.db

  proceed-Keeps :
      {A B : Type 0} (f : A → Exec World B) (r : Result A × World)
      → P r.1.db
      → ((a : A) → Keeps (f a))
      → P (proceed f r).1.db
  proceed-Keeps f (ok a, w) h k = k a w h
  proceed-Keeps f (raised e, w) h k = h

  pub bind-Keeps :
      {A B : Type 0} (m : Exec World A) (f : A → Exec World B)
      → Keeps m
      → ((a : A) → Keeps (f a))
      → Keeps (m >>= f)
  bind-Keeps m f h k w p = proceed-Keeps f (m w) (h w p) k

  handle-Keeps :
      {A : Type 0} (handler : Exn → Exec World A) (r : Result A × World)
      → P r.1.db
      → ((e : Exn) → Keeps (handler e))
      → P (handle handler r).1.db
  handle-Keeps handler (ok a, w) h k = h
  handle-Keeps handler (raised e, w) h k = k e w h

  pub catch-Keeps :
      {A : Type 0} (m : Exec World A) (handler : Exn → Exec World A)
      → Keeps m
      → ((e : Exn) → Keeps (handler e))
      → Keeps (catch m handler)
  catch-Keeps m handler h k w p = handle-Keeps handler (m w) (h w p) k

  pub if-Keeps :
      {A : Type 0} (b : Bool) (m k : Exec World A) → Keeps m → Keeps k → Keeps (if b then m else k)
  if-Keeps true m k h h' = h
  if-Keeps false m k h h' = h'

  pub scalar-Keeps : {A : Type 0} (rows : List A) → Keeps (scalar_one_or_none rows)
  scalar-Keeps [] w h = h
  scalar-Keeps (row ∷ []) w h = h
  scalar-Keeps (row ∷ another ∷ rows) w h = h

  pub or_raise-Keeps : {A : Type 0} (found : Option A) (e : Exn) → Keeps (or_raise found e)
  or_raise-Keeps none e w h = h
  or_raise-Keeps (some a) e w h = h

  -- A call that leaves the database as it was keeps everything.
  pub same-Keeps : {A : Type 0} (m : Exec World A) → ((w : World) → (m w).1.db ≡ w.db) → Keeps m
  same-Keeps m same w h = rw (same w) h

  -- A query for one row, and what is done with it.
  pub one_row-Keeps :
      {A B : Type 0} (query : Db → List A) (f : Option A → Exec World B)
      → ((found : Option A) → Keeps (f found))
      → Keeps (execute query >>= λ rows. scalar_one_or_none rows >>= f)
  one_row-Keeps query f h =
      bind-Keeps (execute query) (λ rows. scalar_one_or_none rows >>= f) (λ w p. p)
        λ rows. bind-Keeps (scalar_one_or_none rows) f (scalar-Keeps rows) h

  checked_at :
      {A : Type 0} (m : Exec World A) (k : World → Exec World A) (w : World) (broken taken : Bool)
      → P w.db
      → P (m w).1.db
      → (taken ≡ false → P (k w w).1.db)
      → P
          (proceed
            (λ t v. (if t then m else k v) v)
            (if broken then raised pending_rollback_error else ok taken, w)).1.db
  checked_at m k w true taken p h h' = p
  checked_at m k w false true p h h' = h
  checked_at m k w false false p h h' = h' refl

  -- A test of the database, and what is done when it fails: the other branch may use that.
  pub checked-Keeps :
      {A : Type 0} (test : Db → Bool) (m : Exec World A) (k : World → Exec World A)
      → Keeps m
      → ((w : World) → test w.db ≡ false → P w.db → P (k w w).1.db)
      → Keeps (execute test >>= λ taken w. (if taken then m else k w) w)
  checked-Keeps test m k h h' w p =
      checked_at m k w w.pending_rollback (test w.db) p (h w p) (λ free. h' w free p)

  -- From what a call does where it returns, when it changes nothing where it raises.
  pub After-Keeps :
      {A : Type 0} (Q : A → World → Type 0) (w : World) (r : Result A × World)
      → After Q (Unchanged w) r
      → ((a : A) (v : World) → Q a v → P v.db)
      → P w.db
      → P r.1.db
  After-Keeps Q w r h k p =
      After-state (λ v. P v.db) r
        (After-weaken Q (λ a v. P v.db) (Unchanged w) (λ e v. P v.db) r h k (λ e v same. rw same p))
