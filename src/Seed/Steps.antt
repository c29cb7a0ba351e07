-- ===== src/Seed/Steps.antt =====
-- app/scratch/seed_dev.py: the steps of a run, and the same steps once their rows are there.
use mathlib.Core.List.{append-nil}
use cortex_cloud_api.Prelude.{
  String, str_eq, eq_refl, Bool, true, false, List, [], ◌∷◌, ◌++◌, ◌≡◌, refl, ◌∙◌, ◌⊎◌, inl, inr,
  All, Bool-cases, select, select-append, if◌then◌else◌,
}
use cortex_cloud_api.Effects.{Exn, ok, raised, proceed, ◌>>=◌, bind-ok}
use cortex_cloud_api.Effects.After.{After, bind-After, After-weaken}
use cortex_cloud_api.Database.{ModelRegistry, Db, World}
use cortex_cloud_api.Database.Query.{pending_rollback_error, scalar_one_or_none}
use cortex_cloud_api.Seed.{
  Entry, model_of, Wanted, create_row, or_create, ensure, wanted_model, seed_models,
}

abbrev pub Whatever : Exn → World → Type 0
Whatever e v = Unit

module _ {A : Type 0} (want : Wanted A) where
  -- Where there is no row, the created one is found.
  abbrev pub Creates : Type 0
  Creates = (db : Db) → want.query db ≡ [] → want.query (want.create db) ≡ want.row db ∷ []

  -- The row is there, and nothing else has happened than its creation.
  abbrev pub Ensured : World → A → World → Type 0
  Ensured w a v =
      (want.query v.db ≡ a ∷ [])
      × (v.pending_rollback ≡ false)
      × ((v ≡ w) ⊎ (v ≡ record w { db = want.create w.db }))

  create_row-After :
      (w : World)
      → Creates
      → want.query w.db ≡ []
      → w.pending_rollback ≡ false
      → After (Ensured w) Whatever (create_row want w)
  create_row-After w creates e p = elim (Bool-cases (want.refused w.db)) [
    | inl r ↦ rw r tt
    | inr r ↦ rw r (creates w.db e, p, inr refl)
  ]

  rows-After :
      (w : World) (rows : List A)
      → Creates
      → want.query w.db ≡ rows
      → w.pending_rollback ≡ false
      → After (Ensured w) Whatever ((scalar_one_or_none rows >>= or_create want) w)
  rows-After w [] creates e p = create_row-After w creates e p
  rows-After w (row ∷ []) creates e p = (e, p, inl refl)
  rows-After w (row ∷ another ∷ rest) creates e p = tt

  queried-After :
      (w : World) (broken : Bool)
      → Creates
      → w.pending_rollback ≡ broken
      → After (Ensured w) Whatever (
          proceed (or_create want) (
            proceed scalar_one_or_none
              (if broken then raised pending_rollback_error else ok (want.query w.db), w)))
  queried-After w true creates p = tt
  queried-After w false creates p = rows-After w (want.query w.db) creates refl p

  pub ensure-After : (w : World) → Creates → After (Ensured w) Whatever (ensure want w)
  ensure-After w creates = queried-After w w.pending_rollback creates refl

  again_at :
      (w : World) (a : A) (rows : List A) (broken : Bool)
      → rows ≡ a ∷ []
      → broken ≡ false
      → proceed (or_create want) (
          proceed scalar_one_or_none (if broken then raised pending_rollback_error else ok rows, w))
        ≡ (ok a, w)
  again_at w a rows broken e p = rw (e, p) refl

  pub ensure_again :
      (w : World) (a : A)
      → want.query w.db ≡ a ∷ []
      → w.pending_rollback ≡ false
      → ensure want w ≡ (ok a, w)
  ensure_again w a e p = again_at w a (want.query w.db) w.pending_rollback e p

  -- What the creation keeps is kept.
  pub Ensured-elsewhere :
      {T : Type 0} (f : Db → T) (w v : World) (a : A)
      → ((db : Db) → f (want.create db) ≡ f db)
      → Ensured w a v
      → f v.db ≡ f w.db
  Ensured-elsewhere f w v a same (e, p, inl here) = rw here refl
  Ensured-elsewhere f w v a same (e, p, inr made) = rw made (same w.db)

-- The models.
abbrev has_name : String → ModelRegistry → Bool
has_name name m = str_eq m.name name

pub select-last :
    {A : Type 0} (p : A → Bool) (rows : List A) (row : A)
    → p row ≡ false
    → select p (rows ++ row ∷ []) ≡ select p rows
select-last p rows row h = select-append p rows (row ∷ []) ∙ rw h (append-nil (select p rows))

pub select-first :
    {A : Type 0} (p : A → Bool) (rows : List A) (row : A)
    → p row ≡ true
    → select p rows ≡ []
    → select p (rows ++ row ∷ []) ≡ row ∷ []
select-first p rows row h e = select-append p rows (row ∷ []) ∙ rw (h, e) refl

abbrev pub IsNamed : Db → Entry → Type 0
IsNamed db e = (m : ModelRegistry) × (select (has_name e.name) db.models ≡ m ∷ [])

-- The entries of a list have different names.
abbrev pub OthersDiffer : Entry → List Entry → Type 0
OthersDiffer e = All (λ (f : Entry). str_eq f.name e.name ≡ false)

abbrev pub AllDiffer : List Entry → Type 0
AllDiffer [] = Unit
AllDiffer (e ∷ rest) = OthersDiffer e rest × AllDiffer rest

-- A test that no entry's model passes finds the same rows as before.
abbrev pub Keeps : List Entry → World → World → Type 0
Keeps es w v =
    (name : String)
    → All (λ (f : Entry). str_eq f.name name ≡ false) es
    → select (has_name name) v.db.models ≡ select (has_name name) w.db.models

abbrev pub Seeded : List Entry → World → Unit {0} → World → Type 0
Seeded es w done v = All (IsNamed v.db) es × (v.pending_rollback ≡ false) × Keeps es w v

Ensured-Keeps :
    (e : Entry) (w v : World) (m : ModelRegistry) (name : String)
    → str_eq e.name name ≡ false
    → Ensured (wanted_model e) w m v
    → select (has_name name) v.db.models ≡ select (has_name name) w.db.models
Ensured-Keeps e w v m name h (found, p, inl here) = rw here refl
Ensured-Keeps e w v m name h (found, p, inr made) =
    rw made (select-last (has_name name) w.db.models (model_of w.db.next_id e) h)

wanted_model-Creates : (e : Entry) → Creates (wanted_model e)
wanted_model-Creates e db h =
    select-first (has_name e.name) db.models (model_of db.next_id e) (eq_refl e.name) h

extended :
    (e : Entry) (rest : List Entry) (w u v : World) (m : ModelRegistry)
    → OthersDiffer e rest
    → Ensured (wanted_model e) w m u
    → Seeded rest u tt v
    → Seeded (e ∷ rest) w tt v
extended e rest w u v m others first (named, p, keeps) = (
  ((m, keeps e.name others ∙ first.0), named),
  p,
  λ (name : String) (h : All (λ (f : Entry). str_eq f.name name ≡ false) (e ∷ rest)).
      keeps name h.1 ∙ Ensured-Keeps e w u m name h.0 first,
)

pub seed_models-After :
    (es : List Entry) (w : World)
    → AllDiffer es
    → w.pending_rollback ≡ false
    → After (Seeded es w) Whatever (seed_models es w)
unfolding seed_models
seed_models-After [] w h p = (tt, p, λ (name : String) (k : Unit {0}). refl)
seed_models-After (e ∷ rest) w (others, h) p =
    bind-After (Ensured (wanted_model e) w) (Seeded (e ∷ rest) w) Whatever (ensure (wanted_model e))
      (λ m. seed_models rest) w (ensure-After (wanted_model e) w (wanted_model-Creates e))
      (λ (m : ModelRegistry) (u : World) (first : Ensured (wanted_model e) w m u).
        After-weaken (Seeded rest u) (Seeded (e ∷ rest) w) Whatever Whatever (seed_models rest u)
          (seed_models-After rest u h first.1)
          (λ (done : Unit {0}) (v : World) (s : Seeded rest u done v).
            extended e rest w u v m others first s)
          (λ (x : Exn) (v : World) (k : Unit {0}). k))

pub seed_models_again :
    (es : List Entry) (w : World)
    → All (IsNamed w.db) es
    → w.pending_rollback ≡ false
    → seed_models es w ≡ (ok tt, w)
unfolding seed_models
seed_models_again [] w h p = refl
seed_models_again (e ∷ rest) w ((m, found), h) p =
    bind-ok (ensure (wanted_model e)) (λ model. seed_models rest) w
      (ensure_again (wanted_model e) w m found p)
    ∙ seed_models_again rest w h p
