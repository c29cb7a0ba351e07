-- ===== src/Seed/Again.antt =====
-- app/scratch/seed_dev.py: a second run.
use cortex_cloud_api.Prelude.{
  ℕ, String, str_eq, ==_refl, Bool, true, false, List, [], ◌∷◌, ◌≡◌, refl, ap, ◌∙◌, All, select,
  ◌==◌,
}
use cortex_cloud_api.Effects.{Exn, Result, ok, raised, bind-ok}
use cortex_cloud_api.Effects.After.{After, bind-After, After-weaken}
use cortex_cloud_api.Database.{User, Organization, ApiKey, Db, World}
use cortex_cloud_api.Completions.Streams.{own_session}
use cortex_cloud_api.Security.{Crypto}
use cortex_cloud_api.Seed.{
  Entry, entries, Wanted, ensure, seed_models, wanted_user, wanted_organization, wanted_key,
  seed_workspace, seed_rows, kept, seed,
}
use cortex_cloud_api.Seed.Steps.{
  Whatever, Creates, Ensured, ensure-After, ensure_again, Ensured-elsewhere, select-last,
  select-first, IsNamed, Seeded, AllDiffer, seed_models-After, seed_models_again,
}

abbrev has_email : String → User → Bool
has_email email u = str_eq u.email email

abbrev admin_email : String
admin_email = "admin@cortexcloud.ai"

abbrev dev_email : String
dev_email = "developer@example.com"

-- The rows of the workspace are there, each once.
abbrev HasWorkspace : Db → Type 0
HasWorkspace db =
    (admin : User) × (dev : User) × (org : Organization) × (key : ApiKey) × (select
        (has_email admin_email) db.users
      ≡ admin ∷ [])
    × (select (has_email dev_email) db.users ≡ dev ∷ [])
    × (select (λ o. o.owner_id == dev.id) db.organizations ≡ org ∷ [])
    × (select (λ k. k.organization_id == org.id) db.api_keys ≡ key ∷ [])

-- What a run leaves: the rows of the workspace, with the models as they were.
abbrev Worked : World → Unit {0} → World → Type 0
Worked w done v = HasWorkspace v.db × (v.pending_rollback ≡ false) × (v.db.models ≡ w.db.models)

module _ (c : Crypto) (salt : Bool → ℕ) (random_part : String) where
  abbrev admin : Wanted User
  admin = wanted_user c salt random_part admin_email "adminpassword" true

  abbrev dev : Wanted User
  dev = wanted_user c salt random_part dev_email "devpassword" false

  abbrev org : ℕ → Wanted Organization
  org owner = wanted_organization c salt random_part owner

  abbrev key : ℕ → Wanted ApiKey
  key id = wanted_key c salt random_part id

  admin-Creates : Creates admin
  admin-Creates db h = select-first (has_email admin_email) db.users (admin.row db) refl h

  dev-Creates : Creates dev
  dev-Creates db h = select-first (has_email dev_email) db.users (dev.row db) refl h

  org-Creates : (owner : ℕ) → Creates (org owner)
  org-Creates owner db h =
      select-first (λ o. o.owner_id == owner) db.organizations ((org owner).row db) (==_refl owner)
        h

  key-Creates : (id : ℕ) → Creates (key id)
  key-Creates id db h =
      select-first (λ k. k.organization_id == id) db.api_keys ((key id).row db) (==_refl id) h

  -- The creation of the developer leaves the administrator.
  dev-keeps_admin :
      (w v : World) (u : User)
      → Ensured dev w u v
      → select (has_email admin_email) v.db.users ≡ select (has_email admin_email) w.db.users
  dev-keeps_admin w v u =
      Ensured-elsewhere dev (λ db. select (has_email admin_email) db.users) w v u
        (λ (db : Db). select-last (has_email admin_email) db.users (dev.row db) refl)

  worked :
      (w₀ w₁ w₂ w₃ w₄ : World) (a d : User) (o : Organization) (k : ApiKey)
      → Ensured admin w₀ a w₁
      → Ensured dev w₁ d w₂
      → Ensured (org d.id) w₂ o w₃
      → Ensured (key o.id) w₃ k w₄
      → Worked w₀ tt w₄
  worked w₀ w₁ w₂ w₃ w₄ a d o k ha hd ho hk =
      let users₃ = Ensured-elsewhere (org d.id) Db.users w₂ w₃ o (λ (db : Db). refl) ho in
      let users₄ = Ensured-elsewhere (key o.id) Db.users w₃ w₄ k (λ (db : Db). refl) hk in
      let orgs₄ = Ensured-elsewhere (key o.id) Db.organizations w₃ w₄ k (λ (db : Db). refl) hk in
      let users = users₄ ∙ users₃ in
      (
        (
          a,
          d,
          o,
          k,
          ap (select (has_email admin_email)) users ∙ dev-keeps_admin w₁ w₂ d hd ∙ ha.0,
          ap (select (has_email dev_email)) users ∙ hd.0,
          ap (select (λ r. r.owner_id == d.id)) orgs₄ ∙ ho.0,
          hk.0,
        ),
        hk.1,
        Ensured-elsewhere (key o.id) Db.models w₃ w₄ k (λ (db : Db). refl) hk
            ∙ Ensured-elsewhere (org d.id) Db.models w₂ w₃ o (λ (db : Db). refl) ho
            ∙ Ensured-elsewhere dev Db.models w₁ w₂ d (λ (db : Db). refl) hd
            ∙ Ensured-elsewhere admin Db.models w₀ w₁ a (λ (db : Db). refl) ha,
      )

  seed_workspace-After :
      (w : World) → After (Worked w) Whatever (seed_workspace c salt random_part w)
  seed_workspace-After w =
      bind-After (Ensured admin w) (Worked w) Whatever (ensure admin) _ w
        (ensure-After admin w admin-Creates)
        λ (a : User) (w₁ : World) (ha : Ensured admin w a w₁).
          bind-After (Ensured dev w₁) (Worked w) Whatever (ensure dev) _ w₁
            (ensure-After dev w₁ dev-Creates)
            λ (d : User) (w₂ : World) (hd : Ensured dev w₁ d w₂).
              bind-After (Ensured (org d.id) w₂) (Worked w) Whatever (ensure (org d.id)) _ w₂
                (ensure-After (org d.id) w₂ (org-Creates d.id))
                λ (o : Organization) (w₃ : World) (ho : Ensured (org d.id) w₂ o w₃).
                  bind-After (Ensured (key o.id) w₃) (Worked w) Whatever (ensure (key o.id)) _ w₃
                    (ensure-After (key o.id) w₃ (key-Creates o.id))
                    λ (k : ApiKey) (w₄ : World) (hk : Ensured (key o.id) w₃ k w₄).
                      worked w w₁ w₂ w₃ w₄ a d o k ha hd ho hk

  seed_workspace_again :
      (w : World)
      → HasWorkspace w.db
      → w.pending_rollback ≡ false
      → seed_workspace c salt random_part w ≡ (ok tt, w)
  seed_workspace_again w (a, d, o, k, ha, hd, ho, hk) p =
      bind-ok (ensure admin) _ w (ensure_again admin w a ha p)
      ∙ bind-ok (ensure dev) _ w (ensure_again dev w d hd p)
      ∙ bind-ok (ensure (org d.id)) _ w (ensure_again (org d.id) w o ho p)
      ∙ bind-ok (ensure (key o.id)) _ w (ensure_again (key o.id) w k hk p)

-- All the rows are there, each once.
abbrev Settled : Unit {0} → World → Type 0
Settled done w = All (IsNamed w.db) entries × HasWorkspace w.db

IsNamed-moved :
    (es : List Entry) (w v : World)
    → v.db.models ≡ w.db.models
    → All (IsNamed w.db) es
    → All (IsNamed v.db) es
IsNamed-moved [] w v e h = tt
IsNamed-moved (f ∷ rest) w v e ((m, found), h) =
    ((m, ap (select (λ r. str_eq r.name f.name)) e ∙ found), IsNamed-moved rest w v e h)

entries-AllDiffer : AllDiffer entries
entries-AllDiffer = (
  (refl, (refl, (refl, (refl, tt)))),
  ((refl, (refl, (refl, tt))), ((refl, (refl, tt)), ((refl, tt), (tt, tt)))),
)

module _ (c : Crypto) (salt : Bool → ℕ) (random_part : String) where
  seed_rows-After :
      (w : World)
      → w.pending_rollback ≡ false
      → After Settled Whatever (seed_rows c salt random_part w)
  seed_rows-After w p =
      bind-After (Seeded entries w) Settled Whatever (seed_models entries) _ w
        (seed_models-After entries w entries-AllDiffer p)
        λ (done : Unit {0}) (u : World) (s : Seeded entries w done u).
          After-weaken (Worked u) Settled Whatever Whatever (seed_workspace c salt random_part u)
            (seed_workspace-After c salt random_part u)
            (λ (end : Unit {0}) (v : World) (h : Worked u end v).
              (IsNamed-moved entries u v h.2 s.0, h.0))
            (λ (x : Exn) (v : World) (k : Unit {0}). k)

  seed_rows_again :
      (w : World)
      → Settled tt w
      → w.pending_rollback ≡ false
      → seed_rows c salt random_part w ≡ (ok tt, w)
  seed_rows_again w (named, workspace) p =
      bind-ok (seed_models entries) _ w (seed_models_again entries w named p)
      ∙ seed_workspace_again c salt random_part w workspace p

  seed-Settled : (w : World) → Settled tt w → seed c salt random_part w ≡ (ok tt, w)
  unfolding seed
  seed-Settled w h =
      ap (λ r. kept w (own_session w r))
        (seed_rows_again (record w { pending_rollback = false }) h refl)

kept-Settled :
    (w : World) (r : Result (Unit {0}) × World)
    → After Settled Whatever r
    → (kept w (own_session w r)).0 ≡ ok tt
    → Settled tt (kept w (own_session w r)).1
kept-Settled w (ok done, v) h e = h
kept-Settled w (raised x, v) h e = cc

-- Once a run has seeded the database, every further run returns too and changes nothing, whatever keys
-- and salts it draws.
pub seed_twice :
    (c : Crypto) (salt salt' : Bool → ℕ) (random_part random_part' : String) (w : World)
    → (seed c salt random_part w).0 ≡ ok tt
    → seed c salt' random_part' (seed c salt random_part w).1
      ≡ (ok tt, (seed c salt random_part w).1)
unfolding seed
seed_twice c salt salt' random_part random_part' w e =
    seed-Settled c salt' random_part' (seed c salt random_part w).1 (
      kept-Settled w (seed_rows c salt random_part (record w { pending_rollback = false }))
        (seed_rows-After c salt random_part (record w { pending_rollback = false }) refl) e)
