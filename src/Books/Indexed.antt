-- ===== src/Books/Indexed.antt =====
-- The unique columns over a history of requests, and the lookups that rest on them.
use cortex_cloud_api.Prelude.{
  ℕ, suc, ◌<◌, ◌≡◌, refl, ap, String, str_eq, Bool, false, Option, none, some, List, [], ◌∷◌, ◌++◌,
  arith, ◌==◌, select, any, All, ltb, Bool-cases, inl, inr, ◌&&◌,
}
use cortex_cloud_api.Prelude.Int.{ℤ}
use cortex_cloud_api.Effects.{http, message, ok, pure, or_raise, raise_if, ◌>>◌}
use cortex_cloud_api.Database.{ModelRegistry, ApiKey, BillingAccount, Db, World}
use cortex_cloud_api.Database.Query.{scalar_one_or_none, update, failed_flush}
use cortex_cloud_api.Database.Keeps.{
  Keeps, bind-Keeps, checked-Keeps, or_raise-Keeps, same-Keeps, one_row-Keeps,
}
use cortex_cloud_api.Schemas.{EmbeddingsRequest, EmbeddingsResponse}
use cortex_cloud_api.Security.{Crypto, generate_api_key}
use cortex_cloud_api.Registry.{
  get_model_by_name, create_model, toggle_model_active, toggle_found, set_active, with_id,
}
use cortex_cloud_api.Registry.Laws.{get_model_by_name_reads}
use cortex_cloud_api.Usage.{Usage, account_to_charge}
use cortex_cloud_api.Routing.{Provider, ProviderContext, Answer}
use cortex_cloud_api.Admin.{is_there, admin_create_model, admin_toggle_model}
use cortex_cloud_api.Dashboard.{organizations_of, keys_of, not_found}
use cortex_cloud_api.Dashboard.Accounts.{
  create_key, revoke_key, revoke_in, revoked_key, new_key, add_key,
}
use cortex_cloud_api.Completions.Streams.{in_session}
use cortex_cloud_api.Completions.Endpoint.{Services}
use cortex_cloud_api.Books.{Write, serve_all, migrated}
use cortex_cloud_api.Books.Handlers.{is_taken, taken_name}
use cortex_cloud_api.Books.Kept.{Kept, All-Pays, serve_all_keeps}
use cortex_cloud_api.Books.Rows.{AtMostOne, select-none, IsUnique-append, IsUnique-map}
use cortex_cloud_api.Books.Tables.{
  IsIndexed, str_sound, record_usage-IsIndexed, simulated_deposit-IsIndexed, register-IsIndexed,
}

-- Ids that are handed out stay so.
more_owned :
    (n : ℕ) (rows : List BillingAccount)
    → All (λ a. a.organization_id < n) rows
    → All (λ a. a.organization_id < suc n) rows
more_owned n [] h = tt
more_owned n (a ∷ rows) (h, hs) = (omega (arith, h), more_owned n rows hs)

add_key-IsIndexed :
    (c : Crypto) (key : ApiKey) (db : Db)
    → is_taken key db ≡ false
    → IsIndexed db
    → IsIndexed (add_key c key db)
add_key-IsIndexed c key db free h = record {
  emails = h.emails;
  names = h.names;
  hashes =
      IsUnique-append (λ (k : ApiKey). k.hashed_key) str_eq str_sound db.api_keys key
        (select-none (λ k. str_eq k.hashed_key key.hashed_key) db.api_keys free) h.hashes;
  organizations = h.organizations;
  correlations = h.correlations;
  owned = more_owned db.next_id db.accounts h.owned;
}

create_key-IsIndexed :
    (c : Crypto) (user_id : ℕ) (name : String) (daily_limit monthly_limit : Option ℤ)
    (random_part : String)
    → Keeps IsIndexed (create_key c user_id name daily_limit monthly_limit random_part)
unfolding create_key
create_key-IsIndexed c user_id name daily_limit monthly_limit random_part =
    one_row-Keeps IsIndexed (organizations_of user_id) _ λ found.
      bind-Keeps IsIndexed (or_raise found (not_found "User organization not found.")) _
        (or_raise-Keeps IsIndexed found (not_found "User organization not found."))
        λ org w.
          let key : ApiKey =
            new_key c w.db.next_id org.id name daily_limit monthly_limit random_part in
          checked-Keeps IsIndexed (is_taken key)
            (failed_flush "IntegrityError: api_keys.hashed_key")
            (λ v. update (add_key c key) >> pure (key, (generate_api_key c random_part).0))
            (λ v h. h) (λ v free h. add_key-IsIndexed c key v.db free h) w

revoked_hash : (id now : ℕ) (k : ApiKey) → (revoked_key id now k).hashed_key ≡ k.hashed_key
revoked_hash id now k = ground arith

revoke_in-IsIndexed : (id now : ℕ) (db : Db) → IsIndexed db → IsIndexed (revoke_in id now db)
revoke_in-IsIndexed id now db h = record {
  emails = h.emails;
  names = h.names;
  hashes =
      IsUnique-map (λ (k : ApiKey). k.hashed_key) str_eq (revoked_key id now) db.api_keys
        (revoked_hash id now) h.hashes;
  organizations = h.organizations;
  correlations = h.correlations;
  owned = h.owned;
}

revoke_key-IsIndexed : (user_id key_id : ℕ) → Keeps IsIndexed (revoke_key user_id key_id)
unfolding revoke_key
revoke_key-IsIndexed user_id key_id =
    one_row-Keeps IsIndexed (λ db. select (λ k. k.id == key_id) (keys_of user_id db)) _
      λ found.
        bind-Keeps IsIndexed (or_raise found (not_found "API Key not found or access denied.")) _
          (or_raise-Keeps IsIndexed found (not_found "API Key not found or access denied."))
          λ key w. revoke_in-IsIndexed key.id w.clock w.db

add_model-IsIndexed :
    (row : ModelRegistry) (id : ℕ) (db : Db)
    → any (λ m. str_eq m.name row.name) db.models ≡ false
    → IsIndexed db
    → IsIndexed (record db { models = db.models ++ with_id id row ∷ []; next_id = suc db.next_id })
add_model-IsIndexed row id db free h = record {
  emails = h.emails;
  names =
      IsUnique-append (λ (m : ModelRegistry). m.name) str_eq str_sound db.models (with_id id row)
        (select-none (λ m. str_eq m.name row.name) db.models free) h.names;
  hashes = h.hashes;
  organizations = h.organizations;
  correlations = h.correlations;
  owned = more_owned db.next_id db.accounts h.owned;
}

create_model-IsIndexed : (row : ModelRegistry) → Keeps IsIndexed (create_model row)
unfolding create_model
create_model-IsIndexed row =
    checked-Keeps IsIndexed (λ db. any (λ m. str_eq m.name row.name) db.models)
      (failed_flush "IntegrityError: models.name")
      (λ v. do
        update (λ db. record db {
          models = db.models ++ with_id v.db.next_id row ∷ [];
          next_id = suc db.next_id;
        })
        pure (with_id v.db.next_id row))
      (λ v h. h) (λ v free h. add_model-IsIndexed row v.db.next_id v.db free h)

admin_create_model-IsIndexed : (row : ModelRegistry) → Keeps IsIndexed (admin_create_model row)
unfolding admin_create_model
admin_create_model-IsIndexed row =
    bind-Keeps IsIndexed (get_model_by_name row.name) _
      (same-Keeps IsIndexed (get_model_by_name row.name)
        (λ w. ap (λ (v : World). v.db) (get_model_by_name_reads row.name w)))
      λ existing.
        bind-Keeps IsIndexed (raise_if (is_there existing) (taken_name row)) _ (λ w h. h)
          λ _. create_model-IsIndexed row

set_active_name :
    (id : ℕ) (is_active : Bool) (m : ModelRegistry) → (set_active id is_active m).name ≡ m.name
set_active_name id is_active m = ground arith

toggle_found-IsIndexed :
    (id : ℕ) (is_active : Bool) (found : Option ModelRegistry)
    → Keeps IsIndexed (toggle_found id is_active found)
toggle_found-IsIndexed id is_active none w h = h
toggle_found-IsIndexed id is_active (some model) w h = record {
  emails = h.emails;
  names =
      IsUnique-map (λ (m : ModelRegistry). m.name) str_eq (set_active id is_active) w.db.models
        (set_active_name id is_active) h.names;
  hashes = h.hashes;
  organizations = h.organizations;
  correlations = h.correlations;
  owned = h.owned;
}

admin_toggle_model-IsIndexed :
    (id : ℕ) (is_active : Bool) → Keeps IsIndexed (admin_toggle_model id is_active)
unfolding admin_toggle_model toggle_model_active
admin_toggle_model-IsIndexed id is_active =
    bind-Keeps IsIndexed (toggle_model_active id is_active) _
      (one_row-Keeps IsIndexed (λ db. select (λ m. m.id == id) db.models) _
        (toggle_found-IsIndexed id is_active))
      λ model. or_raise-Keeps IsIndexed model (http 404 (message "Model not found in registry."))

IsIndexed-Kept : Kept IsIndexed (λ amount. Unit)
IsIndexed-Kept = record {
  usage = record_usage-IsIndexed;
  registration = register-IsIndexed;
  key_creation = create_key-IsIndexed;
  revocation = revoke_key-IsIndexed;
  payment = λ amount user_id any. simulated_deposit-IsIndexed amount user_id;
  model_creation = admin_create_model-IsIndexed;
  toggle = admin_toggle_model-IsIndexed;
}

pub migrated-IsIndexed : (clock : ℕ) → IsIndexed (migrated clock).db
migrated-IsIndexed clock = record {
  emails = λ k. tt;
  names = λ k. tt;
  hashes = λ k. tt;
  organizations = λ k. tt;
  correlations = λ k. tt;
  owned = tt;
}

scalar-AtMostOne :
    {A : Type 0} (rows : List A) (w : World)
    → AtMostOne rows
    → (o : Option A) × (scalar_one_or_none rows w ≡ (ok o, w))
scalar-AtMostOne [] w h = (none, refl)
scalar-AtMostOne (row ∷ []) w h = (some row, refl)
scalar-AtMostOne (row ∷ another ∷ rows) w h = absurd h

module _ (services : Services) (str_item : ℤ → String) (str_items : List ℤ → String)
    (answer : ℕ → Provider → ProviderContext → EmbeddingsRequest → Answer EmbeddingsResponse) where
  -- Whatever requests are served, one after another, and however each of them ends, the unique columns
  -- stay so: no two users have one email, no two models one name, no two keys one hash, no two usage
  -- logs one correlation id, and no two billing accounts one organization.
  pub serve_all-IsIndexed :
      (requests : List Write) (w : World)
      → IsIndexed w.db
      → IsIndexed (serve_all services str_item str_items answer requests w).db
  serve_all-IsIndexed requests w =
      serve_all_keeps IsIndexed (λ amount. Unit) IsIndexed-Kept services str_item str_items answer
        requests w (All-Pays requests)

  module _ (clock : ℕ) (requests : List Write) where
    abbrev pub reached : World
    reached = serve_all services str_item str_items answer requests (migrated clock)

    indexed : IsIndexed reached.db
    indexed = serve_all-IsIndexed requests (migrated clock) (migrated-IsIndexed clock)

    abbrev fresh : World
    fresh = record reached { pending_rollback = false }

    get_model_by_name_answers :
        (name : String)
        → (found : Option ModelRegistry) × ((get_model_by_name name fresh).0 ≡ ok found)
    unfolding get_model_by_name
    get_model_by_name_answers name =
        let (found, e) =
          scalar-AtMostOne (select (λ m. str_eq m.name name) reached.db.models) fresh
            (indexed.names name) in
        (found, ap (λ r. r.0) e)

    account_to_charge_answers :
        (u : Usage) (cost : ℕ)
        → (found : Option BillingAccount) × ((account_to_charge u cost fresh).0 ≡ ok found)
    unfolding account_to_charge
    account_to_charge_answers u cost = elim (Bool-cases (ltb 0 cost && (u.status_code == 200))) [
      | inl charges ↦
          let (found, e) =
            scalar-AtMostOne
              (select (λ a. a.organization_id == u.organization_id) reached.db.accounts) fresh
              (indexed.organizations u.organization_id) in
          (found, rw charges (ap (λ r. r.0) e))
      | inr free ↦ (none, rw free refl)
    ]

    -- After the migrations and any requests, neither the lookup of a model nor that of the account to
    -- charge fails: there are never several rows.
    pub lookups_answer :
        (name : String) (u : Usage) (cost : ℕ)
        → ((model : Option ModelRegistry) × ((in_session (get_model_by_name name) reached).0
              ≡ ok model))
          × ((account : Option BillingAccount) × ((in_session (account_to_charge u cost) reached).0
                ≡ ok account))
    lookups_answer name u cost = (get_model_by_name_answers name, account_to_charge_answers u cost)
