-- ===== src/Books/Handlers.antt =====
-- The operations that write keep the books sound, however they end.
use cortex_cloud_api.Prelude.{
  ◌≤◌, ap, ℕ, String, str_eq, Bool, Option, none, some, select, arith, any, ◌==◌, suc,
}
use cortex_cloud_api.Prelude.Int.{ℤ}
use cortex_cloud_api.Effects.{Exn, http, about, message, or_raise, raise_if}
use cortex_cloud_api.Database.{ModelRegistry, ApiKey, Db, World}
use cortex_cloud_api.Database.Query.{execute}
use cortex_cloud_api.Database.Keeps.{
  Keeps, bind-Keeps, if-Keeps, or_raise-Keeps, same-Keeps, one_row-Keeps, After-Keeps,
}
use cortex_cloud_api.Security.{Crypto}
use cortex_cloud_api.Registry.{get_model_by_name, create_model, toggle_model_active, toggle_found}
use cortex_cloud_api.Registry.Laws.{get_model_by_name_reads}
use cortex_cloud_api.Usage.{Usage, record_usage}
use cortex_cloud_api.Usage.Guarantees.{record_usage_keeps}
use cortex_cloud_api.Admin.{is_there, admin_create_model, admin_toggle_model}
use cortex_cloud_api.Dashboard.{organizations_of, keys_of, not_found}
use cortex_cloud_api.Dashboard.Accounts.{
  register, create_key, revoke_key, simulated_deposit, new_key,
}
use cortex_cloud_api.Dashboard.Money.{Registered, register-After, hashed}
use cortex_cloud_api.Dashboard.Decimals.{Decimal}
use cortex_cloud_api.Dashboard.Deposits.{IsDeposited, simulated_deposit-After}
use cortex_cloud_api.Books.Sound.{
  Books, IsSound, later-IsSound, charge-IsSound, deposited-IsSound, add_registration-IsSound,
}

pub record_usage-IsSound : (u : Usage) → Keeps IsSound (record_usage u)
record_usage-IsSound u w h =
    record_usage_keeps u w IsSound h λ log account fresh c. charge-IsSound u log account w.db c h

pub simulated_deposit-IsSound :
    (amount : Decimal) (user_id : ℕ)
    → amount.places ≤ 6
    → Keeps IsSound (simulated_deposit amount user_id)
simulated_deposit-IsSound amount user_id whole w h =
    After-Keeps IsSound (IsDeposited amount user_id w) w (simulated_deposit amount user_id w)
      (simulated_deposit-After amount user_id w)
      (λ balance v d. rw d.db_same (deposited-IsSound d.account amount user_id w.db whole d.only h))
      h

-- A row that takes one id.
one_more : (db : Db) → IsSound db → Books db.accounts db.transactions (suc db.next_id)
one_more db = later-IsSound db.accounts db.transactions db.next_id (suc db.next_id) (omega arith)

-- `api_keys.hashed_key` is unique.
abbrev pub is_taken : ApiKey → Db → Bool
is_taken key db = any (λ k. str_eq k.hashed_key key.hashed_key) db.api_keys

module _ (c : Crypto) where
  pub register-IsSound :
      (email password : String) (salt : ℕ) → Keeps IsSound (register c email password salt)
  register-IsSound email password salt w h =
      After-Keeps IsSound (Registered c email password salt w) w (register c email password salt w)
        (register-After c email password salt w)
        (λ user v r.
          rw r.1 (add_registration-IsSound email (hashed c email password salt w) w.db h))
        h

  pub create_key-IsSound :
      (user_id : ℕ) (name : String) (daily_limit monthly_limit : Option ℤ) (random_part : String)
      → Keeps IsSound (create_key c user_id name daily_limit monthly_limit random_part)
  unfolding create_key
  create_key-IsSound user_id name daily_limit monthly_limit random_part =
      one_row-Keeps IsSound (organizations_of user_id) _ λ found.
        bind-Keeps IsSound (or_raise found (not_found "User organization not found.")) _
          (or_raise-Keeps IsSound found (not_found "User organization not found."))
          λ org w.
            bind-Keeps IsSound
              (execute (
                is_taken
                  (new_key c w.db.next_id org.id name daily_limit monthly_limit random_part)))
              _ (λ v h. h) (λ taken. if-Keeps IsSound taken _ _ (λ v h. h) (λ v. one_more v.db)) w

pub revoke_key-IsSound : (user_id key_id : ℕ) → Keeps IsSound (revoke_key user_id key_id)
unfolding revoke_key
revoke_key-IsSound user_id key_id =
    one_row-Keeps IsSound (λ db. select (λ k. k.id == key_id) (keys_of user_id db)) _
      λ found.
        bind-Keeps IsSound (or_raise found (not_found "API Key not found or access denied.")) _
          (or_raise-Keeps IsSound found (not_found "API Key not found or access denied."))
          λ key w h. h

create_model-IsSound : (row : ModelRegistry) → Keeps IsSound (create_model row)
unfolding create_model
create_model-IsSound row =
    bind-Keeps IsSound (execute (λ db. any (λ m. str_eq m.name row.name) db.models)) _ (λ w h. h)
      λ taken w. if-Keeps IsSound taken _ _ (λ v h. h) (λ v. one_more v.db) w

abbrev pub taken_name : ModelRegistry → Exn
taken_name row = http 400 (about "Model name already exists in registry." row.name)

pub admin_create_model-IsSound : (row : ModelRegistry) → Keeps IsSound (admin_create_model row)
unfolding admin_create_model
admin_create_model-IsSound row =
    bind-Keeps IsSound (get_model_by_name row.name) _
      (same-Keeps IsSound (get_model_by_name row.name)
        (λ w. ap (λ (v : World). v.db) (get_model_by_name_reads row.name w)))
      λ existing.
        bind-Keeps IsSound (raise_if (is_there existing) (taken_name row)) _ (λ w h. h)
          λ _. create_model-IsSound row

toggle_found-IsSound :
    (id : ℕ) (is_active : Bool) (found : Option ModelRegistry)
    → Keeps IsSound (toggle_found id is_active found)
toggle_found-IsSound id is_active none w h = h
toggle_found-IsSound id is_active (some model) w h = h

pub admin_toggle_model-IsSound :
    (id : ℕ) (is_active : Bool) → Keeps IsSound (admin_toggle_model id is_active)
unfolding admin_toggle_model toggle_model_active
admin_toggle_model-IsSound id is_active =
    bind-Keeps IsSound (toggle_model_active id is_active) _
      (one_row-Keeps IsSound (λ db. select (λ m. m.id == id) db.models) _
        (toggle_found-IsSound id is_active))
      λ model. or_raise-Keeps IsSound model (http 404 (message "Model not found in registry."))
