-- ===== src/Dashboard/Access.antt =====
-- From the dashboard to the gateway: a created key is accepted, a revoked key is refused.
use cortex_cloud_api.Prelude.{
  ℕ, ◌≡◌, refl, Bool, true, false, String, str_eq, Option, none, some, [], ◌∷◌, any, if◌then◌else◌,
}
use cortex_cloud_api.Prelude.Int.{ℤ}
use cortex_cloud_api.Effects.{Exec, pure, or_raise, ◌>>=◌, ◌>>◌, gets}
use cortex_cloud_api.Effects.After.{After, bind-After}
use cortex_cloud_api.Database.{ApiKey, Organization, Db, World}
use cortex_cloud_api.Database.Query.{execute, scalar_one_or_none, update, failed_flush}
use cortex_cloud_api.Database.Rules.{Unchanged, IsOnly, execute-After, scalar-After}
use cortex_cloud_api.Security.{Crypto, generate_api_key}
use cortex_cloud_api.Dashboard.{organizations_of, not_found}
use cortex_cloud_api.Dashboard.Accounts.{create_key, new_key, add_key}

module _ (c : Crypto) (user_id : ℕ) (name : String) (daily_limit monthly_limit : Option ℤ)
    (random_part : String) (w : World) where
  abbrev has_hash : ApiKey → Db → Bool
  has_hash key db = any (λ k. str_eq k.hashed_key key.hashed_key) db.api_keys

  -- What a successful `create_key` has done.
  pub record IsCreated (made : ApiKey × String) (v : World) : Type 0 where
    pub org : Organization
    pub only : organizations_of user_id w.db ≡ org ∷ []
    pub key_same : made.0 ≡ new_key c w.db.next_id org.id name daily_limit monthly_limit random_part
    pub text_same : made.1 ≡ (generate_api_key c random_part).0
    pub fresh : has_hash made.0 w.db ≡ false
    pub world_same : v ≡ record w { db = add_key c made.0 w.db }

  module _ (org : Organization) (only : organizations_of user_id w.db ≡ org ∷ []) where
    abbrev key : ApiKey
    key = new_key c w.db.next_id org.id name daily_limit monthly_limit random_part

    abbrev insert : Bool → Exec World (ApiKey × String)
    insert taken =
        if taken
        then failed_flush "IntegrityError: api_keys.hashed_key"
        else do update (add_key c key); pure (key, (generate_api_key c random_part).0)

    insert-After :
        (taken : Bool) → has_hash key w.db ≡ taken → After IsCreated (Unchanged w) (insert taken w)
    insert-After true e = refl
    insert-After false e = record {
      org = org;
      only = only;
      key_same = refl;
      text_same = refl;
      fresh = e;
      world_same = refl;
    }

    key-After : After IsCreated (Unchanged w) ((execute (has_hash key) >>= insert) w)
    key-After =
        bind-After (λ taken v. (v ≡ w) × (taken ≡ has_hash key w.db)) IsCreated (Unchanged w)
          (execute (has_hash key)) insert w (execute-After (has_hash key) w)
          λ taken v h. rw (h.0, h.1) (insert-After (has_hash key w.db) refl)

  abbrev make : Option Organization → Exec World (ApiKey × String)
  make found = do
    org ← or_raise found (not_found "User organization not found.")
    id ← gets (λ w. w.db.next_id)
    let key : ApiKey = new_key c id org.id name daily_limit monthly_limit random_part
    taken ← execute (λ db. any (λ k. str_eq k.hashed_key key.hashed_key) db.api_keys)
    if taken
        then failed_flush "IntegrityError: api_keys.hashed_key"
        else do update (add_key c key); pure (key, (generate_api_key c random_part).0)

  make-After :
      (found : Option Organization)
      → IsOnly (organizations_of user_id w.db) found
      → After IsCreated (Unchanged w) (make found w)
  make-After none e = refl
  make-After (some org) e = key-After org e

  -- A key is created for the user's one organization, with a hash that no key has; or nothing changes.
  pub create_key-After :
      After IsCreated
        (Unchanged w)
        (create_key c user_id name daily_limit monthly_limit random_part w)
  unfolding create_key
  create_key-After =
      bind-After (λ rows v. (v ≡ w) × (rows ≡ organizations_of user_id w.db)) IsCreated
        (Unchanged w) (execute (organizations_of user_id))
        (λ rows. scalar_one_or_none rows >>= make) w (execute-After (organizations_of user_id) w)
        λ rows v h.
          rw (h.0, h.1)
            (bind-After (λ o u. (u ≡ w) × IsOnly (organizations_of user_id w.db) o) IsCreated
              (Unchanged w) (scalar_one_or_none (organizations_of user_id w.db)) make w
              (scalar-After (organizations_of user_id w.db) w) λ o u k. rw k.0 (make-After o k.1))
