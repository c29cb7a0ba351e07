-- ===== src/Dashboard/Revocation.antt =====
-- A revoked key is refused.
use cortex_cloud_api.Prelude.{
  ℕ, ◌≡◌, refl, ap, ◌∙◌, subst, true, false, ◌&&◌, String, str_eq, Option, none, some, List, [],
  ◌∷◌, map, arith, ◌==◌, ==_iff, select, select-All, All,
}
use cortex_cloud_api.Prelude.Text.{split}
use cortex_cloud_api.Effects.{Result, ok, raised, Exec, gets, or_raise, ◌>>=◌, bind-ok}
use cortex_cloud_api.Effects.After.{After, bind-After, After-ok}
use cortex_cloud_api.Database.{ApiKey, Db, World}
use cortex_cloud_api.Database.Query.{execute, scalar_one_or_none, update}
use cortex_cloud_api.Database.Rules.{Unchanged, IsOnly, execute-After, scalar-After, execute_ok}
use cortex_cloud_api.Security.{Crypto, hash_api_key}
use cortex_cloud_api.Auth.{present, bearer_key, active_keys, unauthorized, verify_api_key}
use cortex_cloud_api.Auth.Laws.{look_up}
use cortex_cloud_api.Dashboard.{keys_of, not_found}
use cortex_cloud_api.Dashboard.Accounts.{revoke_key, revoke_in, revoked_key}

-- Once every key with a hash is revoked, no active key has it.
select_revoked :
    (h : String) (id now : ℕ) (keys : List ApiKey)
    → All (λ k. k.id ≡ id) (select (λ k. str_eq k.hashed_key h) keys)
    → select (λ k. str_eq k.hashed_key h && k.is_active) (map (revoked_key id now) keys) ≡ []
select_revoked h id now [] a = refl
select_revoked h id now (k ∷ keys) a = ground (arith, select_revoked h id now keys)

module _ (user_id key_id : ℕ) (w : World) where
  abbrev named : Db → List ApiKey
  named db = select (λ k. k.id == key_id) (keys_of user_id db)

  -- What a successful `revoke_key` has done.
  pub record IsRevoked (u : Unit {0}) (v : World) : Type 0 where
    pub key : ApiKey
    pub only : named w.db ≡ key ∷ []
    pub world_same : v ≡ record w { db = revoke_in key.id w.clock w.db }

  abbrev revoke_found : Option ApiKey → Exec World (Unit {0})
  revoke_found found = do
    key ← or_raise found (not_found "API Key not found or access denied.")
    now ← gets (λ w. w.clock)
    update (revoke_in key.id now)

  found-After :
      (found : Option ApiKey)
      → IsOnly (named w.db) found
      → After IsRevoked (Unchanged w) (revoke_found found w)
  found-After none e = refl
  found-After (some key) e = record { key = key; only = e; world_same = refl }

  -- A user's key is marked as inactive and revoked at the time of the call; or nothing changes.
  pub revoke_key-After : After IsRevoked (Unchanged w) (revoke_key user_id key_id w)
  unfolding revoke_key
  revoke_key-After =
      bind-After (λ rows v. (v ≡ w) × (rows ≡ named w.db)) IsRevoked (Unchanged w) (execute named)
        (λ rows. scalar_one_or_none rows >>= revoke_found) w (execute-After named w)
        λ rows v h.
          rw (h.0, h.1)
            (bind-After (λ o u. (u ≡ w) × IsOnly (named w.db) o) IsRevoked (Unchanged w)
              (scalar_one_or_none (named w.db)) revoke_found w (scalar-After (named w.db) w)
              λ o u k. rw k.0 (found-After o k.1))

  id_named : (key : ApiKey) → named w.db ≡ key ∷ [] → key.id ≡ key_id
  id_named key e =
      (==_iff key.id key_id).0
        (subst (All (λ k. (k.id == key_id) ≡ true)) e
          (select-All (λ k. k.id == key_id) (keys_of user_id w.db))).0

  abbrev after : World
  after = (revoke_key user_id key_id w).1

  module _ (c : Crypto) (auth : Option String) (header plain : String) where
    none_active :
        All
          (λ k. k.id ≡ key_id)
          (select (λ k. str_eq k.hashed_key (hash_api_key c plain)) w.db.api_keys)
        → (r : IsRevoked tt after) → active_keys (hash_api_key c plain) after.db ≡ []
    none_active all r =
        ap (λ (v : World). active_keys (hash_api_key c plain) v.db) r.world_same
        ∙ ap
            (λ id.
              select (λ k. str_eq k.hashed_key (hash_api_key c plain) && k.is_active)
                (map (revoked_key id w.clock) w.db.api_keys))
            (id_named r.key r.only)
        ∙ select_revoked (hash_api_key c plain) key_id w.clock w.db.api_keys all

    -- Once `revoke_key` has returned, a request with the header `Bearer <text>` of the key is refused
    -- with 401, provided that no other key has the text's hash and that the session works.
    pub revoked_key_refused :
        (revoke_key user_id key_id w).0 ≡ ok tt
        → present auth ≡ some header
        → bearer_key (split header) ≡ some plain
        → w.pending_rollback ≡ false
        → All
            (λ k. k.id ≡ key_id)
            (select (λ k. str_eq k.hashed_key (hash_api_key c plain)) w.db.api_keys)
        → (verify_api_key c auth after).0 ≡ raised (unauthorized "Invalid or inactive API Key.")
    unfolding verify_api_key
    revoked_key_refused done g b session all =
        let r =
          After-ok tt IsRevoked (Unchanged w) (revoke_key user_id key_id w) revoke_key-After done in
        rw (g, b)
          (ap (λ (x : Result ApiKey × World). x.0)
            (bind-ok (execute (active_keys (hash_api_key c plain)))
                (λ keys. scalar_one_or_none keys >>= look_up) after
                (execute_ok (active_keys (hash_api_key c plain)) after
                  (ap (λ (v : World). v.pending_rollback) r.world_same ∙ session))
              ∙ ap (λ rows. (scalar_one_or_none rows >>= look_up) after) (none_active all r)))
