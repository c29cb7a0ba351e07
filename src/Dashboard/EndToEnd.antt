-- ===== src/Dashboard/EndToEnd.antt =====
-- From the dashboard to the gateway: a created key is accepted, a revoked key is refused.
use cortex_cloud_api.Prelude.{
  ℕ, ◌≡◌, refl, ap, ◌∙◌, sym, true, false, ◌&&◌, String, str_eq, eq_refl, Option, some, List, [],
  ◌∷◌, ◌++◌, arith, select, select-append, any,
}
use cortex_cloud_api.Prelude.Int.{ℤ, pos, ◌≤ℤ◌}
use cortex_cloud_api.Prelude.Text.{split}
use cortex_cloud_api.Effects.{ok}
use cortex_cloud_api.Database.{ApiKey, BillingAccount, World}
use cortex_cloud_api.Security.{Crypto, hash_api_key, generate_api_key}
use cortex_cloud_api.Auth.{
  present, bearer_key, active_keys, accounts_of, has_expired, verify_api_key,
}
use cortex_cloud_api.Auth.Laws.{verify_api_key_iff}
use cortex_cloud_api.Effects.After.{After-ok}
use cortex_cloud_api.Database.Rules.{Unchanged}
use cortex_cloud_api.Dashboard.Accounts.{create_key, add_key}
use cortex_cloud_api.Dashboard.Access.{IsCreated, create_key-After}

select_absent :
    (h : String) (keys : List ApiKey)
    → any (λ k. str_eq k.hashed_key h) keys ≡ false
    → select (λ k. str_eq k.hashed_key h && k.is_active) keys ≡ []
select_absent h [] e = refl
select_absent h (k ∷ keys) e = ground (arith, select_absent h keys)

own_key :
    (key : ApiKey)
    → key.is_active ≡ true
    → select (λ k. str_eq k.hashed_key key.hashed_key && k.is_active) (key ∷ []) ≡ key ∷ []
own_key key e = rw (eq_refl key.hashed_key, e) refl

module _ (c : Crypto) (w : World) where
  active_new :
      (key : ApiKey)
      → key.is_active ≡ true
      → any (λ k. str_eq k.hashed_key key.hashed_key) w.db.api_keys ≡ false
      → active_keys key.hashed_key (add_key c key w.db) ≡ key ∷ []
  active_new key live fresh =
      select-append (λ k. str_eq k.hashed_key key.hashed_key && k.is_active) w.db.api_keys
        (key ∷ [])
      ∙ ap
          (λ keys.
            keys ++ select (λ k. str_eq k.hashed_key key.hashed_key && k.is_active) (key ∷ []))
          (select_absent key.hashed_key w.db.api_keys fresh)
      ∙ own_key key live

  -- The hash that is looked up is the one that was stored.
  generated_hash :
      (random_part : String)
      → hash_api_key c (generate_api_key c random_part).0 ≡ (generate_api_key c random_part).2
  unfolding hash_api_key generate_api_key
  generated_hash random_part = refl

  module _ (user_id : ℕ) (name : String) (daily_limit monthly_limit : Option ℤ)
      (random_part : String) (key : ApiKey) (plain : String) where
    abbrev after : World
    after = (create_key c user_id name daily_limit monthly_limit random_part w).1

    created :
        (create_key c user_id name daily_limit monthly_limit random_part w).0 ≡ ok (key, plain)
        → IsCreated c user_id name daily_limit monthly_limit random_part w (key, plain) after
    created made =
        After-ok (key, plain) (IsCreated c user_id name daily_limit monthly_limit random_part w)
          (Unchanged w) (create_key c user_id name daily_limit monthly_limit random_part w)
          (create_key-After c user_id name daily_limit monthly_limit random_part w) made

    hash_of :
        (k : IsCreated c user_id name daily_limit monthly_limit random_part w (key, plain) after)
        → hash_api_key c plain ≡ key.hashed_key
    hash_of k =
        ap (hash_api_key c) k.text_same
        ∙ generated_hash random_part
        ∙ sym (ap (λ (k : ApiKey). k.hashed_key) k.key_same)

    -- When `create_key` returns a key and its text, a request with the header `Bearer <text>` passes
    -- `verify_api_key` with this key, provided that the session works and that the one account of the
    -- key's organization has money.
    pub created_key_passes :
        (auth : Option String) (header : String) (account : BillingAccount)
        → (create_key c user_id name daily_limit monthly_limit random_part w).0 ≡ ok (key, plain)
        → present auth ≡ some header
        → bearer_key (split header) ≡ some plain
        → w.pending_rollback ≡ false
        → accounts_of key.organization_id w.db ≡ account ∷ []
        → pos 1 ≤ℤ account.balance
        → verify_api_key c auth after ≡ (ok key, after)
    created_key_passes auth header account made g b session only funded =
        let k = created made in
        (verify_api_key_iff c after auth key
            (ap (λ (v : World). v.pending_rollback) k.world_same ∙ session)).1
          (record {
            header = header;
            plain_key = plain;
            given = g;
            bearer = b;
            known =
                ap (λ (v : World). active_keys (hash_api_key c plain) v.db) k.world_same
                ∙ ap (λ h. active_keys h (add_key c key w.db)) (hash_of k)
                ∙ active_new key (ap (λ (k : ApiKey). k.is_active) k.key_same) k.fresh;
            usable = record {
              account = account;
              in_time = ap (λ (k : ApiKey). has_expired k.expires_at after.clock) k.key_same;
              not_revoked = ap (λ (k : ApiKey). k.revoked_at) k.key_same;
              only = ap (λ (v : World). accounts_of key.organization_id v.db) k.world_same ∙ only;
              funded = funded;
            };
          })
