-- ===== src/Completions/Entry.antt =====
-- Nobody gets to a provider without a key.
use cortex_cloud_api.Prelude.{◌≡◌, refl, ap, ◌⊎◌, inl, inr, String, Option, none, some}
use cortex_cloud_api.Prelude.Text.{split}
use cortex_cloud_api.Effects.{
  Exn, Result, ok, raised, Exec, or_raise, pure, raise_if, ◌>>=◌, ◌>>◌, reads-bind, Result-cases,
  proceed,
}
use cortex_cloud_api.Effects.After.{After-ok}
use cortex_cloud_api.Database.{ApiKey, World}
use cortex_cloud_api.Database.Query.{execute, scalar_one_or_none}
use cortex_cloud_api.Schemas.{ChatCompletionRequest}
use cortex_cloud_api.Security.{Crypto, hash_api_key}
use cortex_cloud_api.Auth.{
  present, bearer_key, verify_api_key, verify_plain_key, check_key, unauthorized, has_expired,
  is_set, active_keys, accounts_of, is_exhausted, exhausted,
}
use cortex_cloud_api.Auth.Laws.{IsAuthorized, Passed, verify_api_key-After, look_up}
use cortex_cloud_api.Database.Rules.{Unchanged}
use cortex_cloud_api.Edge.{Request, Edge, put_world}
use cortex_cloud_api.Completions.Endpoint.{Services, Answered, checked, post_chat_completions}
use cortex_cloud_api.Registry.Laws.{scalar_one_or_none_reads}

or_raise_reads : {A : Type 0} (o : Option A) (e : Exn) (w : World) → (or_raise o e w).1 ≡ w
or_raise_reads none e w = refl
or_raise_reads (some a) e w = refl

module _ (w : World) where
  balance_reads :
      (key : ApiKey)
      → ((execute (accounts_of key.organization_id) >>= λ rows.
            scalar_one_or_none rows >>= λ billing.
            raise_if (is_exhausted billing) exhausted >> pure key)
          w).1
        ≡ w
  balance_reads key =
      reads-bind (execute (accounts_of key.organization_id))
        (λ rows. scalar_one_or_none rows >>= λ billing.
          raise_if (is_exhausted billing) exhausted >> pure key)
        w refl
        λ rows.
          reads-bind (scalar_one_or_none rows)
            (λ billing. raise_if (is_exhausted billing) exhausted >> pure key) w
            (scalar_one_or_none_reads rows w)
            λ billing.
              reads-bind (raise_if (is_exhausted billing) exhausted) (λ u. pure key) w refl
                λ u. refl

  check_key_reads : (key : ApiKey) → (check_key key w).1 ≡ w
  check_key_reads key =
      reads-bind
        (raise_if (has_expired key.expires_at w.clock) (unauthorized "API Key has expired."))
        (λ u.
          raise_if (is_set key.revoked_at) (unauthorized "API Key has been revoked.")
          >> (execute (accounts_of key.organization_id) >>= λ rows.
              scalar_one_or_none rows >>= λ billing.
              raise_if (is_exhausted billing) exhausted >> pure key))
        w refl
        λ u.
          reads-bind (raise_if (is_set key.revoked_at) (unauthorized "API Key has been revoked."))
            (λ v. execute (accounts_of key.organization_id) >>= λ rows.
              scalar_one_or_none rows >>= λ billing.
              raise_if (is_exhausted billing) exhausted >> pure key)
            w refl λ v. balance_reads key

  look_up_reads : (found : Option ApiKey) → (look_up found w).1 ≡ w
  look_up_reads found =
      reads-bind (or_raise found (unauthorized "Invalid or inactive API Key.")) check_key w
        (or_raise_reads found (unauthorized "Invalid or inactive API Key.") w) check_key_reads

  plain_reads : (c : Crypto) (plain : String) → (verify_plain_key c plain w).1 ≡ w
  plain_reads c plain =
      reads-bind (execute (active_keys (hash_api_key c plain)))
        (λ rows. scalar_one_or_none rows >>= look_up) w refl
        λ rows.
          reads-bind (scalar_one_or_none rows) look_up w (scalar_one_or_none_reads rows w)
            look_up_reads

  abbrev missing : Exn
  missing = unauthorized "Missing Authorization Header. Provide Bearer API key."

  abbrev malformed : Exn
  malformed = unauthorized "Invalid Authorization header format. Must be 'Bearer <key>'."

  -- Verifying a key changes nothing.
  verify_api_key_reads : (c : Crypto) (auth : Option String) → (verify_api_key c auth w).1 ≡ w
  unfolding verify_api_key
  verify_api_key_reads c auth =
      reads-bind (or_raise (present auth) missing)
        (λ header. or_raise (bearer_key (split header)) malformed >>= verify_plain_key c) w
        (or_raise_reads (present auth) missing w)
        λ header.
          reads-bind (or_raise (bearer_key (split header)) malformed) (verify_plain_key c) w
            (or_raise_reads (bearer_key (split header)) malformed w) (plain_reads c)

run_of :
    {A : Type 0} (r : Result A × World) (a : Result A) (w : World) → r.0 ≡ a → r.1 ≡ w → r ≡ (a, w)
run_of (x, v) a w h k = rw (h, k) refl

module _ (services : Services) (http_request : Request) (request : ChatCompletionRequest)
    (s : Edge) where
  abbrev verified : Exec World ApiKey
  verified = verify_api_key services.crypto http_request.authorization

  abbrev result : Result Answered × Edge
  result = post_chat_completions services http_request request s

  -- The request was turned away before anything happened, or its key is good and it goes on.
  abbrev pub IsAdmittedByKey : Result Answered × Edge → Type 0
  IsAdmittedByKey res =
      ((e : Exn) × (res ≡ (raised e, s)))
      ⊎ ((key : ApiKey) × IsAuthorized services.crypto http_request.authorization key s.world
          × (res ≡ checked services http_request request key s))

  -- A request for a completion either raises and leaves the database, Redis and the providers alone;
  -- or its Authorization header carries a usable key, and it goes on with this key to the limits.
  pub post_chat_completions-IsAdmittedByKey :
      IsAdmittedByKey (post_chat_completions services http_request request s)
  unfolding post_chat_completions
  post_chat_completions-IsAdmittedByKey = elim (Result-cases (verified s.world).0) [
    | inr (e, h) ↦ inl (
      e,
      ap (λ r. proceed (checked services http_request request) (put_world s r))
          (run_of (verified s.world) (raised e) s.world h reads),
    )
    | inl (key, h) ↦ inr (
      key,
      (After-ok key (Passed services.crypto s.world http_request.authorization) (Unchanged s.world)
          (verified s.world)
          (verify_api_key-After services.crypto s.world http_request.authorization) h).1,
      ap (λ r. proceed (checked services http_request request) (put_world s r))
          (run_of (verified s.world) (ok key) s.world h reads),
    )
  ]
    where
      reads : (verified s.world).1 ≡ s.world
      reads = verify_api_key_reads s.world services.crypto http_request.authorization
