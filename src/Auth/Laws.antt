-- ===== src/Auth/Laws.antt =====
-- Who passes `verify_api_key`, and who does not.
use cortex_cloud_api.Prelude.{
  ℕ, String, false, ◌≡◌, refl, ◌↔◌, inl, inr, Option, none, some, List, [], ◌∷◌, arith, ap, ◌∙◌,
  Bool-cases, Option-cases,
}
use cortex_cloud_api.Prelude.Int.{pos, ◌≤ℤ◌, leb_ℤ}
use cortex_cloud_api.Prelude.Text.{split}
use cortex_cloud_api.Effects.{Result, ok, Exec, ◌>>=◌, ◌>>◌, pure, bind-ok, raise_if, or_raise}
use cortex_cloud_api.Effects.After.{After, bind-After, After-ok, After-weaken}
use cortex_cloud_api.Database.{ApiKey, BillingAccount, World}
use cortex_cloud_api.Database.Query.{execute, scalar_one_or_none}
use cortex_cloud_api.Database.Rules.{Unchanged, IsOnly, execute-After, scalar-After, execute_ok}
use cortex_cloud_api.Security.{Crypto, hash_api_key}
use cortex_cloud_api.Auth.{
  present, bearer_key, has_expired, is_exhausted, exhausted, active_keys, accounts_of, check_key,
  verify_plain_key, verify_api_key, is_set, unauthorized,
}

-- The account of the key's organization has money.
pub record IsUsable (key : ApiKey) (w : World) : Type 0 where
  pub account : BillingAccount
  pub in_time : has_expired key.expires_at w.clock ≡ false
  pub not_revoked : key.revoked_at ≡ none
  pub only : accounts_of key.organization_id w.db ≡ account ∷ []
  pub funded : pos 1 ≤ℤ account.balance

abbrev Checked : ApiKey → World → ApiKey → World → Type 0
Checked key w r v = (v ≡ w) × (r ≡ key) × IsUsable key w

is_set-none : (o : Option ℕ) → is_set o ≡ false → o ≡ none
is_set-none none h = refl
is_set-none (some n) h = cc

checked :
    (key : ApiKey) (w : World)
    → has_expired key.expires_at w.clock ≡ false
    → key.revoked_at ≡ none
    → (billing : Option BillingAccount) → IsOnly (accounts_of key.organization_id w.db) billing
    → After
        (Checked key w)
        (Unchanged w)
        ((raise_if (is_exhausted billing) exhausted >> pure key) w)
checked key w t n none e = refl
checked key w t n (some a) e = elim (Bool-cases (leb_ℤ a.balance (pos 0))) [
  | inl broke ↦ rw broke refl
  | inr rich ↦ rw rich (
    refl,
    refl,
    record { account = a; in_time = t; not_revoked = n; only = e; funded = ground arith },
  )
]

abbrev finishing : ApiKey → Option BillingAccount → Exec World ApiKey
finishing key billing = raise_if (is_exhausted billing) exhausted >> pure key

abbrev pub look_up : Option ApiKey → Exec World ApiKey
look_up found = or_raise found (unauthorized "Invalid or inactive API Key.") >>= check_key

funded_ok : (a : BillingAccount) → pos 1 ≤ℤ a.balance → is_exhausted (some a) ≡ false
funded_ok a h = ground arith

module _ (key : ApiKey) (w : World) (t : has_expired key.expires_at w.clock ≡ false)
    (n : key.revoked_at ≡ none) where
  abbrev balance_check : Exec World ApiKey
  balance_check = do
    accounts ← execute (accounts_of key.organization_id)
    billing ← scalar_one_or_none accounts
    finishing key billing

  balance-After : After (Checked key w) (Unchanged w) (balance_check w)
  balance-After =
      bind-After (λ rows v. (v ≡ w) × (rows ≡ accounts_of key.organization_id w.db)) (Checked key w)
        (Unchanged w) (execute (accounts_of key.organization_id))
        (λ accounts. scalar_one_or_none accounts >>= finishing key) w
        (execute-After (accounts_of key.organization_id) w)
        λ rows v h.
          rw (h.0, h.1)
            (bind-After (λ b u. (u ≡ w) × IsOnly (accounts_of key.organization_id w.db) b)
              (Checked key w) (Unchanged w)
              (scalar_one_or_none (accounts_of key.organization_id w.db)) (finishing key) w
              (scalar-After (accounts_of key.organization_id w.db) w)
              λ b u k. rw k.0 (checked key w t n b k.1))

check_key-After : (key : ApiKey) (w : World) → After (Checked key w) (Unchanged w) (check_key key w)
check_key-After key w = elim (Bool-cases (has_expired key.expires_at w.clock)) [
  | inl late ↦ rw late refl
  | inr t ↦ elim (Bool-cases (is_set key.revoked_at)) [
    | inl gone ↦ rw (t, gone) refl
    | inr n ↦ rw (t, n) (balance-After key w t (is_set-none _ n))
  ]
]

-- A header that names an active key by its text, and the key can be used.
pub record IsAuthorized (c : Crypto) (authorization : Option String) (key : ApiKey) (w : World)
    : Type 0 where
  pub header : String
  pub plain_key : String
  pub given : present authorization ≡ some header
  pub bearer : bearer_key (split header) ≡ some plain_key
  pub known : active_keys (hash_api_key c plain_key) w.db ≡ key ∷ []
  pub usable : IsUsable key w

module _ (c : Crypto) (w : World) where
  abbrev pub Passed : Option String → ApiKey → World → Type 0
  Passed auth key v = (v ≡ w) × IsAuthorized c auth key w

  module _ (auth : Option String) (header plain : String) (g : present auth ≡ some header)
      (b : bearer_key (split header) ≡ some plain) where
    abbrev keys_of : List ApiKey
    keys_of = active_keys (hash_api_key c plain) w.db

    found-After :
        (found : Option ApiKey)
        → IsOnly keys_of found
        → After (Passed auth) (Unchanged w) (look_up found w)
    found-After none e = refl
    found-After (some key) e =
        After-weaken (Checked key w) (Passed auth) (Unchanged w) (Unchanged w) (check_key key w)
          (check_key-After key w)
          (λ r v k. (
            k.0,
            rw k.1 (record {
              header = header;
              plain_key = plain;
              given = g;
              bearer = b;
              known = e;
              usable = k.2;
            }),
          ))
          (λ e v k. k)

    verify_plain_key-After : After (Passed auth) (Unchanged w) (verify_plain_key c plain w)
    verify_plain_key-After =
        bind-After (λ rows v. (v ≡ w) × (rows ≡ keys_of)) (Passed auth) (Unchanged w)
          (execute (active_keys (hash_api_key c plain)))
          (λ keys. scalar_one_or_none keys >>= look_up) w
          (execute-After (active_keys (hash_api_key c plain)) w)
          λ rows v h.
            rw (h.0, h.1)
              (bind-After (λ o u. (u ≡ w) × IsOnly keys_of o) (Passed auth) (Unchanged w)
                (scalar_one_or_none keys_of) look_up w (scalar-After keys_of w)
                λ o u k. rw k.0 (found-After o k.1))

  pub verify_api_key-After :
      (auth : Option String) → After (Passed auth) (Unchanged w) (verify_api_key c auth w)
  unfolding verify_api_key
  verify_api_key-After auth = elim (Option-cases (present auth)) [
    | inl missing ↦ rw missing refl
    | inr (header, g) ↦ elim (Option-cases (bearer_key (split header))) [
      | inl bad ↦ rw (g, bad) refl
      | inr (plain, b) ↦ rw (g, b) (verify_plain_key-After auth header plain g b)
    ]
  ]

  balance_ok :
      (key : ApiKey)
      → w.pending_rollback ≡ false
      → (u : IsUsable key w)
      → (execute (accounts_of key.organization_id) >>= λ accounts.
            scalar_one_or_none accounts >>= finishing key)
          w
        ≡ (ok key, w)
  balance_ok key s u =
      bind-ok (execute (accounts_of key.organization_id))
        (λ accounts. scalar_one_or_none accounts >>= finishing key) w
        (execute_ok (accounts_of key.organization_id) w s)
      ∙ ap (λ rows. (scalar_one_or_none rows >>= finishing key) w) u.only
      ∙ ap (λ b. (raise_if b exhausted >> pure key) w) (funded_ok u.account u.funded)

  check_key_ok :
      (key : ApiKey) → w.pending_rollback ≡ false → IsUsable key w → check_key key w ≡ (ok key, w)
  check_key_ok key s u = rw (u.in_time, ap is_set u.not_revoked) (balance_ok key s u)

  verify_plain_key_ok :
      (plain : String) (key : ApiKey)
      → w.pending_rollback ≡ false
      → active_keys (hash_api_key c plain) w.db ≡ key ∷ []
      → IsUsable key w
      → verify_plain_key c plain w ≡ (ok key, w)
  verify_plain_key_ok plain key s e u =
      bind-ok (execute (active_keys (hash_api_key c plain)))
        (λ keys. scalar_one_or_none keys >>= look_up) w
        (execute_ok (active_keys (hash_api_key c plain)) w s)
      ∙ ap (λ rows. (scalar_one_or_none rows >>= look_up) w) e
      ∙ check_key_ok key s u

  verify_api_key_complete :
      (auth : Option String) (key : ApiKey)
      → w.pending_rollback ≡ false
      → IsAuthorized c auth key w
      → verify_api_key c auth w ≡ (ok key, w)
  unfolding verify_api_key
  verify_api_key_complete auth key s a =
      rw (a.given, a.bearer) (verify_plain_key_ok a.plain_key key s a.known a.usable)

  -- A request passes `verify_api_key` with a key exactly when its header is `Bearer <key>`, the key's
  -- hash is that of one active key, which has not expired, is not revoked, and whose organization's
  -- account has a positive balance.
  pub verify_api_key_iff :
      (auth : Option String) (key : ApiKey)
      → w.pending_rollback ≡ false
      → (verify_api_key c auth w ≡ (ok key, w)) ↔ IsAuthorized c auth key w
  verify_api_key_iff auth key s = (
    λ e.
        (After-ok key (Passed auth) (Unchanged w) (verify_api_key c auth w)
          (verify_api_key-After auth) (ap (λ (r : Result ApiKey × World). r.0) e)).1,
    verify_api_key_complete auth key s,
  )
