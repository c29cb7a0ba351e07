-- ===== src/Security.antt =====
-- app/core/security.py: passwords, access tokens and API keys. bcrypt, jwt and HMAC-SHA256 are a
-- parameter: the functions that the gateway calls, with its own secrets already given to them.
use cortex_cloud_api.Prelude.{ℕ, zero, suc, ◌+◌, ◌*◌, String, Bool, Option, none, some}
use Prim.Native.String
use Prim.Native.String.{String as Text}

pub record Crypto : Type 0 where
  -- `bcrypt.hashpw(password, gensalt())`, at a given salt
  pub hashpw : String → ℕ → String
  -- `bcrypt.checkpw`; `none` is an exception
  pub checkpw : String → String → Option Bool
  -- `hmac.new(API_KEY_SALT, key, sha256).hexdigest()`
  pub hmac : String → String
  -- `jwt.encode({"exp": …, "sub": …})`: the expiry and the subject
  pub jwt_encode : ℕ → ℕ → String
  -- the `sub` of `jwt.decode(token)` at a time; `none` is an exception or a missing `sub`
  pub jwt_decode : String → ℕ → Option ℕ

-- The first characters of a text, and what follows them.
abbrev pub take_text : ℕ → String → String
take_text zero s = ""
take_text (suc n) String.[] = ""
take_text (suc n) (String.◌∷◌ c s) = String.◌∷◌ c (take_text n s)

abbrev pub drop_text : ℕ → String → String
drop_text zero s = s
drop_text (suc n) String.[] = ""
drop_text (suc n) (String.◌∷◌ c s) = drop_text n s

-- A week, in milliseconds.
abbrev pub access_token_expire : ℕ
access_token_expire = 60 * 24 * 7 * 60_000

module _ (c : Crypto) where
  pub get_password_hash : String → ℕ → String
  get_password_hash password salt = c.hashpw password salt

  abbrev or_false : Option Bool → Bool
  or_false none = Bool.false
  or_false (some b) = b

  unfoldable pub verify_password : String → String → Bool
  verify_password plain hashed = or_false (c.checkpw plain hashed)

  -- With no `expires_delta`, as the gateway calls it.
  pub create_access_token : ℕ → ℕ → String
  create_access_token subject now = c.jwt_encode (now + access_token_expire) subject

  unfoldable pub decode_access_token : String → ℕ → Option ℕ
  decode_access_token token now = c.jwt_decode token now

  unfoldable pub hash_api_key : String → String
  hash_api_key plain_key = c.hmac plain_key

  -- The key, its prefix and its hash, from the 64 hexadecimal digits of `secrets.token_hex(32)`.
  unfoldable pub generate_api_key : String → String × String × String
  generate_api_key random_part = (
    String.◌++◌ "cx-live-" random_part,
    String.◌++◌ "cx-live-" (take_text 8 random_part),
    c.hmac (String.◌++◌ "cx-live-" random_part),
  )
