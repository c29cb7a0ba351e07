-- ===== src/Seed.antt =====
-- app/scratch/seed_dev.py: the development data. The printed summary is left out.
pub mod Steps
pub mod Again
use cortex_cloud_api.Prelude.{
  ℕ, suc, ◌+◌, String, str_eq, Bool, true, false, not, Option, none, some, List, [], ◌∷◌, ◌++◌,
  select, any, ◌==◌, if◌then◌else◌,
}
use cortex_cloud_api.Prelude.Int.{pos}
use cortex_cloud_api.Effects.{Result, ok, raised, Exec, pure, ◌>>=◌, ◌>>◌}
use cortex_cloud_api.Database.{ModelRegistry, User, Organization, BillingAccount, ApiKey, Db, World}
use cortex_cloud_api.Database.Query.{execute, scalar_one_or_none, update, failed_flush}
use cortex_cloud_api.Security.{Crypto, get_password_hash, generate_api_key}
use cortex_cloud_api.Completions.Streams.{in_session}

-- A row of the list of models, whose id is that of its turn.
pub record Entry : Type 0 where
  pub name : String
  pub provider : String
  pub provider_model_name : String
  pub context_length : ℕ
  pub prompt_token_price : ℕ
  pub completion_token_price : ℕ
  pub fallback_model : Option String

abbrev pub entries : List Entry
entries =
    record {
      name = "gpt-4o";
      provider = "openai";
      provider_model_name = "gpt-4o";
      context_length = 128_000;
      prompt_token_price = 50_000;
      completion_token_price = 150_000;
      fallback_model = some "claude-3-5-sonnet";
    }
    ∷ record {
      name = "claude-3-5-sonnet";
      provider = "anthropic";
      provider_model_name = "claude-3-5-sonnet-20240620";
      context_length = 200_000;
      prompt_token_price = 30_000;
      completion_token_price = 150_000;
      fallback_model = none;
    }
    ∷ record {
      name = "gemini-1.5-pro";
      provider = "gemini";
      provider_model_name = "gemini-1.5-pro";
      context_length = 1_000_000;
      prompt_token_price = 70_000;
      completion_token_price = 210_000;
      fallback_model = none;
    }
    ∷ record {
      name = "gemini-2.5-flash";
      provider = "gemini";
      provider_model_name = "gemini-2.5-flash";
      context_length = 1_000_000;
      prompt_token_price = 20_000;
      completion_token_price = 60_000;
      fallback_model = none;
    }
    ∷ record {
      name = "text-embedding-3-small";
      provider = "openai";
      provider_model_name = "text-embedding-3-small";
      context_length = 8191;
      prompt_token_price = 200;
      completion_token_price = 0;
      fallback_model = none;
    }
    ∷ []

abbrev pub model_of : ℕ → Entry → ModelRegistry
model_of id e = record {
  id = id;
  name = e.name;
  provider = e.provider;
  provider_model_name = e.provider_model_name;
  context_length = e.context_length;
  prompt_token_price = e.prompt_token_price;
  completion_token_price = e.completion_token_price;
  is_active = true;
  fallback_model = e.fallback_model;
}

-- `res.scalar_one_or_none()`, and the row that is added where there is none, unless the database
-- refuses it.
pub record Wanted (A : Type 0) : Type 0 where
  pub query : Db → List A
  pub refused : Db → Bool
  pub create : Db → Db
  pub row : Db → A

abbrev pub create_row : {A : Type 0} → Wanted A → Exec World A
create_row want w =
    (if want.refused w.db
        then failed_flush "IntegrityError"
        else (update want.create >> pure (want.row w.db)))
      w

abbrev pub or_create : {A : Type 0} → Wanted A → Option A → Exec World A
or_create want (some row) = pure row
or_create want none = create_row want

abbrev pub ensure : {A : Type 0} → Wanted A → Exec World A
ensure want = execute want.query >>= scalar_one_or_none >>= or_create want

abbrev pub wanted_model : Entry → Wanted ModelRegistry
wanted_model e = record {
  query = λ db. select (λ m. str_eq m.name e.name) db.models;
  refused = λ db. false;
  create = λ db. record db {
    models = db.models ++ model_of db.next_id e ∷ [];
    next_id = suc db.next_id;
  };
  row = λ db. model_of db.next_id e;
}

unfoldable pub seed_models : List Entry → Exec World (Unit {0})
seed_models [] = pure tt
seed_models (e ∷ rest) = ensure (wanted_model e) >> seed_models rest

-- What is not committed is not kept.
abbrev pub kept : World → Result (Unit {0}) × World → Result (Unit {0}) × World
kept w (ok done, v) = (ok done, v)
kept w (raised e, v) = (raised e, record v { db = w.db })

module _ (c : Crypto) (salt : Bool → ℕ) (random_part : String) where
  abbrev user_of : String → String → Bool → Db → User
  user_of email password is_admin db = record {
    id = db.next_id;
    email = email;
    hashed_password = get_password_hash c password (salt is_admin);
    is_active = true;
    is_admin = is_admin;
  }

  abbrev pub wanted_user : String → String → Bool → Wanted User
  wanted_user email password is_admin = record {
    query = λ db. select (λ u. str_eq u.email email) db.users;
    refused = λ db. false;
    create = λ db. record db {
      users = db.users ++ user_of email password is_admin db ∷ [];
      next_id = suc db.next_id;
    };
    row = user_of email password is_admin;
  }

  abbrev organization_of : ℕ → Db → Organization
  organization_of owner db = record {
    id = db.next_id;
    name = "CortexCloud Dev Org";
    owner_id = owner;
  }

  -- The organization, its member and its account, which has a thousand dollars.
  abbrev pub wanted_organization : ℕ → Wanted Organization
  wanted_organization owner = record {
    query = λ db. select (λ o. o.owner_id == owner) db.organizations;
    refused = λ db. false;
    create = λ db. record db {
      organizations = db.organizations ++ organization_of owner db ∷ [];
      members =
          db.members
          ++ record { organization_id = db.next_id; user_id = owner; role = "admin" } ∷ [];
      accounts =
          db.accounts
          ++ record {
            id = db.next_id + 1;
            organization_id = db.next_id;
            balance = pos 1_000_000_000;
            tier = "pay_as_you_go";
          }
            ∷ [];
      next_id = db.next_id + 2;
    };
    row = organization_of owner;
  }

  abbrev key_of : ℕ → Db → ApiKey
  key_of org db = record {
    id = db.next_id;
    organization_id = org;
    name = "Developer Default Key";
    prefix = (generate_api_key c random_part).1;
    hashed_key = (generate_api_key c random_part).2;
    is_active = true;
    rate_limit_rpm = some 200;
    daily_limit = none;
    monthly_limit = none;
    expires_at = none;
    revoked_at = none;
  }

  abbrev pub wanted_key : ℕ → Wanted ApiKey
  wanted_key org = record {
    query = λ db. select (λ k. k.organization_id == org) db.api_keys;
    refused = λ db. any (λ k. str_eq k.hashed_key (generate_api_key c random_part).2) db.api_keys;
    create =
        λ db. record db { api_keys = db.api_keys ++ key_of org db ∷ []; next_id = suc db.next_id };
    row = key_of org;
  }

  abbrev pub seed_workspace : Exec World (Unit {0})
  seed_workspace = do
    ensure (wanted_user "admin@cortexcloud.ai" "adminpassword" true)
    dev ← ensure (wanted_user "developer@example.com" "devpassword" false)
    org ← ensure (wanted_organization dev.id)
    ensure (wanted_key org.id)
    pure tt

  abbrev pub seed_rows : Exec World (Unit {0})
  seed_rows = seed_models entries >> seed_workspace

  unfoldable pub seed : Exec World (Unit {0})
  seed w = kept w (in_session seed_rows w)
