-- ===== src/Migrations/Initial.antt =====
-- migrations/versions/e05de6447367_initial_schema.py: the tables.
use cortex_cloud_api.Prelude.{true, false, List, [], ◌∷◌}
use cortex_cloud_api.Migrations.{
  uuid, varchar, integer, numeric, boolean, json, date_time, text, column, foreign_key, index,
  Table, Creation, create_table, create_index, Removal, drop_table, drop_index,
}

abbrev models : Table
models = record {
  name = "models";
  columns =
      column "id" uuid false false
      ∷ column "name" (varchar 255) false false
      ∷ column "provider" (varchar 100) false false
      ∷ column "provider_model_name" (varchar 255) false false
      ∷ column "context_length" integer false false
      ∷ column "prompt_token_price" (numeric 10 4) false false
      ∷ column "completion_token_price" (numeric 10 4) false false
      ∷ column "is_active" boolean false false
      ∷ column "capabilities" json false false
      ∷ column "created_at" date_time false true
      ∷ column "updated_at" date_time false true
      ∷ [];
  primary_key = "id" ∷ [];
  foreign_keys = [];
  unique = [];
}

abbrev users : Table
users = record {
  name = "users";
  columns =
      column "id" uuid false false
      ∷ column "email" (varchar 255) false false
      ∷ column "hashed_password" (varchar 255) false false
      ∷ column "is_active" boolean false false
      ∷ column "is_admin" boolean false false
      ∷ column "created_at" date_time false true
      ∷ column "updated_at" date_time false true
      ∷ [];
  primary_key = "id" ∷ [];
  foreign_keys = [];
  unique = [];
}

abbrev organizations : Table
organizations = record {
  name = "organizations";
  columns =
      column "id" uuid false false
      ∷ column "name" (varchar 255) false false
      ∷ column "owner_id" uuid false false
      ∷ column "created_at" date_time false true
      ∷ column "updated_at" date_time false true
      ∷ [];
  primary_key = "id" ∷ [];
  foreign_keys = foreign_key "owner_id" "users" "id" "CASCADE" ∷ [];
  unique = [];
}

abbrev api_keys : Table
api_keys = record {
  name = "api_keys";
  columns =
      column "id" uuid false false
      ∷ column "organization_id" uuid false false
      ∷ column "name" (varchar 255) false false
      ∷ column "prefix" (varchar 32) false false
      ∷ column "hashed_key" (varchar 255) false false
      ∷ column "is_active" boolean false false
      ∷ column "permissions" json false false
      ∷ column "daily_limit" integer true false
      ∷ column "monthly_limit" integer true false
      ∷ column "expires_at" date_time true false
      ∷ column "created_at" date_time false true
      ∷ column "revoked_at" date_time true false
      ∷ [];
  primary_key = "id" ∷ [];
  foreign_keys = foreign_key "organization_id" "organizations" "id" "CASCADE" ∷ [];
  unique = [];
}

abbrev billing_accounts : Table
billing_accounts = record {
  name = "billing_accounts";
  columns =
      column "id" uuid false false
      ∷ column "organization_id" uuid false false
      ∷ column "balance" (numeric 12 6) false false
      ∷ column "currency" (varchar 10) false false
      ∷ column "tier" (varchar 50) false false
      ∷ column "stripe_customer_id" (varchar 255) true false
      ∷ column "created_at" date_time false true
      ∷ column "updated_at" date_time false true
      ∷ [];
  primary_key = "id" ∷ [];
  foreign_keys = foreign_key "organization_id" "organizations" "id" "CASCADE" ∷ [];
  unique = ("organization_id" ∷ []) ∷ [];
}

abbrev organization_members : Table
organization_members = record {
  name = "organization_members";
  columns =
      column "id" uuid false false
      ∷ column "organization_id" uuid false false
      ∷ column "user_id" uuid false false
      ∷ column "role" (varchar 50) false false
      ∷ column "created_at" date_time false true
      ∷ [];
  primary_key = "id" ∷ [];
  foreign_keys =
      foreign_key "organization_id" "organizations" "id" "CASCADE"
      ∷ foreign_key "user_id" "users" "id" "CASCADE"
      ∷ [];
  unique = [];
}

abbrev billing_transactions : Table
billing_transactions = record {
  name = "billing_transactions";
  columns =
      column "id" uuid false false
      ∷ column "billing_account_id" uuid false false
      ∷ column "amount" (numeric 12 6) false false
      ∷ column "type" (varchar 50) false false
      ∷ column "description" (varchar 555) false false
      ∷ column "created_at" date_time false true
      ∷ [];
  primary_key = "id" ∷ [];
  foreign_keys = foreign_key "billing_account_id" "billing_accounts" "id" "CASCADE" ∷ [];
  unique = [];
}

abbrev usage_logs : Table
usage_logs = record {
  name = "usage_logs";
  columns =
      column "id" uuid false false
      ∷ column "organization_id" uuid false false
      ∷ column "api_key_id" uuid true false
      ∷ column "correlation_id" uuid false false
      ∷ column "provider" (varchar 100) false false
      ∷ column "model" (varchar 255) false false
      ∷ column "prompt_tokens" integer false false
      ∷ column "completion_tokens" integer false false
      ∷ column "total_tokens" integer false false
      ∷ column "cost" (numeric 12 6) false false
      ∷ column "latency_ms" integer false false
      ∷ column "status_code" integer false false
      ∷ column "error_message" text true false
      ∷ column "request_path" (varchar 255) false false
      ∷ column "client_ip" (varchar 100) false false
      ∷ column "created_at" date_time false true
      ∷ [];
  primary_key = "id" ∷ [];
  foreign_keys =
      foreign_key "api_key_id" "api_keys" "id" "SET NULL"
      ∷ foreign_key "organization_id" "organizations" "id" "CASCADE"
      ∷ [];
  unique = [];
}

abbrev pub upgrade : List Creation
upgrade =
    create_table models
    ∷ create_index (index "ix_models_name" "models" ("name" ∷ []) true)
    ∷ create_table users
    ∷ create_index (index "ix_users_email" "users" ("email" ∷ []) true)
    ∷ create_table organizations
    ∷ create_table api_keys
    ∷ create_index (index "ix_api_keys_hashed_key" "api_keys" ("hashed_key" ∷ []) true)
    ∷ create_table billing_accounts
    ∷ create_table organization_members
    ∷ create_table billing_transactions
    ∷ create_table usage_logs
    ∷ create_index (index "ix_usage_logs_correlation_id" "usage_logs" ("correlation_id" ∷ []) true)
    ∷ create_index (index "ix_usage_logs_created_at" "usage_logs" ("created_at" ∷ []) false)
    ∷ []

abbrev pub downgrade : List Removal
downgrade =
    drop_index "ix_usage_logs_created_at"
    ∷ drop_index "ix_usage_logs_correlation_id"
    ∷ drop_table "usage_logs"
    ∷ drop_table "billing_transactions"
    ∷ drop_table "organization_members"
    ∷ drop_table "billing_accounts"
    ∷ drop_index "ix_api_keys_hashed_key"
    ∷ drop_table "api_keys"
    ∷ drop_table "organizations"
    ∷ drop_index "ix_users_email"
    ∷ drop_table "users"
    ∷ drop_index "ix_models_name"
    ∷ drop_table "models"
    ∷ []
