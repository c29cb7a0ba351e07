-- ===== src/Migrations/Indexes.antt =====
-- migrations/versions/cb172c9fe635_add_foreign_key_indexes.py: more indexes.
use cortex_cloud_api.Prelude.{false, List, [], ◌∷◌}
use cortex_cloud_api.Migrations.{index, Creation, create_index, Removal, drop_index}

abbrev pub upgrade : List Creation
upgrade =
    create_index (index "ix_api_keys_organization_id" "api_keys" ("organization_id" ∷ []) false)
    ∷ create_index (
        index "ix_billing_transactions_billing_account_id" "billing_transactions"
          ("billing_account_id" ∷ []) false)
    ∷ create_index (
        index "ix_organization_members_organization_id" "organization_members"
          ("organization_id" ∷ []) false)
    ∷ create_index
        (index "ix_organization_members_user_id" "organization_members" ("user_id" ∷ []) false)
    ∷ create_index (index "ix_organizations_owner_id" "organizations" ("owner_id" ∷ []) false)
    ∷ create_index (index "ix_usage_logs_api_key_id" "usage_logs" ("api_key_id" ∷ []) false)
    ∷ create_index
        (index "ix_usage_logs_organization_id" "usage_logs" ("organization_id" ∷ []) false)
    ∷ []

abbrev pub downgrade : List Removal
downgrade =
    drop_index "ix_usage_logs_organization_id"
    ∷ drop_index "ix_usage_logs_api_key_id"
    ∷ drop_index "ix_organizations_owner_id"
    ∷ drop_index "ix_organization_members_user_id"
    ∷ drop_index "ix_organization_members_organization_id"
    ∷ drop_index "ix_billing_transactions_billing_account_id"
    ∷ drop_index "ix_api_keys_organization_id"
    ∷ []
