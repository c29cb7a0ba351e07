-- ===== src/Tests/Schemata.antt =====
-- The revisions on a database in which only Alembic's own table is.
use cortex_cloud_api.Prelude.{false, [], ◌∷◌, ◌≡◌, refl, length}
use cortex_cloud_api.Effects.{ok}
use cortex_cloud_api.Effects.Results.{or_else}
use cortex_cloud_api.Migrations.{Table, Schema, varchar, column, create, run_upgrade, run_downgrade}
use cortex_cloud_api.Migrations.Revisions.{
  upgrade_head, downgrade_base, downgrade_base-upgrade_head,
}

abbrev alembic_version : Table
alembic_version = record {
  name = "alembic_version";
  columns = column "version_num" (varchar 32) false false ∷ [];
  primary_key = "version_num" ∷ [];
  foreign_keys = [];
  unique = [];
}

abbrev bare : Schema
bare = record { tables = alembic_version ∷ []; indexes = [] }

abbrev current : Schema
current = or_else bare (run_upgrade upgrade_head bare)

upgraded : run_upgrade upgrade_head bare ≡ ok current
unfolding create
upgraded = refl

table_count : length current.tables ≡ 9
unfolding create
table_count = refl

index_count : length current.indexes ≡ 12
unfolding create
index_count = refl

downgrade_base-upgrade_head_example : run_downgrade downgrade_base current ≡ ok bare
downgrade_base-upgrade_head_example =
    downgrade_base-upgrade_head bare current ((tt, tt), tt) upgraded
