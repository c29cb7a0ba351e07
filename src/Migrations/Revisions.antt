-- ===== src/Migrations/Revisions.antt =====
-- migrations/versions/*.py: the two revisions in their order.
use cortex_cloud_api.Prelude.{List, ◌++◌, ◌≡◌}
use cortex_cloud_api.Effects.{ok}
use cortex_cloud_api.Migrations.{Schema, Creation, Removal, run_upgrade, run_downgrade}
use cortex_cloud_api.Migrations.Indexes
use cortex_cloud_api.Migrations.Initial
use cortex_cloud_api.Migrations.RoundTrip.{run_downgrade-mirror}
use cortex_cloud_api.Migrations.Sound.{IsSound}

-- `alembic upgrade head` and `alembic downgrade base`: the second revision follows on the first.
abbrev pub upgrade_head : List Creation
upgrade_head = Initial.upgrade ++ Indexes.upgrade

abbrev pub downgrade_base : List Removal
downgrade_base = Indexes.downgrade ++ Initial.downgrade

-- If the two revisions succeed on a schema in which every foreign key and every index is of a table
-- that is there, then going down again succeeds, and the schema is as it was.
pub downgrade_base-upgrade_head :
    (s v : Schema)
    → IsSound s
    → run_upgrade upgrade_head s ≡ ok v
    → run_downgrade downgrade_base v ≡ ok s
downgrade_base-upgrade_head s v sound h = run_downgrade-mirror upgrade_head s v sound h
