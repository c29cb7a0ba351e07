-- ===== src/Migrations.antt =====
-- migrations/versions/*.py: the schema of the database, and its two revisions. A statement does what
-- PostgreSQL documents for it, and is refused for the names it uses only: types are not compared.
pub mod Initial
pub mod Indexes
pub mod Sound
pub mod RoundTrip
pub mod Revisions
use cortex_cloud_api.Prelude.{
  ℕ, String, str_eq, Bool, true, false, not, ◌&&◌, ◌||◌, List, [], ◌∷◌, any, select, if◌then◌else◌,
}
use cortex_cloud_api.Effects.{Exn, other, message, Result, ok, raised}
use cortex_cloud_api.Effects.Results.{◌>>=◌}

pub data SqlType : Type 0 where
  uuid integer boolean json date_time text : SqlType
  varchar : ℕ → SqlType
  numeric : ℕ → ℕ → SqlType

pub record Column : Type 0 where
  pub name : String
  pub type : SqlType
  pub nullable : Bool
  -- `server_default=sa.text('now()')`
  pub is_now : Bool

pub record ForeignKey : Type 0 where
  pub column : String
  pub references : String
  pub key : String
  pub on_delete : String

pub record Table : Type 0 where
  pub name : String
  pub columns : List Column
  pub primary_key : List String
  pub foreign_keys : List ForeignKey
  pub unique : List (List String)

pub record Index : Type 0 where
  pub name : String
  pub table : String
  pub columns : List String
  pub is_unique : Bool

abbrev pub column : String → SqlType → Bool → Bool → Column
column name type nullable is_now = record {
  name = name;
  type = type;
  nullable = nullable;
  is_now = is_now;
}

abbrev pub foreign_key : String → String → String → String → ForeignKey
foreign_key column references key on_delete = record {
  column = column;
  references = references;
  key = key;
  on_delete = on_delete;
}

abbrev pub index : String → String → List String → Bool → Index
index name table columns is_unique = record {
  name = name;
  table = table;
  columns = columns;
  is_unique = is_unique;
}

pub record Schema : Type 0 where
  pub tables : List Table
  pub indexes : List Index

pub data Creation : Type 0 where
  create_table : Table → Creation
  create_index : Index → Creation

pub data Removal : Type 0 where
  drop_table : String → Removal
  drop_index : String → Removal

abbrev pub has_table : String → List Table → Bool
has_table name tables = any (λ t. str_eq t.name name) tables

abbrev pub has_index : String → List Index → Bool
has_index name indexes = any (λ i. str_eq i.name name) indexes

-- Tables and indexes share their names.
abbrev pub is_taken : String → Schema → Bool
is_taken name s = has_table name s.tables || has_index name s.indexes

abbrev pub programming_error : Exn
programming_error = other (message "ProgrammingError")

abbrev pub lacks_column : Table → String → Bool
lacks_column t name = not (any (λ c. str_eq c.name name) t.columns)

abbrev pub has_columns : Index → Table → Bool
has_columns i t = str_eq t.name i.table && not (any (lacks_column t) i.columns)

abbrev pub dangles : List Table → ForeignKey → Bool
dangles tables k = not (has_table k.references tables)

unfoldable pub create : Creation → Schema → Result Schema
create (create_table t) s =
    if is_taken t.name s || any (dangles (t ∷ s.tables)) t.foreign_keys
    then raised programming_error
    else ok record s { tables = t ∷ s.tables }
create (create_index i) s =
    if is_taken i.name s || not (any (has_columns i) s.tables)
    then raised programming_error
    else ok record s { indexes = i ∷ s.indexes }

-- Another table has a foreign key to this one.
abbrev pub refers_to : String → Table → Bool
refers_to name t = not (str_eq t.name name) && any (λ k. str_eq k.references name) t.foreign_keys

-- A table goes with its indexes.
unfoldable pub remove : Removal → Schema → Result Schema
remove (drop_table name) s =
    if not (has_table name s.tables) || any (refers_to name) s.tables
    then raised programming_error
    else ok record {
      tables = select (λ t. not (str_eq t.name name)) s.tables;
      indexes = select (λ i. not (str_eq i.table name)) s.indexes;
    }
remove (drop_index name) s =
    if not (has_index name s.indexes)
    then raised programming_error
    else ok record s { indexes = select (λ i. not (str_eq i.name name)) s.indexes }

abbrev pub run_upgrade : List Creation → Schema → Result Schema
run_upgrade [] s = ok s
run_upgrade (c ∷ rest) s = create c s >>= run_upgrade rest

abbrev pub run_downgrade : List Removal → Schema → Result Schema
run_downgrade [] s = ok s
run_downgrade (r ∷ rest) s = remove r s >>= run_downgrade rest
