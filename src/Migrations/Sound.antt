-- ===== src/Migrations/Sound.antt =====
-- migrations/versions/*.py: schemas in which foreign keys and indexes are of tables that are there.
use cortex_cloud_api.Prelude.{
  String, str_eq, eq_iff, true, false, not, List, [], ◌∷◌, ◌≡◌, refl, sym, ap, ◌∙◌, inl, inr, any,
  select, All, Bool-cases, arith,
}
use cortex_cloud_api.Migrations.{
  ForeignKey, Table, Index, Schema, has_table, has_index, dangles, has_columns, refers_to,
}

-- The foreign keys and the indexes are of tables that are there.
abbrev pub AreResolved : List Table → List Table → Type 0
AreResolved all = All (λ t. All (λ k. has_table k.references all ≡ true) t.foreign_keys)

abbrev pub AreOn : List Table → List Index → Type 0
AreOn all = All (λ i. has_table i.table all ≡ true)

abbrev pub IsSound : Schema → Type 0
IsSound s = AreResolved s.tables s.tables × AreOn s.tables s.indexes

-- A name that no table has is not that of a table that is there.
other_name :
    (name other : String) (tables : List Table)
    → has_table name tables ≡ false
    → has_table other tables ≡ true
    → str_eq other name ≡ false
other_name name other tables absent here = elim (Bool-cases (str_eq other name)) [
  | inl same ↦
      let e : other ≡ name = (eq_iff other name).0 same in
      let wrong : has_table name tables ≡ true = ap (λ n. has_table n tables) (sym e) ∙ here in cc
  | inr differs ↦ differs
]

unreferenced :
    (name : String) (all : List Table) (keys : List ForeignKey)
    → has_table name all ≡ false
    → All (λ k. has_table k.references all ≡ true) keys
    → any (λ k. str_eq k.references name) keys ≡ false
unreferenced name all [] absent h = refl
unreferenced name all (k ∷ keys) absent (h, hs) =
    rw (other_name name k.references all absent h) (unreferenced name all keys absent hs)

pub none_refers :
    (name : String) (all tables : List Table)
    → has_table name all ≡ false
    → AreResolved all tables
    → any (refers_to name) tables ≡ false
none_refers name all [] absent h = refl
none_refers name all (t ∷ tables) absent (h, hs) =
    ground
      (arith, unreferenced name all t.foreign_keys absent h, none_refers name all tables absent hs)

pub select-tables :
    (name : String) (tables : List Table)
    → has_table name tables ≡ false
    → select (λ t. not (str_eq t.name name)) tables ≡ tables
select-tables name [] absent = refl
select-tables name (t ∷ tables) absent = ground (arith, select-tables name tables)

pub select-indexes :
    (name : String) (indexes : List Index)
    → has_index name indexes ≡ false
    → select (λ i. not (str_eq i.name name)) indexes ≡ indexes
select-indexes name [] absent = refl
select-indexes name (i ∷ indexes) absent = ground (arith, select-indexes name indexes)

pub select-on :
    (name : String) (all : List Table) (indexes : List Index)
    → has_table name all ≡ false
    → AreOn all indexes
    → select (λ i. not (str_eq i.table name)) indexes ≡ indexes
select-on name all [] absent h = refl
select-on name all (i ∷ indexes) absent (h, hs) =
    rw (other_name name i.table all absent h)
      (ap (λ is. i ∷ is) (select-on name all indexes absent hs))

has_table-more :
    (t : Table) (name : String) (all : List Table)
    → has_table name all ≡ true
    → has_table name (t ∷ all) ≡ true
has_table-more t name all h = elim (Bool-cases (str_eq t.name name)) [
  | inl e ↦ rw e refl
  | inr e ↦ rw e h
]

keys-more :
    (t : Table) (all : List Table) (keys : List ForeignKey)
    → All (λ k. has_table k.references all ≡ true) keys
    → All (λ k. has_table k.references (t ∷ all) ≡ true) keys
keys-more t all [] h = tt
keys-more t all (k ∷ keys) (h, hs) = (has_table-more t k.references all h, keys-more t all keys hs)

pub AreResolved-more :
    (t : Table) (all tables : List Table) → AreResolved all tables → AreResolved (t ∷ all) tables
AreResolved-more t all [] h = tt
AreResolved-more t all (u ∷ tables) (h, hs) =
    (keys-more t all u.foreign_keys h, AreResolved-more t all tables hs)

pub AreOn-more :
    (t : Table) (all : List Table) (indexes : List Index)
    → AreOn all indexes
    → AreOn (t ∷ all) indexes
AreOn-more t all [] h = tt
AreOn-more t all (i ∷ indexes) (h, hs) =
    (has_table-more t i.table all h, AreOn-more t all indexes hs)

pub not_dangling :
    (all : List Table) (keys : List ForeignKey)
    → any (dangles all) keys ≡ false
    → All (λ k. has_table k.references all ≡ true) keys
not_dangling all [] h = tt
not_dangling all (k ∷ keys) h = elim (Bool-cases (has_table k.references all)) [
  | inl e ↦ (e, not_dangling all keys (rw e at h))
  | inr e ↦ let wrong : true ≡ false = rw e at h in cc
]

pub on_table :
    (i : Index) (tables : List Table)
    → any (has_columns i) tables ≡ true
    → has_table i.table tables ≡ true
on_table i [] h = h
on_table i (t ∷ tables) h = ground (arith, on_table i tables)
