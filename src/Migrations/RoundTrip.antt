-- ===== src/Migrations/RoundTrip.antt =====
-- migrations/versions/*.py: a downgrade takes back what an upgrade did.
use cortex_cloud_api.Prelude.{
  eq_refl, true, false, List, [], ◌∷◌, ◌++◌, ◌≡◌, refl, inl, inr, any, Bool-cases, arith,
}
use cortex_cloud_api.Effects.{Result, ok, raised, Result-cases}
use cortex_cloud_api.Effects.Results.{Gives, bind-Gives, Gives-ok, ◌>>=◌}
use cortex_cloud_api.Migrations.{
  Table, Index, Schema, Creation, create_table, create_index, Removal, drop_table, drop_index,
  has_table, has_index, is_taken, dangles, has_columns, create, remove, run_upgrade, run_downgrade,
}
use cortex_cloud_api.Migrations.Sound.{
  IsSound, none_refers, select-tables, select-indexes, select-on, AreResolved-more, AreOn-more,
  not_dangling, on_table,
}

abbrev undo : Creation → Removal
undo (create_table t) = drop_table t.name
undo (create_index i) = drop_index i.name

abbrev Undone : Schema → Creation → Schema → Type 0
Undone s c u = (remove (undo c) u ≡ ok s) × IsSound u

table-Undone :
    (t : Table) (s : Schema)
    → IsSound s
    → is_taken t.name s ≡ false
    → any (dangles (t ∷ s.tables)) t.foreign_keys ≡ false
    → Undone s (create_table t) (record s { tables = t ∷ s.tables })
unfolding remove
table-Undone t s (resolved, on) fresh keys =
    let absent : has_table t.name s.tables ≡ false = ground (arith, fresh) in
    (
      rw (eq_refl t.name) (
          rw (none_refers t.name s.tables s.tables absent resolved) (
            rw (select-tables t.name s.tables absent)
              (rw (select-on t.name s.tables s.indexes absent on) refl))),
      (
        (
          not_dangling (t ∷ s.tables) t.foreign_keys keys,
          AreResolved-more t s.tables s.tables resolved,
        ),
        AreOn-more t s.tables s.indexes on,
      ),
    )

index-Undone :
    (i : Index) (s : Schema)
    → IsSound s
    → is_taken i.name s ≡ false
    → any (has_columns i) s.tables ≡ true
    → Undone s (create_index i) (record s { indexes = i ∷ s.indexes })
unfolding remove
index-Undone i s (resolved, on) fresh there =
    let absent : has_index i.name s.indexes ≡ false = ground (arith, fresh) in
    (
      rw (eq_refl i.name) (rw (select-indexes i.name s.indexes absent) refl),
      (resolved, (on_table i s.tables there, on)),
    )

create-Undone : (c : Creation) (s : Schema) → IsSound s → Gives (Undone s c) (create c s)
unfolding create
create-Undone (create_table t) s sound = elim (Bool-cases (is_taken t.name s)) [
  | inl e ↦ rw e tt
  | inr e ↦ elim (Bool-cases (any (dangles (t ∷ s.tables)) t.foreign_keys)) [
    | inl d ↦ rw (e, d) tt
    | inr d ↦ rw (e, d) (table-Undone t s sound e d)
  ]
]
create-Undone (create_index i) s sound = elim (Bool-cases (is_taken i.name s)) [
  | inl e ↦ rw e tt
  | inr e ↦ elim (Bool-cases (any (has_columns i) s.tables)) [
    | inl d ↦ rw (e, d) (index-Undone i s sound e d)
    | inr d ↦ rw (e, d) tt
  ]
]

-- The removals that take back the creations, the last one first.
abbrev pub mirror : List Creation → List Removal
mirror [] = []
mirror (c ∷ rest) = mirror rest ++ undo c ∷ []

run_downgrade-append :
    (rs : List Removal) (r : Removal) (v u s : Schema)
    → run_downgrade rs v ≡ ok u
    → remove r u ≡ ok s
    → run_downgrade (rs ++ r ∷ []) v ≡ ok s
run_downgrade-append [] r v u s h k = let same : v ≡ u = cc in rw same (rw (k, ◌>>=◌) refl)
run_downgrade-append (q ∷ rs) r v u s h k = elim (Result-cases (remove q v)) [
  | inl (w, e) ↦ rw (e, ◌>>=◌) (run_downgrade-append rs r w u s (rw (e, ◌>>=◌) at h) k)
  | inr (x, e) ↦ let wrong : raised x ≡ ok u = rw (e, ◌>>=◌) at h in cc
]

weaken_Gives :
    (P Q : Schema → Type 0) (m : Result Schema) → Gives P m → ((v : Schema) → P v → Q v) → Gives Q m
weaken_Gives P Q (ok v) h k = k v h
weaken_Gives P Q (raised e) h k = tt

mirror-Gives :
    (cs : List Creation) (s : Schema)
    → IsSound s
    → Gives (λ v. run_downgrade (mirror cs) v ≡ ok s) (run_upgrade cs s)
mirror-Gives [] s sound = refl
mirror-Gives (c ∷ cs) s sound =
    bind-Gives (Undone s c) (λ v. run_downgrade (mirror (c ∷ cs)) v ≡ ok s) (create c s)
      (run_upgrade cs) (create-Undone c s sound)
      λ u (back, sound_u).
        weaken_Gives (λ v. run_downgrade (mirror cs) v ≡ ok u)
          (λ v. run_downgrade (mirror (c ∷ cs)) v ≡ ok s) (run_upgrade cs u)
          (mirror-Gives cs u sound_u)
          (λ v h. run_downgrade-append (mirror cs) (undo c) v u s h back)

-- Creations that succeed on a sound schema are taken back by their mirror.
pub run_downgrade-mirror :
    (cs : List Creation) (s v : Schema)
    → IsSound s
    → run_upgrade cs s ≡ ok v
    → run_downgrade (mirror cs) v ≡ ok s
run_downgrade-mirror cs s v sound h =
    Gives-ok (λ v. run_downgrade (mirror cs) v ≡ ok s) (run_upgrade cs s) (mirror-Gives cs s sound)
      h
