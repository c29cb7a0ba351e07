-- ===== src/Books/Rows.antt =====
-- Tables in which a key is that of one row at most.
use cortex_cloud_api.Prelude.{
  ◌≡◌, refl, ap, subst, inl, inr, Bool, true, false, List, [], ◌∷◌, ◌++◌, map, arith, select, any,
  Bool-cases, if◌then◌else◌,
}

abbrev pub AtMostOne : {A : Type 0} → List A → Type 0
AtMostOne [] = Unit
AtMostOne (row ∷ []) = Unit
AtMostOne (row ∷ another ∷ rows) = ⊥

AtMostOne-map : {A : Type 0} (f : A → A) (rows : List A) → AtMostOne rows → AtMostOne (map f rows)
AtMostOne-map f [] h = tt
AtMostOne-map f (row ∷ []) h = tt
AtMostOne-map f (row ∷ another ∷ rows) h = h

select-last :
    {A : Type 0} (p : A → Bool) (rows : List A) (row : A)
    → select p (rows ++ row ∷ []) ≡ select p rows ++ (if p row then row ∷ [] else [])
select-last p [] row = ground arith
select-last p (r ∷ rows) row = ground (arith, select-last p rows row)

select-map :
    {A : Type 0} (p : A → Bool) (f : A → A) (rows : List A)
    → ((row : A) → p (f row) ≡ p row)
    → select p (map f rows) ≡ map f (select p rows)
select-map p f [] h = refl
select-map p f (r ∷ rows) h = ground (arith, h r, select-map p f rows h)

pub select-none :
    {A : Type 0} (p : A → Bool) (rows : List A) → any p rows ≡ false → select p rows ≡ []
select-none p [] h = refl
select-none p (r ∷ rows) h = ground (arith, select-none p rows)

append_nil : {A : Type 0} (rows : List A) → rows ++ [] ≡ rows
append_nil [] = refl
append_nil (r ∷ rows) = ap (λ s. r ∷ s) (append_nil rows)

module _ {A K : Type 0} (key : A → K) (eq : K → K → Bool) where
  -- The rows with a given key.
  abbrev pub with_key : K → List A → List A
  with_key k rows = select (λ row. eq (key row) k) rows

  abbrev pub IsUnique : List A → Type 0
  IsUnique rows = (k : K) → AtMostOne (with_key k rows)

  pub IsUnique-append :
      ((j k : K) → eq j k ≡ true → j ≡ k)
      → (rows : List A) (row : A) → with_key (key row) rows ≡ []
      → IsUnique rows
      → IsUnique (rows ++ row ∷ [])
  IsUnique-append sound rows row fresh h k = elim (Bool-cases (eq (key row) k)) [
    | inl same ↦
        let none : with_key k rows ≡ [] =
          subst (λ j. with_key j rows ≡ []) (sound (key row) k same) fresh in
        rw (select-last (λ r. eq (key r) k) rows row, none, same) tt
    | inr differs ↦
        rw (select-last (λ r. eq (key r) k) rows row, differs, append_nil (with_key k rows)) (h k)
  ]

  pub IsUnique-map :
      (f : A → A) (rows : List A)
      → ((row : A) → key (f row) ≡ key row)
      → IsUnique rows
      → IsUnique (map f rows)
  IsUnique-map f rows same h k =
      rw (select-map (λ r. eq (key r) k) f rows (λ row. ap (λ j. eq j k) (same row)))
        (AtMostOne-map f (with_key k rows) (h k))
