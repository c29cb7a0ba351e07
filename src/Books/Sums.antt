-- ===== src/Books/Sums.antt =====
-- The sum of the balances when one of them changes.
use cortex_cloud_api.Prelude.{
  ℕ, ◌<◌, ◌≤◌, ◌≡◌, ◌≢◌, refl, sym, ap, subst, ◌∙◌, ◌⊎◌, inl, inr, List, [], ◌∷◌, ◌++◌, map, arith,
  All,
}
use cortex_cloud_api.Prelude.Int.{ℤ, pos, ◌+ℤ◌, int_laws}
use cortex_cloud_api.Database.{BillingAccount, BillingTransaction}
use cortex_cloud_api.Usage.{set_balance}
use cortex_cloud_api.Admin.Totals.{sum_all}

abbrev pub balances : List BillingAccount → ℤ
balances [] = pos 0
balances (a ∷ rest) = a.balance +ℤ balances rest

-- The ids differ.
abbrev pub Distinct : List BillingAccount → Type 0
Distinct [] = Unit
Distinct (a ∷ rest) = All (λ b. b.id ≢ a.id) rest × Distinct rest

-- The row is one of the table's.
abbrev pub IsIn : BillingAccount → List BillingAccount → Type 0
IsIn a [] = ⊥
IsIn a (b ∷ rest) = (b ≡ a) ⊎ IsIn a rest

All-later :
    (b : BillingAccount) (rows rest : List BillingAccount)
    → All (λ a. IsIn a rest) rows
    → All (λ a. IsIn a (b ∷ rest)) rows
All-later b [] rest h = tt
All-later b (a ∷ rows) rest (h, hs) = (inr h, All-later b rows rest hs)

pub All-IsIn : (rows : List BillingAccount) → All (λ a. IsIn a rows) rows
All-IsIn [] = tt
All-IsIn (a ∷ rows) = (inl refl, All-later a rows rows (All-IsIn rows))

balances-absent :
    (id : ℕ) (balance : ℤ) (rows : List BillingAccount)
    → All (λ b. b.id ≢ id) rows
    → balances (map (set_balance id balance) rows) ≡ balances rows
balances-absent id balance [] h = refl
balances-absent id balance (b ∷ rows) (h, hs) = ground (arith, balances-absent id balance rows hs)

IsIn-differs :
    (id : ℕ) (a : BillingAccount) (rows : List BillingAccount)
    → IsIn a rows
    → All (λ b. b.id ≢ id) rows
    → a.id ≢ id
IsIn-differs id a [] h k = absurd h
IsIn-differs id a (b ∷ rows) (inl e) (k, ks) = subst (λ c. c.id ≢ id) e k
IsIn-differs id a (b ∷ rows) (inr h) (k, ks) = IsIn-differs id a rows h ks

add_swap : (a x b : ℤ) → (a +ℤ x) +ℤ b ≡ (a +ℤ b) +ℤ x
add_swap a x b = grind int_laws

add_later : (a x b : ℤ) → a +ℤ (b +ℤ x) ≡ (a +ℤ b) +ℤ x
add_later a x b = grind int_laws

balances-set_first :
    (id : ℕ) (balance : ℤ) (b : BillingAccount) (rows : List BillingAccount)
    → b.id ≡ id
    → All (λ c. c.id ≢ id) rows
    → balances (map (set_balance id balance) (b ∷ rows)) ≡ balance +ℤ balances rows
balances-set_first id balance b rows e d = ground (arith, e, balances-absent id balance rows d)

changed_here :
    (a : BillingAccount) (x : ℤ) (b : BillingAccount) (rows : List BillingAccount)
    → b.id ≡ a.id
    → b.balance ≡ a.balance
    → All (λ c. c.id ≢ b.id) rows
    → balances (map (set_balance a.id (a.balance +ℤ x)) (b ∷ rows))
      ≡ (b.balance +ℤ balances rows) +ℤ x
changed_here a x b rows e k d =
    balances-set_first a.id (a.balance +ℤ x) b rows e (subst (λ id. All (λ c. c.id ≢ id) rows) e d)
    ∙ ap (λ n. (n +ℤ x) +ℤ balances rows) (sym k)
    ∙ add_swap b.balance x (balances rows)

changed_there :
    (a : BillingAccount) (x : ℤ) (b : BillingAccount) (rows : List BillingAccount)
    → a.id ≢ b.id
    → balances (map (set_balance a.id (a.balance +ℤ x)) rows) ≡ balances rows +ℤ x
    → balances (map (set_balance a.id (a.balance +ℤ x)) (b ∷ rows))
      ≡ (b.balance +ℤ balances rows) +ℤ x
changed_there a x b rows h later = ground (arith, later, add_later b.balance x (balances rows))

-- When a row gets `x` more, so does the sum.
pub balances-set_balance :
    (a : BillingAccount) (x : ℤ) (rows : List BillingAccount)
    → IsIn a rows
    → Distinct rows
    → balances (map (set_balance a.id (a.balance +ℤ x)) rows) ≡ balances rows +ℤ x
balances-set_balance a x [] h d = absurd h
balances-set_balance a x (b ∷ rows) (inl e) (d, ds) =
    changed_here a x b rows (ap (λ (c : BillingAccount). c.id) e)
      (ap (λ (c : BillingAccount). c.balance) e) d
balances-set_balance a x (b ∷ rows) (inr h) (d, ds) =
    let differs : a.id ≢ b.id = IsIn-differs b.id a rows h d in
    let later : balances (map (set_balance a.id (a.balance +ℤ x)) rows) ≡ balances rows +ℤ x =
      balances-set_balance a x rows h ds in
    changed_there a x b rows differs later

pub sum_all-append :
    (ts : List BillingTransaction) (t : BillingTransaction)
    → sum_all (ts ++ t ∷ []) ≡ sum_all ts +ℤ t.amount
sum_all-append [] t = grind int_laws
sum_all-append (s ∷ ts) t =
    ap (λ n. s.amount +ℤ n) (sum_all-append ts t) ∙ add_later s.amount t.amount (sum_all ts)

pub balances-append :
    (rows : List BillingAccount) (a : BillingAccount)
    → balances (rows ++ a ∷ []) ≡ balances rows +ℤ a.balance
balances-append [] a = grind int_laws
balances-append (b ∷ rows) a =
    ap (λ n. b.balance +ℤ n) (balances-append rows a)
    ∙ add_later b.balance a.balance (balances rows)

set_balance-differ :
    (id k : ℕ) (balance : ℤ) (rows : List BillingAccount)
    → All (λ b. b.id ≢ k) rows
    → All (λ b. b.id ≢ k) (map (set_balance id balance) rows)
set_balance-differ id k balance [] h = tt
set_balance-differ id k balance (b ∷ rows) (h, hs) =
    (ground (arith, h), set_balance-differ id k balance rows hs)

set_balance_id : (id : ℕ) (balance : ℤ) (b : BillingAccount) → (set_balance id balance b).id ≡ b.id
set_balance_id id balance b = ground arith

pub set_balance-Distinct :
    (id : ℕ) (balance : ℤ) (rows : List BillingAccount)
    → Distinct rows
    → Distinct (map (set_balance id balance) rows)
set_balance-Distinct id balance [] h = tt
set_balance-Distinct id balance (b ∷ rows) (h, hs) = (
  subst (λ k. All (λ c. c.id ≢ k) (map (set_balance id balance) rows))
      (sym (set_balance_id id balance b)) (set_balance-differ id b.id balance rows h),
  set_balance-Distinct id balance rows hs,
)

append-differs :
    (k : ℕ) (a : BillingAccount) (rows : List BillingAccount)
    → a.id ≢ k
    → All (λ b. b.id ≢ k) rows
    → All (λ b. b.id ≢ k) (rows ++ a ∷ [])
append-differs k a [] h hs = (h, tt)
append-differs k a (b ∷ rows) h (k', ks) = (k', append-differs k a rows h ks)

-- A new row with an id above all others.
pub append-Distinct :
    (n : ℕ) (a : BillingAccount) (rows : List BillingAccount)
    → n ≤ a.id
    → All (λ b. b.id < n) rows
    → Distinct rows
    → Distinct (rows ++ a ∷ [])
append-Distinct n a [] h o d = (tt, tt)
append-Distinct n a (b ∷ rows) h (o, os) (d, ds) =
    (append-differs b.id a rows (λ e. omega (arith, e, h, o)) d, append-Distinct n a rows h os ds)
