-- ===== src/Races/Lost.antt =====
-- app/api/dashboard/routes.py: a deposit that commits behind a charge it has not read.
use cortex_cloud_api.Prelude.{
  ℕ, ◌<◌, ◌≡◌, refl, sym, ap, subst, ◌∙◌, Bool, true, false, none, some, List, [], ◌∷◌, ◌++◌, map,
  select, All, All-select, arith, ◌==◌, ==_refl,
}
use cortex_cloud_api.Prelude.Int.{ℤ, pos, ◌+ℤ◌, ◌-ℤ◌, int_laws}
use cortex_cloud_api.Database.{BillingAccount, Db}
use cortex_cloud_api.Dashboard.{billing_of}
use cortex_cloud_api.Dashboard.Accounts.{deposit_tx}
use cortex_cloud_api.Usage.{post, set_balance, charge, charge_tx, charge_fits, fits_numeric}
use cortex_cloud_api.Usage.Ledger.{IsBalanced, Matches, total, total-append}
use cortex_cloud_api.Races.{
  Shared, Action, select_charge, commit_charge, select_deposit, commit_deposit, step, run,
}

-- The order of the four steps: the deposit reads, the charge reads and commits, the deposit commits.
abbrev pub overtaken : ℕ → ℕ → ℕ → ℕ → ℕ → ℕ → List Action
overtaken d c user_id organization_id amount cost =
    select_deposit d user_id amount
    ∷ select_charge c organization_id cost
    ∷ commit_charge c
    ∷ commit_deposit d
    ∷ []

module _ (a : BillingAccount) (amount cost : ℕ) (s : Shared) where
  -- What is written in the end.
  abbrev pub written : Db
  written =
      post a.id (a.balance +ℤ pos amount) (deposit_tx a (pos amount)) (charge (some a) cost s.db)

  -- The account's transactions know of the charge.
  total-written :
      Matches s.db.transactions a
      → total a.id written.transactions +ℤ pos cost ≡ a.balance +ℤ pos amount
  total-written m =
      rw
        (total-append a.id (s.db.transactions ++ charge_tx a cost ∷ []) (deposit_tx a (pos amount)))
        (rw (total-append a.id s.db.transactions (charge_tx a cost))
          (rw (==_refl a.id) (grind (int_laws, m))))

  run-overtaken :
      (d c user_id organization_id : ℕ)
      → (c == d) ≡ false
      → s.pending d ≡ none
      → s.pending c ≡ none
      → s.holder a.id ≡ none
      → billing_of user_id s.db ≡ a ∷ []
      → select (λ b. b.organization_id == organization_id) s.db.accounts ≡ a ∷ []
      → charge_fits (some a) cost ≡ true
      → fits_numeric (pos amount) ≡ true
      → fits_numeric (a.balance +ℤ pos amount) ≡ true
      → (v : Shared) × (run (overtaken d c user_id organization_id amount cost) s ≡ some v)
        × (v.db ≡ written)
  unfolding step
  run-overtaken d c user_id organization_id distinct d_idle c_idle free mine org fits small sum =
      let other : (d == c) ≡ false = ground (arith, distinct) in
      rw (d_idle, mine)
        (rw (distinct, c_idle, org)
          (rw free (
            rw (==_refl c) (
              rw fits (
                rw (other)
                  (rw (==_refl d) (rw (==_refl a.id) (rw (small, sum) (_, refl, refl)))))))))

map-All :
    (P : BillingAccount → Type 0) (f : BillingAccount → BillingAccount) (rows : List BillingAccount)
    → All P (map f rows)
    → All (λ a. P (f a)) rows
map-All P f [] h = tt
map-All P f (a ∷ rows) (h, hs) = (h, map-All P f rows hs)

selected :
    (P : BillingAccount → Type 0) (keep : BillingAccount → Bool) (rows : List BillingAccount)
    (a : BillingAccount)
    → select keep rows ≡ a ∷ []
    → All P rows
    → P a
selected P keep rows a e h = (subst (All P) e (All-select P keep rows h)).0

set_own :
    (a : BillingAccount) (balance : ℤ) → set_balance a.id balance a ≡ record a { balance = balance }
set_own a balance = rw (==_refl a.id) refl

set_twice :
    (a : BillingAccount) (x y : ℤ)
    → set_balance a.id x (set_balance a.id y a) ≡ record a { balance = x }
set_twice a x y = ap (set_balance a.id x) (set_own a y) ∙ set_own (record a { balance = y }) x

module _ (a : BillingAccount) (amount cost organization_id : ℕ) (s : Shared)
    (org : select (λ b. b.organization_id == organization_id) s.db.accounts ≡ a ∷ []) where
  -- The account's row in the end: the deposit is the last to write it.
  written_row :
      IsBalanced (written a amount cost s)
      → Matches
          (written a amount cost s).transactions
          (record a { balance = a.balance +ℤ pos amount })
  written_row h =
      let charged =
        map-All (Matches (written a amount cost s).transactions)
          (set_balance a.id (a.balance +ℤ pos amount))
          (map (set_balance a.id (a.balance -ℤ pos cost)) s.db.accounts) h in
      let read =
        map-All
          (λ b.
            Matches (written a amount cost s).transactions
              (set_balance a.id (a.balance +ℤ pos amount) b))
          (set_balance a.id (a.balance -ℤ pos cost)) s.db.accounts charged in
      subst (Matches (written a amount cost s).transactions)
        (set_twice a (a.balance +ℤ pos amount) (a.balance -ℤ pos cost))
        (selected
          (λ b. Matches (written a amount cost s).transactions (
            set_balance a.id (a.balance +ℤ pos amount)
              (set_balance a.id (a.balance -ℤ pos cost) b)))
          (λ b. b.organization_id == organization_id) s.db.accounts a org read)

  written-unbalanced :
      0 < cost → Matches s.db.transactions a → ¬ IsBalanced (written a amount cost s)
  written-unbalanced positive m h =
      grind (int_laws, written_row h, total-written a amount cost s m, positive)

-- On a balanced ledger, when a deposit reads an account, a charge of it reads and commits, and then the
-- deposit commits, all four steps are made, the account's balance is written without the charge, and the
-- ledger is no longer balanced: the balance exceeds the sum of the transactions by the cost.
pub deposit_loses_charge :
    (s : Shared) (a : BillingAccount) (d c user_id organization_id amount cost : ℕ)
    → IsBalanced s.db
    → 0 < cost
    → (c == d) ≡ false
    → s.pending d ≡ none
    → s.pending c ≡ none
    → s.holder a.id ≡ none
    → billing_of user_id s.db ≡ a ∷ []
    → select (λ b. b.organization_id == organization_id) s.db.accounts ≡ a ∷ []
    → charge_fits (some a) cost ≡ true
    → fits_numeric (pos amount) ≡ true
    → fits_numeric (a.balance +ℤ pos amount) ≡ true
    → (v : Shared) × (run (overtaken d c user_id organization_id amount cost) s ≡ some v)
      × (total a.id v.db.transactions +ℤ pos cost ≡ a.balance +ℤ pos amount)
      × (v.db.accounts
          ≡ map
              (set_balance a.id (a.balance +ℤ pos amount))
              (map (set_balance a.id (a.balance -ℤ pos cost)) s.db.accounts))
      × ¬ IsBalanced v.db
deposit_loses_charge s a d c user org amount cost balanced positive distinct d_idle c_idle free mine
      row fits small sum =
    let m : Matches s.db.transactions a =
      selected (Matches s.db.transactions) (λ b. b.organization_id == org) s.db.accounts a row
        balanced in
    let (v, ran, e) =
      run-overtaken a amount cost s d c user org distinct d_idle c_idle free mine row fits small
        sum in
    (
      v,
      ran,
      subst (λ (db : Db). total a.id db.transactions +ℤ pos cost ≡ a.balance +ℤ pos amount) (sym e)
          (total-written a amount cost s m),
      ap (λ (db : Db). db.accounts) e,
      subst (λ db. ¬ IsBalanced db) (sym e) (written-unbalanced a amount cost org s row positive m),
    )
