-- ===== src/Dashboard/Deposits.antt =====
-- What a deposit does, and when it keeps the ledger balanced.
use cortex_cloud_api.Prelude.{
  ℕ, ◌∙◌, ◌^◌, ◌<◌, ◌≤◌, ◌≡◌, refl, ap, subst, ◌&&◌, Option, none, some, List, [], ◌∷◌, map, arith,
  ◌==◌, select, All, All-append, Bool-cases, inl, inr, ltb,
}
use cortex_cloud_api.Prelude.Int.{ℤ, pos_part, ◌+ℤ◌}
use cortex_cloud_api.Dashboard.Decimals.{Decimal, add_amount, column_value, column_value-add_amount}
use cortex_cloud_api.Effects.{Exec, or_raise, ◌>>=◌}
use cortex_cloud_api.Effects.After.{After, bind-After, After-state, After-weaken}
use cortex_cloud_api.Database.{BillingAccount, Db, World}
use cortex_cloud_api.Database.Query.{execute, scalar_one_or_none}
use cortex_cloud_api.Database.Rules.{Unchanged, IsOnly, execute-After, scalar-After}
use cortex_cloud_api.Usage.{post, fits_numeric, set_balance}
use cortex_cloud_api.Usage.Ledger.{Matches, post-IsBalanced}
use cortex_cloud_api.Dashboard.{billing_of, organizations_of, joined}
use cortex_cloud_api.Dashboard.Accounts.{simulated_deposit, add_deposit, deposit_tx, no_account}
use cortex_cloud_api.Dashboard.Money.{IsLedger}

module _ {A : Type 0} (P : A → Type 0) where
  All-copies : {B : Type 0} (a : A) (bs : List B) → P a → All P (map (λ b. a) bs)
  All-copies a [] h = tt
  All-copies a (b ∷ bs) h = (h, All-copies a bs h)

  -- The rows of a join are rows of its table.
  pub All-joined :
      (f : A → ℕ) (rows : List A) (user_id : ℕ) (db : Db)
      → All P rows
      → All P (joined f rows user_id db)
  All-joined f [] user_id db h = tt
  All-joined f (row ∷ rows) user_id db (h, hs) =
      All-append P (map (λ o. row) (select (λ o. o.id == f row) (organizations_of user_id db)))
        (joined f rows user_id db)
        (All-copies row (select (λ o. o.id == f row) (organizations_of user_id db)) h)
        (All-joined f rows user_id db hs)

-- What holds of a user's account: it is one of the table's.
pub billing_row :
    (P : BillingAccount → Type 0) (user_id : ℕ) (db : Db) (a : BillingAccount)
    → All P db.accounts
    → billing_of user_id db ≡ a ∷ []
    → P a
billing_row P user_id db a h e =
    (subst (All P) e (All-joined P (λ a. a.organization_id) db.accounts user_id db h)).0

pub set_balance-ids :
    (n id : ℕ) (balance : ℤ) (accounts : List BillingAccount)
    → All (λ a. a.id < n) accounts
    → All (λ a. a.id < n) (map (set_balance id balance) accounts)
set_balance-ids n id balance [] h = tt
set_balance-ids n id balance (a ∷ rest) (h, hs) =
    (ground (arith, h), set_balance-ids n id balance rest hs)

abbrev pub deposited : BillingAccount → Decimal → Db → Db
deposited a amount db =
    post a.id (column_value (add_amount a.balance amount)) (deposit_tx a (column_value amount)) db

-- Of an amount with at most six places, the column of the sum holds the balance and what that of the amount holds.
deposited-IsLedger :
    (a : BillingAccount) (amount : Decimal) (user_id : ℕ) (db : Db)
    → amount.places ≤ 6
    → billing_of user_id db ≡ a ∷ []
    → IsLedger db
    → IsLedger (deposited a amount db)
deposited-IsLedger a amount user_id db whole e h = record {
  balanced =
      post-IsBalanced (column_value (add_amount a.balance amount))
        (deposit_tx a (column_value amount)) db
        (column_value-add_amount a.balance amount whole
          ∙ ap (λ b. b +ℤ column_value amount)
              (billing_row (Matches db.transactions) user_id db a h.balanced e))
        h.balanced;
  booked =
      All-append (λ t. t.billing_account_id < db.next_id) db.transactions
        (deposit_tx a (column_value amount) ∷ []) h.booked
        (billing_row (λ a. a.id < db.next_id) user_id db a h.opened e, tt);
  opened =
      set_balance-ids db.next_id a.id (column_value (add_amount a.balance amount)) db.accounts
        h.opened;
}

module _ (amount : Decimal) (user_id : ℕ) (w : World) where
  -- A deposit that returned has added its amount to the user's one account, and its transaction.
  pub record IsDeposited (balance : Decimal) (v : World) : Type 0 where
    pub account : BillingAccount
    pub only : billing_of user_id w.db ≡ account ∷ []
    pub at_least : 10 ^ amount.places ≤ pos_part amount.units
    pub new_balance : balance ≡ add_amount account.balance amount
    pub db_same : v.db ≡ deposited account amount w.db

  module _ (enough : 10 ^ amount.places ≤ pos_part amount.units) where
    abbrev add_found : Option BillingAccount → Exec World Decimal
    add_found found = or_raise found no_account >>= add_deposit amount

    add_found-After :
        (found : Option BillingAccount)
        → IsOnly (billing_of user_id w.db) found
        → After IsDeposited (Unchanged w) (add_found found w)
    add_found-After none e = refl
    add_found-After (some a) e =
        elim (Bool-cases (
          fits_numeric (column_value amount)
          && fits_numeric (column_value (add_amount a.balance amount)))) [
            | inl fits ↦ rw fits (record {
              account = a;
              only = e;
              at_least = enough;
              new_balance = refl;
              db_same = refl;
            })
            | inr wide ↦ rw wide refl
          ]

    found-After :
        After IsDeposited
          (Unchanged w)
          ((execute (billing_of user_id) >>= λ rows. scalar_one_or_none rows >>= add_found) w)
    found-After =
        bind-After (λ rows v. (v ≡ w) × (rows ≡ billing_of user_id w.db)) IsDeposited (Unchanged w)
          (execute (billing_of user_id)) (λ rows. scalar_one_or_none rows >>= add_found) w
          (execute-After (billing_of user_id) w)
          λ rows v h.
            rw (h.0, h.1)
              (bind-After (λ o u. (u ≡ w) × IsOnly (billing_of user_id w.db) o) IsDeposited
                (Unchanged w) (scalar_one_or_none (billing_of user_id w.db)) add_found w
                (scalar-After (billing_of user_id w.db) w) λ o u k. rw k.0 (add_found-After o k.1))

  -- A deposit of at least a dollar adds its amount to the balance of the user's one account and to
  -- the ledger, each as its column stores it, and returns the sum; or it is refused and nothing changes.
  pub simulated_deposit-After : After IsDeposited (Unchanged w) (simulated_deposit amount user_id w)
  unfolding simulated_deposit
  simulated_deposit-After = elim (Bool-cases (ltb (pos_part amount.units) (10 ^ amount.places))) [
    | inl small ↦ rw small refl
    | inr enough ↦ rw enough (found-After (ground arith))
  ]

  -- However it ends, a deposit of an amount with at most six places keeps the ledger balanced.
  pub simulated_deposit-IsLedger :
      amount.places ≤ 6 → IsLedger w.db → IsLedger (simulated_deposit amount user_id w).1.db
  simulated_deposit-IsLedger whole h =
      After-state (λ v. IsLedger v.db) (simulated_deposit amount user_id w)
        (After-weaken IsDeposited (λ b v. IsLedger v.db) (Unchanged w) (λ e v. IsLedger v.db)
          (simulated_deposit amount user_id w) simulated_deposit-After
          (λ b v d. rw d.db_same (deposited-IsLedger d.account amount user_id w.db whole d.only h))
          (λ e v same. rw same h))
