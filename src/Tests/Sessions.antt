-- ===== src/Tests/Sessions.antt =====
-- Sessions that charge and deposit at once, on the sample database.
use cortex_cloud_api.Prelude.{◌≡◌, refl, true, Option, none, some, List, [], ◌∷◌, map, arith}
use cortex_cloud_api.Prelude.Int.{pos, ◌+ℤ◌, ◌-ℤ◌}
use cortex_cloud_api.Database.{BillingAccount}
use cortex_cloud_api.Races.{Shared, Action, select_charge, commit_charge, select_deposit, step, run}
use cortex_cloud_api.Races.Charges.{IsConsistent, run-IsConsistent}
use cortex_cloud_api.Races.Lost.{overtaken, deposit_loses_charge}
use cortex_cloud_api.Tests.Samples.{database}
use cortex_cloud_api.Usage.{set_balance, charge_fits, fits_numeric}
use cortex_cloud_api.Usage.Ledger.{IsBalanced, total}

abbrev idle : Shared
idle = record { db = database; pending = λ n. none; holder = λ id. none }

idle-IsConsistent : IsConsistent idle
unfolding ◌+ℤ◌
idle-IsConsistent = record { balanced = (refl, (refl, tt)); current = λ n. tt }

-- The second session has to wait for the first.
blocked : run (select_charge 1 30 500 ∷ select_charge 2 30 700 ∷ []) idle ≡ none
unfolding step
blocked = refl

abbrev turns : List Action
turns =
    select_charge 1 30 500
    ∷ select_deposit 3 20 2_000_000
    ∷ select_charge 2 31 700
    ∷ commit_charge 1
    ∷ select_charge 1 30 900
    ∷ commit_charge 2
    ∷ commit_charge 1
    ∷ []

abbrev or_idle : Option Shared → Shared
or_idle none = idle
or_idle (some s) = s

balances :
    map (λ (a : BillingAccount). a.balance) (or_idle (run turns idle)).db.accounts
    ≡ pos 9_998_600 ∷ pos 9_999_300 ∷ []
unfolding step ◌+ℤ◌ ◌-ℤ◌
balances = refl

made : run turns idle ≡ some (or_idle (run turns idle))
unfolding step ◌+ℤ◌ ◌-ℤ◌
made = refl

run-IsConsistent_example : IsConsistent (or_idle (run turns idle))
run-IsConsistent_example =
    run-IsConsistent turns idle (or_idle (run turns idle))
      (tt, (tt, (tt, (tt, (tt, (tt, (tt, tt))))))) idle-IsConsistent made

abbrev account : BillingAccount
account = record { id = 40; organization_id = 30; balance = pos 10_000_000; tier = "free" }

cost_fits : charge_fits (some account) 500 ≡ true
unfolding ◌-ℤ◌
cost_fits = refl

sum_fits : fits_numeric (pos 10_000_000 +ℤ pos 2_000_000) ≡ true
unfolding ◌+ℤ◌
sum_fits = refl

deposit_loses_charge_example :
    (v : Shared) × (run (overtaken 1 2 20 30 2_000_000 500) idle ≡ some v)
    × (total 40 v.db.transactions +ℤ pos 500 ≡ pos 10_000_000 +ℤ pos 2_000_000)
    × (v.db.accounts
        ≡ map
            (set_balance 40 (pos 10_000_000 +ℤ pos 2_000_000))
            (map (set_balance 40 (pos 10_000_000 -ℤ pos 500)) database.accounts))
    × ¬ IsBalanced v.db
deposit_loses_charge_example =
    deposit_loses_charge idle account 1 2 20 30 2_000_000 500 idle-IsConsistent.balanced
      (omega arith) refl refl refl refl refl refl cost_fits refl sum_fits
