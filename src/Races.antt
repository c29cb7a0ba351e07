-- ===== src/Races.antt =====
-- app/services/usage.py and app/api/dashboard/routes.py: charges and deposits of several sessions at
-- once. Each reads a row, and writes what it makes of it when it commits. A charge locks the row
-- (`with_for_update`) until its commit; a deposit locks it only when it writes, and then waits for the
-- lock of another. A session reads what is committed, as is PostgreSQL's default. The usage logs are
-- left out, and the amount of a deposit is a whole number of micro-dollars.
pub mod Charges
pub mod Lost
use cortex_cloud_api.Prelude.{
  ℕ, Bool, ◌&&◌, Option, none, some, List, [], ◌∷◌, select, ◌==◌, if◌then◌else◌,
}
use cortex_cloud_api.Prelude.Int.{pos, ◌+ℤ◌}
use cortex_cloud_api.Database.{BillingAccount, Db}
use cortex_cloud_api.Dashboard.{billing_of}
use cortex_cloud_api.Dashboard.Accounts.{deposit_tx}
use cortex_cloud_api.Usage.{post, charge, charge_fits, fits_numeric}

-- What a session is to write: the row that it read, and the cost or the amount.
pub data Pending : Type 0 where
  charging : BillingAccount → ℕ → Pending
  depositing : BillingAccount → ℕ → Pending

pub record Shared : Type 0 where
  pub db : Db
  -- by the session
  pub pending : ℕ → Option Pending
  -- the session that holds the lock of an account's row
  pub holder : ℕ → Option ℕ

pub data Action : Type 0 where
  -- by the session, the organization and the cost
  select_charge : ℕ → ℕ → ℕ → Action
  commit_charge : ℕ → Action
  -- by the session, the user and the amount
  select_deposit : ℕ → ℕ → ℕ → Action
  commit_deposit : ℕ → Action

abbrev pub put_at : {A : Type 0} → ℕ → A → (ℕ → A) → ℕ → A
put_at k a f n = if n == k then a else f n

-- The row, if it is the only one.
abbrev pub only : List BillingAccount → Option BillingAccount
only (a ∷ []) = some a
only _ = none

abbrev pub waits : Pending → ℕ → Shared → Shared
waits todo session s = record s { pending = put_at session (some todo) s.pending }

abbrev pub locks : ℕ → ℕ → Shared → Shared
locks id session s = record s { holder = put_at id (some session) s.holder }

abbrev pub ends : ℕ → Shared → Shared
ends session s = record s { pending = put_at session none s.pending }

abbrev pub unlocks : ℕ → Shared → Shared
unlocks id s = record s { holder = put_at id none s.holder }

abbrev pub writes : Db → Shared → Shared
writes db s = record s { db = db }

abbrev pub if_free : Option ℕ → Shared → Option Shared
if_free none s = some s
if_free (some session) s = none

abbrev pub if_idle : Option Pending → Option Shared → Option Shared
if_idle none s = s
if_idle (some todo) s = none

abbrev pub lock_row : ℕ → ℕ → Option BillingAccount → Shared → Option Shared
lock_row session cost none s = none
lock_row session cost (some a) s =
    if_free (s.holder a.id) (waits (charging a cost) session (locks a.id session s))

abbrev pub read_row : ℕ → ℕ → Option BillingAccount → Shared → Option Shared
read_row session amount none s = none
read_row session amount (some a) s = some (waits (depositing a amount) session s)

-- A commit, or a rollback where the numbers do not fit their columns.
abbrev pub write_charge : ℕ → Option Pending → Shared → Option Shared
write_charge session (some (charging a cost)) s = some (
    ends session (
      unlocks a.id
        (writes (if charge_fits (some a) cost then charge (some a) cost s.db else s.db) s)))
write_charge session _ s = none

abbrev pub deposited : BillingAccount → ℕ → Db → Db
deposited a amount db =
    if fits_numeric (pos amount) && fits_numeric (a.balance +ℤ pos amount)
    then post a.id (a.balance +ℤ pos amount) (deposit_tx a (pos amount)) db
    else db

abbrev pub write_deposit : ℕ → Option Pending → Shared → Option Shared
write_deposit session (some (depositing a amount)) s =
    if_free (s.holder a.id) (ends session (writes (deposited a amount s.db) s))
write_deposit session _ s = none

-- `none` where the action is not the session's next one, or has to wait.
unfoldable pub step : Action → Shared → Option Shared
step (select_charge session organization_id cost) s = if_idle (s.pending session) (
    lock_row session cost (only (select (λ a. a.organization_id == organization_id) s.db.accounts))
      s)
step (commit_charge session) s = write_charge session (s.pending session) s
step (select_deposit session user_id amount) s =
    if_idle (s.pending session) (read_row session amount (only (billing_of user_id s.db)) s)
step (commit_deposit session) s = write_deposit session (s.pending session) s

abbrev pub and_then : Option Shared → (Shared → Option Shared) → Option Shared
and_then none f = none
and_then (some s) f = f s

abbrev pub run : List Action → Shared → Option Shared
run [] s = some s
run (a ∷ rest) s = and_then (step a s) (run rest)
