-- ===== src/Dashboard/Money.antt =====
-- The ledger stays balanced when users register and pay in.
use cortex_cloud_api.Prelude.{
  str_eq, ℕ, ◌+◌, ◌<◌, ◌≤◌, ◌≡◌, refl, ap, ◌∙◌, sym, String, Option, none, some, List, [], ◌∷◌,
  ◌++◌, arith, ==_refl, select, All, All-append, if◌then◌else◌,
}
use cortex_cloud_api.Prelude.Int.{pos, ◌+ℤ◌}
use cortex_cloud_api.Effects.{Exec, pure, raise_if, ◌>>=◌, ◌>>◌, gets, http, message}
use cortex_cloud_api.Effects.After.{After, bind-After, After-state, After-weaken}
use cortex_cloud_api.Database.{User, BillingAccount, BillingTransaction, Db, World}
use cortex_cloud_api.Database.Query.{execute, scalar_one_or_none, update}
use cortex_cloud_api.Database.Rules.{Unchanged, IsOnly, execute-After, scalar-After}
use cortex_cloud_api.Security.{Crypto, get_password_hash}
use cortex_cloud_api.Usage.Ledger.{total, Matches, IsBalanced}
use cortex_cloud_api.Dashboard.Accounts.{
  register, add_registration, new_user, new_account, seed_tx, signup_bonus, email_taken,
}

-- A balanced ledger, in which no transaction is booked on an id that is not handed out yet.
pub record IsLedger (db : Db) : Type 0 where
  pub balanced : IsBalanced db
  pub booked : All (λ t. t.billing_account_id < db.next_id) db.transactions
  pub opened : All (λ a. a.id < db.next_id) db.accounts

total_fresh :
    (id : ℕ) (ts : List BillingTransaction)
    → All (λ t. t.billing_account_id < id) ts
    → total id ts ≡ pos 0
total_fresh id [] h = refl
total_fresh id (t ∷ ts) (h, hs) = ground (arith, total_fresh id ts hs)

bonus_alone : signup_bonus +ℤ pos 0 ≡ signup_bonus
unfolding ◌+ℤ◌
bonus_alone = refl

total_seed :
    (id : ℕ) (ts : List BillingTransaction) (n : ℕ)
    → All (λ t. t.billing_account_id < n) ts
    → n ≤ id
    → total id (ts ++ seed_tx id ∷ []) ≡ signup_bonus
total_seed id [] n h k =
    ap (λ b. if b then signup_bonus +ℤ pos 0 else pos 0) (==_refl id) ∙ bonus_alone
total_seed id (t ∷ ts) n (h, hs) k = ground (arith, total_seed id ts n hs k)

total_other :
    (id new : ℕ) (ts : List BillingTransaction)
    → id < new
    → total id (ts ++ seed_tx new ∷ []) ≡ total id ts
total_other id new [] h = ground arith
total_other id new (t ∷ ts) h = ground (arith, total_other id new ts h)

pub weaken :
    {A : Type 0} (f : A → ℕ) (m n : ℕ) (xs : List A)
    → m ≤ n
    → All (λ x. f x < m) xs
    → All (λ x. f x < n) xs
weaken f m n [] h k = tt
weaken f m n (x ∷ xs) h (k, ks) = (omega (arith, h, k), weaken f m n xs h ks)

Matches-seed :
    (new : ℕ) (ts : List BillingTransaction) (accounts : List BillingAccount) (n : ℕ)
    → n ≤ new
    → All (λ a. a.id < n) accounts
    → All (Matches ts) accounts
    → All (Matches (ts ++ seed_tx new ∷ [])) accounts
Matches-seed new ts [] n h o m = tt
Matches-seed new ts (a ∷ rest) n h (o, os) (m, ms) =
    (m ∙ sym (total_other a.id new ts (omega (arith, o, h))), Matches-seed new ts rest n h os ms)

pub add_registration-IsLedger :
    (email hashed : String) (db : Db) → IsLedger db → IsLedger (add_registration email hashed db)
add_registration-IsLedger email hashed db h = record {
  balanced =
      All-append (Matches (db.transactions ++ seed_tx new ∷ [])) db.accounts
        (new_account new (db.next_id + 1) ∷ [])
        (Matches-seed new db.transactions db.accounts db.next_id (omega arith) h.opened h.balanced)
        (sym (total_seed new db.transactions db.next_id h.booked (omega arith)), tt);
  booked =
      All-append (λ t. t.billing_account_id < db.next_id + 3) db.transactions (seed_tx new ∷ [])
        (weaken (λ (t : BillingTransaction). t.billing_account_id) db.next_id (db.next_id + 3)
          db.transactions (omega arith) h.booked)
        (omega arith, tt);
  opened =
      All-append (λ a. a.id < db.next_id + 3) db.accounts (new_account new (db.next_id + 1) ∷ [])
        (weaken (λ (a : BillingAccount). a.id) db.next_id (db.next_id + 3) db.accounts (omega arith)
          h.opened)
        (omega arith, tt);
}
  where
    new : ℕ
    new = db.next_id + 2

module _ (c : Crypto) (email password : String) (salt : ℕ) (w : World) where
  abbrev pub hashed : String
  hashed = get_password_hash c password salt

  abbrev pub named : Db → List User
  named db = select (λ u. str_eq u.email email) db.users

  -- What a registration does: the rows of one new user, whose email no other has.
  abbrev pub Registered : User → World → Type 0
  Registered user v = (named w.db ≡ []) × (v.db ≡ add_registration email hashed w.db)

  abbrev rest : Option User → Exec World User
  rest found = do
    raise_if (email_taken found) (http 400 (message "Email already registered."))
    id ← gets (λ w. w.db.next_id)
    update (add_registration email hashed)
    pure (new_user id email hashed)

  rest-After :
      (found : Option User)
      → IsOnly (named w.db) found
      → After Registered (Unchanged w) (rest found w)
  rest-After none e = (e, refl)
  rest-After (some user) e = refl

  pub register-After : After Registered (Unchanged w) (register c email password salt w)
  unfolding register
  register-After =
      bind-After (λ rows v. (v ≡ w) × (rows ≡ named w.db)) Registered (Unchanged w) (execute named)
        (λ users. scalar_one_or_none users >>= rest) w (execute-After named w)
        λ rows v h.
          rw (h.0, h.1)
            (bind-After (λ o u. (u ≡ w) × IsOnly (named w.db) o) Registered (Unchanged w)
              (scalar_one_or_none (named w.db)) rest w (scalar-After (named w.db) w)
              λ o u k. rw k.0 (rest-After o k.1))

  -- A registration keeps the ledger balanced, its ids fresh, however it ends.
  pub register-IsLedger : IsLedger w.db → IsLedger (register c email password salt w).1.db
  register-IsLedger h =
      After-state (λ v. IsLedger v.db) (register c email password salt w)
        (After-weaken Registered (λ user v. IsLedger v.db) (Unchanged w) (λ e v. IsLedger v.db)
          (register c email password salt w) register-After
          (λ user v r. rw r.1 (add_registration-IsLedger email hashed w.db h))
          (λ e v same. rw same h))
