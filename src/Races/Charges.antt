-- ===== src/Races/Charges.antt =====
-- app/services/usage.py: charges of several sessions, in any order of their steps.
use cortex_cloud_api.Prelude.{
  ℕ, ◌≡◌, refl, sym, ap, subst, ◌∙◌, inl, inr, Bool, true, false, Option, none, some, Option-cases,
  Bool-cases, List, [], ◌∷◌, select, All, All-select, arith, ◌==◌, ==_refl, if◌then◌else◌,
}
use cortex_cloud_api.Database.{BillingAccount, Db}
use cortex_cloud_api.Dashboard.{billing_of}
use cortex_cloud_api.Usage.{charge, charge_tx, charge_fits}
use cortex_cloud_api.Usage.Ledger.{IsBalanced, Matches, total, total-append, charge-IsBalanced}
use cortex_cloud_api.Races.{
  Pending, charging, depositing, Shared, Action, select_charge, commit_charge, select_deposit,
  commit_deposit, put_at, only, waits, locks, ends, unlocks, writes, if_free, if_idle, lock_row,
  read_row, write_charge, step, and_then, run,
}

-- No deposit commits.
abbrev pub CommitsNoDeposit : Action → Type 0
CommitsNoDeposit (commit_deposit session) = ⊥
CommitsNoDeposit _ = Unit

-- A session that is to charge holds the lock of the row that it read, and the row is up to date.
abbrev pub IsCurrent : Shared → ℕ → Option Pending → Type 0
IsCurrent s session (some (charging a cost)) =
    Matches s.db.transactions a × (s.holder a.id ≡ some session)
IsCurrent s session _ = Unit

pub record IsConsistent (s : Shared) : Type 0 where
  pub balanced : IsBalanced s.db
  pub current : (session : ℕ) → IsCurrent s session (s.pending session)

-- What may happen to a state, if the step is made.
abbrev Gives : (Shared → Type 0) → Option Shared → Type 0
Gives P none = Unit
Gives P (some s) = P s

only-All :
    (P : BillingAccount → Type 0) (rows : List BillingAccount) (a : BillingAccount)
    → All P rows
    → only rows ≡ some a
    → P a
only-All P [] a h e = cc
only-All P (b ∷ []) a (h, hs) e = let same : b ≡ a = cc in subst P same h
only-All P (b ∷ c ∷ rest) a h e = cc

-- What a session holds stays up to date where its rows keep their lock and their transactions.
IsCurrent-kept :
    (s v : Shared) (session : ℕ) (todo : Option Pending)
    → ((id : ℕ)
        → s.holder id ≡ some session
        → (v.holder id ≡ some session) × (total id v.db.transactions ≡ total id s.db.transactions))
    → IsCurrent s session todo
    → IsCurrent v session todo
IsCurrent-kept s v session none keep h = tt
IsCurrent-kept s v session (some (depositing a amount)) keep h = tt
IsCurrent-kept s v session (some (charging a cost)) keep (m, l) =
    let (held, same) = keep a.id l in (m ∙ sym same, held)

-- A session takes up `todo`, and maybe a lock that was free.
waits-IsConsistent :
    (s v : Shared) (session : ℕ) (todo : Pending)
    → IsConsistent s
    → v.db ≡ s.db
    → v.pending ≡ put_at session (some todo) s.pending
    → ((n id : ℕ) → s.holder id ≡ some n → v.holder id ≡ some n)
    → IsCurrent v session (some todo)
    → IsConsistent v
waits-IsConsistent s v session todo h db pending holder mine = record {
  balanced = subst IsBalanced (sym db) h.balanced;
  current = λ n. subst (λ (f : ℕ → Option Pending). IsCurrent v n (f n)) (sym pending) (each n);
}
  where
    each : (n : ℕ) → IsCurrent v n (put_at session (some todo) s.pending n)
    each n = elim (Bool-cases (n == session)) [
      | inl e ↦
          let same : n ≡ session = ground (arith, e) in
          rw e (subst (λ k. IsCurrent v k (some todo)) (sym same) mine)
      | inr e ↦ rw e (
          IsCurrent-kept s v n (s.pending n)
            (λ id held. (holder n id held, ap (λ d. total id d.transactions) db)) (h.current n))
    ]

lock_kept :
    (s : Shared) (session id n k : ℕ)
    → s.holder id ≡ none
    → s.holder k ≡ some n
    → put_at id (some session) s.holder k ≡ some n
lock_kept s session id n k free held = elim (Bool-cases (k == id)) [
  | inl e ↦
      let same : k ≡ id = ground (arith, e) in
      let wrong : none ≡ some n = sym free ∙ ap s.holder (sym same) ∙ held in cc
  | inr e ↦ rw e held
]

locked-IsConsistent :
    (session cost : ℕ) (a : BillingAccount) (s : Shared)
    → IsConsistent s
    → Matches s.db.transactions a
    → Gives IsConsistent
        (if_free (s.holder a.id) (waits (charging a cost) session (locks a.id session s)))
locked-IsConsistent session cost a s h m = elim (Option-cases (s.holder a.id)) [
  | inl free ↦ rw free (
      waits-IsConsistent s (waits (charging a cost) session (locks a.id session s)) session
        (charging a cost) h refl refl (λ n id held. lock_kept s session a.id n id free held)
        (m, rw (==_refl a.id) refl))
  | inr (other, taken) ↦ rw taken tt
]

lock_row-IsConsistent :
    (session cost : ℕ) (found : Option BillingAccount) (s : Shared)
    → IsConsistent s
    → ((a : BillingAccount) → found ≡ some a → Matches s.db.transactions a)
    → Gives IsConsistent (lock_row session cost found s)
lock_row-IsConsistent session cost none s h m = tt
lock_row-IsConsistent session cost (some a) s h m =
    locked-IsConsistent session cost a s h (m a refl)

read_row-IsConsistent :
    (session amount : ℕ) (found : Option BillingAccount) (s : Shared)
    → IsConsistent s
    → Gives IsConsistent (read_row session amount found s)
read_row-IsConsistent session amount none s h = tt
read_row-IsConsistent session amount (some a) s h =
    waits-IsConsistent s (waits (depositing a amount) session s) session (depositing a amount) h
      refl refl (λ n id held. held) tt

-- The charge of a session that holds the lock keeps the others' rows as they are.
charged_total :
    (a : BillingAccount) (cost id : ℕ) (db : Db) (fits : Bool)
    → (id == a.id) ≡ false
    → total id (if fits then charge (some a) cost db else db).transactions
      ≡ total id db.transactions
charged_total a cost id db true other =
    total-append id db.transactions (charge_tx a cost) ∙ ground (arith, other)
charged_total a cost id db false other = refl

charged-IsBalanced :
    (a : BillingAccount) (cost : ℕ) (db : Db) (fits : Bool)
    → Matches db.transactions a
    → IsBalanced db
    → IsBalanced (if fits then charge (some a) cost db else db)
charged-IsBalanced a cost db true m h = charge-IsBalanced (some a) cost db m h
charged-IsBalanced a cost db false m h = h

module _ (session cost : ℕ) (a : BillingAccount) (s : Shared) (h : IsConsistent s)
    (held : s.holder a.id ≡ some session) where
  abbrev after : Shared
  after = ends session (
      unlocks a.id
        (writes (if charge_fits (some a) cost then charge (some a) cost s.db else s.db) s))

  others_kept :
      (n id : ℕ)
      → (n == session) ≡ false
      → s.holder id ≡ some n
      → (after.holder id ≡ some n) × (total id after.db.transactions ≡ total id s.db.transactions)
  others_kept n id other k = elim (Bool-cases (id == a.id)) [
    | inl e ↦
        let same : id ≡ a.id = ground (arith, e) in
        let owner : some n ≡ some session = sym k ∙ ap s.holder same ∙ held in
        let wrong : n ≡ session = cc in absurd (ground (arith, other, wrong))
    | inr e ↦ (rw e k, charged_total a cost id s.db (charge_fits (some a) cost) e)
  ]

  after-IsConsistent : Matches s.db.transactions a → IsConsistent after
  after-IsConsistent m = record {
    balanced = charged-IsBalanced a cost s.db (charge_fits (some a) cost) m h.balanced;
    current = each;
  }
    where
      each : (n : ℕ) → IsCurrent after n (put_at session none s.pending n)
      each n = elim (Bool-cases (n == session)) [
        | inl e ↦ rw e tt
        | inr e ↦
            rw e
              (IsCurrent-kept s after n (s.pending n) (λ id k. others_kept n id e k) (h.current n))
      ]

write_charge-IsConsistent :
    (session : ℕ) (todo : Option Pending) (s : Shared)
    → IsConsistent s
    → IsCurrent s session todo
    → Gives IsConsistent (write_charge session todo s)
write_charge-IsConsistent session none s h mine = tt
write_charge-IsConsistent session (some (depositing a amount)) s h mine = tt
write_charge-IsConsistent session (some (charging a cost)) s h (m, held) =
    after-IsConsistent session cost a s h held m

idle_then :
    (P : Shared → Type 0) (todo : Option Pending) (o : Option Shared)
    → Gives P o
    → Gives P (if_idle todo o)
idle_then P none o h = h
idle_then P (some todo) o h = tt

step-IsConsistent :
    (action : Action) (s : Shared)
    → CommitsNoDeposit action
    → IsConsistent s
    → Gives IsConsistent (step action s)
unfolding step
step-IsConsistent (select_charge session org cost) s c h =
    idle_then IsConsistent (s.pending session) _ (
      lock_row-IsConsistent session cost
        (only (select (λ a. a.organization_id == org) s.db.accounts)) s h
        (λ a e.
          only-All (Matches s.db.transactions)
            (select (λ a. a.organization_id == org) s.db.accounts) a
            (All-select (Matches s.db.transactions) (λ a. a.organization_id == org) s.db.accounts
              h.balanced)
            e))
step-IsConsistent (commit_charge session) s c h =
    write_charge-IsConsistent session (s.pending session) s h (h.current session)
step-IsConsistent (select_deposit session user_id amount) s c h =
    idle_then IsConsistent (s.pending session) _
      (read_row-IsConsistent session amount (only (billing_of user_id s.db)) s h)
step-IsConsistent (commit_deposit session) s c h = elim c [ ]

next-IsConsistent :
    (o : Option Shared) (rest : Shared → Option Shared) (v : Shared)
    → Gives IsConsistent o
    → ((u : Shared) → IsConsistent u → rest u ≡ some v → IsConsistent v)
    → and_then o rest ≡ some v
    → IsConsistent v
next-IsConsistent none rest v g k e = cc
next-IsConsistent (some u) rest v g k e = k u g e

-- However the steps of any number of sessions interleave, charges keep every balance equal to the sum of
-- its account's transactions, and the row that a session has locked is the one that it has read, as
-- long as no deposit commits.
pub run-IsConsistent :
    (actions : List Action) (s v : Shared)
    → All CommitsNoDeposit actions
    → IsConsistent s
    → run actions s ≡ some v
    → IsConsistent v
run-IsConsistent [] s v c h e = let same : s ≡ v = cc in subst IsConsistent same h
run-IsConsistent (a ∷ rest) s v (c, cs) h e =
    next-IsConsistent (step a s) (run rest) v (step-IsConsistent a s c h)
      (λ u k r. run-IsConsistent rest u v cs k r) e
