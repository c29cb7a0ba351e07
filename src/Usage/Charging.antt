-- ===== src/Usage/Charging.antt =====
-- What `record_usage` does to the database.
use cortex_cloud_api.Prelude.{
  ℕ, ◌<◌, ◌≡◌, ◌≢◌, ◌⊎◌, refl, Bool, true, false, ◌&&◌, List, [], ◌∷◌, arith, ◌==◌, select, any,
  Option, none, some, Bool-cases, Option-cases, ap, inl, inr, ltb,
}
use cortex_cloud_api.Effects.{ok}
use cortex_cloud_api.Effects.After.{After, bind-After, After-weaken, reads-After}
use cortex_cloud_api.Database.{ModelRegistry, BillingAccount, UsageLog, Db, World}
use cortex_cloud_api.Database.Query.{execute, scalar_one_or_none}
use cortex_cloud_api.Database.Rules.{Unchanged, IsOnly, execute-After, scalar-After}
use cortex_cloud_api.Registry.{get_model_by_name}
use cortex_cloud_api.Registry.Laws.{get_model_by_name_reads}
use cortex_cloud_api.Usage.Uuid.{uuid_of}
use cortex_cloud_api.Usage.{
  Usage, record_usage, account_to_charge, commit_usage, record_with, record_at, flush_usage,
  usage_log, charge, add_log, numeric_limit, charge_fits,
}

-- The account that a usage charges: that of the organization, if the cost is positive and the status
-- is 200, and none otherwise.
abbrev pub Chosen : Usage → ℕ → Db → Option BillingAccount → Type 0
Chosen u cost db (some a) =
    (0 < cost)
    × (u.status_code ≡ 200)
    × (select (λ b. b.organization_id == u.organization_id) db.accounts ≡ a ∷ [])
Chosen u cost db none =
    (cost ≡ 0)
    ⊎ (u.status_code ≢ 200)
    ⊎ (select (λ b. b.organization_id == u.organization_id) db.accounts ≡ [])

-- What a successful `record_usage` has done.
pub record Recorded (u : Usage) (w : World) (log : UsageLog) (v : World) : Type 0 where
  pub model : Option ModelRegistry
  pub id : ℕ
  pub account : Option BillingAccount
  pub found : (get_model_by_name u.model_name w).0 ≡ ok model
  pub uuid : uuid_of u.correlation_id ≡ some id
  pub fresh : any (λ l. l.correlation_id == id) w.db.usage_logs ≡ false
  pub chosen : Chosen u log.cost w.db account
  pub log_same : log ≡ usage_log u model id w.clock
  pub world_same : v ≡ record w { db = charge account log.cost (add_log log w.db) }

abbrev charged_accounts : Usage → Db → List BillingAccount
charged_accounts u db = select (λ b. b.organization_id == u.organization_id) db.accounts

Chosen-IsOnly :
    (u : Usage) (cost : ℕ) (db : Db) (account : Option BillingAccount)
    → 0 < cost
    → u.status_code ≡ 200
    → IsOnly (charged_accounts u db) account
    → Chosen u cost db account
Chosen-IsOnly u cost db none p q e = inr (inr e)
Chosen-IsOnly u cost db (some a) p q e = (p, q, e)

only_row_After :
    (u : Usage) (cost : ℕ) (w : World)
    → 0 < cost
    → u.status_code ≡ 200
    → After
        (λ account v. (v ≡ w) × Chosen u cost w.db account)
        (Unchanged w)
        (scalar_one_or_none (charged_accounts u w.db) w)
only_row_After u cost w p q =
    After-weaken (λ account v. (v ≡ w) × IsOnly (charged_accounts u w.db) account)
      (λ account v. (v ≡ w) × Chosen u cost w.db account) (Unchanged w) (Unchanged w)
      (scalar_one_or_none (charged_accounts u w.db) w) (scalar-After (charged_accounts u w.db) w)
      (λ account v h. (h.0, Chosen-IsOnly u cost w.db account p q h.1)) (λ e v h. h)

unchargeable :
    (u : Usage) (cost : ℕ) (db : Db)
    → (ltb 0 cost && (u.status_code == 200)) ≡ false
    → Chosen u cost db none
unchargeable u cost db h = elim (Bool-cases (ltb 0 cost)) [
  | inl p ↦ inr (inl (λ q. ground arith))
  | inr z ↦ inl (ground arith)
]

account_to_charge-After :
    (u : Usage) (cost : ℕ) (w : World)
    → After
        (λ account v. (v ≡ w) × Chosen u cost w.db account)
        (Unchanged w)
        (account_to_charge u cost w)
unfolding account_to_charge
account_to_charge-After u cost w = elim (Bool-cases (ltb 0 cost && (u.status_code == 200))) [
  | inl go ↦ rw go (
      bind-After (λ rows v. (v ≡ w) × (rows ≡ charged_accounts u w.db))
        (λ account v. (v ≡ w) × Chosen u cost w.db account) (Unchanged w)
        (execute (charged_accounts u)) scalar_one_or_none w (execute-After (charged_accounts u) w)
        λ rows v h. rw (h.0, h.1) (only_row_After u cost w (ground arith) (ground arith)))
  | inr stop ↦ rw stop (refl, unchargeable u cost w.db stop)
]

abbrev IsFresh : UsageLog → Db → Bool → Type 0
IsFresh log db taken = any (λ l. l.correlation_id == log.correlation_id) db.usage_logs ≡ taken

abbrev Committed : UsageLog → Option BillingAccount → World → UsageLog → World → Type 0
Committed log account w r v =
    (r ≡ log)
    × IsFresh log w.db false
    × (v ≡ record w { db = charge account log.cost (add_log log w.db) })

flush_usage-After :
    (log : UsageLog) (account : Option BillingAccount) (w : World) (taken : Bool)
    → IsFresh log w.db taken
    → After (Committed log account w) (Unchanged w) (flush_usage log account taken w)
flush_usage-After log account w true f = refl
flush_usage-After log account w false f =
    elim (Bool-cases (ltb log.cost numeric_limit && charge_fits account log.cost)) [
      | inl fits ↦ rw fits (refl, f, refl)
      | inr wide ↦ rw wide refl
    ]

-- The commit writes the log and the charge, or raises and writes nothing.
commit_usage-After :
    (log : UsageLog) (account : Option BillingAccount) (w : World)
    → After (Committed log account w) (Unchanged w) (commit_usage log account w)
unfolding commit_usage
commit_usage-After log account w =
    bind-After (λ taken v. (v ≡ w) × (taken ≡ known w.db)) (Committed log account w) (Unchanged w)
      (execute known) (flush_usage log account) w (execute-After known w)
      λ taken v h. rw (h.0, h.1) (flush_usage-After log account w (known w.db) refl)
  where
    known : Db → Bool
    known db = any (λ l. l.correlation_id == log.correlation_id) db.usage_logs

module _ (u : Usage) (w : World) (model : Option ModelRegistry)
    (found : (get_model_by_name u.model_name w).0 ≡ ok model) where
  recorded :
      (id : ℕ) (account : Option BillingAccount) (r : UsageLog) (v : World)
      → uuid_of u.correlation_id ≡ some id
      → Chosen u (usage_log u model id w.clock).cost w.db account
      → Committed (usage_log u model id w.clock) account w r v
      → Recorded u w r v
  recorded id account r v e chosen (same, fresh, world) = rw same (record {
    model = model;
    id = id;
    account = account;
    found = found;
    uuid = e;
    fresh = fresh;
    chosen = chosen;
    log_same = refl;
    world_same = world;
  })

  record_at-After :
      (id : ℕ)
      → uuid_of u.correlation_id ≡ some id
      → After (Recorded u w) (Unchanged w) (record_at u model id w)
  record_at-After id e =
      bind-After (λ account v. (v ≡ w) × Chosen u log.cost w.db account) (Recorded u w)
        (Unchanged w) (account_to_charge u log.cost) (commit_usage log) w
        (account_to_charge-After u log.cost w)
        λ account v h. rw h.0 (
          After-weaken (Committed log account w) (Recorded u w) (Unchanged w) (Unchanged w)
            (commit_usage log account w) (commit_usage-After log account w)
            (λ r t c. recorded id account r t e h.1 c) (λ x t k. k))
    where
      log : UsageLog
      log = usage_log u model id w.clock

  record_with-After : After (Recorded u w) (Unchanged w) (record_with u model w)
  record_with-After = elim (Option-cases (uuid_of u.correlation_id)) [
    | inl bad ↦ rw bad refl
    | inr (id, e) ↦ rw e (record_at-After id e)
  ]

-- `record_usage` either returns, and has added one log of the request and the charge of at most one
-- account; or it raises, and the database is as it was.
pub record_usage-After :
    (u : Usage) (w : World) → After (Recorded u w) (Unchanged w) (record_usage u w)
unfolding record_usage
record_usage-After u w =
    bind-After (λ model v. (v ≡ w) × ((get_model_by_name u.model_name w).0 ≡ ok model))
      (Recorded u w) (Unchanged w) (get_model_by_name u.model_name) (record_with u) w
      (reads-After (Unchanged w) w (get_model_by_name u.model_name w)
        (get_model_by_name_reads u.model_name w) (λ e t h. ap (λ (x : World). x.db) h))
      λ model v h. rw h.0 (record_with-After u w model h.1)
