-- ===== src/Dashboard/Reports.antt =====
-- app/api/dashboard/routes.py: what a user reads: transactions, analytics, the history of requests
-- and the models.
use cortex_cloud_api.Prelude.{
  ℕ, suc, ◌+◌, String, str_eq, Option, none, some, List, [], ◌∷◌, select, ◌==◌, if◌then◌else◌, ◌≡◌,
  refl, concat_map, map, take, arith,
}
use cortex_cloud_api.Prelude.Int.{ℤ, pos, ◌+ℤ◌}
use cortex_cloud_api.Effects.{Exec, pure, ◌>>=◌}
use cortex_cloud_api.Database.{ModelRegistry, BillingTransaction, UsageLog, Organization, World}
use cortex_cloud_api.Database.Query.{execute, scalar_one_or_none}
use cortex_cloud_api.Registry.{get_active_models}
use cortex_cloud_api.Dashboard.{organizations_of, billing_of, joined, newest_first}

unfoldable pub get_transactions : ℕ → Exec World (List BillingTransaction)
get_transactions user_id = execute λ db. newest_first (
    concat_map
      (λ t. map (λ a. t) (select (λ a. a.id == t.billing_account_id) (billing_of user_id db)))
      db.transactions)

-- The sums over some logs. The average latency is `latency_ms / requests`, 0 for no requests.
pub record Metrics : Type 0 where
  pub prompt : ℤ
  pub completion : ℤ
  pub tokens : ℤ
  pub cost : ℕ
  pub requests : ℕ
  pub latency_ms : ℕ

abbrev pub no_metrics : Metrics
no_metrics = record {
  prompt = pos 0;
  completion = pos 0;
  tokens = pos 0;
  cost = 0;
  requests = 0;
  latency_ms = 0;
}

abbrev pub add_metrics : UsageLog → Metrics → Metrics
add_metrics log m = record {
  prompt = log.prompt_tokens +ℤ m.prompt;
  completion = log.completion_tokens +ℤ m.completion;
  tokens = log.total_tokens +ℤ m.tokens;
  cost = log.cost + m.cost;
  requests = suc m.requests;
  latency_ms = log.latency_ms + m.latency_ms;
}

abbrev pub metrics_of : List UsageLog → Metrics
metrics_of [] = no_metrics
metrics_of (log ∷ logs) = add_metrics log (metrics_of logs)

-- `.group_by(UsageLog.model)`: one entry for each model.
abbrev pub add_to_group : UsageLog → List (String × Metrics) → List (String × Metrics)
add_to_group log [] = (log.model, add_metrics log no_metrics) ∷ []
add_to_group log ((model, m) ∷ groups) =
    let later = (model, m) ∷ add_to_group log groups in
    if str_eq model log.model then (model, add_metrics log m) ∷ groups else later

abbrev pub by_model : List UsageLog → List (String × Metrics)
by_model [] = []
by_model (log ∷ logs) = add_to_group log (by_model logs)

pub record Analytics : Type 0 where
  pub summary : Metrics
  pub models : List (String × Metrics)

abbrev pub analytics_of : List UsageLog → Analytics
analytics_of logs = record { summary = metrics_of logs; models = by_model logs }

abbrev pub analytics_for : Option Organization → Exec World (Option Analytics)
analytics_for none = pure none
analytics_for (some org) = do
  logs ← execute (λ db. select (λ l. l.organization_id == org.id) db.usage_logs)
  pure (some (analytics_of logs))

-- `none` is the answer `{"error": "Organization not found."}`.
unfoldable pub get_analytics : ℕ → Exec World (Option Analytics)
get_analytics user_id = do
  organizations ← execute (organizations_of user_id)
  found ← scalar_one_or_none organizations
  analytics_for found

unfoldable pub get_request_history : ℕ → ℕ → Exec World (List UsageLog)
get_request_history limit user_id =
    execute
      λ db. take limit (newest_first (joined (λ l. l.organization_id) db.usage_logs user_id db))

unfoldable pub get_dashboard_models : Exec World (List ModelRegistry)
get_dashboard_models = get_active_models

-- The totals over the groups.
abbrev pub group_cost : List (String × Metrics) → ℕ
group_cost [] = 0
group_cost ((model, m) ∷ groups) = m.cost + group_cost groups

abbrev pub group_requests : List (String × Metrics) → ℕ
group_requests [] = 0
group_requests ((model, m) ∷ groups) = m.requests + group_requests groups

add_to_group-totals :
    (log : UsageLog) (groups : List (String × Metrics))
    → (group_cost (add_to_group log groups) ≡ log.cost + group_cost groups)
      × (group_requests (add_to_group log groups) ≡ 1 + group_requests groups)
add_to_group-totals log [] = (omega arith, omega arith)
add_to_group-totals log ((model, m) ∷ groups) = ground (arith, add_to_group-totals log groups)

-- The costs and the requests of the models in a user's analytics add up to those of the summary.
pub analytics_of-totals :
    (logs : List UsageLog)
    → (group_cost (analytics_of logs).models ≡ (analytics_of logs).summary.cost)
      × (group_requests (analytics_of logs).models ≡ (analytics_of logs).summary.requests)
analytics_of-totals [] = (refl, refl)
analytics_of-totals (log ∷ logs) =
    grind (arith, add_to_group-totals log (by_model logs), analytics_of-totals logs)
