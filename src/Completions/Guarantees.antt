-- ===== src/Completions/Guarantees.antt =====
-- What a completion writes and charges.
use cortex_cloud_api.Prelude.{
  ℕ, ◌-◌, ◌≡◌, ◌≢◌, refl, ◌∙◌, ◌⊎◌, inl, inr, String, Bool, true, false, some, arith, ◌==◌,
  Bool-cases,
}
use cortex_cloud_api.Prelude.Int.{pos}
use cortex_cloud_api.Effects.{
  Detail, wrapped, Exn, http, other, Result, ok, raised, Exec, pure, raise, lift, ◌>>=◌,
}
use cortex_cloud_api.Effects.After.{After, bind-After, catch-After, After-weaken}
use cortex_cloud_api.Database.{ModelRegistry, UsageLog, Db, World}
use cortex_cloud_api.Database.Rules.{Unchanged}
use cortex_cloud_api.Schemas.{ChatCompletionRequest, ChatCompletionResponse}
use cortex_cloud_api.Tokenizer.{Tiktoken, count_messages_tokens}
use cortex_cloud_api.Routing.{Provider, ProviderContext, ProviderKeys, Answer}
use cortex_cloud_api.Routing.Routes.{route_chat_completion}
use cortex_cloud_api.Routing.Bounds.{route_chat_completion-Costs}
use cortex_cloud_api.Usage.{Usage, record_usage}
use cortex_cloud_api.Usage.Charging.{Recorded, record_usage-After}
use cortex_cloud_api.Usage.Guarantees.{record_usage_unsuccessful, SameMoney}
use cortex_cloud_api.Completions.{
  Call, usage_of, log_failure, on_failure, completion_usage, bill_completion, chat_completions,
}

-- What holds of the state holds however a call ended, and its value is known.
ran-After :
    {A S : Type 0} (P : S → Type 0) (r : Result A × S)
    → P r.1
    → After (λ a s. P s × (r ≡ (ok a, s))) (λ e s. P s) r
ran-After P (ok a, s) h = (h, refl)
ran-After P (raised e, s) h = h

state-After :
    {A S : Type 0} (P : S → Type 0) (r : Result A × S) → P r.1 → After (λ a s. P s) (λ e s. P s) r
state-After P (ok a, s) h = h
state-After P (raised e, s) h = h

-- An exception that would be answered with status 200.
abbrev pub is_status_200 : Exn → Bool
is_status_200 (http status_code detail) = status_code == 200
is_status_200 (other detail) = false

SameMoney-trans : (a b c : Db) → SameMoney a b → SameMoney b c → SameMoney a c
SameMoney-trans a b c (h, k) (p, q) = (p ∙ h, q ∙ k)

-- After a failure the money is as before, unless the error has status 200.
abbrev pub FailedSafely : Db → Exn → World → Type 0
FailedSafely db e v = (is_status_200 e ≡ true) ⊎ SameMoney db v.db

SameMoney-of : (db : Db) (w v : World) → v.db ≡ w.db → SameMoney db w.db → SameMoney db v.db
SameMoney-of db w v e h = rw e h

module _ (call : Call) (model text : String) (code : ℕ) (detail : Detail) (db : Db) where
  abbrev logged : Result ℕ → Exec World UsageLog
  logged n = log_failure call model text (lift n) code detail

  logged-SameMoney :
      (n : Result ℕ) (w : World) → code ≢ 200 → SameMoney db w.db → SameMoney db (logged n w).1.db
  logged-SameMoney (raised e) w h k = k
  logged-SameMoney (ok m) w h k =
      SameMoney-trans db w.db (record_usage u w).1.db k (record_usage_unsuccessful u w h)
    where
      u : Usage
      u = usage_of call model (pos m) (pos 0) (w.clock - call.start_time) code (some detail)

  abbrev Logged : UsageLog → World → Type 0
  Logged log v = ((code == 200) ≡ true) ⊎ SameMoney db v.db

  logged_200 :
      (n : Result ℕ) (w : World)
      → (code == 200) ≡ true
      → SameMoney db w.db
      → After Logged (λ e v. SameMoney db v.db) (logged n w)
  logged_200 (raised e) w h k = k
  logged_200 (ok m) w h k =
      After-weaken (Recorded u w) Logged (Unchanged w) (λ e v. SameMoney db v.db) (record_usage u w)
        (record_usage-After u w) (λ log v r. inl h) (λ e v same. SameMoney-of db w v same k)
    where
      u : Usage
      u = usage_of call model (pos m) (pos 0) (w.clock - call.start_time) code (some detail)

  logged-After :
      (n : Result ℕ) (w : World)
      → SameMoney db w.db
      → After Logged (λ e v. SameMoney db v.db) (logged n w)
  logged-After n w k = elim (Bool-cases (code == 200)) [
    | inl same ↦ logged_200 n w same k
    | inr differs ↦
        After-weaken (λ log v. SameMoney db v.db) Logged (λ e v. SameMoney db v.db)
          (λ e v. SameMoney db v.db) (logged n w)
          (state-After (λ v. SameMoney db v.db) (logged n w)
            (logged-SameMoney n w (λ e. ground arith) k))
          (λ log v h. inr h) (λ e v h. h)
  ]

module _ (call : Call) (model text : String) (n : Result ℕ) (db : Db) {A : Type 0}
    (Q : A → World → Type 0) where
  pub on_failure-After :
      (e : Exn) (w : World)
      → SameMoney db w.db
      → After Q (FailedSafely db) (on_failure call model text (lift n) e w)
  on_failure-After (http code detail) w k =
      bind-After (Logged call model text code detail db) Q (FailedSafely db)
        (log_failure call model text (lift n) code detail) (λ log. raise (http code detail)) w
        (After-weaken (Logged call model text code detail db)
          (Logged call model text code detail db) (λ e v. SameMoney db v.db) (FailedSafely db)
          (log_failure call model text (lift n) code detail w)
          (logged-After call model text code detail db n w k) (λ log v h. h) (λ e v h. inr h))
        λ log v h. h
  on_failure-After (other detail) w k =
      bind-After (λ log v. SameMoney db v.db) Q (FailedSafely db)
        (log_failure call model text (lift n) 500 detail)
        (λ log. raise (http 502 (wrapped text detail))) w
        (After-weaken (λ log v. SameMoney db v.db) (λ log v. SameMoney db v.db)
          (λ e v. SameMoney db v.db) (FailedSafely db)
          (log_failure call model text (lift n) 500 detail w)
          (state-After (λ v. SameMoney db v.db) (log_failure call model text (lift n) 500 detail w)
            (logged-SameMoney call model text 500 detail db n w (λ e. omega (arith, e)) k))
          (λ log v h. h) (λ e v h. inr h))
        λ log v h. inr h

module _ (tiktoken : Tiktoken) (keys : ProviderKeys)
    (answer : ℕ
      → Provider
      → ProviderContext
      → ChatCompletionRequest
      → Answer ChatCompletionResponse)
    (call : Call) (request : ChatCompletionRequest) (w : World) where
  -- A completion that returned: a model answered, the answer goes out under the name that was asked
  -- for, and the model's use was recorded.
  pub record IsServed (response : ChatCompletionResponse) (v : World) : Type 0 where
    pub answered : ChatCompletionResponse
    pub latency_ms : ℕ
    pub routed : ModelRegistry
    pub log : UsageLog
    pub between : World
    pub routing :
        route_chat_completion keys answer request.model request call.correlation_id w
        ≡ (ok ((answered, latency_ms), routed), between)
    pub untouched : between.db ≡ w.db
    pub response_same : response ≡ record answered { model = request.model }
    pub recorded :
        Recorded
          (completion_usage tiktoken keys answer call request answered latency_ms routed)
          between
          log
          v

  abbrev route : Exec World ((ChatCompletionResponse × ℕ) × ModelRegistry)
  route = route_chat_completion keys answer request.model request call.correlation_id

  bill-After :
      (a : (ChatCompletionResponse × ℕ) × ModelRegistry) (t : World)
      → t.db ≡ w.db
      → route w ≡ (ok a, t)
      → After IsServed
          (λ e v. SameMoney w.db v.db)
          (bill_completion tiktoken keys answer call request a t)
  bill-After ((answered, latency_ms), routed) t same ran =
      bind-After (Recorded u t) IsServed (λ e v. SameMoney w.db v.db) (record_usage u)
        (λ log. pure (record answered { model = request.model })) t
        (After-weaken (Recorded u t) (Recorded u t) (Unchanged t) (λ e v. SameMoney w.db v.db)
          (record_usage u t) (record_usage-After u t) (λ log v r. r)
          (λ e v h. SameMoney-of w.db t v h (SameMoney-of w.db w t same (refl, refl))))
        λ log v r. record {
          answered = answered;
          latency_ms = latency_ms;
          routed = routed;
          log = log;
          between = t;
          routing = ran;
          untouched = same;
          response_same = refl;
          recorded = r;
        }
    where
      u : Usage
      u = completion_usage tiktoken keys answer call request answered latency_ms routed

  -- A completion either returns a model's answer, under the name that the client asked for, and the
  -- model's use is recorded and charged; or it raises, and no money has moved, unless the error has
  -- status 200.
  pub chat_completions-After :
      After IsServed (FailedSafely w.db) (chat_completions tiktoken keys answer call request w)
  unfolding chat_completions
  chat_completions-After =
      catch-After IsServed (λ e v. SameMoney w.db v.db) (FailedSafely w.db)
        (route >>= bill_completion tiktoken keys answer call request)
        (on_failure call request.model "CortexCloud router error: "
          (lift (count_messages_tokens tiktoken request.messages request.model)))
        w
        (bind-After (λ a t. (t.db ≡ w.db) × (route w ≡ (ok a, t))) IsServed
          (λ e v. SameMoney w.db v.db) route (bill_completion tiktoken keys answer call request) w
          (After-weaken (λ a t. (t.db ≡ w.db) × (route w ≡ (ok a, t)))
            (λ a t. (t.db ≡ w.db) × (route w ≡ (ok a, t))) (λ e v. v.db ≡ w.db)
            (λ e v. SameMoney w.db v.db) (route w)
            (ran-After (λ v. v.db ≡ w.db) (route w)
              (route_chat_completion-Costs keys answer request.model request call.correlation_id
                w).db_same)
            (λ a t h. h) (λ e t h. SameMoney-of w.db w t h (refl, refl)))
          λ a t h. bill-After a t h.0 h.1)
        λ e t h.
          on_failure-After call request.model "CortexCloud router error: "
            (count_messages_tokens tiktoken request.messages request.model) w.db IsServed e t h
