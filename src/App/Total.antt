-- ===== src/App/Total.antt =====
-- app/main.py: every request gets a response.
use cortex_cloud_api.Prelude.{
  ◌≡◌, ap, ◌∙◌, inl, inr, String, Bool, true, false, List, Bool-cases, Option-cases,
}
use cortex_cloud_api.Prelude.Text.{codes, concat, starts_with}
use cortex_cloud_api.Effects.{Result, ok}
use cortex_cloud_api.Edge.{Request, Response, Edge, Handler, client_host}
use cortex_cloud_api.Middleware.{trace, app}
use cortex_cloud_api.Middleware.Order.{
  going_on, trace_lem, limited_run, unlimited_run, forward_run, settled_with,
}
use cortex_cloud_api.RateLimit.{Luck, is_rate_limited, x402_rate_limit, limit_response}
use cortex_cloud_api.RateLimit.FailOpen.{is_rate_limited_lem}
use cortex_cloud_api.X402.{Outside, dispatch}
use cortex_cloud_api.X402.Challenge.{X402Settings, price_of}
use cortex_cloud_api.X402.Outcomes.{dispatch-Outcome, dispatch_free}
use cortex_cloud_api.App.{Operation, Route, is_active, router, gateway}

abbrev pub IsAnswered : Result Response × Edge → Type 0
IsAnswered res = (response : Response) × (res.0 ≡ ok response)

abbrev Answers : Handler → Type 0
Answers h = (request : Request) (s : Edge) → IsAnswered (h request s)

trace-Answers : (uuid4 : Edge → String) (inner : String → Handler) → Answers (trace uuid4 inner)
trace-Answers uuid4 inner request s = elim (trace_lem uuid4 inner request s) [
  | inl (response, e, here) ↦ (_, here)
  | inr (exc, e, here) ↦ (_, here)
]

limited_or_not :
    (luck : Luck) (key : String) (t : Edge)
    → (b : Bool) × ((is_rate_limited luck key 60 60 t).0 ≡ ok b)
limited_or_not luck key t = elim (is_rate_limited_lem luck key 60 60 t) [
  | inl (down, here, same) ↦ (false, here)
  | inr (up, here, same) ↦ (_, here)
]

limit-Answers :
    (luck : Luck) (inner : Handler) → Answers inner → Answers (x402_rate_limit luck inner)
unfolding x402_rate_limit
limit-Answers luck inner answers request s =
    elim (Bool-cases (starts_with (codes request.path) (codes "/x402/v1"))) [
      | inl x402 ↦
          by_limit x402 (limited_or_not luck (concat "ratelimit:x402:ip:" (client_host request)) s)
      | inr other ↦ rw other (answers request s)
    ]
  where
    by_limit :
        starts_with (codes request.path) (codes "/x402/v1") ≡ true
        → (b : Bool) × ((is_rate_limited luck
              (concat "ratelimit:x402:ip:" (client_host request))
              60
              60
              s).0
            ≡ ok b)
        → IsAnswered (x402_rate_limit luck inner request s)
    by_limit x402 (true, e) = (limit_response, limited_run luck inner request s x402 e)
    by_limit x402 (false, e) =
        let v =
          (is_rate_limited luck (concat "ratelimit:x402:ip:" (client_host request)) 60 60 s).1 in
        let (response, here) = answers request v in
        (response, unlimited_run luck inner request s x402 e ∙ here)

module _ (settings : X402Settings) (out : Outside) (inner : Handler) (answers : Answers inner) where
  dispatch-Answers : Answers (dispatch settings out inner)
  dispatch-Answers request s = elim (Option-cases (price_of settings request)) [
    | inl free ↦
        let (response, here) = answers request (going_on request s) in
        (
          response,
          ap (λ (r : Result Response × Edge). r.0) (dispatch_free settings out inner request s free)
              ∙ here,
        )
    | inr (price, asked) ↦ elim (dispatch-Outcome settings out inner request price s asked) [
      | inl away ↦ (away.response, away.answered)
      | inr paid ↦
          let (response, here) = answers request (going_on request _) in
          (
            settled_with paid.settle_data response,
            ap (λ (r : Result Response × Edge). r.0) paid.ran
                ∙ forward_run settings out inner request paid.settle_data _ response here,
          )
    ]
  ]

-- Whatever the operations, CORS, Redis and the facilitator do, exceptions included, every request gets a
-- response.
pub gateway-IsAnswered :
    (operations : Operation → String → Handler) (cors : Handler → Handler) (table : List Route)
    (uuid4 : Edge → String) (settings : X402Settings) (out : Outside) (luck : Luck)
    (request : Request) (s : Edge)
    → IsAnswered (gateway operations cors table uuid4 settings out luck request s)
unfolding gateway app
gateway-IsAnswered operations cors table uuid4 settings out luck request s =
    let traced = trace-Answers uuid4 (λ id. cors (router operations cors table id)) in
    elim (Bool-cases (is_active settings)) [
      | inl on ↦ rw on (dispatch-Answers settings out _ (limit-Answers luck _ traced) request s)
      | inr off ↦ rw off (traced request s)
    ]
