-- ===== src/X402/Outcomes.antt =====
-- How the paywall ends.
use cortex_cloud_api.Prelude.{
  ℕ, ◌≤◌, ◌≡◌, refl, ap, ◌⊎◌, inl, inr, String, Bool, true, false, Option, none, some, List, [],
  ◌∷◌, ◌++◌, All, arith, Bool-cases, Option-cases, ◌==◌,
}
use cortex_cloud_api.Effects.{Result, ok, ◌>>=◌}
use cortex_cloud_api.Json.{Json}
use cortex_cloud_api.Edge.{
  Request, Response, Edge, Event, posted, forwarded, Endpoint, verify, settle, Handler,
}
use cortex_cloud_api.X402.Pricing.{usd_to_usdc_atomic}
use cortex_cloud_api.X402.{
  Reply, failed, replied, Outside, Verdict, refused, approved, judge_verify, judge_settle,
  headers_for, payment_header, forward, add_response, after_settle, after_verify, charge_payment,
  demand, dispatch, post_to, undecodable, judge, judge_data,
}
use cortex_cloud_api.X402.Challenge.{X402Settings, price_of, validation_body, challenge}

abbrev IsPost : Event → Type 0
IsPost (posted endpoint body headers) = Unit
IsPost (forwarded request) = ⊥

-- The request was answered by the paywall itself, with an error, after calls of the facilitator at
-- most.
pub record IsTurnedAway (s : Edge) (res : Result Response × Edge) : Type 0 where
  pub response : Response
  pub posts : List Event
  pub answered : res.0 ≡ ok response
  pub is_error : 400 ≤ response.status_code
  pub only_posts : All IsPost posts
  pub events_same : res.1.events ≡ s.events ++ posts
  pub world_same : res.1.world ≡ s.world
  pub redis_same : res.1.redis ≡ s.redis

-- A refusal carries an error.
abbrev IsSound : Verdict → Type 0
IsSound (refused response) = 400 ≤ response.status_code
IsSound (approved json) = Unit

judge_data-IsSound :
    (test : Option Bool) (json : Json) (b i : Response)
    → 400 ≤ b.status_code
    → 400 ≤ i.status_code
    → IsSound (judge_data test json b i)
judge_data-IsSound none json b i h k = h
judge_data-IsSound (some true) json b i h k = tt
judge_data-IsSound (some false) json b i h k = k

value-IsSound :
    (n t i : String) (test : Json → Option Bool) (text : String) (json : Option Json)
    → IsSound (judge n t i test (replied 200 text json))
value-IsSound n t i test text none = omega arith
value-IsSound n t i test text (some value) =
    judge_data-IsSound (test value) value _ _ (omega arith) (omega arith)

judge-IsSound :
    (n t i : String) (test : Json → Option Bool) (reply : Reply) → IsSound (judge n t i test reply)
judge-IsSound n t i test failed = omega arith
judge-IsSound n t i test (replied code text json) = elim (Bool-cases (code == 200)) [
  | inl fine ↦ rw fine (value-IsSound n t i test text json)
  | inr bad ↦ rw bad (omega arith)
]

judge_verify-IsSound : (reply : Reply) → IsSound (judge_verify reply)
unfolding judge_verify
judge_verify-IsSound reply = judge-IsSound _ _ _ _ reply

judge_settle-IsSound : (reply : Reply) → IsSound (judge_settle reply)
unfolding judge_settle
judge_settle-IsSound reply = judge-IsSound _ _ _ _ reply

module _ (settings : X402Settings) (out : Outside) (call_next : Handler) (request : Request) where
  -- The reply to a call in a state, and the state after it.
  abbrev pub reply_to : Endpoint → Json → Edge → Reply
  reply_to endpoint body s = out.post s.events endpoint body (headers_for settings out endpoint)

  abbrev pub posted_to : Endpoint → Json → Edge → Edge
  posted_to endpoint body s = (post_to settings out endpoint body s).1

  -- The handler ran after the payment of `amount`, which the request presents, was verified and
  -- then settled; and its response carries the settlement.
  pub record IsPaid (amount : ℕ) (s : Edge) (res : Result Response × Edge) : Type 0 where
    pub header : String
    pub payment : Json
    pub verify_data : Json
    pub settle_data : Json
    pub presented : payment_header settings out request ≡ some header
    pub decoded : out.decode_payment header ≡ some payment
    pub verified :
        judge_verify (reply_to verify (validation_body settings amount payment) s)
        ≡ approved verify_data
    pub settled :
        judge_settle (
          reply_to settle
            (validation_body settings amount payment)
            (posted_to verify (validation_body settings amount payment) s))
        ≡ approved settle_data
    pub ran :
        res
        ≡ (forward settings out call_next request
              >>= add_response settings out call_next request settle_data)
            (posted_to settle
              (validation_body settings amount payment)
              (posted_to verify (validation_body settings amount payment) s))

  abbrev pub Outcome : ℕ → Edge → Result Response × Edge → Type 0
  Outcome amount s res = IsTurnedAway s res ⊎ IsPaid amount s res

  answered_with :
      (response : Response) (posts : List Event) (s v : Edge)
      → 400 ≤ response.status_code
      → All IsPost posts
      → v.events ≡ s.events ++ posts
      → v.world ≡ s.world
      → v.redis ≡ s.redis
      → IsTurnedAway s (ok response, v)
  answered_with response posts s v h p e w r = record {
    response = response;
    posts = posts;
    answered = refl;
    is_error = h;
    only_posts = p;
    events_same = e;
    world_same = w;
    redis_same = r;
  }

  module _ (amount : ℕ) (header : String) (payment : Json) (s : Edge)
      (presented : payment_header settings out request ≡ some header)
      (decoded : out.decode_payment header ≡ some payment) where
    abbrev body : Json
    body = validation_body settings amount payment

    settle-Outcome :
        (verify_data : Json) (verdict : Verdict)
        → judge_verify (reply_to verify body s) ≡ approved verify_data
        → judge_settle (reply_to settle body (posted_to verify body s)) ≡ verdict
        → IsSound verdict
        → Outcome amount s (
            after_settle settings out call_next request verdict
              (posted_to settle body (posted_to verify body s)))
    settle-Outcome verify_data (refused response) v e sound = inl (
        answered_with response
          (posted verify body (headers_for settings out verify)
            ∷ posted settle body (headers_for settings out settle)
            ∷ [])
          s (posted_to settle body (posted_to verify body s)) sound (tt, (tt, tt))
          (assoc s.events _ _) refl refl)
      where
        assoc : (xs : List Event) (a b : Event) → (xs ++ a ∷ []) ++ b ∷ [] ≡ xs ++ a ∷ b ∷ []
        assoc [] a b = refl
        assoc (x ∷ xs) a b = ap (λ ys. x ∷ ys) (assoc xs a b)
    settle-Outcome verify_data (approved settle_data) v e sound = inr (record {
      header = header;
      payment = payment;
      verify_data = verify_data;
      settle_data = settle_data;
      presented = presented;
      decoded = decoded;
      verified = v;
      settled = e;
      ran = refl;
    })

    verify-Outcome :
        (verdict : Verdict)
        → judge_verify (reply_to verify body s) ≡ verdict
        → IsSound verdict
        → Outcome amount s
            (after_verify settings out call_next request body verdict (posted_to verify body s))
    verify-Outcome (refused response) v sound = inl (
        answered_with response (posted verify body (headers_for settings out verify) ∷ []) s
          (posted_to verify body s) sound (tt, tt) refl refl refl)
    verify-Outcome (approved verify_data) v sound =
        settle-Outcome verify_data (judge_settle (reply_to settle body (posted_to verify body s))) v
          refl (judge_settle-IsSound (reply_to settle body (posted_to verify body s)))

  append_nil : (xs : List Event) → xs ≡ xs ++ []
  append_nil [] = refl
  append_nil (x ∷ xs) = ap (λ ys. x ∷ ys) (append_nil xs)

  at_once :
      (amount : ℕ) (response : Response) (s : Edge)
      → 400 ≤ response.status_code
      → Outcome amount s (ok response, s)
  at_once amount response s h =
      inl (answered_with response [] s s h tt (append_nil s.events) refl refl)

  charge_payment-Outcome :
      (amount : ℕ) (header : String) (s : Edge)
      → payment_header settings out request ≡ some header
      → Outcome amount s (charge_payment settings out call_next request amount header s)
  charge_payment-Outcome amount header s p = elim (Option-cases (out.decode_payment header)) [
    | inl bad ↦ rw (bad, charge_payment) (at_once amount undecodable s (omega arith))
    | inr (payment, d) ↦
        rw (d, charge_payment)
          (verify-Outcome amount header payment s p d
            (judge_verify (reply_to verify (validation_body settings amount payment) s)) refl
            (judge_verify-IsSound (reply_to verify (validation_body settings amount payment) s)))
  ]

  demand-Outcome :
      (amount : ℕ) (s : Edge) → Outcome amount s (demand settings out call_next request amount s)
  demand-Outcome amount s = elim (Option-cases (payment_header settings out request)) [
    | inl missing ↦
        rw (missing, demand)
          (at_once amount (challenge settings request.path amount) s (omega arith))
    | inr (header, p) ↦ rw (p, demand) (charge_payment-Outcome amount header s p)
  ]

  -- A request that a price is asked for ends in one of two ways. Either the paywall answers it with
  -- an error, after calls of the facilitator at most, and the handler has not run. Or the handler has
  -- run, and before it the facilitator verified and then settled the payment that the request
  -- presents, for the amount of the price.
  pub dispatch-Outcome :
      (price : String) (s : Edge)
      → price_of settings request ≡ some price
      → Outcome (usd_to_usdc_atomic price) s (dispatch settings out call_next request s)
  unfolding dispatch
  dispatch-Outcome price s e = rw (e, dispatch) (demand-Outcome (usd_to_usdc_atomic price) s)

  -- A request that no price is asked for goes on as it is.
  pub dispatch_free :
      (s : Edge)
      → price_of settings request ≡ none
      → dispatch settings out call_next request s ≡ forward settings out call_next request s
  unfolding dispatch
  dispatch_free s e = rw (e, dispatch) refl
