-- ===== src/App/Prices.antt =====
-- app/main.py, app/middleware/x402.py and app/x402/pricing.py: which operations the paywall guards.
use cortex_cloud_api.Prelude.{
  ℕ, ◌≡◌, refl, sym, ap, subst, ◌∙◌, inl, inr, String, str_eq, eq_iff, Bool, true, false, not, ◌&&◌,
  ◌||◌, Option, none, some, List, [], ◌∷◌, any, Bool-cases, arith,
}
use cortex_cloud_api.Prelude.Text.{codes, starts_with, path_after_space}
use cortex_cloud_api.Edge.{Request}
use cortex_cloud_api.X402.Challenge.{X402Settings, price_of, has_bearer, charged}
use cortex_cloud_api.X402.Pricing.{get, or_else, path_pricing}
use cortex_cloud_api.X402.Quotes.{has_bearer_x402}
use cortex_cloud_api.App.{
  Operation, x402_chat_completions, x402_embeddings, data_prices, data_coin_search, data_dex_search,
  data_dex_pairs, base_balance, base_token_balance, base_nonce, Template, exact, with_param, Route,
  matches, found, find, is_active,
}
use cortex_cloud_api.App.Routers.{routes}

-- The operations behind the paywall that call a provider, a service or a chain.
abbrev pub is_paid : Operation → Bool
is_paid x402_chat_completions = true
is_paid x402_embeddings = true
is_paid data_prices = true
is_paid data_coin_search = true
is_paid data_dex_search = true
is_paid data_dex_pairs = true
is_paid base_balance = true
is_paid base_token_balance = true
is_paid base_nonce = true
is_paid _ = false

abbrev pub is_asked : Option String → Bool
is_asked none = false
is_asked (some price) = true

-- Whether the table of prices has one that is not $0.00.
abbrev costs : Option String → Bool
costs none = false
costs (some price) = not (str_eq price "$0.00")

-- A route is guarded as it should be: a paid one has a price and lies under /x402/; another one has
-- none; and one with a parameter lies under /v1/.
abbrev is_guarded : Template → Bool → Bool
is_guarded (exact path) true =
    costs (get path path_pricing) && starts_with (codes path) (codes "/x402/")
is_guarded (exact path) false = not (costs (get path path_pricing))
is_guarded (with_param prefix suffix) true = false
is_guarded (with_param prefix suffix) false = starts_with (codes prefix) (codes "/v1/")

abbrev unguarded : Route → Bool
unguarded r = not (is_guarded r.template (is_paid r.operation))

routes-guarded : any unguarded (routes true) ≡ false
unfolding path_after_space
routes-guarded = refl

asked_of :
    (bearer : Bool) (listed : Option String)
    → (costs listed && bearer) ≡ false
    → is_asked (charged bearer listed) ≡ costs listed
asked_of bearer none e = refl
asked_of bearer (some price) e = elim (Bool-cases (str_eq price "$0.00")) [
  | inl free ↦ rw free refl
  | inr paid ↦ elim (Bool-cases bearer) [
    | inl key ↦ let wrong : true ≡ false = rw (paid, key) at e in cc
    | inr no_key ↦ rw (paid, no_key) refl
  ]
]

-- Texts that do not begin as the keys do are no keys.
get_elsewhere :
    (start : List ℕ) (path : String) (entries : List (String × String))
    → starts_with (codes path) start ≡ true
    → any (λ (e : String × String). starts_with (codes e.0) start) entries ≡ false
    → get path entries ≡ none
get_elsewhere start path [] h e = refl
get_elsewhere start path ((k, v) ∷ entries) h e = elim (Bool-cases (str_eq k path)) [
  | inl same ↦
      let k_is : k ≡ path = (eq_iff k path).0 same in
      let begins : starts_with (codes k) start ≡ true =
        subst (λ n. starts_with (codes n) start ≡ true) (sym k_is) h in
      let wrong : true ≡ false = rw begins at e in cc
  | inr other ↦
      rw other (ap (λ o. or_else o none) (get_elsewhere start path entries h (ground (arith, e))))
]

starts_with_trans :
    (s t u : List ℕ) → starts_with s t ≡ true → starts_with t u ≡ true → starts_with s u ≡ true
starts_with_trans s t [] h k = refl
starts_with_trans s [] (c ∷ u) h k = cc
starts_with_trans [] (b ∷ t) (c ∷ u) h k = cc
starts_with_trans (a ∷ s) (b ∷ t) (c ∷ u) h k = ground (arith, starts_with_trans s t u)

and_left : (a b : Bool) → (a && b) ≡ true → a ≡ true
and_left a b h = ground (arith, h)

and_right : (a b : Bool) → (a && b) ≡ true → b ≡ true
and_right a b h = ground (arith, h)

and_false : (a : Bool) → (a && false) ≡ false
and_false a = ground arith

or_left : (a b : Bool) → (a || b) ≡ false → a ≡ false
or_left a b h = ground (arith, h)

or_right : (a b : Bool) → (a || b) ≡ false → b ≡ false
or_right a b h = ground (arith, h)

not-true : (a : Bool) → not a ≡ true → a ≡ false
not-true a h = ground (arith, h)

not-false : (a : Bool) → not a ≡ false → a ≡ true
not-false a h = ground (arith, h)

found_injective : (a b : Operation) → found a ≡ found b → a ≡ b
found_injective a b e = cc

module _ (settings : X402Settings) (request : Request) (active : is_active settings ≡ true) where
  price_when_active :
      price_of settings request ≡ charged (has_bearer request) (get request.path path_pricing)
  unfolding price_of
  price_when_active = ground (arith, active)

  asked_if :
      (costs (get request.path path_pricing) && has_bearer request) ≡ false
      → is_asked (price_of settings request) ≡ costs (get request.path path_pricing)
  asked_if e =
      ap is_asked price_when_active
      ∙ asked_of (has_bearer request) (get request.path path_pricing) e

  template_asked :
      (t : Template) (paid : Bool)
      → matches t request.path ≡ true
      → is_guarded t paid ≡ true
      → is_asked (price_of settings request) ≡ paid
  unfolding path_after_space
  template_asked (exact path) true m g =
      let same : request.path ≡ path = (eq_iff request.path path).0 m in
      let here : is_guarded (exact request.path) true ≡ true =
        subst (λ p. is_guarded (exact p) true ≡ true) (sym same) g in
      let no_key : has_bearer request ≡ false =
        has_bearer_x402 request (and_right (costs (get request.path path_pricing)) _ here) in
      let priced : costs (get request.path path_pricing) ≡ true = and_left _ _ here in
      asked_if (rw no_key (and_false (costs (get request.path path_pricing)))) ∙ priced
  template_asked (exact path) false m g =
      let same : request.path ≡ path = (eq_iff request.path path).0 m in
      let free : costs (get request.path path_pricing) ≡ false =
        subst (λ p. costs (get p path_pricing) ≡ false) (sym same)
          (not-true (costs (get path path_pricing)) g) in
      asked_if (rw free refl) ∙ free
  template_asked (with_param prefix suffix) false m g =
      let begins : starts_with (codes request.path) (codes "/v1/") ≡ true =
        starts_with_trans (codes request.path) (codes prefix) (codes "/v1/") (and_left _ _ m) g in
      let free : costs (get request.path path_pricing) ≡ false =
        ap costs (get_elsewhere (codes "/v1/") request.path path_pricing begins refl) in
      asked_if (rw free refl) ∙ free
  template_asked (with_param prefix suffix) true m g = cc

  found_asked :
      (table : List Route) (partial : Bool) (method : String) (op : Operation)
      → any unguarded table ≡ false
      → find table partial method request.path ≡ found op
      → is_asked (price_of settings request) ≡ is_paid op
  found_asked [] true method op u e = cc
  found_asked [] false method op u e = cc
  found_asked (r ∷ rest) partial method op u e =
      elim (Bool-cases (matches r.template request.path && str_eq r.method method)) [
        | inl here ↦
            let same : r.operation ≡ op = found_injective r.operation op (rw here at e) in
            subst (λ o. is_asked (price_of settings request) ≡ is_paid o) same
              (template_asked r.template (is_paid r.operation) (and_left _ _ here)
                (not-false _ (or_left _ _ u)))
        | inr later ↦
            found_asked rest (partial || matches r.template request.path) method op
              (or_right (unguarded r) _ u) (rw later at e)
      ]

-- When payments are on, a request that reaches an operation is asked for a price, with a Bearer key or
-- without, exactly if it is one of those that call a provider, a service or a chain for pay: the nine
-- of is_paid.
pub find-asked :
    (settings : X402Settings) (request : Request) (op : Operation)
    → is_active settings ≡ true
    → find (routes (is_active settings)) false request.method request.path ≡ found op
    → is_asked (price_of settings request) ≡ is_paid op
find-asked settings request op active e =
    found_asked settings request active (routes true) false request.method op routes-guarded
      (rw active at e)
