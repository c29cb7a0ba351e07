-- ===== src/X402/Prices.antt =====
-- The prices that requests are asked for.
use cortex_cloud_api.Prelude.{
  ◌≤◌, ◌≡◌, refl, ap, ◌⊎◌, inl, inr, String, str_eq, Bool, true, false, ◌||◌, not, Option, none,
  some, List, [], ◌∷◌, All, arith, Bool-cases, Option-cases, if◌then◌else◌, subst,
}
use cortex_cloud_api.Edge.{Request}
use cortex_cloud_api.X402.Pricing.{get, path_pricing, usd_to_usdc_atomic}
use cortex_cloud_api.X402.Challenge.{X402Settings, price_of, is_given, has_bearer, charged}

abbrev IsCharged : String → Type 0
IsCharged price = (str_eq price "$0.00" ≡ true) ⊎ (1000 ≤ usd_to_usdc_atomic price)

get-All :
    (P : String → Type 0) (k : String) (entries : List (String × String)) (v : String)
    → All (λ (e : String × String). P e.1) entries
    → get k entries ≡ some v
    → P v
get-All P k [] v h e = cc
get-All P k ((k', v') ∷ entries) v (h, hs) e = elim (Option-cases (get k entries)) [
  | inr (later, l) ↦ get-All P k entries v hs (grind (arith, l, e))
  | inl none_later ↦ subst P (grind (arith, none_later, e)) h
]

path_pricing-IsCharged : All (λ (e : String × String). IsCharged e.1) path_pricing
unfolding usd_to_usdc_atomic
path_pricing-IsCharged = (
  inr (omega arith),
  (
    inr (omega arith),
    (
      inr (omega arith),
      (
        inl refl,
        (
          inr (omega arith),
          (
            inr (omega arith),
            (
              inr (omega arith),
              (
                inr (omega arith),
                (inr (omega arith), (inr (omega arith), (inr (omega arith), tt))),
              ),
            ),
          ),
        ),
      ),
    ),
  ),
)

charged_listed :
    (bearer : Bool) (listed : Option String) (price : String)
    → charged bearer listed ≡ some price
    → (listed ≡ some price) × (str_eq price "$0.00" ≡ false)
charged_listed bearer none price e = cc
charged_listed bearer (some listed) price e = elim (Bool-cases (str_eq listed "$0.00" || bearer)) [
  | inl pass ↦ absurd (grind (arith, pass, e))
  | inr asked ↦
      let same : listed ≡ price = grind (arith, asked, e) in
      (ap some same, subst (λ p. str_eq p "$0.00" ≡ false) same (grind (arith, asked)))
]

price_listed :
    (off : Bool) (bearer : Bool) (listed : Option String) (price : String)
    → (if off then none else charged bearer listed) ≡ some price
    → (listed ≡ some price) × (str_eq price "$0.00" ≡ false)
price_listed true bearer listed price e = cc
price_listed false bearer listed price e = charged_listed bearer listed price e

-- No request is asked for less than a thousandth of a dollar: the free routes are asked for nothing.
pub price_of_le :
    (settings : X402Settings) (request : Request) (price : String)
    → price_of settings request ≡ some price
    → 1000 ≤ usd_to_usdc_atomic price
unfolding price_of
price_of_le settings request price e =
    let (l, paid) =
      price_listed (not settings.enabled || not (is_given settings.wallet_address))
        (has_bearer request) (get request.path path_pricing) price e in
    elim (get-All IsCharged request.path path_pricing price path_pricing-IsCharged l) [
      | inl free ↦ absurd (grind (arith, paid, free))
      | inr enough ↦ enough
    ]
