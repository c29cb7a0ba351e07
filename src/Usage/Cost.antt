-- ===== src/Usage/Cost.antt =====
-- The cost of a request: rounding, and how it grows with the tokens.
use cortex_cloud_api.Prelude.{ℕ, ◌+◌, ◌*◌, ◌%◌, ◌≤◌, ◌≡◌, ap, ◌⊎◌, Option, none, some, arith}
use cortex_cloud_api.Prelude.Int.{ℤ, pos, ◌≤ℤ◌}
use cortex_cloud_api.Database.{ModelRegistry}
use cortex_cloud_api.Usage.{billable, round_half_even, prompt_price, completion_price, cost_of}

-- The exact cost, in ten-thousandths of a micro-dollar.
abbrev pub exact : Option ModelRegistry → ℤ → ℤ → ℕ
exact model p c = billable p * prompt_price model + billable c * completion_price model

-- Rounding moves by at most half a unit, and a tie goes to the even neighbour.
round_half_even_near :
    (n : ℕ)
    → (10000 * round_half_even n 10000 ≤ n + 5000) × (n ≤ 10000 * round_half_even n 10000 + 5000)
unfolding round_half_even
round_half_even_near n = (ground arith, ground arith)

round_half_even_tie : (n : ℕ) → n % 10000 ≡ 5000 → round_half_even n 10000 % 2 ≡ 0
unfolding round_half_even
round_half_even_tie n h = ground arith

round_half_even_mono : (m n : ℕ) → m ≤ n → round_half_even m 10000 ≤ round_half_even n 10000
unfolding round_half_even
round_half_even_mono m n h = ground arith

billable_mono : (a b : ℤ) → a ≤ℤ b → billable a ≤ billable b
billable_mono a b h = ground arith

-- The cost in micro-dollars is the exact cost rounded to a nearest whole number.
pub cost_of_near :
    (model : Option ModelRegistry) (p c : ℤ)
    → (10000 * cost_of model p c ≤ exact model p c + 5000)
      × (exact model p c ≤ 10000 * cost_of model p c + 5000)
unfolding cost_of
cost_of_near model p c = round_half_even_near (exact model p c)

-- An exact cost that is halfway between two whole numbers is rounded to the even one.
pub cost_of_tie :
    (model : Option ModelRegistry) (p c : ℤ)
    → exact model p c % 10000 ≡ 5000
    → cost_of model p c % 2 ≡ 0
unfolding cost_of
cost_of_tie model p c h = round_half_even_tie (exact model p c) h

-- At one model's prices, more tokens never cost less.
pub cost_of_mono :
    (model : Option ModelRegistry) (p p' c c' : ℤ)
    → p ≤ℤ p'
    → c ≤ℤ c'
    → cost_of model p c ≤ cost_of model p' c'
unfolding cost_of
cost_of_mono model p p' c c' h k =
    round_half_even_mono (exact model p c) (exact model p' c')
      (grind (arith, billable_mono p p' h, billable_mono c c' k))

exact_free :
    (model : Option ModelRegistry) (p c : ℤ)
    → (model ≡ none) ⊎ ((p ≤ℤ pos 0) × (c ≤ℤ pos 0))
    → exact model p c ≡ 0
exact_free none p c h = omega arith
exact_free (some m) p c h = ground arith

-- Without a registered model, or without tokens, a request costs nothing.
pub cost_of_free :
    (model : Option ModelRegistry) (p c : ℤ)
    → (model ≡ none) ⊎ ((p ≤ℤ pos 0) × (c ≤ℤ pos 0))
    → cost_of model p c ≡ 0
unfolding cost_of
cost_of_free model p c h = ap (λ n. round_half_even n 10000) (exact_free model p c h)
