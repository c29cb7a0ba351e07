-- ===== src/Admin/Totals.antt =====
-- The administrator's totals.
use cortex_cloud_api.Prelude.{
  zero, suc, ◌⊎◌, inl, inr, not, sym, ap, ◌∙◌, ◌≡◌, ◌≢◌, refl, List, [], ◌∷◌, All, if◌then◌else◌,
}
use cortex_cloud_api.Prelude.Int.{ℤ, pos, negsuc, ◌+ℤ◌, is_nonzero, int_laws}
use cortex_cloud_api.Database.{BillingTransaction, TransactionType, deposit, usage_charge, refund}
use cortex_cloud_api.Admin.{sum_of, same_type, or_zero, add_sums, type_error}
use cortex_cloud_api.Effects.{ok, raised}

-- The sum of all transactions.
abbrev pub sum_all : List BillingTransaction → ℤ
sum_all [] = pos 0
sum_all (t ∷ ts) = t.amount +ℤ sum_all ts

add_left : (a b c : ℤ) → (a +ℤ b) +ℤ c ≡ a +ℤ (b +ℤ c)
add_left a b c = grind int_laws

add_middle : (a b c : ℤ) → b +ℤ (a +ℤ c) ≡ a +ℤ (b +ℤ c)
add_middle a b c = grind int_laws

booked :
    (type : TransactionType) (a d u s : ℤ)
    → type ≢ refund
    → d +ℤ u ≡ s
    → (if same_type type deposit then a +ℤ d else d)
        +ℤ (if same_type type usage_charge then a +ℤ u else u)
      ≡ a +ℤ s
booked deposit a d u s h e = add_left a d u ∙ ap (λ x. a +ℤ x) e
booked usage_charge a d u s h e = add_middle a d u ∙ ap (λ x. a +ℤ x) e
booked refund a d u s h e = absurd (h refl)

no_sum : pos 0 +ℤ pos 0 ≡ pos 0
unfolding ◌+ℤ◌
no_sum = refl

-- Without refunds, the deposits and the charges add up to the sum of all transactions.
pub sum_of-sum_all :
    (ts : List BillingTransaction)
    → All (λ t. t.type ≢ refund) ts
    → sum_of deposit ts +ℤ sum_of usage_charge ts ≡ sum_all ts
sum_of-sum_all [] h = no_sum
sum_of-sum_all (t ∷ ts) (h, hs) =
    booked t.type t.amount (sum_of deposit ts) (sum_of usage_charge ts) (sum_all ts) h
      (sum_of-sum_all ts hs)

-- The sums that are both nought or both not add up; of two others one is a float, and one a Decimal.
pub add_sums-or_zero :
    (a b : ℤ)
    → ((is_nonzero a ≡ is_nonzero b) × (add_sums (or_zero a) (or_zero b) ≡ ok (a +ℤ b)))
      ⊎ ((is_nonzero a ≡ not (is_nonzero b))
          × (add_sums (or_zero a) (or_zero b) ≡ raised type_error))
add_sums-or_zero (pos zero) (pos zero) = inl (refl, ap (λ x. ok x) (sym no_sum))
add_sums-or_zero (pos zero) (pos (suc m)) = inr (refl, refl)
add_sums-or_zero (pos zero) (negsuc m) = inr (refl, refl)
add_sums-or_zero (pos (suc n)) (pos zero) = inr (refl, refl)
add_sums-or_zero (pos (suc n)) (pos (suc m)) = inl (refl, refl)
add_sums-or_zero (pos (suc n)) (negsuc m) = inl (refl, refl)
add_sums-or_zero (negsuc n) (pos zero) = inr (refl, refl)
add_sums-or_zero (negsuc n) (pos (suc m)) = inl (refl, refl)
add_sums-or_zero (negsuc n) (negsuc m) = inl (refl, refl)
