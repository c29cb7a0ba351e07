-- ===== src/Dashboard/Decimals.antt =====
-- Python's `Decimal`, as app/api/dashboard/routes.py adds an amount to a balance, and how PostgreSQL
-- stores it in a column Numeric(12, 6).
use cortex_cloud_api.Prelude.{
  ℕ, zero, suc, ◌+◌, ◌-◌, ◌*◌, ◌/◌, ◌^◌, ◌≤◌, ◌≡◌, ap, sym, ◌∙◌, arith, ltb, if◌then◌else◌,
}
use cortex_cloud_api.Prelude.Int.{ℤ, pos, negsuc, pos_part, neg_part, ◌+ℤ◌}
use cortex_cloud_api.Usage.{round_half_even}

-- The number `units / 10 ^ places`.
pub record Decimal : Type 0 where
  pub units : ℤ
  pub places : ℕ

abbrev pub magnitude : ℤ → ℕ
magnitude a = pos_part a + neg_part a

-- A magnitude with the sign of a number.
abbrev pub signed : ℤ → ℕ → ℤ
signed (pos n) m = pos m
signed (negsuc n) zero = pos 0
signed (negsuc n) (suc m) = negsuc m

abbrev pub scale : ℕ → ℤ → ℤ
scale k a = signed a (k * magnitude a)

-- How many digits are too many for the 28 of Python's context, at most `n`.
abbrev excess : ℕ → ℕ → ℕ
excess zero m = 0
excess (suc n) m = let more = suc (excess n (m / 10)) in if ltb m (10 ^ 28) then 0 else more

-- The context's rounding, where at most `n` digits are too many.
unfoldable pub round_28 : ℕ → ℕ → ℕ
unfolding round_half_even
round_28 n m = let x = excess n m in round_half_even m (10 ^ x) * 10 ^ x

-- `balance + amount`, for a balance of six decimals. A sum with more digits too many than the amount
-- has places beyond the sixth is too large for its column anyway.
unfoldable pub add_amount : ℤ → Decimal → Decimal
unfolding round_28
add_amount balance amount =
    let finer = amount.places - 6 in
    let exact = scale (10 ^ finer) balance +ℤ scale (10 ^ (6 - amount.places)) amount.units in
    record { units = signed exact (round_28 finer (magnitude exact)); places = 6 + finer }

-- The micro-dollars in a column of six decimals: to the nearest, and a tie away from nought.
unfoldable pub column_value : Decimal → ℤ
column_value d =
    let unit = 10 ^ (d.places - 6) in
    signed d.units ((2 * (10 ^ (6 - d.places) * magnitude d.units) + unit) / (2 * unit))

signed-magnitude : (a : ℤ) → signed a (magnitude a) ≡ a
signed-magnitude (pos n) = ap (λ m. pos m) (omega arith)
signed-magnitude (negsuc n) =
    let same : 0 + suc n ≡ suc n = omega arith in ap (λ m. signed (negsuc n) m) same

scale_one : (a : ℤ) → scale 1 a ≡ a
scale_one a =
    let same : 1 * magnitude a ≡ magnitude a = omega arith in
    ap (λ m. signed a m) same ∙ signed-magnitude a

halves : (m : ℕ) → (2 * m + 1) / 2 ≡ m
halves m = omega arith

round_28-whole : (m : ℕ) → round_28 0 m ≡ m
unfolding round_28 round_half_even
round_28-whole m = ground arith

no_finer : (n : ℕ) → n ≤ 6 → n - 6 ≡ 0
no_finer n h = omega arith

signed_round : (a : ℤ) → signed a (round_28 0 (magnitude a)) ≡ a
signed_round a = ap (λ m. signed a m) (round_28-whole (magnitude a)) ∙ signed-magnitude a

-- An amount of whole micro-dollars is stored as it is.
column_value-whole :
    (d : Decimal) → d.places ≤ 6 → column_value d ≡ scale (10 ^ (6 - d.places)) d.units
unfolding column_value
column_value-whole d h =
    rw (no_finer d.places h)
      (ap (λ m. signed d.units m) (halves (10 ^ (6 - d.places) * magnitude d.units)))

add_amount-whole :
    (balance : ℤ) (d : Decimal)
    → d.places ≤ 6
    → add_amount balance d
      ≡ record { units = balance +ℤ scale (10 ^ (6 - d.places)) d.units; places = 6 }
unfolding add_amount
add_amount-whole balance d h = rw (no_finer d.places h) (
    ap (λ a. record { units = a; places = 6 })
      (signed_round (scale 1 balance +ℤ scale (10 ^ (6 - d.places)) d.units)
        ∙ ap (λ b. b +ℤ scale (10 ^ (6 - d.places)) d.units) (scale_one balance)))

-- So is the sum with it.
pub column_value-add_amount :
    (balance : ℤ) (d : Decimal)
    → d.places ≤ 6
    → column_value (add_amount balance d) ≡ balance +ℤ column_value d
column_value-add_amount balance d h =
    ap (λ x. column_value x) (add_amount-whole balance d h)
    ∙ column_value-whole (record { units = balance +ℤ amount; places = 6 }) (omega arith)
    ∙ scale_one (balance +ℤ amount)
    ∙ ap (λ x. balance +ℤ x) (sym (column_value-whole d h))
  where
    amount : ℤ
    amount = scale (10 ^ (6 - d.places)) d.units
