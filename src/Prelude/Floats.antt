-- ===== src/Prelude/Floats.antt =====
-- Finite floats, exactly: a double is a whole number over a power of two. Halving only leaves the
-- doubles below 2 ^ -1022, where the last bit is rounded.
use Prim.Native.Nat.{ℕ, suc, ◌^◌}
use native.Mathlib.Omega.{arith}
use cortex_cloud_api.Prelude.Tests.{if◌then◌else◌}
use cortex_cloud_api.Prelude.Int.{ℤ, pos, ltb_ℤ, ◌≤ℤ◌}

pub record Float : Type 0 where
  pub mantissa : ℤ
  pub exponent : ℕ

abbrev pub whole : ℕ → Float
whole n = record { mantissa = pos n; exponent = 0 }

-- `x / 2.0`
abbrev pub halved : Float → Float
halved x = record { mantissa = x.mantissa; exponent = suc x.exponent }

-- `max(x, 0.0)`
abbrev pub at_least_zero : Float → Float
at_least_zero x = if ltb_ℤ x.mantissa (pos 0) then whole 0 else x

-- `min(x, 1.0)`
abbrev pub at_most_one : Float → Float
at_most_one x = if ltb_ℤ (pos (2 ^ x.exponent)) x.mantissa then whole 1 else x

-- `0.0 <= x <= 1.0`
abbrev pub IsUnit : Float → Type 0
IsUnit x = (pos 0 ≤ℤ x.mantissa) × (x.mantissa ≤ℤ pos (2 ^ x.exponent))

-- Cutting off at both ends leaves a number from 0 to 1.
pub clamped-IsUnit : (x : Float) → IsUnit (at_most_one (at_least_zero x))
clamped-IsUnit x = ground arith
