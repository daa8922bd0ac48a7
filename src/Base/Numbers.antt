-- ===== src/Base/Numbers.antt =====
-- A JavaScript number, as far as the code looks at one: the integers exactly, any other finite
-- number by its floor and a code for the digits behind the point, and the values that are not finite.
use Prim.Native.Nat.{ℕ, ◌-◌, ◌^◌}
use mathlib.Core.Bool.{Bool, false}
use apipool_v.Base.Tests.{leb}
use apipool_v.Base.Int.{ℤ, pos, abs, leb_ℤ, eqb_ℤ}

pub data JsNumber : Type 0 where
  integer : ℤ → JsNumber
  fractional : (floor : ℤ) (digits : ℕ) → JsNumber
  infinite : (positive : Bool) → JsNumber
  nan : JsNumber

-- Number.MAX_SAFE_INTEGER
abbrev pub max_safe : ℕ
max_safe = 2 ^ 53 - 1

abbrev pub is_safe : ℤ → Bool
is_safe z = leb (abs z) max_safe

-- `Number.isSafeInteger(value)`
abbrev pub is_safe_integer : JsNumber → Bool
is_safe_integer (integer z) = is_safe z
is_safe_integer _ = false

-- `value >= 0`
abbrev pub is_nonnegative : JsNumber → Bool
is_nonnegative (integer z) = leb_ℤ (pos 0) z
is_nonnegative (fractional floor digits) = leb_ℤ (pos 0) floor
is_nonnegative (infinite positive) = positive
is_nonnegative nan = false

-- `value === 0`
abbrev pub is_zero : JsNumber → Bool
is_zero (integer z) = eqb_ℤ z (pos 0)
is_zero _ = false
