-- ===== src/Wallet/Amount.antt =====
-- src/features/wallet/lib/adjustment-input.ts: the amount of a manual adjustment, in whole dollars.
-- `Number(raw)` is the argument.
use apipool_v.Base.{ℕ, Result, ok, err, if◌then◌else◌, ltb}
use apipool_v.Base.Int.{ℤ, pos, abs, eqb_ℤ}
use apipool_v.Base.Numbers.{JsNumber, integer, fractional, infinite, nan}

pub data AmountError : Type 0 where
  not_nonzero not_whole over_limit : AmountError

abbrev pub max_adjustment_usd : ℕ
max_adjustment_usd = 100_000

unfoldable pub parse_adjustment_amount : JsNumber → Result AmountError ℤ
parse_adjustment_amount (integer z) =
    if eqb_ℤ z (pos 0)
    then err not_nonzero
    else if ltb max_adjustment_usd (abs z)
    then err over_limit
    else ok z
parse_adjustment_amount (fractional floor digits) = err not_whole
parse_adjustment_amount (infinite positive) = err not_nonzero
parse_adjustment_amount nan = err not_nonzero
