-- ===== src/Wallet/AmountLaws.antt =====
-- Which amounts of an adjustment are accepted.
use apipool_v.Base.{◌≤◌, ok, ◌≡◌, refl, sym, ◌↔◌, arith, ltb, false}
use apipool_v.Base.Int.{ℤ, pos, abs, eqb_ℤ}
use apipool_v.Base.Numbers.{JsNumber, integer, fractional, infinite, nan}
use mathlib.Core.Path.{subst}
use apipool_v.Wallet.Amount.{max_adjustment_usd, parse_adjustment_amount}

accepted :
    (z : ℤ)
    → eqb_ℤ z (pos 0) ≡ false
    → abs z ≤ max_adjustment_usd
    → parse_adjustment_amount (integer z) ≡ ok z
unfolding parse_adjustment_amount
accepted z nonzero small =
    let low : ltb max_adjustment_usd (abs z) ≡ false = ground arith in rw (nonzero, low) refl

-- An amount is accepted exactly when it is a whole number other than 0 of at most 100,000 dollars
-- either way, and it is accepted as it stands.
pub parse_adjustment_amount_iff :
    (n : JsNumber) (z : ℤ)
    → (parse_adjustment_amount n ≡ ok z)
      ↔ ((n ≡ integer z) × (eqb_ℤ z (pos 0) ≡ false) × (abs z ≤ max_adjustment_usd))
unfolding parse_adjustment_amount
parse_adjustment_amount_iff (integer m) z = (
  λ h. ground arith,
  λ h. subst (λ k. parse_adjustment_amount k ≡ ok z) (sym h.0) (accepted z h.1 h.2),
)
parse_adjustment_amount_iff (fractional floor digits) z = (λ h. absurd (cc), λ h. absurd (cc))
parse_adjustment_amount_iff (infinite positive) z = (λ h. absurd (cc), λ h. absurd (cc))
parse_adjustment_amount_iff nan z = (λ h. absurd (cc), λ h. absurd (cc))
