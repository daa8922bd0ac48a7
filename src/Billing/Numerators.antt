-- ===== src/Billing/Numerators.antt =====
-- src/features/gateway/lib/pricing-spec.ts: the sums by unit size, and what their ceilings cover.
use apipool_v.Base.{
  ℕ, ◌*◌, ◌≤◌, ◌<◌, false, some, List, [], ◌∷◌, ok, All, ◌+◌, ◌==◌, none, if◌then◌else◌, ◌≡◌, refl,
  inl, inr, arith, Bool-cases,
}
use apipool_v.Billing.Meters.{MeterQuantities}
use mathlib.Core.Path.{subst}
use apipool_v.Billing.Spec.{PricingRate}
use apipool_v.Billing.Charge.{
  ceil_div, round_up, Numerators, add_numerator, sum_ceilings, last_rate,
}
use apipool_v.Billing.Rounding.{round_up-least}

-- The exact price, in units of `size`, of the quantities whose rate counts in that unit.
unfoldable pub due_at : ℕ → List PricingRate → MeterQuantities → ℕ
due_at size rates [] = 0
due_at size rates ((key, q) ∷ ms) =
    elim (last_rate key rates) [
      | none ↦ 0
      | some rate ↦ if rate.unit_size == size then q * rate.price_micro_usd else 0
    ]
    + due_at size rates ms

-- The numerator that stands under a unit size.
unfoldable pub numerator : ℕ → Numerators → ℕ
numerator size [] = 0
numerator size ((s, n) ∷ ns) = (if s == size then n else 0) + numerator size ns

pub numerator-add :
    (size s n : ℕ) (ns : Numerators)
    → numerator size (add_numerator s n ns) ≡ numerator size ns + (if s == size then n else 0)
unfolding numerator add_numerator
numerator-add size s n [] = omega arith
numerator-add size s n ((t, m) ∷ ns) = ground (arith, numerator-add size s n ns)

abbrev pub AllDivide : Numerators → Type 0
AllDivide ns = All (λ n. 0 < n.0) ns

pub add_numerator-AllDivide :
    (s n : ℕ) (ns : Numerators) → 0 < s → AllDivide ns → AllDivide (add_numerator s n ns)
unfolding add_numerator
add_numerator-AllDivide s n [] k h = (k, tt)
add_numerator-AllDivide s n ((t, m) ∷ ns) k h = ground (arith, add_numerator-AllDivide s n ns k h.1)

pub covered_more : (n c d u : ℕ) → c ≤ d → n ≤ c * u → n ≤ d * u
covered_more n c d u h k = grind arith

covered_both : (m n c d u : ℕ) → m ≤ c * u → n ≤ d * u → m + n ≤ (c + d) * u
covered_both m n c d u h k = grind arith

-- Positive unit sizes never make the sum throw, and it covers every numerator.
pub sum_ceilings_total :
    (ns : Numerators)
    → AllDivide ns
    → (sum : ℕ) × (sum_ceilings ns ≡ ok sum) × ((size : ℕ) → numerator size ns ≤ sum * size)
unfolding sum_ceilings ceil_div numerator
sum_ceilings_total [] h = (0, refl, λ size. omega arith)
sum_ceilings_total ((s, n) ∷ ns) h =
    let (rest, e, covers) = sum_ceilings_total ns h.1 in
    let (up, least) = round_up-least n s h.0 in
    let divides : (s == 0) ≡ false = ground arith in
    (
      round_up n s + rest,
      rw (divides, e) refl,
      λ size. elim (Bool-cases (s == size)) [
        | inl same ↦
            let at : s ≡ size = ground arith in
            rw same (
              covered_both n (numerator size ns) (round_up n s) rest size
                (subst (λ u. n ≤ round_up n s * u) at up) (covers size))
        | inr other ↦
            let more =
              covered_more (numerator size ns) rest (round_up n s + rest) size (omega arith)
                (covers size) in
            rw other (omega (arith, more))
      ],
    )
