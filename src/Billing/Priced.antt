-- ===== src/Billing/Priced.antt =====
-- The charge by a checked pricing spec: it is always found, and it covers the exact price.
use apipool_v.Base.{
  find_by-All, ℕ, zero, suc, ◌*◌, ◌≤◌, ◌<◌, String, true, false, ◌&&◌, Option, some, List, [], ◌∷◌,
  ok, find_by, has, All, ◌+◌, ◌==◌, ◌≡◌, refl, sym, inl, inr, arith, Bool-cases, Option-cases,
}
use apipool_v.Base.Int.{pos, ltb_ℤ}
use apipool_v.Base.Numbers.{JsNumber, integer, is_safe, max_safe}
use apipool_v.Billing.Meters.{MeterKey, web_search, MeterQuantities, set_meter}
use mathlib.Core.Path.{subst}
use apipool_v.Billing.Spec.{
  QuantityMeter, PricingBasis, token, unit, duration, boxed, request_count, PricingRate,
  PricingSpec, is_token, same_rate_meter, same_quantity_meter, is_default_rate,
}
use apipool_v.Billing.Checked.{IsRate, IsChecked, FitsBasis}
use apipool_v.Billing.Sku.{SkuRule}
use apipool_v.Billing.Charge.{
  ceil_div, round_up, at_least_one, Numerators, add_numerator, last_rate, nonzero, quantities,
  gather, is_rate_for, sku_or_default, quantity_charge, compute_pricing_charge,
}
use apipool_v.Billing.Numerators.{
  due_at, numerator, numerator-add, AllDivide, add_numerator-AllDivide, covered_more,
  sum_ceilings_total,
}
use apipool_v.Billing.Rounding.{round_up-least, at_least_one_lem}

-- Every quantity is a safe integer, as the normalisation of usage leaves it.
abbrev pub AllSafe : MeterQuantities → Type 0
AllSafe ms = All (λ m. m.1 ≤ max_safe) ms

last_rate-All {κ} :
    (P : PricingRate → Type κ) (key : MeterKey) (rates : List PricingRate) (r : PricingRate)
    → All P rates
    → last_rate key rates ≡ some r
    → P r
unfolding last_rate
last_rate-All P key [] r h e = absurd (cc)
last_rate-All P key (s ∷ rs) r h e = elim (Option-cases (last_rate key rs)) [
  | inl none_later ↦ let same : s ≡ r = ground arith in subst P same h.0
  | inr (t, later) ↦ last_rate-All P key rs r h.1 (ground arith)
]

gather_total :
    (meter : Option QuantityMeter) (rates : List PricingRate) (ns : Numerators)
    (ms : MeterQuantities)
    → All (IsRate meter) rates
    → AllSafe ms
    → AllDivide ns
    → (r : Numerators × List MeterKey) × (gather rates ns ms ≡ ok r)
      × AllDivide r.0
      × ((size : ℕ) → numerator size r.0 ≡ numerator size ns + due_at size rates ms)
unfolding gather due_at
gather_total meter rates ns [] h k d = ((ns, []), refl, d, λ size. omega arith)
gather_total meter rates ns ((key, q) ∷ ms) h k d = elim (Option-cases (last_rate key rates)) [
  | inl none_such ↦
      let (r, e, positive, sums) = gather_total meter rates ns ms h k.1 d in
      ((r.0, key ∷ r.1), ground arith, positive, λ size. rw none_such (omega (arith, sums size)))
  | inr (rate, found) ↦
      let fits = last_rate-All (IsRate meter) key rates rate h found in
      let n = q * rate.price_micro_usd in
      let (r, e, positive, sums) =
        gather_total meter rates (add_numerator rate.unit_size n ns) ms h k.1
          (add_numerator-AllDivide rate.unit_size n ns fits.unit_positive d) in
      (
        r,
        ground (arith, fits.price_safe),
        positive,
        λ size. rw found (omega (arith, sums size, numerator-add size rate.unit_size n ns)),
      )
]

nonzero-AllSafe : (ms : MeterQuantities) → AllSafe ms → AllSafe (nonzero ms)
unfolding nonzero
nonzero-AllSafe [] h = tt
nonzero-AllSafe ((key, q) ∷ ms) h = ground (arith, nonzero-AllSafe ms h.1)

set_meter-AllSafe :
    (key : MeterKey) (q : ℕ) (ms : MeterQuantities)
    → q ≤ max_safe
    → AllSafe ms
    → AllSafe (set_meter key q ms)
unfolding set_meter
set_meter-AllSafe key q [] k h = (k, tt)
set_meter-AllSafe key q ((j, r) ∷ ms) k h = ground (arith, set_meter-AllSafe key q ms k h.1)

quantities-AllSafe :
    (ms : MeterQuantities) (count : ℕ)
    → AllSafe ms
    → count ≤ max_safe
    → AllSafe (quantities ms count)
unfolding quantities
quantities-AllSafe ms count h k =
    ground (arith, nonzero-AllSafe ms h, set_meter-AllSafe web_search count (nonzero ms) k)

-- By a checked token spec, safe quantities always have a charge: nothing throws, not even the
-- division by the unit size. The charge is at least 1, and under every unit size it covers the
-- exact price of the quantities whose rate counts in that unit.
pub token_charge_total :
    (spec : PricingSpec) (ms : MeterQuantities) (count : ℕ) (sku_key : Option String)
    (amount : Option JsNumber)
    → IsChecked spec
    → spec.basis ≡ token
    → AllSafe ms
    → count ≤ max_safe
    → (charge : ℕ) × (unpriced : List MeterKey) × (compute_pricing_charge spec ms count sku_key
          amount
        ≡ ok (charge, unpriced))
      × (1 ≤ charge)
      × ((size : ℕ) → due_at size spec.rates (quantities ms count) ≤ charge * size)
unfolding compute_pricing_charge numerator
token_charge_total spec ms count sku_key amount c basis safe k =
    let (r, e, positive, sums) =
      gather_total spec.quantity_meter spec.rates [] (quantities ms count) c.rates
        (quantities-AllSafe ms count safe k) tt in
    let (sum, summed, covers) = sum_ceilings_total r.0 positive in
    let up = at_least_one_lem sum in
    (
      at_least_one sum,
      r.1,
      rw (basis, e, summed) refl,
      up.0,
      λ size.
          covered_more (due_at size spec.rates (quantities ms count)) sum (at_least_one sum) size
            up.1 (omega (arith, sums size, covers size)),
    )

same_quantity_meter_refl : (q : QuantityMeter) → same_quantity_meter q q ≡ true
unfolding same_quantity_meter
same_quantity_meter_refl = elim [ request_count ↦ refl | _ ↦ refl ]

rates-priced :
    (q : QuantityMeter) (rates : List PricingRate)
    → All (IsRate (some q)) rates
    → has is_default_rate rates ≡ true
    → (r : PricingRate) × (find_by (is_rate_for (some q) "default") rates ≡ some r)
unfolding has find_by is_rate_for same_rate_meter
rates-priced q [] h d = absurd (cc)
rates-priced q (r ∷ rs) h d = elim (Bool-cases (is_default_rate r)) [
  | inl here ↦ (r, rw (h.0.meter_fits, same_quantity_meter_refl q, here))
  | inr there ↦
      let (s, e) = rates-priced q rs h.1 (ground arith) in
      (s, rw (h.0.meter_fits, same_quantity_meter_refl q, there) e)
]

counted_by :
    (basis : PricingBasis) (meter : Option QuantityMeter) (rule : Option SkuRule)
    (rates : List PricingRate)
    → FitsBasis basis meter rule rates
    → is_token basis ≡ false
    → (q : QuantityMeter) × (meter ≡ some q) × (has is_default_rate rates ≡ true)
counted_by token meter rule rates f h = absurd (cc)
counted_by unit meter rule rates (q, e, _, _, d) h = (q, e, d)
counted_by duration meter rule rates (q, e, _, _, d) h = (q, e, d)
counted_by boxed meter rule rates (q, e, _, d) h = (q, e, d)

-- In a checked spec that counts requests, outputs or time, the default SKU has a price.
pub default_priced :
    (spec : PricingSpec)
    → IsChecked spec
    → is_token spec.basis ≡ false
    → (r : PricingRate) × (find_by (is_rate_for spec.quantity_meter "default") spec.rates ≡ some r)
default_priced spec c h =
    let (q, e, d) = counted_by spec.basis spec.quantity_meter spec.sku_rule spec.rates c.basis h in
    let rates : All (IsRate (some q)) spec.rates =
      subst (λ m. All (IsRate m) spec.rates) e c.rates in
    subst (λ m. (r : PricingRate) × (find_by (is_rate_for m "default") spec.rates ≡ some r)) (sym e)
      (rates-priced q spec.rates rates d)

positive_product : (n p c u : ℕ) → 0 < n → 0 < p → n * p ≤ c * u → 1 ≤ c
positive_product (suc n) (suc p) zero u h k l = absurd (grind arith)
positive_product zero p c u h k l = elim h [ ]
positive_product (suc n) zero c u h k l = elim k [ ]
positive_product (suc n) (suc p) (suc c) u h k l = omega arith

product_covered : (n p c d u : ℕ) → c ≤ d → n * p ≤ c * u → n * p ≤ d * u
product_covered n p c d u h k = grind arith

quantity_charge-eq :
    (spec : PricingSpec) (n : ℕ) (sku_key : Option String) (rate : PricingRate)
    → 0 < n
    → n ≤ max_safe
    → 0 < rate.unit_size
    → find_by (is_rate_for spec.quantity_meter (sku_or_default sku_key)) spec.rates ≡ some rate
    → quantity_charge spec sku_key (some (integer (pos n)))
      ≡ ok (at_least_one (round_up (n * rate.price_micro_usd) rate.unit_size), [])
unfolding quantity_charge ceil_div
quantity_charge-eq spec n sku_key rate positive small divides found =
    let safe : (is_safe (pos n) && ltb_ℤ (pos 0) (pos n)) ≡ true = ground arith in
    let nonzero_size : (rate.unit_size == 0) ≡ false = ground arith in
    rw (safe, found, nonzero_size, quantity_charge) refl

-- The charge for a count or a duration is the least whole micro-USD amount that covers quantity
-- times price, per unit.
pub quantity_charge-least :
    (spec : PricingSpec) (ms : MeterQuantities) (count n : ℕ) (sku_key : Option String)
    (rate : PricingRate)
    → IsChecked spec
    → is_token spec.basis ≡ false
    → 0 < n
    → n ≤ max_safe
    → find_by (is_rate_for spec.quantity_meter (sku_or_default sku_key)) spec.rates ≡ some rate
    → (charge : ℕ) × (compute_pricing_charge spec ms count sku_key (some (integer (pos n)))
        ≡ ok (charge, []))
      × (n * rate.price_micro_usd ≤ charge * rate.unit_size)
      × ((c : ℕ) → n * rate.price_micro_usd ≤ c * rate.unit_size → charge ≤ c)
unfolding compute_pricing_charge
quantity_charge-least spec ms count n sku_key rate c h positive small found =
    let (q, e, d) = counted_by spec.basis spec.quantity_meter spec.sku_rule spec.rates c.basis h in
    let fits =
      find_by-All (IsRate spec.quantity_meter)
        (is_rate_for spec.quantity_meter (sku_or_default sku_key)) spec.rates rate c.rates found in
    let price = fits.priced (rw e refl) in
    let exactly = round_up (n * rate.price_micro_usd) rate.unit_size in
    let (covers, least) =
      round_up-least (n * rate.price_micro_usd) rate.unit_size fits.unit_positive in
    let up = at_least_one_lem exactly in
    (
      at_least_one exactly,
      rw (h, compute_pricing_charge)
          (quantity_charge-eq spec n sku_key rate positive small fits.unit_positive found),
      product_covered n rate.price_micro_usd exactly (at_least_one exactly) rate.unit_size up.1
          covers,
      λ c k.
          let l = least c k in
          let one = positive_product n rate.price_micro_usd c rate.unit_size positive price k in
          omega arith,
    )
