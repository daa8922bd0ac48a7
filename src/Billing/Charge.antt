-- ===== src/Billing/Charge.antt =====
-- The charge of a request in micro-USD: `ceilDiv`, `computeTokenChargeMicroUsd` and
-- `computePerCallChargeMicroUsd` of src/features/gateway/lib/billing.ts, `computePricingCharge` of
-- src/features/gateway/lib/pricing-spec.ts. BigInt sums are exact.
use apipool_v.Base.{
  ℕ, ◌+◌, ◌-◌, ◌*◌, ◌/◌, String, Bool, false, ◌&&◌, Option, none, some, List, [], ◌∷◌, ◌++◌, Result,
  ok, err, ◌>>=◌, if◌then◌else◌, str_eq, is_truthy, ltb, ◌==◌, find_by, is_some, or_else,
}
use apipool_v.Base.Int.{pos, ltb_ℤ, pos_part}
use apipool_v.Base.Numbers.{JsNumber, integer, is_safe, max_safe}
use apipool_v.Billing.Meters.{MeterKey, web_search, MeterQuantities, set_meter}
use apipool_v.Billing.Spec.{
  QuantityMeter, PricingBasis, metered, counted, PricingRate, PricingSpec, SpecError, not_positive,
  not_nonnegative, sku_not_priced, is_token, division_by_zero, same_rate_meter,
}

-- `a / b`, rounded up, for a positive `b`.
unfoldable pub round_up : ℕ → ℕ → ℕ
round_up a b = (a + b - 1) / b

-- `ceilDiv`: a BigInt division by 0 throws a RangeError.
unfoldable pub ceil_div : ℕ → ℕ → Result SpecError ℕ
unfolding round_up
ceil_div a b = if b == 0 then err division_by_zero else ok (round_up a b)

abbrev pub micro_per_m : ℕ
micro_per_m = 1_000_000

-- `charged > 0 ? charged : 1`
unfoldable pub at_least_one : ℕ → ℕ
at_least_one n = if ltb 0 n then n else 1

abbrev pub RatesMap : Type 0
RatesMap = MeterKey → Option ℕ

-- What one meter adds to the sum; a meter without a quantity is passed over.
unfoldable pub priced : RatesMap → MeterKey → ℕ → ℕ
priced rates key q = elim (rates key) [ some rate ↦ q * rate | none ↦ 0 ]

unfoldable pub unpriced_here : RatesMap → MeterKey → ℕ → List MeterKey
unpriced_here rates key q =
    if q == 0 then [] else elim (rates key) [ some rate ↦ [] | none ↦ key ∷ [] ]

-- The loop over the meters: the sum so far, and the keys without a rate in their order.
unfoldable pub sum_priced : RatesMap → ℕ → MeterQuantities → ℕ × List MeterKey
unfolding priced unpriced_here
sum_priced rates acc [] = (acc, [])
sum_priced rates acc ((key, q) ∷ ms) =
    let (sum, unpriced) = sum_priced rates (if q == 0 then acc else acc + priced rates key q) ms in
    (sum, unpriced_here rates key q ++ unpriced)

unfoldable pub web_search_part : ℕ → Option ℕ → ℕ
web_search_part count none = 0
web_search_part count (some price) = if ltb 0 count then count * price * micro_per_m else 0

unfoldable pub compute_token_charge : MeterQuantities → RatesMap → ℕ → Option ℕ → ℕ × List MeterKey
unfolding round_up at_least_one
compute_token_charge ms rates count price =
    let (sum, unpriced) = sum_priced rates 0 ms in
    (at_least_one (round_up (sum + web_search_part count price) micro_per_m), unpriced)

unfoldable pub compute_per_call_charge : ℕ → ℕ → ℕ
unfolding at_least_one
compute_per_call_charge unit_count tier_price = at_least_one (unit_count * tier_price)

-- A map from unit sizes to numerators, in the order of insertion.
abbrev pub Numerators : Type 0
Numerators = List (ℕ × ℕ)

unfoldable pub add_numerator : ℕ → ℕ → Numerators → Numerators
add_numerator size n [] = (size, n) ∷ []
add_numerator size n ((s, m) ∷ ns) =
    if s == size then (s, m + n) ∷ ns else (s, m) ∷ add_numerator size n ns

unfoldable pub sum_ceilings : Numerators → Result SpecError ℕ
unfolding ceil_div
sum_ceilings [] = ok 0
sum_ceilings ((size, n) ∷ ns) = ceil_div n size >>= λ c. sum_ceilings ns >>= λ rest. ok (c + rest)

-- `new Map(spec.rates.map(...)).get(key)`: the last rate under a key stays.
unfoldable pub last_rate : MeterKey → List PricingRate → Option PricingRate
last_rate key [] = none
last_rate key (r ∷ rs) =
    let later = last_rate key rs in
    if is_some later
    then later
    else if same_rate_meter r.meter_key (metered key)
    then some r
    else none

-- The entries with a quantity, then the web searches under their key.
unfoldable pub nonzero : MeterQuantities → MeterQuantities
nonzero [] = []
nonzero ((key, q) ∷ ms) = if q == 0 then nonzero ms else (key, q) ∷ nonzero ms

unfoldable pub quantities : MeterQuantities → ℕ → MeterQuantities
unfolding nonzero
quantities ms count = if ltb 0 count then set_meter web_search count (nonzero ms) else nonzero ms

-- The loop over the quantities.
unfoldable pub gather :
    List PricingRate → Numerators → MeterQuantities → Result SpecError (Numerators × List MeterKey)
gather rates ns [] = ok (ns, [])
gather rates ns ((key, q) ∷ ms) =
    if ltb max_safe q then err not_nonnegative else elim (last_rate key rates) [
      | none ↦ gather rates ns ms >>= λ r. ok (r.0, key ∷ r.1)
      | some rate ↦
          if ltb max_safe rate.price_micro_usd
          then err not_nonnegative
          else gather rates (add_numerator rate.unit_size (q * rate.price_micro_usd) ns) ms
    ]

unfoldable pub is_rate_for : Option QuantityMeter → String → PricingRate → Bool
is_rate_for none sku_key r = false
is_rate_for (some m) sku_key r = same_rate_meter r.meter_key (counted m) && str_eq r.sku_key sku_key

-- `skuKey || 'default'`
unfoldable pub sku_or_default : Option String → String
sku_or_default o = if is_truthy o then or_else o "default" else "default"

unfoldable pub quantity_charge :
    PricingSpec → Option String → Option JsNumber → Result SpecError (ℕ × List MeterKey)
unfolding ceil_div at_least_one sku_or_default
quantity_charge spec sku_key (some (integer z)) =
    if is_safe z && ltb_ℤ (pos 0) z
    then elim (find_by (is_rate_for spec.quantity_meter (sku_or_default sku_key)) spec.rates) [
      | none ↦ err sku_not_priced
      | some rate ↦ ceil_div (pos_part z * rate.price_micro_usd) rate.unit_size >>= λ c.
          ok (at_least_one c, [])
    ]
    else err not_positive
quantity_charge spec sku_key _ = err not_positive

unfoldable pub compute_pricing_charge :
    PricingSpec
    → MeterQuantities
    → ℕ
    → Option String
    → Option JsNumber
    → Result SpecError (ℕ × List MeterKey)
unfolding gather at_least_one sum_ceilings quantities
compute_pricing_charge spec ms count sku_key amount =
    if is_token spec.basis
    then (gather spec.rates [] (quantities ms count) >>= λ r.
        sum_ceilings r.0 >>= λ sum. ok (at_least_one sum, r.1))
    else quantity_charge spec sku_key amount

pub data BillingScheme : Type 0 where
  by_token per_call : BillingScheme

unfoldable pub legacy_billing_scheme : PricingBasis → BillingScheme
legacy_billing_scheme basis = if is_token basis then by_token else per_call
