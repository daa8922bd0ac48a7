-- ===== src/Billing/Checked.antt =====
-- What a checked pricing spec promises, and the charge that is computed from one.
use apipool_v.Base.{
  Result-cases, ℕ, suc, ◌≤◌, ◌<◌, String, true, false, ◌&&◌, not, Option, none, some, List, [], ◌∷◌,
  ok, has, All, length, ◌≡◌, refl, ap, inl, inr, arith, Bool-cases, Option-cases, is_some,
}
use apipool_v.Base.Numbers.{JsNumber, integer, max_safe}
use apipool_v.Billing.Meters.{MeterKey}
use apipool_v.Base.Json.{Json, null, boolean, number, string, array, object, get}
use mathlib.Core.Path.{subst}
use apipool_v.Billing.Sku.{SkuRule}
use apipool_v.Billing.SkuCheck.{is_integer}
use apipool_v.Billing.Spec.{
  QuantityMeter, PricingBasis, token, unit, duration, boxed, RateMeter, metered, counted,
  PricingRate, PricingSpec, SpecError, is_token, same_rate, check_rate_meter, validate_rate,
  validate_rates, check_meter, check_rule, read_rates, validate_pricing_spec, safe_positive,
  safe_nonnegative, is_default_rate, is_duration_meter, parse_basis, parse_quantity_meter, or_err,
  text_or_empty, js_text,
}

abbrev pub FitsMeter : Option QuantityMeter → RateMeter → Type 0
FitsMeter none m = (k : MeterKey) × (m ≡ metered k)
FitsMeter (some q) m = m ≡ counted q

-- A rate as the check leaves it: a positive unit, safe integers, the meter of the spec.
pub record IsRate (meter : Option QuantityMeter) (r : PricingRate) : Type 0 where
  pub unit_positive : 0 < r.unit_size
  pub unit_safe : r.unit_size ≤ max_safe
  pub price_safe : r.price_micro_usd ≤ max_safe
  pub priced : is_some meter ≡ true → 0 < r.price_micro_usd
  pub meter_fits : FitsMeter meter r.meter_key

-- No two rates of the list, nor one of them and one of `seen`, have the same meter and SKU.
abbrev pub HasDistinctRates : List PricingRate → List PricingRate → Type 0
HasDistinctRates seen [] = Unit
HasDistinctRates seen (r ∷ rs) =
    (has (same_rate r.meter_key r.sku_key) seen ≡ false) × HasDistinctRates (r ∷ seen) rs

check_rate_meter-fits :
    (meter : Option QuantityMeter) (key sku_key : String) (m : RateMeter)
    → check_rate_meter meter key sku_key ≡ ok m
    → FitsMeter meter m
unfolding check_rate_meter
check_rate_meter-fits none key sku_key m h = ground arith
check_rate_meter-fits (some q) key sku_key m h = ground arith

safe_positive_lem : (v : Option Json) (n : ℕ) → safe_positive v ≡ some n → (0 < n) × (n ≤ max_safe)
unfolding safe_positive
safe_positive_lem (some (number (integer z))) n h = ground arith
safe_positive_lem _ n h = absurd (cc)

safe_nonnegative_lem : (v : Option Json) (n : ℕ) → safe_nonnegative v ≡ some n → n ≤ max_safe
unfolding safe_nonnegative
safe_nonnegative_lem (some (number (integer z))) n h = ground arith
safe_nonnegative_lem _ n h = absurd (cc)

or_err-eq-ok : {A : Type 0} (e : SpecError) (o : Option A) (a : A) → or_err e o ≡ ok a → o ≡ some a
or_err-eq-ok e none a h = absurd (cc)
or_err-eq-ok e (some b) a h = ground arith

validate_rate-IsRate :
    (shown : JsNumber → String) (meter : Option QuantityMeter) (seen : List PricingRate) (v : Json)
    (r : PricingRate)
    → validate_rate shown meter seen v ≡ ok r
    → IsRate meter r × (has (same_rate r.meter_key r.sku_key) seen ≡ false)
unfolding validate_rate
validate_rate-IsRate shown meter seen (object fs) r h =
    let key = text_or_empty (get "meterKey" fs) shown in
    let sku_key = text_or_empty (get "skuKey" fs) shown in
    elim (Result-cases (check_rate_meter meter key sku_key)) [
      | inl (e, no_meter) ↦ absurd (ground arith)
      | inr (m, has_meter) ↦ elim (Option-cases (safe_positive (get "unitSize" fs))) [
        | inl no_size ↦ absurd (ground arith)
        | inr (size, sized) ↦ elim (Option-cases (safe_nonnegative (get "priceMicroUsd" fs))) [
          | inl no_price ↦ absurd (ground arith)
          | inr (price, priced) ↦
              let fits = check_rate_meter-fits meter key sku_key m has_meter in
              let bounds = safe_positive_lem (get "unitSize" fs) size sized in
              let bound = safe_nonnegative_lem (get "priceMicroUsd" fs) price priced in
              (
                record {
                  unit_positive = ground arith;
                  unit_safe = ground arith;
                  price_safe = ground arith;
                  priced = λ counted_by. ground arith;
                  meter_fits = subst (FitsMeter meter) (ground arith) fits;
                },
                ground arith,
              )
        ]
      ]
    ]
validate_rate-IsRate shown meter seen null r h = absurd (cc)
validate_rate-IsRate shown meter seen (boolean b) r h = absurd (cc)
validate_rate-IsRate shown meter seen (number n) r h = absurd (cc)
validate_rate-IsRate shown meter seen (string s) r h = absurd (cc)
validate_rate-IsRate shown meter seen (array vs) r h = absurd (cc)

validate_rates-IsRate :
    (shown : JsNumber → String) (meter : Option QuantityMeter) (seen : List PricingRate)
    (vs : List Json) (rs : List PricingRate)
    → validate_rates shown meter seen vs ≡ ok rs
    → All (IsRate meter) rs × HasDistinctRates seen rs × (length rs ≡ length vs)
unfolding validate_rates
validate_rates-IsRate shown meter seen [] rs h =
    let none_left : [] ≡ rs = ground arith in
    subst (λ t. All (IsRate meter) t × HasDistinctRates seen t × (length t ≡ 0)) none_left
      (tt, tt, refl)
validate_rates-IsRate shown meter seen (v ∷ vs) rs h =
    elim (Result-cases (validate_rate shown meter seen v)) [
      | inl (e, bad) ↦ absurd (ground arith)
      | inr (r, good) ↦ elim (Result-cases (validate_rates shown meter (r ∷ seen) vs)) [
        | inl (e, bad) ↦ absurd (ground arith)
        | inr (later, goods) ↦
            let (first, fresh) = validate_rate-IsRate shown meter seen v r good in
            let (rest, apart, long) = validate_rates-IsRate shown meter (r ∷ seen) vs later goods in
            let same : r ∷ later ≡ rs = ground arith in
            subst
              (λ t. All (IsRate meter) t × HasDistinctRates seen t × (length t ≡ suc (length vs)))
              same ((first, rest), (fresh, apart), ap suc long)
      ]
    ]

-- How basis, quantity meter and SKU rule hang together in a checked spec.
abbrev pub FitsBasis :
    PricingBasis → Option QuantityMeter → Option SkuRule → List PricingRate → Type 0
FitsBasis token meter rule rates = (meter ≡ none) × (rule ≡ none)
FitsBasis unit meter rule rates =
    (q : QuantityMeter) × (meter ≡ some q)
    × (is_duration_meter q ≡ false)
    × (is_some rule ≡ true)
    × (has is_default_rate rates ≡ true)
FitsBasis duration meter rule rates =
    (q : QuantityMeter) × (meter ≡ some q)
    × (is_duration_meter q ≡ true)
    × (is_some rule ≡ true)
    × (has is_default_rate rates ≡ true)
FitsBasis boxed meter rule rates =
    (q : QuantityMeter) × (meter ≡ some q)
    × (is_some rule ≡ true)
    × (has is_default_rate rates ≡ true)

pub record IsChecked (spec : PricingSpec) : Type 0 where
  pub rates : All (IsRate spec.quantity_meter) spec.rates
  pub distinct : HasDistinctRates [] spec.rates
  pub some_rate : 0 < length spec.rates
  pub few_rates : length spec.rates ≤ 128
  pub basis : FitsBasis spec.basis spec.quantity_meter spec.sku_rule spec.rates

read_rates_lem :
    (v : Option Json) (vs : List Json) → read_rates v ≡ ok vs → (0 < length vs) × (length vs ≤ 128)
unfolding read_rates
read_rates_lem (some (array items)) vs h = ground arith
read_rates_lem _ vs h = absurd (cc)

check_meter-FitsBasis :
    (basis : PricingBasis) (text : Option String) (meter : Option QuantityMeter)
    (rule : Option SkuRule) (rates : List PricingRate)
    → check_meter basis text ≡ ok meter
    → (is_token basis && is_some rule) ≡ false
    → (not (is_token basis) && not (is_some rule)) ≡ false
    → (not (is_token basis) && not (has is_default_rate rates)) ≡ false
    → FitsBasis basis meter rule rates
unfolding check_meter
check_meter-FitsBasis token none meter rule rates h a b c = ground arith
check_meter-FitsBasis token (some s) meter rule rates h a b c = absurd (cc)
check_meter-FitsBasis unit none meter rule rates h a b c = absurd (cc)
check_meter-FitsBasis duration none meter rule rates h a b c = absurd (cc)
check_meter-FitsBasis boxed none meter rule rates h a b c = absurd (cc)
check_meter-FitsBasis unit (some s) meter rule rates h a b c =
    elim (Option-cases (parse_quantity_meter s)) [
      | inl unknown ↦ absurd (ground arith)
      | inr (q, known) ↦ (q, ground arith, ground arith, ground arith, ground arith)
    ]
check_meter-FitsBasis duration (some s) meter rule rates h a b c =
    elim (Option-cases (parse_quantity_meter s)) [
      | inl unknown ↦ absurd (ground arith)
      | inr (q, known) ↦ (q, ground arith, ground arith, ground arith, ground arith)
    ]
check_meter-FitsBasis boxed (some s) meter rule rates h a b c =
    elim (Option-cases (parse_quantity_meter s)) [
      | inl unknown ↦ absurd (ground arith)
      | inr (q, known) ↦ (q, ground arith, ground arith, ground arith)
    ]

-- A spec that passes the check has between 1 and 128 rates, no two of them under one meter and
-- SKU, each with a positive safe unit and a safe price; a token spec has neither quantity meter
-- nor SKU rule, and any other has both, a default SKU and only positive prices.
pub validate-IsChecked :
    (shown : JsNumber → String) (v : Json) (spec : PricingSpec)
    → validate_pricing_spec shown v ≡ ok spec
    → IsChecked spec
unfolding validate_pricing_spec
validate-IsChecked shown (object fs) spec h =
    let text : Option String = elim (get "quantityMeter" fs) [
      | none ↦ none
      | some v ↦ some (js_text v shown)
    ] in
    elim (Bool-cases (is_integer 1 (get "version" fs))) [
      | inr old ↦ absurd (ground arith)
      | inl versioned ↦ elim (Option-cases (parse_basis (get "basis" fs) shown)) [
        | inl none_such ↦ absurd (ground arith)
        | inr (basis, named) ↦ elim (Result-cases (read_rates (get "rates" fs))) [
          | inl (e, bad) ↦ absurd (ground arith)
          | inr (values, listed) ↦ elim (Result-cases (check_meter basis text)) [
            | inl (e, bad) ↦ absurd (ground arith)
            | inr (meter, metered_by) ↦ elim (Result-cases (validate_rates shown meter [] values)) [
              | inl (e, bad) ↦ absurd (ground arith)
              | inr (rates, good) ↦ elim (Result-cases (check_rule (get "skuRule" fs))) [
                | inl (e, bad) ↦ absurd (ground arith)
                | inr (rule, ruled) ↦
                    let made : PricingSpec = record {
                      basis = basis;
                      quantity_meter = meter;
                      rates = rates;
                      sku_rule = rule;
                    } in
                    let same : made ≡ spec = ground arith in
                    let (sound, apart, long) =
                      validate_rates-IsRate shown meter [] values rates good in
                    let (some_value, few) = read_rates_lem (get "rates" fs) values listed in
                    subst IsChecked same (record {
                      rates = sound;
                      distinct = apart;
                      some_rate = omega arith;
                      few_rates = omega arith;
                      basis =
                          check_meter-FitsBasis basis text meter rule rates metered_by
                            (ground arith) (ground arith) (ground arith);
                    })
              ]
            ]
          ]
        ]
      ]
    ]
validate-IsChecked shown null spec h = absurd (cc)
validate-IsChecked shown (boolean b) spec h = absurd (cc)
validate-IsChecked shown (number n) spec h = absurd (cc)
validate-IsChecked shown (string s) spec h = absurd (cc)
validate-IsChecked shown (array vs) spec h = absurd (cc)
