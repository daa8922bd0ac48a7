-- ===== src/Billing/Spec.antt =====
-- src/features/gateway/lib/pricing-spec.ts: the check of a stored pricing spec. The spec arrives
-- parsed; the messages of the errors are not kept.
use apipool_v.Base.{
  ℕ, String, Bool, true, false, ◌&&◌, ◌||◌, not, Option, none, some, List, [], ◌∷◌, Result, ok, err,
  ◌>>=◌, ◌>>◌, throw_if, if◌then◌else◌, str_eq, ltb, ◌==◌, has, length, is_some,
}
use apipool_v.Base.Int.{pos, ltb_ℤ, leb_ℤ, pos_part}
use apipool_v.Base.Numbers.{JsNumber, integer, is_safe}
use apipool_v.Base.Json.{
  Json, null, boolean, number, string, array, object, Items, nil, cons, elems, get,
}
use apipool_v.Billing.Meters.{
  MeterKey, input, cached_input, cache_write, cache_write_5m, cache_write_1h, output, image_input,
  cached_image_input, image_output, input_long, cached_input_long, cache_write_long, output_long,
  web_search, same_meter,
}
use Prim.Native.String.{◌++◌ as concat}
use apipool_v.Billing.Sku.{SkuRule}
use apipool_v.Billing.SkuCheck.{SkuError, is_integer, validate_compiled_sku_rule}

pub data QuantityMeter : Type 0 where
  request_count output_count audio_duration_ms video_duration_ms : QuantityMeter

-- `boxed` is an array whose text is the name of a basis: it passes the check of the name, and is
-- none of the three names.
pub data PricingBasis : Type 0 where
  token unit duration boxed : PricingBasis

pub data RateMeter : Type 0 where
  metered : MeterKey → RateMeter
  counted : QuantityMeter → RateMeter

pub record PricingRate : Type 0 where
  pub meter_key : RateMeter
  pub sku_key : String
  pub unit_size : ℕ
  pub price_micro_usd : ℕ

pub record PricingSpec : Type 0 where
  pub basis : PricingBasis
  pub quantity_meter : Option QuantityMeter
  pub rates : List PricingRate
  pub sku_rule : Option SkuRule

pub data SpecError : Type 0 where
  not_an_object unknown_version unknown_basis no_rates too_many_rates : SpecError
  meter_on_token meter_missing meter_not_duration meter_is_duration : SpecError
  rate_not_object sku_missing bad_token_rate meter_differs not_positive not_nonnegative : SpecError
  price_zero duplicate_rate rule_on_token rule_missing default_missing sku_not_priced : SpecError
  unparsable division_by_zero : SpecError
  bad_rule : SkuError → SpecError

-- `String(value)`; what it makes of a number is the argument `shown`.
unfoldable mutual
  pub js_text : Json → (JsNumber → String) → String
  js_text null shown = "null"
  js_text (boolean true) shown = "true"
  js_text (boolean false) shown = "false"
  js_text (number n) shown = shown n
  js_text (string s) shown = s
  js_text (array vs) shown = js_join vs shown
  js_text (object fs) shown = "[object Object]"

  pub js_join : Items → (JsNumber → String) → String
  js_join nil shown = ""
  js_join (cons null nil) shown = ""
  js_join (cons v nil) shown = js_text v shown
  js_join (cons null (cons w vs)) shown = concat "," (js_join (cons w vs) shown)
  js_join (cons v (cons w vs)) shown =
      concat (js_text v shown) (concat "," (js_join (cons w vs) shown))

unfoldable pub parse_meter : String → Option MeterKey
parse_meter s =
    if str_eq s "input"
    then some input
    else if str_eq s "cached_input"
    then some cached_input
    else if str_eq s "cache_write"
    then some cache_write
    else if str_eq s "cache_write_5m"
    then some cache_write_5m
    else if str_eq s "cache_write_1h"
    then some cache_write_1h
    else if str_eq s "output"
    then some output
    else if str_eq s "image_input"
    then some image_input
    else if str_eq s "cached_image_input"
    then some cached_image_input
    else if str_eq s "image_output"
    then some image_output
    else if str_eq s "input_long"
    then some input_long
    else if str_eq s "cached_input_long"
    then some cached_input_long
    else if str_eq s "cache_write_long"
    then some cache_write_long
    else if str_eq s "output_long"
    then some output_long
    else if str_eq s "web_search"
    then some web_search
    else none

unfoldable pub parse_quantity_meter : String → Option QuantityMeter
parse_quantity_meter s =
    if str_eq s "request_count"
    then some request_count
    else if str_eq s "output_count"
    then some output_count
    else if str_eq s "audio_duration_ms"
    then some audio_duration_ms
    else if str_eq s "video_duration_ms"
    then some video_duration_ms
    else none

-- `quantityMeter.endsWith('_duration_ms')`
abbrev pub is_duration_meter : QuantityMeter → Bool
is_duration_meter audio_duration_ms = true
is_duration_meter video_duration_ms = true
is_duration_meter _ = false

abbrev pub is_token : PricingBasis → Bool
is_token token = true
is_token _ = false

abbrev pub quantity_index : QuantityMeter → ℕ
quantity_index request_count = 0
quantity_index output_count = 1
quantity_index audio_duration_ms = 2
quantity_index video_duration_ms = 3

unfoldable pub same_quantity_meter : QuantityMeter → QuantityMeter → Bool
same_quantity_meter a b = quantity_index a == quantity_index b

unfoldable pub same_rate_meter : RateMeter → RateMeter → Bool
same_rate_meter (metered a) (metered b) = same_meter a b
same_rate_meter (counted a) (counted b) = same_quantity_meter a b
same_rate_meter _ _ = false

unfoldable pub safe_positive : Option Json → Option ℕ
safe_positive (some (number (integer z))) =
    if is_safe z && ltb_ℤ (pos 0) z then some (pos_part z) else none
safe_positive _ = none

unfoldable pub safe_nonnegative : Option Json → Option ℕ
safe_nonnegative (some (number (integer z))) =
    if is_safe z && leb_ℤ (pos 0) z then some (pos_part z) else none
safe_nonnegative _ = none

unfoldable pub parse_basis : Option Json → (JsNumber → String) → Option PricingBasis
parse_basis (some (string s)) shown =
    if str_eq s "token"
    then some token
    else if str_eq s "unit"
    then some unit
    else if str_eq s "duration"
    then some duration
    else none
parse_basis (some (array vs)) shown =
    let s = js_join vs shown in
    if str_eq s "token" || str_eq s "unit" || str_eq s "duration" then some boxed else none
parse_basis _ shown = none

-- The checks between the basis and the quantity meter; the meter of a basis that has one.
unfoldable pub check_meter : PricingBasis → Option String → Result SpecError (Option QuantityMeter)
check_meter token none = ok none
check_meter token (some s) = err meter_on_token
check_meter basis none = err meter_missing
check_meter basis (some s) = elim (parse_quantity_meter s) [
  | none ↦ err meter_missing
  | some m ↦ elim basis [
    | duration ↦ if is_duration_meter m then ok (some m) else err meter_not_duration
    | unit ↦ if is_duration_meter m then err meter_is_duration else ok (some m)
    | _ ↦ ok (some m)
  ]
]

-- The meter of a rate: a token meter under the default SKU, or the spec's quantity meter.
unfoldable pub check_rate_meter :
    Option QuantityMeter → String → String → Result SpecError RateMeter
check_rate_meter none key sku_key = elim (parse_meter key) [
  | none ↦ err bad_token_rate
  | some m ↦ if str_eq sku_key "default" then ok (metered m) else err bad_token_rate
]
check_rate_meter (some q) key sku_key = elim (parse_quantity_meter key) [
  | none ↦ err meter_differs
  | some m ↦ if same_quantity_meter m q then ok (counted q) else err meter_differs
]

abbrev pub same_rate : RateMeter → String → PricingRate → Bool
same_rate meter sku_key rate = same_rate_meter rate.meter_key meter && str_eq rate.sku_key sku_key

abbrev pub or_err : {A : Type 0} → SpecError → Option A → Result SpecError A
or_err e none = err e
or_err e (some a) = ok a

-- `String(value ?? '')`
abbrev pub text_or_empty : Option Json → (JsNumber → String) → String
text_or_empty none shown = ""
text_or_empty (some null) shown = ""
text_or_empty (some v) shown = js_text v shown

-- One rate, after those in `seen`.
unfoldable pub validate_rate :
    (JsNumber → String)
    → Option QuantityMeter
    → List PricingRate
    → Json
    → Result SpecError PricingRate
validate_rate shown meter seen (object fs) = do
  let key = text_or_empty (get "meterKey" fs) shown
  let sku_key = text_or_empty (get "skuKey" fs) shown
  throw_if (str_eq sku_key "") sku_missing
  m ← check_rate_meter meter key sku_key
  size ← or_err not_positive (safe_positive (get "unitSize" fs))
  price ← or_err not_nonnegative (safe_nonnegative (get "priceMicroUsd" fs))
  throw_if (is_some meter && price == 0) price_zero
  throw_if (has (same_rate m sku_key) seen) duplicate_rate
  ok (record { meter_key = m; sku_key = sku_key; unit_size = size; price_micro_usd = price })
validate_rate shown meter seen v = err rate_not_object

-- `raw.rates.map`, with the rates so far, newest first, in place of the set of their keys.
unfoldable pub validate_rates :
    (JsNumber → String)
    → Option QuantityMeter
    → List PricingRate
    → List Json
    → Result SpecError (List PricingRate)
validate_rates shown meter seen [] = ok []
validate_rates shown meter seen (v ∷ vs) = do
  r ← validate_rate shown meter seen v
  rs ← validate_rates shown meter (r ∷ seen) vs
  ok (r ∷ rs)

abbrev pub is_default_rate : PricingRate → Bool
is_default_rate r = str_eq r.sku_key "default"

unfoldable pub check_rule : Option Json → Result SpecError (Option SkuRule)
check_rule none = ok none
check_rule (some v) = elim (validate_compiled_sku_rule v) [
  | ok rule ↦ ok (some rule)
  | err e ↦ err (bad_rule e)
]

unfoldable pub read_rates : Option Json → Result SpecError (List Json)
unfolding elems
read_rates (some (array vs)) =
    let n = length (elems vs) in
    if n == 0 then err no_rates else if ltb 128 n then err too_many_rates else ok (elems vs)
read_rates _ = err no_rates

unfoldable pub validate_pricing_spec : (JsNumber → String) → Json → Result SpecError PricingSpec
validate_pricing_spec shown (object fs) = do
  throw_if (not (is_integer 1 (get "version" fs))) unknown_version
  basis ← or_err unknown_basis (parse_basis (get "basis" fs) shown)
  values ← read_rates (get "rates" fs)
  meter ←
      check_meter basis
        (elim (get "quantityMeter" fs) [ none ↦ none | some v ↦ some (js_text v shown) ])
  rates ← validate_rates shown meter [] values
  rule ← check_rule (get "skuRule" fs)
  throw_if (is_token basis && is_some rule) rule_on_token
  throw_if (not (is_token basis) && not (is_some rule)) rule_missing
  throw_if (not (is_token basis) && not (has is_default_rate rates)) default_missing
  ok (record { basis = basis; quantity_meter = meter; rates = rates; sku_rule = rule })
validate_pricing_spec shown v = err not_an_object

-- `parsePricingSpec`; `JSON.parse` is the argument, and `none` is its exception.
unfoldable pub parse_pricing_spec :
    (JsNumber → String) → (String → Option Json) → String → Result SpecError PricingSpec
parse_pricing_spec shown parse raw = elim (parse raw) [
  | none ↦ err unparsable
  | some v ↦ validate_pricing_spec shown v
]
