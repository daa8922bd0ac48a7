-- ===== src/Billing/Tests.antt =====
-- Runs of the pricing on small inputs.
use apipool_v.Base.{
  if◌then◌else◌, ℕ, String, none, some, List, [], ◌∷◌, ok, refl, ◌≡◌, ◌≤◌, ◌*◌, arith, has, find_by,
  is_some, ◌&&◌, not, max,
}
use apipool_v.Base.Int.{pos}
use apipool_v.Base.Numbers.{JsNumber, integer}
use apipool_v.Base.Json.{
  Json, number, string, object, array, nil, cons, Fields, field, end, get, elems, entries,
}
use apipool_v.Gateway.Endpoints.{chat_completions}
use apipool_v.Billing.Meters.{MeterKey, input, output, MeterQuantities, same_meter, total}
use apipool_v.Billing.Usage.{num, obj, nullish_or}
use apipool_v.Billing.Normalize.{endpoint_meters, normalize_usage_meters, input_total, reaches}
use apipool_v.Billing.Sku.{
  reject, sku, eq, found, evaluate_sku_rule, evaluate_rules, all_match, condition_matches, fact,
  render_output,
}
use apipool_v.Billing.Spec.{
  PricingSpec, unit, token, counted, metered, output_count, validate_pricing_spec, parse_meter,
  parse_quantity_meter, same_quantity_meter, same_rate_meter, safe_positive, safe_nonnegative,
  parse_basis, check_meter, check_rate_meter, validate_rate, validate_rates, check_rule, read_rates,
  js_text,
}
use apipool_v.Billing.SkuCheck.{validate_output, validate_rules, validate_compiled_sku_rule}
use apipool_v.Billing.Charge.{
  RatesMap, compute_token_charge, compute_pricing_charge, quantities, is_rate_for, sku_or_default,
  micro_per_m,
}
use apipool_v.Billing.Rounding.{due, used, token_charge-least, unpriced_iff}
use apipool_v.Billing.Conservation.{IsSplit, chat_meters-IsSplit, normalize-conserves}
use apipool_v.Billing.Sku.{SkuRule, placeholder, word_end, is_letter, is_word}
use apipool_v.Billing.SkuCheck.{
  validate_rule, validate_conditions, validate_condition, validate_operand, assert_field_name,
  is_field_name, all_word, utf16_length, cut_placeholders, has_opening,
}
use apipool_v.Billing.SkuBounds.{IsSkuRule, validate_compiled_sku_rule-IsSkuRule}
use apipool_v.Billing.Checked.{IsChecked, validate-IsChecked}
use apipool_v.Billing.LongMeters.{IsLongOf}
use apipool_v.Billing.Numerators.{due_at}
use apipool_v.Billing.Priced.{token_charge_total, quantity_charge-least}

abbrev two_meters : MeterQuantities
two_meters = (input, 1000) ∷ (output, 7) ∷ []

abbrev input_rate : RatesMap
input_rate input = some 1500
input_rate _ = none

token_charge-least_example :
    let charge = (compute_token_charge two_meters input_rate 2 (some 10)).0 in
    (1 ≤ charge)
    × (due two_meters input_rate 2 (some 10) ≤ charge * micro_per_m)
    × ((c : ℕ) → 1 ≤ c → due two_meters input_rate 2 (some 10) ≤ c * micro_per_m → charge ≤ c)
token_charge-least_example = token_charge-least two_meters input_rate 2 (some 10)

unpriced_iff_example :
    has (same_meter output) (compute_token_charge two_meters input_rate 2 none).1
    ≡ (has (used output) two_meters && not (is_some (input_rate output)))
unpriced_iff_example = unpriced_iff two_meters input_rate 2 none output

abbrev chat_usage : Fields
chat_usage = field "prompt_tokens" (number (integer (pos 900))) (
    field "completion_tokens" (number (integer (pos 40))) (
      field "prompt_tokens_details"
        (object (field "cached_tokens" (number (integer (pos 300))) end)) end))

chat_meters-IsSplit_example :
    let details = obj (get "prompt_tokens_details" chat_usage) in
    IsSplit
      (endpoint_meters chat_completions chat_usage)
      (num (get "prompt_tokens" chat_usage))
      (num (get "cached_tokens" details))
      (max (num (get "cache_write_tokens" details)) (
        num (
          nullish_or
            (get "cache_creation_tokens" details)
            (get "cache_creation_input_tokens" chat_usage))))
      (num (get "completion_tokens" chat_usage))
chat_meters-IsSplit_example = chat_meters-IsSplit chat_usage

abbrev responses_usage : Fields
responses_usage = field "input_tokens" (number (integer (pos 900))) (
    field "output_tokens" (number (integer (pos 40))) (
      field "input_tokens_details" (object (field "cached_tokens" (number (integer (pos 300))) end))
        end))

normalize-conserves_example :
    let ms =
      (normalize_usage_meters chat_completions chat_usage (some (integer (pos 500)))).meters in
    let plain = endpoint_meters chat_completions chat_usage in
    (total ms ≡ total plain)
    × (if reaches (input_total plain) (some (integer (pos 500)))
        then IsLongOf plain ms
        else (ms ≡ plain))
normalize-conserves_example =
    normalize-conserves chat_completions chat_usage (some (integer (pos 500)))

abbrev shown : JsNumber → String
shown _ = "1"

abbrev rate_json : Json
rate_json = object (
    field "meterKey" (string "output_count") (
      field "skuKey" (string "default") (
        field "unitSize" (number (integer (pos 3)))
          (field "priceMicroUsd" (number (integer (pos 10))) end))))

abbrev spec_json : Json
spec_json = object (
    field "version" (number (integer (pos 1))) (
      field "basis" (string "unit") (
        field "quantityMeter" (string "output_count") (
          field "rates" (array (cons rate_json nil)) (
            field "skuRule"
              (object (
                field "version" (number (integer (pos 1))) (
                  field "rules" (array nil)
                    (field "fallback" (object (field "type" (string "reject") end)) end))))
              end)))))

abbrev unit_spec : PricingSpec
unit_spec = record {
  basis = unit;
  quantity_meter = some output_count;
  rates =
      record {
        meter_key = counted output_count;
        sku_key = "default";
        unit_size = 3;
        price_micro_usd = 10;
      }
      ∷ [];
  sku_rule = some (record { rules = []; fallback = reject });
}

spec_runs : validate_pricing_spec shown spec_json ≡ ok unit_spec
unfolding validate_pricing_spec parse_meter parse_quantity_meter same_quantity_meter same_rate_meter
    safe_positive safe_nonnegative parse_basis check_meter check_rate_meter validate_rate
    validate_rates check_rule read_rates js_text has validate_output validate_rules
    validate_compiled_sku_rule get elems entries
spec_runs = refl

unit_spec-IsChecked : IsChecked unit_spec
unit_spec-IsChecked = validate-IsChecked shown spec_json unit_spec spec_runs

validate-IsChecked_example : IsChecked unit_spec
validate-IsChecked_example = validate-IsChecked shown spec_json unit_spec spec_runs

quantity_charge-least_example :
    (charge : ℕ) × (compute_pricing_charge unit_spec [] 0 none (some (integer (pos 7)))
      ≡ ok (charge, []))
    × (7 * 10 ≤ charge * 3)
    × ((c : ℕ) → 7 * 10 ≤ c * 3 → charge ≤ c)
unfolding find_by is_rate_for sku_or_default same_rate_meter same_quantity_meter
quantity_charge-least_example =
    quantity_charge-least unit_spec [] 0 7 none
      (record {
        meter_key = counted output_count;
        sku_key = "default";
        unit_size = 3;
        price_micro_usd = 10;
      })
      unit_spec-IsChecked refl (omega arith) (omega arith) refl

abbrev token_spec : PricingSpec
token_spec = record {
  basis = token;
  quantity_meter = none;
  rates =
      record {
        meter_key = metered input;
        sku_key = "default";
        unit_size = 1000000;
        price_micro_usd = 1500;
      }
      ∷ [];
  sku_rule = none;
}

token_spec-IsChecked : IsChecked token_spec
unfolding has same_rate_meter
token_spec-IsChecked = record {
  rates = (
    record {
      unit_positive = omega arith;
      unit_safe = omega arith;
      price_safe = omega arith;
      priced = λ e. absurd (cc);
      meter_fits = (input, refl);
    },
    tt,
  );
  distinct = (refl, tt);
  some_rate = omega arith;
  few_rates = omega arith;
  basis = (refl, refl);
}

token_charge_total_example :
    (charge : ℕ) × (unpriced : List MeterKey) × (compute_pricing_charge token_spec two_meters 2 none
        none
      ≡ ok (charge, unpriced))
    × (1 ≤ charge)
    × ((size : ℕ) → due_at size token_spec.rates (quantities two_meters 2) ≤ charge * size)
token_charge_total_example =
    token_charge_total token_spec two_meters 2 none none token_spec-IsChecked refl
      (omega arith, (omega arith, tt)) (omega arith)

placeholders_run :
    evaluate_sku_rule (("q", some "hd") ∷ ("s", none) ∷ []) (record {
      rules = record { conditions = eq "q" "hd" ∷ []; output = sku "a-${q}$-${" } ∷ [];
      fallback = reject;
    })
    ≡ found "a-hd$-${"
unfolding evaluate_sku_rule evaluate_rules all_match condition_matches fact render_output
placeholders_run = refl

abbrev rule_json : Json
rule_json = object (
    field "version" (number (integer (pos 1))) (
      field "rules"
        (array (
          cons
            (object (
              field "conditions"
                (array (
                  cons
                    (object (
                      field "field" (string "size")
                        (field "operator" (string "eq") (field "value" (string "big") end))))
                    nil))
                (field "output"
                  (object (field "type" (string "sku") (field "template" (string "s-${size}") end)))
                  end)))
            nil))
        (field "fallback" (object (field "type" (string "reject") end)) end)))

abbrev checked_rule : SkuRule
checked_rule = record {
  rules = record { conditions = eq "size" "big" ∷ []; output = sku "s-${size}" } ∷ [];
  fallback = reject;
}

rule_checked : validate_compiled_sku_rule rule_json ≡ ok checked_rule
unfolding validate_compiled_sku_rule validate_rules validate_output get elems validate_rule
    validate_conditions validate_condition validate_operand assert_field_name is_field_name all_word
    utf16_length cut_placeholders has_opening placeholder word_end is_letter is_word
rule_checked = refl

validate_compiled_sku_rule-IsSkuRule_example : IsSkuRule checked_rule
validate_compiled_sku_rule-IsSkuRule_example =
    validate_compiled_sku_rule-IsSkuRule rule_json checked_rule rule_checked
