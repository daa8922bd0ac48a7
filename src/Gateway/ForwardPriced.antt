-- ===== src/Gateway/ForwardPriced.antt =====
-- A request that is let through can be charged.
use apipool_v.Base.{
  ℕ, ◌≤◌, ◌<◌, String, true, false, some, [], ◌&&◌, not, ok, has, find_by, has-find_by, ◌≡◌, inl,
  inr, arith, Bool-cases, Option-cases, is_some, is_truthy,
}
use mathlib.Core.Path.{subst}
use apipool_v.Base.Int.{pos}
use apipool_v.Base.Numbers.{integer, max_safe}
use apipool_v.Billing.Meters.{MeterQuantities, web_search}
use apipool_v.Billing.Sku.{Evaluation, found, rejected, missing_template_fact, evaluate_sku_rule}
use apipool_v.Billing.Spec.{PricingSpec, PricingRate, is_token}
use apipool_v.Billing.Charge.{compute_pricing_charge, is_rate_for, sku_or_default}
use apipool_v.Billing.Checked.{IsChecked}
use apipool_v.Billing.Priced.{default_priced, quantity_charge-least}
use apipool_v.Gateway.Forward.{
  RequestMetadata, ForwardRoute, forward, admit_sku, closes_long_context, estimate_tokens, facts_of,
  evaluate_forward_admission,
}

admit_sku-has :
    (route : ForwardRoute) (estimated tokens : ℕ) (evaluation : Evaluation) (sku : String)
    → admit_sku route estimated evaluation ≡ forward (some sku) tokens
    → has (is_rate_for route.pricing_spec.quantity_meter sku) route.pricing_spec.rates ≡ true
unfolding admit_sku
admit_sku-has route estimated tokens (found key) sku h =
    elim (Bool-cases
      (has (is_rate_for route.pricing_spec.quantity_meter key) route.pricing_spec.rates)) [
        | inl known ↦
            let same : key ≡ sku = ground arith in
            subst
              (λ k.
                has (is_rate_for route.pricing_spec.quantity_meter k) route.pricing_spec.rates
                ≡ true)
              same known
        | inr unknown ↦ absurd (ground arith)
      ]
admit_sku-has route estimated tokens rejected sku h = absurd (cc)
admit_sku-has route estimated tokens missing_template_fact sku h = absurd (cc)

forward-has :
    (tidy : String → String) (m : RequestMetadata) (route : ForwardRoute) (sku : String)
    (tokens : ℕ)
    → evaluate_forward_admission tidy m route ≡ forward (some sku) tokens
    → has (is_rate_for route.pricing_spec.quantity_meter sku) route.pricing_spec.rates ≡ true
unfolding evaluate_forward_admission
forward-has tidy m route sku tokens h =
    elim (Bool-cases (closes_long_context route (estimate_tokens m))) [
      | inl long ↦ absurd (ground arith)
      | inr short ↦
          elim (Bool-cases (m.has_server_tool && not (is_some (route.rates web_search)))) [
            | inl tool ↦ absurd (ground arith)
            | inr plain ↦ elim (Bool-cases (is_token route.pricing_basis)) [
              | inl by_token ↦ absurd (ground arith)
              | inr counted ↦ elim (Option-cases route.pricing_spec.sku_rule) [
                | inl missing ↦ absurd (ground arith)
                | inr (rule, e) ↦
                    admit_sku-has route (estimate_tokens m) tokens
                      (evaluate_sku_rule (facts_of tidy m) rule) sku (ground arith)
              ]
            ]
          ]
    ]

rate_of :
    (spec : PricingSpec) (sku : String)
    → IsChecked spec
    → is_token spec.basis ≡ false
    → has (is_rate_for spec.quantity_meter sku) spec.rates ≡ true
    → (rate : PricingRate) × (find_by
          (is_rate_for spec.quantity_meter (sku_or_default (some sku)))
          spec.rates
        ≡ some rate)
unfolding sku_or_default
rate_of spec sku c counted known = elim (Bool-cases (is_truthy (some sku))) [
  | inl given ↦ rw given (has-find_by (is_rate_for spec.quantity_meter sku) spec.rates known)
  | inr empty ↦ rw empty (default_priced spec c counted)
]

-- A request that is let through under a SKU can be charged under it: by a checked spec that does
-- not price tokens, every positive safe quantity has a charge.
pub forward_priced :
    (tidy : String → String) (m : RequestMetadata) (route : ForwardRoute) (sku : String)
    (tokens : ℕ) (ms : MeterQuantities) (count n : ℕ)
    → evaluate_forward_admission tidy m route ≡ forward (some sku) tokens
    → IsChecked route.pricing_spec
    → is_token route.pricing_spec.basis ≡ false
    → 0 < n
    → n ≤ max_safe
    → (charge : ℕ) × (compute_pricing_charge route.pricing_spec ms count
          (some sku)
          (some (integer (pos n)))
        ≡ ok (charge, []))
forward_priced tidy m route sku tokens ms count n h c counted positive small =
    let (rate, e) =
      rate_of route.pricing_spec sku c counted (forward-has tidy m route sku tokens h) in
    let (charge, done, covers, least) =
      quantity_charge-least route.pricing_spec ms count n (some sku) rate c counted positive small
        e in
    (charge, done)
