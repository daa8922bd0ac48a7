-- ===== src/Gateway/Forward.antt =====
-- src/features/gateway/server/admission.ts: whether a request may be forwarded at all, from the
-- metadata of its body.
use apipool_v.Base.{
  ℕ, ◌+◌, ◌*◌, String, Bool, false, ◌&&◌, not, Option, none, some, [], ◌∷◌, has, is_some, str_eq,
  if◌then◌else◌,
}
use apipool_v.Base.Int.{ℤ, pos, leb_ℤ}
use apipool_v.Billing.Meters.{web_search}
use apipool_v.Billing.Sku.{
  Facts, Evaluation, found, rejected, missing_template_fact, evaluate_sku_rule,
}
use apipool_v.Billing.Spec.{PricingBasis, PricingSpec, is_token}
use apipool_v.Billing.Charge.{RatesMap, round_up, is_rate_for}

-- A field that is missing and one that is null read alike.
pub record RequestMetadata : Type 0 where
  pub total_request_chars : ℕ
  pub message_count : ℕ
  pub has_server_tool : Bool
  pub quality : Option String
  pub size : Option String
  pub resolution : Option String
  pub format : Option String
  pub voice : Option String

pub record ForwardRoute : Type 0 where
  pub pricing_basis : PricingBasis
  pub pricing_spec : PricingSpec
  pub rates : RatesMap
  pub admission_long_context_threshold : Option ℤ
  pub allow_long_context : Bool

pub data Refusal : Type 0 where
  long_context_closed no_web_search rule_missing combination_closed sku_closed : Refusal

pub data ForwardDecision : Type 0 where
  forward : (sku_key : Option String) (estimated_input_tokens : ℕ) → ForwardDecision
  refuse : Refusal → ForwardDecision

-- The status that goes with a refusal.
abbrev pub refusal_status : Refusal → ℕ
refusal_status long_context_closed = 413
refusal_status _ = 400

-- `Math.ceil(chars / 2.5) + 128 * messages`; below 2 ^ 50 characters the quotient in floating point
-- has the ceiling of the exact one.
unfoldable pub estimate_tokens : RequestMetadata → ℕ
estimate_tokens m = round_up (2 * m.total_request_chars) 5 + 128 * m.message_count

-- `tidy` is `value.trim().toLowerCase()`.
unfoldable pub normalize_fact : (String → String) → Option String → Option String
normalize_fact tidy none = none
normalize_fact tidy (some v) = if str_eq (tidy v) "" then none else some (tidy v)

unfoldable pub facts_of : (String → String) → RequestMetadata → Facts
facts_of tidy m =
    ("quality", normalize_fact tidy m.quality)
    ∷ ("size", normalize_fact tidy m.size)
    ∷ ("resolution", normalize_fact tidy m.resolution)
    ∷ ("format", normalize_fact tidy m.format)
    ∷ ("voice", normalize_fact tidy m.voice)
    ∷ []

unfoldable pub closes_long_context : ForwardRoute → ℕ → Bool
closes_long_context route estimated = elim route.admission_long_context_threshold [
  | none ↦ false
  | some threshold ↦ not route.allow_long_context && leb_ℤ threshold (pos estimated)
]

-- The end of the decision: the SKU that the rule gives must have a rate.
unfoldable pub admit_sku : ForwardRoute → ℕ → Evaluation → ForwardDecision
admit_sku route estimated (found sku_key) =
    if has (is_rate_for route.pricing_spec.quantity_meter sku_key) route.pricing_spec.rates
    then forward (some sku_key) estimated
    else refuse sku_closed
admit_sku route estimated rejected = refuse combination_closed
admit_sku route estimated missing_template_fact = refuse combination_closed

unfoldable pub evaluate_forward_admission :
    (String → String) → RequestMetadata → ForwardRoute → ForwardDecision
unfolding facts_of
evaluate_forward_admission tidy m route =
    if closes_long_context route (estimate_tokens m)
    then refuse long_context_closed
    else if m.has_server_tool && not (is_some (route.rates web_search))
    then refuse no_web_search
    else if is_token route.pricing_basis
    then forward none (estimate_tokens m)
    else elim route.pricing_spec.sku_rule [
      | none ↦ refuse rule_missing
      | some rule ↦ admit_sku route (estimate_tokens m) (evaluate_sku_rule (facts_of tidy m) rule)
    ]
