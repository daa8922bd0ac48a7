-- ===== src/Gateway/Settlement.antt =====
-- src/features/gateway/server/settlement.ts: the one transaction that turns a finished request into
-- a charge. The row and its price are read before the transaction; `between` is what others write
-- in the meantime. `shown` and `parse` are `String(number)` and `JSON.parse`.
use apipool_v.Base.{
  ℕ, ◌+◌, String, Bool, true, false, ◌&&◌, not, Option, none, some, List, [], ◌++◌, map, Result, ok,
  err, if◌then◌else◌, str_eq, is_truthy, ltb, find_by, update_where, has, is_some, or_else,
}
use apipool_v.Base.Int.{pos, neg, ltb_ℤ}
use apipool_v.Base.Numbers.{JsNumber, integer, fractional, is_nonnegative, max_safe}
use apipool_v.Base.Json.{Json, null, number, object, Fields, get}
use apipool_v.Billing.Meters.{
  MeterKey, input, cached_input, cache_write, cache_write_5m, cache_write_1h, output, image_input,
  cached_image_input, image_output, input_long, cached_input_long, cache_write_long, output_long,
  MeterQuantities, quantity,
}
use apipool_v.Wallet.{Account, Wallet, of_user, request_charge, overdraft_auto}
use apipool_v.Wallet.Ledger.{NewEntry, ensure_wallet_account, append_ledger_entry}
use apipool_v.Billing.Usage.{Flag, unpriced}
use apipool_v.Billing.Spec.{PricingSpec, is_token, parse_pricing_spec}
use apipool_v.Billing.Charge.{compute_pricing_charge, legacy_billing_scheme}
use apipool_v.Gateway.Requests.{
  settled, UsageSource, MeterColumns, Bill, Request, PriceVersion, Store, GatewayError,
  not_captured, price_missing, charge_unsafe, wallet_error, spec_error, is_live, is_row,
  is_live_row,
}
use apipool_v.Gateway.Admission.{has_newapi_id, distinct_flags, flags_column}

pub record SettlementUsage : Type 0 where
  pub meters : MeterQuantities
  pub flags : List Flag
  pub web_search_count : ℕ
  pub raw_usage : Option Json
  pub usage_source : UsageSource
  pub sku_key : Option String
  pub unit_count : Option JsNumber

pub data SettleResult : Type 0 where
  done already_finalized not_found : SettleResult

-- `ledgerMeterColumns`
unfoldable pub ledger_meter_columns : MeterQuantities → MeterColumns
ledger_meter_columns ms = record {
  uncached_input_tokens = quantity input ms + quantity input_long ms;
  cached_read_tokens = quantity cached_input ms + quantity cached_input_long ms;
  cache_write_tokens = quantity cache_write ms + quantity cache_write_long ms;
  cache_write_5m_tokens = quantity cache_write_5m ms;
  cache_write_1h_tokens = quantity cache_write_1h ms;
  output_tokens = quantity output ms + quantity output_long ms;
  image_input_tokens = quantity image_input ms;
  cached_image_input_tokens = quantity cached_image_input ms;
  image_output_tokens = quantity image_output ms;
}

-- `typeof value === 'number' && Number.isFinite(value) && value >= 0`
unfoldable pub finite_nonnegative : Option Json → Option JsNumber
finite_nonnegative (some (number (integer z))) =
    if is_nonnegative (integer z) then some (integer z) else none
finite_nonnegative (some (number (fractional f d))) =
    if is_nonnegative (fractional f d) then some (fractional f d) else none
finite_nonnegative _ = none

unfoldable pub reasoning_in : String → Fields → Option JsNumber
unfolding finite_nonnegative
reasoning_in key usage = elim (get key usage) [
  | some (object details) ↦ finite_nonnegative (get "reasoning_tokens" details)
  | _ ↦ none
]

unfoldable pub reasoning_tokens : Option Json → JsNumber
unfolding reasoning_in
reasoning_tokens (some (object usage)) =
    or_else (reasoning_in "completion_tokens_details" usage)
      (or_else (reasoning_in "output_tokens_details" usage) (integer (pos 0)))
reasoning_tokens _ = integer (pos 0)

-- `rawUsage ?? null`
unfoldable pub stored_usage : Option Json → Json
stored_usage none = null
stored_usage (some v) = v

abbrev pub is_long_key : MeterKey → Bool
is_long_key input_long = true
is_long_key cached_input_long = true
is_long_key cache_write_long = true
is_long_key output_long = true
is_long_key _ = false

pub record Settling : Type 0 where
  pub now : ℕ
  pub uuid : String
  pub freeze_threshold : ℕ
  pub shown : JsNumber → String
  pub parse : String → Option Json
  pub between : Store → Store
  pub on_settled : Store → Result GatewayError Store

-- What is computed before the transaction: the bill and the flags.
unfoldable pub make_bill : PricingSpec → SettlementUsage → Result GatewayError (Bill × List Flag)
make_bill spec usage =
    let by_tokens = is_token spec.basis in
    let sku_key = if by_tokens then none else some (or_else usage.sku_key "default") in
    let unit_count =
      if by_tokens then none else some (or_else usage.unit_count (integer (pos 0))) in
    elim (compute_pricing_charge spec usage.meters usage.web_search_count sku_key unit_count) [
      | err e ↦ err (spec_error e)
      | ok (charged, missing) ↦
          if ltb max_safe charged
          then err charge_unsafe
          else ok (
            record {
              billing_scheme = legacy_billing_scheme spec.basis;
              pricing_basis = spec.basis;
              quantity_meter = spec.quantity_meter;
              columns = ledger_meter_columns usage.meters;
              reasoning_tokens = reasoning_tokens usage.raw_usage;
              sku_key = sku_key;
              unit_count = unit_count;
              long_context_applied = has (λ m. is_long_key m.0) usage.meters;
              web_search_count = usage.web_search_count;
              charged_micro_usd = charged;
            },
            distinct_flags [] usage.flags ++ map unpriced missing,
          )
    ]

unfoldable pub price_request :
    Settling → Request → SettlementUsage → Store → Result GatewayError (Bill × List Flag)
price_request env ledger usage s =
    elim (find_by (λ (p : PriceVersion). str_eq p.id ledger.admitted.price_version_id) s.prices) [
      | none ↦ err price_missing
      | some price ↦ elim (parse_pricing_spec env.shown env.parse price.pricing_spec_json) [
        | err e ↦ err (spec_error e)
        | ok spec ↦ make_bill spec usage
      ]
    ]

unfoldable pub settle_request : ℕ → SettlementUsage → Bill → List Flag → Request → Request
settle_request now usage bill flags r = record r {
  status = settled;
  bill = some bill;
  billing_scheme = some bill.billing_scheme;
  billing_flags = flags_column flags;
  raw_usage = some (stored_usage usage.raw_usage);
  usage_source = some usage.usage_source;
  settled_at = some now;
  updated_at = now;
}

unfoldable pub charge_entry : Request → ℕ → NewEntry
charge_entry ledger charged = record {
  user_id = ledger.admitted.user_id;
  entry_type = request_charge;
  signed_amount_micro_usd = integer (neg (pos charged));
  request_ledger_id = some ledger.admitted.id;
  order_no = none;
  idempotency_key = none;
  operator_user_id = none;
  reason = none;
}

-- `frozenAt IS NULL AND balance < -threshold`
unfoldable pub is_overdrawn : String → ℕ → Account → Bool
is_overdrawn user_id threshold a =
    of_user user_id a
    && not (is_some a.frozen_at)
    && ltb_ℤ a.balance_micro_usd (neg (pos threshold))

unfoldable pub freeze_overdrawn : ℕ → ℕ → String → Wallet → Wallet
freeze_overdrawn now threshold user_id w = record w {
  accounts =
      update_where (is_overdrawn user_id threshold)
        (λ a. record a {
          frozen_at = some now;
          freeze_reason = some overdraft_auto;
          frozen_by = some "system";
          updated_at = now;
        })
        w.accounts;
}

-- The transaction. `none` is the conflict: another settlement came first.
unfoldable pub settle_tx :
    Settling
    → Request
    → SettlementUsage
    → Bill
    → List Flag
    → Store
    → Result GatewayError (Option Store)
settle_tx env ledger usage bill flags s =
    if not (has (is_live_row ledger.admitted.id) s.requests)
    then ok none
    else elim (append_ledger_entry env.now env.uuid (charge_entry ledger bill.charged_micro_usd)
        (ensure_wallet_account env.now ledger.admitted.user_id s.wallet)) [
          | err e ↦ err (wallet_error e)
          | ok (r, w) ↦
              elim (env.on_settled (record s {
                wallet = freeze_overdrawn env.now env.freeze_threshold ledger.admitted.user_id w;
                requests =
                    update_where (is_live_row ledger.admitted.id)
                      (settle_request env.now usage bill flags) s.requests;
              })) [ err e ↦ err e | ok s' ↦ ok (some s') ]
        ]

abbrev pub Settled : Type 0
Settled = Result GatewayError SettleResult × Store

unfoldable pub commit_settlement : Store → Result GatewayError (Option Store) → Settled
commit_settlement s (err e) = (err e, s)
commit_settlement s (ok none) = (ok already_finalized, s)
commit_settlement s (ok (some s')) = (ok done, s')

unfoldable pub settle_row : Settling → Request → SettlementUsage → Store → Settled
settle_row env ledger usage s =
    if not (is_live ledger.status)
    then (ok already_finalized, s)
    else if not (is_truthy ledger.newapi_request_id)
    then (err not_captured, s)
    else elim (price_request env ledger usage s) [
      | err e ↦ (err e, s)
      | ok (bill, flags) ↦
          commit_settlement (env.between s) (settle_tx env ledger usage bill flags (env.between s))
    ]

unfoldable pub settle_by_ledger_id : Settling → String → SettlementUsage → Store → Settled
settle_by_ledger_id env ledger_id usage s = elim (find_by (is_row ledger_id) s.requests) [
  | none ↦ (ok not_found, s)
  | some ledger ↦ settle_row env ledger usage s
]

unfoldable pub settle_by_newapi_request_id : Settling → String → SettlementUsage → Store → Settled
settle_by_newapi_request_id env newapi_id usage s =
    elim (find_by (has_newapi_id newapi_id) s.requests) [
      | none ↦ (ok not_found, s)
      | some ledger ↦ settle_row env ledger usage s
    ]
