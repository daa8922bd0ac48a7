-- ===== src/Gateway/Tests.antt =====
-- Runs of the gateway on small tables.
use apipool_v.Base.{
  ℕ, true, false, none, some, [], ◌∷◌, ok, refl, ◌≡◌, ◌≤◌, arith, has, find_by, update_where,
  count_where,
}
use apipool_v.Base.Int.{pos, neg, ◌+ℤ◌}
use apipool_v.Base.Numbers.{integer}
use apipool_v.Base.Json.{
  Json, number, string, object, array, nil, cons, field, end, get, elems, entries,
}
use apipool_v.Wallet.{clashes, is_refused}
use apipool_v.Wallet.Ledger.{
  sign_ok, new_account, ensure_wallet_account, safe_amount, lacks_operator, credit, entry_row,
  insert_entry, post_entry, append_ledger_entry,
}
use apipool_v.Wallet.Balance.{IsConsistent, balance_of, sum_for}
use apipool_v.Billing.Meters.{input, meter?, set_meter, same_meter}
use apipool_v.Billing.Spec.{
  parse_pricing_spec, validate_pricing_spec, parse_meter, parse_quantity_meter, same_quantity_meter,
  same_rate_meter, safe_positive, safe_nonnegative, parse_basis, check_meter, check_rate_meter,
  validate_rate, validate_rates, check_rule, read_rates, js_text,
}
use apipool_v.Billing.Charge.{
  compute_pricing_charge, quantities, gather, nonzero, add_numerator, sum_ceilings, last_rate,
  is_rate_for, ceil_div, round_up, at_least_one,
}
use apipool_v.Gateway.Endpoints.{chat_completions}
use apipool_v.Gateway.Requests.{AdmissionInput, Request, Store, settled, from_response, takes_slot}
use apipool_v.Gateway.Admission.{
  new_request, admit_request, capture, capture_request_id, flags_column, distinct_flags,
}
use apipool_v.Gateway.Settlement.{
  Settling, SettlementUsage, done, already_finalized, make_bill, price_request, settle_request,
  charge_entry, is_overdrawn, freeze_overdrawn, settle_tx, commit_settlement, settle_row,
  settle_by_ledger_id, ledger_meter_columns, reasoning_tokens,
}
use apipool_v.Billing.Sku.{
  eq, sku, reject, evaluate_sku_rule, evaluate_rules, all_match, condition_matches, fact,
  render_output,
}
use apipool_v.Billing.Spec.{PricingSpec, unit, output_count, counted}
use apipool_v.Billing.Checked.{IsChecked}
use apipool_v.Gateway.Forward.{
  RequestMetadata, ForwardRoute, forward, evaluate_forward_admission, estimate_tokens,
  normalize_fact, facts_of, closes_long_context, admit_sku,
}
use apipool_v.Gateway.ForwardPriced.{forward_priced}
use apipool_v.Gateway.Requests.{Bill}
use apipool_v.Billing.Spec.{token}
use apipool_v.Billing.Charge.{legacy_billing_scheme}
use apipool_v.Gateway.Settles.{settle_goes_through}
use apipool_v.Gateway.Charging.{IsApart}
use apipool_v.Gateway.Once.{IsAlone, SettleEffect, settle_row-Effect, settle_again}
use apipool_v.Gateway.Lifecycle.{Reach, here, next, admit, captured, settle, Reach-IsConsistent}
use apipool_v.Gateway.Finality.{IsFinal, Reach-IsFinal, Reach-slots}

abbrev empty : Store
empty = record {
  wallet = record { accounts = []; ledger = []; audit = [] };
  requests = [];
  prices = record { id = "p"; pricing_spec_json = "spec" } ∷ [];
}

abbrev call : AdmissionInput
call = record {
  id = "r1";
  user_id = "u";
  portal_key_id = "key";
  portal_group_id = "group";
  portal_model_id = "model";
  newapi_group = "g";
  newapi_model_id = "m";
  credential_id = "c";
  route_version = 1;
  price_version_id = "p";
  endpoint = chat_completions;
  is_stream = false;
  sku_key = none;
}

abbrev waiting : Store
waiting = record empty { requests = new_request 3 call ∷ [] }

-- The call with the upstream's request id.
abbrev ready : Request
ready = capture 4 "n1" (new_request 3 call)

abbrev answered : Store
answered = record empty { requests = ready ∷ [] }

abbrev rate_json : Json
rate_json = object (
    field "meterKey" (string "input") (
      field "skuKey" (string "default") (
        field "unitSize" (number (integer (pos 1000000)))
          (field "priceMicroUsd" (number (integer (pos 1500))) end))))

abbrev spec_json : Json
spec_json = object (
    field "version" (number (integer (pos 1)))
      (field "basis" (string "token") (field "rates" (array (cons rate_json nil)) end)))

abbrev desk : Settling
desk = record {
  now = 5;
  uuid = "l1";
  freeze_threshold = 100;
  shown = λ n. "1";
  parse = λ raw. some spec_json;
  between = λ s. s;
  on_settled = λ s. ok s;
}

abbrev used : SettlementUsage
used = record {
  meters = (input, 4000) ∷ [];
  flags = [];
  web_search_count = 0;
  raw_usage = none;
  usage_source = from_response;
  sku_key = none;
  unit_count = none;
}

desk-IsApart : IsApart desk
desk-IsApart s s' h = ground arith

desk-IsAlone : IsAlone desk
desk-IsAlone s = refl

settled_now : (settle_row desk ready used answered).0 ≡ ok done
unfolding settle_row capture new_request price_request find_by has update_where parse_pricing_spec
    validate_pricing_spec get elems entries parse_meter parse_quantity_meter same_quantity_meter
    same_rate_meter safe_positive safe_nonnegative parse_basis check_meter check_rate_meter
    validate_rate validate_rates check_rule read_rates js_text make_bill compute_pricing_charge
    quantities gather nonzero add_numerator sum_ceilings last_rate is_rate_for ceil_div round_up
    at_least_one settle_request charge_entry is_overdrawn freeze_overdrawn settle_tx
    commit_settlement ledger_meter_columns reasoning_tokens sign_ok new_account
    ensure_wallet_account safe_amount lacks_operator credit entry_row insert_entry post_entry
    append_ledger_entry clashes is_refused flags_column distinct_flags meter? set_meter same_meter
    ◌+ℤ◌ neg
settled_now = refl

settle_row-Effect_example :
    SettleEffect desk ready used answered
      (settle_row desk ready used answered).0
      (settle_row desk ready used answered).1
settle_row-Effect_example = settle_row-Effect desk ready used answered desk-IsApart

settle_again_example :
    settle_by_ledger_id desk "r1"
      (record used { web_search_count = 9 })
      (settle_row desk ready used answered).1
    ≡ (ok already_finalized, (settle_row desk ready used answered).1)
unfolding capture new_request
settle_again_example =
    settle_again desk desk ready used (record used { web_search_count = 9 }) answered desk-IsApart
      settled_now

empty-IsConsistent : IsConsistent empty.wallet
unfolding balance_of sum_for
empty-IsConsistent = record { balanced = λ u. refl; running = tt; unique = tt }

abbrev captured_store : Store
captured_store = (capture_request_id 4 "r1" "n1" waiting).1

abbrev finished : Store
finished = (settle_row desk ready used captured_store).1

admitted_now : admit_request 3 call 2 empty ≡ ok (true, waiting)
unfolding admit_request count_where has new_request
admitted_now = refl

abbrev run : Reach empty finished
run =
    next (next (next here (admit 3 call 2 true waiting admitted_now)) (captured 4 "r1" "n1"))
      (settle desk ready used desk-IsApart desk-IsAlone)

Reach-IsConsistent_example : IsConsistent finished.wallet
Reach-IsConsistent_example = Reach-IsConsistent run empty-IsConsistent

Reach-slots_example : count_where (takes_slot "u") finished.requests ≤ 2
unfolding count_where
Reach-slots_example = Reach-slots "u" 2 run (((tt, omega arith), tt), tt) (omega arith)

abbrev ended : Request
ended = record (new_request 1 call) { status = settled }

abbrev ended_store : Store
ended_store = record empty { requests = ended ∷ [] }

abbrev second : AdmissionInput
second = record call { id = "r2" }

admitted_second :
    admit_request 3 second 2 ended_store
    ≡ ok (true, record ended_store { requests = new_request 3 second ∷ ended ∷ [] })
unfolding admit_request count_where has new_request
admitted_second = refl

abbrev second_run :
    Reach ended_store
      (capture_request_id 4 "r1" "n1"
        (record ended_store { requests = new_request 3 second ∷ ended ∷ [] })).1
second_run =
    next
      (next here (
        admit 3 second 2 true (record ended_store { requests = new_request 3 second ∷ ended ∷ [] })
          admitted_second))
      (captured 4 "r1" "n1")

Reach-IsFinal_example :
    IsFinal "r1" ended
      (capture_request_id 4 "r1" "n1"
        (record ended_store { requests = new_request 3 second ∷ ended ∷ [] })).1
unfolding find_by new_request
Reach-IsFinal_example = Reach-IsFinal "r1" ended second_run (record { found = refl; ended = refl })

abbrev image_spec : PricingSpec
image_spec = record {
  basis = unit;
  quantity_meter = some output_count;
  rates =
      record {
        meter_key = counted output_count;
        sku_key = "default";
        unit_size = 1;
        price_micro_usd = 40;
      }
      ∷ [];
  sku_rule = some (record {
    rules = record { conditions = eq "size" "big" ∷ []; output = reject } ∷ [];
    fallback = sku "default";
  });
}

image_spec-IsChecked : IsChecked image_spec
unfolding has same_rate_meter
image_spec-IsChecked = record {
  rates = (
    record {
      unit_positive = omega arith;
      unit_safe = omega arith;
      price_safe = omega arith;
      priced = λ e. omega arith;
      meter_fits = refl;
    },
    tt,
  );
  distinct = (refl, tt);
  some_rate = omega arith;
  few_rates = omega arith;
  basis = (output_count, refl, refl, refl, refl);
}

abbrev image_route : ForwardRoute
image_route = record {
  pricing_basis = unit;
  pricing_spec = image_spec;
  rates = λ key. none;
  admission_long_context_threshold = some (pos 1000);
  allow_long_context = false;
}

abbrev image_call : RequestMetadata
image_call = record {
  total_request_chars = 90;
  message_count = 1;
  has_server_tool = false;
  quality = none;
  size = some "small";
  resolution = none;
  format = none;
  voice = none;
}

image_forwarded :
    evaluate_forward_admission (λ v. v) image_call image_route ≡ forward (some "default") 164
unfolding evaluate_forward_admission estimate_tokens normalize_fact facts_of closes_long_context
    admit_sku evaluate_sku_rule evaluate_rules all_match condition_matches fact render_output has
    is_rate_for same_rate_meter same_quantity_meter ceil_div round_up
image_forwarded = refl

forward_priced_example :
    (charge : ℕ) × (compute_pricing_charge image_spec [] 0 (some "default") (some (integer (pos 2)))
      ≡ ok (charge, []))
forward_priced_example =
    forward_priced (λ v. v) image_call image_route "default" 164 [] 0 2 image_forwarded
      image_spec-IsChecked refl (omega arith) (omega arith)

abbrev ready_bill : Bill
ready_bill = record {
  billing_scheme = legacy_billing_scheme token;
  pricing_basis = token;
  quantity_meter = none;
  columns = record {
    uncached_input_tokens = 4000;
    cached_read_tokens = 0;
    cache_write_tokens = 0;
    cache_write_5m_tokens = 0;
    cache_write_1h_tokens = 0;
    output_tokens = 0;
    image_input_tokens = 0;
    cached_image_input_tokens = 0;
    image_output_tokens = 0;
  };
  reasoning_tokens = integer (pos 0);
  sku_key = none;
  unit_count = none;
  long_context_applied = false;
  web_search_count = 0;
  charged_micro_usd = 6;
}

priced_now : price_request desk ready used answered ≡ ok (ready_bill, [])
unfolding settle_row capture new_request price_request find_by has update_where parse_pricing_spec
    validate_pricing_spec get elems entries parse_meter parse_quantity_meter same_quantity_meter
    same_rate_meter safe_positive safe_nonnegative parse_basis check_meter check_rate_meter
    validate_rate validate_rates check_rule read_rates js_text make_bill compute_pricing_charge
    quantities gather nonzero add_numerator sum_ceilings last_rate is_rate_for ceil_div round_up
    at_least_one settle_request charge_entry is_overdrawn freeze_overdrawn settle_tx
    commit_settlement ledger_meter_columns reasoning_tokens sign_ok new_account
    ensure_wallet_account safe_amount lacks_operator credit entry_row insert_entry post_entry
    append_ledger_entry clashes is_refused flags_column distinct_flags meter? set_meter same_meter
    ◌+ℤ◌ neg
priced_now = refl

settle_goes_through_example : (settle_row desk ready used answered).0 ≡ ok done
unfolding capture new_request has
settle_goes_through_example =
    settle_goes_through desk ready used answered ready_bill [] desk-IsAlone (λ t. (t, refl)) refl
      refl refl priced_now tt
