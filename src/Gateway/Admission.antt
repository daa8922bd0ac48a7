-- ===== src/Gateway/Admission.antt =====
-- src/features/gateway/server/admission.ts: the writes of a request's life before it is settled.
use apipool_v.Base.{
  ℕ, String, Bool, true, false, ◌&&◌, not, Option, none, some, List, [], ◌∷◌, Result, ok, err,
  if◌then◌else◌, is_text, ltb, find_by, update_where, has, count_where, is_some, or_else,
}
use apipool_v.Base.Json.{Json}
use apipool_v.Wallet.{of_user, Wallet}
use apipool_v.Billing.Usage.{Flag, same_flag}
use apipool_v.Billing.Charge.{BillingScheme}
use apipool_v.Gateway.Requests.{
  opened, failed_unbilled, UsageSource, AdmissionInput, Request, Store, GatewayError,
  constraint_failed, is_opened, is_row, is_live_row, takes_slot,
}

unfoldable pub new_request : ℕ → AdmissionInput → Request
new_request now input = record {
  admitted = input;
  status = opened;
  newapi_request_id = none;
  bill = none;
  billing_scheme = none;
  http_status = none;
  error_code = none;
  stream_aborted = none;
  billing_flags = none;
  raw_usage = none;
  usage_source = none;
  responded_at = none;
  finished_at = none;
  settled_at = none;
  created_at = now;
  updated_at = now;
}

-- `INSERT … SELECT … WHERE (SELECT COUNT(*) …) < limit`: whether a row was written.
unfoldable pub admit_request : ℕ → AdmissionInput → ℕ → Store → Result GatewayError (Bool × Store)
unfolding new_request
admit_request now input risk_limit s =
    if ltb (count_where (takes_slot input.user_id) s.requests) risk_limit
    then if has (is_row input.id) s.requests
      then err constraint_failed
      else ok (true, record s { requests = new_request now input ∷ s.requests })
    else ok (false, s)

-- `default_limit` is the configured `riskSlotLimit`.
unfoldable pub resolve_risk_limit : ℕ → String → Wallet → ℕ
resolve_risk_limit default_limit user_id w = elim (find_by (of_user user_id) w.accounts) [
  | none ↦ default_limit
  | some account ↦ or_else account.risk_limit_override default_limit
]

abbrev pub awaits_id : String → Request → Bool
awaits_id id r = is_row id r && is_opened r.status && not (is_some r.newapi_request_id)

abbrev pub has_newapi_id : String → Request → Bool
has_newapi_id newapi_id r = is_text r.newapi_request_id newapi_id

unfoldable pub capture : ℕ → String → Request → Request
capture now newapi_id r = record r {
  newapi_request_id = some newapi_id;
  responded_at = some now;
  updated_at = now;
}

-- The unique index on the id makes the update fail, which reads as "not captured".
unfoldable pub capture_request_id : ℕ → String → String → Store → Bool × Store
unfolding capture
capture_request_id now ledger_id newapi_id s =
    if has (awaits_id ledger_id) s.requests && not (has (has_newapi_id newapi_id) s.requests)
    then (
      true,
      record s { requests = update_where (awaits_id ledger_id) (capture now newapi_id) s.requests },
    )
    else (false, s)

-- `none` is a field that the patch leaves out: the column keeps its value.
pub record FailurePatch : Type 0 where
  pub http_status : Option ℕ
  pub error_code : Option String
  pub stream_aborted : Option Bool
  pub billing_scheme : Option BillingScheme
  pub billing_flags : List Flag
  pub raw_usage : Option Json
  pub usage_source : Option UsageSource

abbrev pub patched {ℓ} : {A : Type ℓ} → Option A → Option A → Option A
patched none old = old
patched (some a) old = some a

-- `[...new Set(flags)]`
unfoldable pub distinct_flags : List Flag → List Flag → List Flag
distinct_flags seen [] = []
distinct_flags seen (f ∷ fs) = elim (has (same_flag f) seen) [
  | true ↦ distinct_flags seen fs
  | false ↦ f ∷ distinct_flags (f ∷ seen) fs
]

-- The flags as a column: null where there are none.
unfoldable pub flags_column : List Flag → Option (List Flag)
flags_column [] = none
flags_column (f ∷ fs) = some (distinct_flags [] (f ∷ fs))

unfoldable pub fail_request : ℕ → FailurePatch → Request → Request
fail_request now patch r = record r {
  status = failed_unbilled;
  finished_at = some now;
  updated_at = now;
  http_status = patched patch.http_status r.http_status;
  error_code = patched patch.error_code r.error_code;
  stream_aborted = patched patch.stream_aborted r.stream_aborted;
  billing_scheme = patched patch.billing_scheme r.billing_scheme;
  billing_flags = patched (flags_column patch.billing_flags) r.billing_flags;
  raw_usage = patched patch.raw_usage r.raw_usage;
  usage_source = patched patch.usage_source r.usage_source;
}

unfoldable pub mark_failed_unbilled : ℕ → String → FailurePatch → Store → Bool × Store
unfolding fail_request
mark_failed_unbilled now ledger_id patch s = (
  has (is_live_row ledger_id) s.requests,
  record s { requests = update_where (is_live_row ledger_id) (fail_request now patch) s.requests },
)
