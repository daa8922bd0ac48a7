-- ===== src/Gateway/Requests.antt =====
-- The request ledger of src/config/db/schema.sqlite.ts, and the store that the gateway's operations
-- share: the wallet tables, the requests and the price versions.
use apipool_v.Base.{ℕ, String, Bool, true, false, ◌&&◌, Option, List, str_eq}
use apipool_v.Base.Numbers.{JsNumber}
use apipool_v.Base.Json.{Json}
use apipool_v.Gateway.Endpoints.{EndpointKey}
use apipool_v.Wallet.{Wallet, WalletError}
use apipool_v.Billing.Usage.{Flag}
use apipool_v.Billing.Spec.{PricingBasis, QuantityMeter, SpecError}
use apipool_v.Billing.Charge.{BillingScheme}

pub data Status : Type 0 where
  opened pending_backfill settled failed_unbilled : Status

pub data UsageSource : Type 0 where
  from_response log_backfill : UsageSource

-- The nine token columns.
pub record MeterColumns : Type 0 where
  pub uncached_input_tokens : ℕ
  pub cached_read_tokens : ℕ
  pub cache_write_tokens : ℕ
  pub cache_write_5m_tokens : ℕ
  pub cache_write_1h_tokens : ℕ
  pub output_tokens : ℕ
  pub image_input_tokens : ℕ
  pub cached_image_input_tokens : ℕ
  pub image_output_tokens : ℕ

-- What admission writes.
pub record AdmissionInput : Type 0 where
  pub id : String
  pub user_id : String
  pub portal_key_id : String
  pub portal_group_id : String
  pub portal_model_id : String
  pub newapi_group : String
  pub newapi_model_id : String
  pub credential_id : String
  pub route_version : ℕ
  pub price_version_id : String
  pub endpoint : EndpointKey
  pub is_stream : Bool
  pub sku_key : Option String

-- What settlement writes.
pub record Bill : Type 0 where
  pub billing_scheme : BillingScheme
  pub pricing_basis : PricingBasis
  pub quantity_meter : Option QuantityMeter
  pub columns : MeterColumns
  pub reasoning_tokens : JsNumber
  pub sku_key : Option String
  pub unit_count : Option JsNumber
  pub long_context_applied : Bool
  pub web_search_count : ℕ
  pub charged_micro_usd : ℕ

-- A row; the columns that admission and settlement fill are kept together.
pub record Request : Type 0 where
  pub admitted : AdmissionInput
  pub status : Status
  pub newapi_request_id : Option String
  pub bill : Option Bill
  pub billing_scheme : Option BillingScheme
  pub http_status : Option ℕ
  pub error_code : Option String
  pub stream_aborted : Option Bool
  pub billing_flags : Option (List Flag)
  pub raw_usage : Option Json
  pub usage_source : Option UsageSource
  pub responded_at : Option ℕ
  pub finished_at : Option ℕ
  pub settled_at : Option ℕ
  pub created_at : ℕ
  pub updated_at : ℕ

pub record PriceVersion : Type 0 where
  pub id : String
  pub pricing_spec_json : String

pub record Store : Type 0 where
  pub wallet : Wallet
  pub requests : List Request
  pub prices : List PriceVersion

pub data GatewayError : Type 0 where
  constraint_failed not_captured price_missing charge_unsafe callback_failed : GatewayError
  wallet_error : WalletError → GatewayError
  spec_error : SpecError → GatewayError

-- `status IN ('open', 'pending_backfill')`
abbrev pub is_live : Status → Bool
is_live opened = true
is_live pending_backfill = true
is_live _ = false

abbrev pub is_opened : Status → Bool
is_opened opened = true
is_opened _ = false

abbrev pub is_row : String → Request → Bool
is_row id r = str_eq r.admitted.id id

abbrev pub is_live_row : String → Request → Bool
is_live_row id r = is_row id r && is_live r.status

-- A risk slot of the user: a request that may still be charged.
abbrev pub takes_slot : String → Request → Bool
takes_slot user_id r = str_eq r.admitted.user_id user_id && is_live r.status
