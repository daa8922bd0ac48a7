-- ===== src/Wallet/Defs.antt =====
-- Rows and tables of the wallet (src/config/db/schema.sqlite.ts). Foreign keys are not checked here.
use apipool_v.Base.{ℕ, String, Bool, true, false, Option, List, ◌||◌, ◌&&◌, str_eq, has, some}
use apipool_v.Base.Int.{ℤ, pos, eqb_ℤ}
use apipool_v.Base.Json.{Json}

pub data EntryType : Type 0 where
  recharge request_charge manual_adjustment : EntryType

pub data FreezeReason : Type 0 where
  overdraft_auto manual refund_in_progress : FreezeReason

pub record Account : Type 0 where
  pub user_id : String
  pub balance_micro_usd : ℤ
  pub risk_limit_override : Option ℕ
  pub frozen_at : Option ℕ
  pub freeze_reason : Option FreezeReason
  pub frozen_by : Option String
  pub updated_at : ℕ

pub record Entry : Type 0 where
  pub id : String
  pub user_id : String
  pub entry_type : EntryType
  pub signed_amount_micro_usd : ℤ
  pub balance_after_micro_usd : ℤ
  pub request_ledger_id : Option String
  pub order_no : Option String
  pub idempotency_key : Option String
  pub operator_user_id : Option String
  pub reason : Option String

-- The two snapshots are kept as the values whose text the columns hold.
pub record AuditRow : Type 0 where
  pub id : String
  pub action : String
  pub operator_user_id : String
  pub target_type : String
  pub target_id : Option String
  pub before_json : Option Json
  pub after_json : Option Json
  pub reason : Option String

-- The newest row of a table stands first.
pub record Wallet : Type 0 where
  pub accounts : List Account
  pub ledger : List Entry
  pub audit : List AuditRow

pub data WalletError : Type 0 where
  unsafe_amount : WalletError
  invalid_sign : EntryType → WalletError
  missing_reason_or_operator : WalletError
  account_missing : String → WalletError
  constraint_failed : WalletError
  idempotency_conflict : WalletError
  sqlite_busy : WalletError
  database_failed : WalletError
  retry_exhausted : WalletError
  not_a_request_charge : WalletError
  reason_required : WalletError

abbrev pub is_recharge : EntryType → Bool
is_recharge recharge = true
is_recharge _ = false

abbrev pub is_request_charge : EntryType → Bool
is_request_charge request_charge = true
is_request_charge _ = false

-- A unique index does not compare null with null.
abbrev pub same_key : Option String → Option String → Bool
same_key (some a) (some b) = str_eq a b
same_key _ _ = false

-- The primary key and the three unique indexes of `wallet_ledger`, between two rows.
unfoldable pub clashes : Entry → Entry → Bool
clashes new old =
    str_eq old.id new.id
    || same_key old.idempotency_key new.idempotency_key
    || is_request_charge old.entry_type
      && is_request_charge new.entry_type
      && same_key old.request_ledger_id new.request_ledger_id
    || is_recharge old.entry_type
      && is_recharge new.entry_type
      && same_key old.order_no new.order_no

-- Whether the database refuses the row: a unique index, or the check that an amount is not 0.
unfoldable pub is_refused : Entry → List Entry → Bool
unfolding clashes
is_refused new rows = eqb_ℤ new.signed_amount_micro_usd (pos 0) || has (clashes new) rows

abbrev pub of_user : String → Account → Bool
of_user user_id account = str_eq account.user_id user_id
