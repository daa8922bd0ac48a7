-- ===== src/Wallet/Ledger.antt =====
-- src/features/wallet/server/ledger.ts: entries of the wallet ledger, manual adjustments that are
-- applied once for each idempotency key, and the reversal of a charge.
-- A transaction is a function into a result: what it wrote is lost with an error. Generated ids,
-- the time, faults of the database and the writes of others between the steps are arguments.
use apipool_v.Base.{
  ℕ, String, Bool, false, ◌||◌, not, Option, none, some, ◌∷◌, Result, ok, err, ◌>>=◌, if◌then◌else◌,
  is_truthy, find_by, update_where, has,
}
use apipool_v.Base.Int.{ℤ, pos, ltb_ℤ, eqb_ℤ, ◌+ℤ◌}
use apipool_v.Base.Numbers.{JsNumber, integer, is_safe}
use apipool_v.Wallet.Defs.{
  EntryType, recharge, request_charge, manual_adjustment, Account, Entry, Wallet, WalletError,
  unsafe_amount, invalid_sign, missing_reason_or_operator, account_missing, constraint_failed,
  is_refused, of_user,
}

abbrev pub Tx : Type 0 → Type 0
Tx A = Result WalletError (A × Wallet)

-- `SIGN_OK`
unfoldable pub sign_ok : EntryType → ℤ → Bool
sign_ok recharge amount = ltb_ℤ (pos 0) amount
sign_ok request_charge amount = ltb_ℤ amount (pos 0)
sign_ok manual_adjustment amount = not (eqb_ℤ amount (pos 0))

unfoldable pub new_account : ℕ → String → Account
new_account now user_id = record {
  user_id = user_id;
  balance_micro_usd = pos 0;
  risk_limit_override = none;
  frozen_at = none;
  freeze_reason = none;
  frozen_by = none;
  updated_at = now;
}

-- An account that is there already is left alone.
unfoldable pub ensure_wallet_account : ℕ → String → Wallet → Wallet
unfolding new_account
ensure_wallet_account now user_id w =
    if has (of_user user_id) w.accounts
    then w
    else record w { accounts = new_account now user_id ∷ w.accounts }

unfoldable pub get_wallet_account : String → Wallet → Option Account
get_wallet_account user_id w = find_by (of_user user_id) w.accounts

pub record NewEntry : Type 0 where
  pub user_id : String
  pub entry_type : EntryType
  pub signed_amount_micro_usd : JsNumber
  pub request_ledger_id : Option String
  pub order_no : Option String
  pub idempotency_key : Option String
  pub operator_user_id : Option String
  pub reason : Option String

-- `Number.isSafeInteger(amount)`, with the integer where it is one.
unfoldable pub safe_amount : JsNumber → Option ℤ
safe_amount (integer z) = if is_safe z then some z else none
safe_amount _ = none

unfoldable pub lacks_operator : NewEntry → Bool
lacks_operator e = elim e.entry_type [
  | manual_adjustment ↦ not (is_truthy e.reason) || not (is_truthy e.operator_user_id)
  | _ ↦ false
]

unfoldable pub credit : ℕ → ℤ → Account → Account
credit now amount a = record a {
  balance_micro_usd = a.balance_micro_usd +ℤ amount;
  updated_at = now;
}

-- The row that is inserted, from the account as the update returned it.
unfoldable pub entry_row : String → NewEntry → ℤ → Account → Entry
entry_row id e amount account = record {
  id = id;
  user_id = e.user_id;
  entry_type = e.entry_type;
  signed_amount_micro_usd = amount;
  balance_after_micro_usd = account.balance_micro_usd;
  request_ledger_id = e.request_ledger_id;
  order_no = e.order_no;
  idempotency_key = e.idempotency_key;
  operator_user_id = e.operator_user_id;
  reason = e.reason;
}

unfoldable pub insert_entry : Entry → Wallet → Result WalletError Wallet
insert_entry row w =
    if is_refused row w.ledger
    then err constraint_failed
    else ok (record w { ledger = row ∷ w.ledger })

-- The update of the account and the insertion, once the entry has passed its checks.
unfoldable pub post_entry : ℕ → String → NewEntry → ℤ → Wallet → Tx (String × ℤ)
unfolding credit entry_row insert_entry
post_entry now id e amount w = elim (find_by (of_user e.user_id) w.accounts) [
  | none ↦ err (account_missing e.user_id)
  | some found ↦
      let account = credit now amount found in
      insert_entry (entry_row id e amount account)
        (record w { accounts = update_where (of_user e.user_id) (credit now amount) w.accounts })
      >>= λ w'. ok ((id, account.balance_micro_usd), w')
]

unfoldable pub append_ledger_entry : ℕ → String → NewEntry → Wallet → Tx (String × ℤ)
unfolding safe_amount sign_ok lacks_operator post_entry
append_ledger_entry now id e w = elim (safe_amount e.signed_amount_micro_usd) [
  | none ↦ err unsafe_amount
  | some amount ↦
      if not (sign_ok e.entry_type amount)
      then err (invalid_sign e.entry_type)
      else if lacks_operator e
      then err missing_reason_or_operator
      else post_entry now id e amount w
]
