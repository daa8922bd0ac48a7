-- ===== src/Wallet/Adjust.antt =====
-- src/features/wallet/server/ledger.ts: manual adjustments, applied once for each idempotency key,
-- and the reversal of a charge. An `Attempt` is what one round of the retry loop does not decide:
-- the ids and the time, what others write before the transaction and before the row is read back,
-- and a fault of the database.
use apipool_v.Base.{
  ℕ, zero, suc, String, Bool, true, false, ◌&&◌, Option, none, some, ◌∷◌, Result, ok, err, ◌>>=◌,
  if◌then◌else◌, str_eq, is_text, ltb, find_by,
}
use apipool_v.Base.Int.{ℤ, pos, abs, eqb_ℤ}
use apipool_v.Base.Numbers.{JsNumber, integer}
use apipool_v.Base.Json.{Json, number, string, object, field, end}
use apipool_v.Wallet.Defs.{
  manual_adjustment, Entry, Wallet, WalletError, idempotency_conflict, sqlite_busy, retry_exhausted,
  not_a_request_charge, is_request_charge,
}
use apipool_v.Wallet.Ledger.{Tx, NewEntry, ensure_wallet_account, append_ledger_entry}
use Prim.Native.String.{◌++◌ as concat}

pub record AuditInput : Type 0 where
  pub action : String
  pub target_type : String
  pub target_id : Option String
  pub before_json : Option Json
  pub after_json : Option Json

pub record Adjustment : Type 0 where
  pub user_id : String
  pub signed_amount_micro_usd : JsNumber
  pub reason : String
  pub operator_user_id : String
  pub idempotency_key : String
  pub audit : Option AuditInput

pub record Applied : Type 0 where
  pub ledger_id : String
  pub balance_after_micro_usd : ℤ
  pub already_applied : Bool

pub record Attempt : Type 0 where
  pub now : ℕ
  pub ledger_uuid : String
  pub audit_uuid : String
  pub before_tx : Wallet → Wallet
  pub fault : Option WalletError
  pub after_tx : Wallet → Wallet

-- `a === b` between a stored integer and a number.
abbrev pub is_number : ℤ → JsNumber → Bool
is_number z (integer n) = eqb_ℤ z n
is_number z _ = false

unfoldable pub payload_matches : Adjustment → Entry → Bool
payload_matches input row =
    str_eq row.user_id input.user_id
    && is_number row.signed_amount_micro_usd input.signed_amount_micro_usd
    && is_text row.reason input.reason
    && is_text row.operator_user_id input.operator_user_id

abbrev pub has_key : String → Entry → Bool
has_key key row = is_text row.idempotency_key key

unfoldable pub read_back : Adjustment → Wallet → Result WalletError (Option Entry)
read_back input w = elim (find_by (has_key input.idempotency_key) w.ledger) [
  | none ↦ ok none
  | some row ↦ if payload_matches input row then ok (some row) else err idempotency_conflict
]

-- `recordPortalAdminAudit` of src/shared/models/portal-admin-audit.ts
unfoldable pub record_audit : String → String → String → AuditInput → Wallet → Wallet
record_audit uuid operator reason a w = record w {
  audit =
      record {
        id = uuid;
        action = a.action;
        operator_user_id = operator;
        target_type = a.target_type;
        target_id = a.target_id;
        before_json = a.before_json;
        after_json = a.after_json;
        reason = some reason;
      }
      ∷ w.audit;
}

unfoldable pub adjustment_entry : Adjustment → NewEntry
adjustment_entry input = record {
  user_id = input.user_id;
  entry_type = manual_adjustment;
  signed_amount_micro_usd = input.signed_amount_micro_usd;
  request_ledger_id = none;
  order_no = none;
  idempotency_key = some input.idempotency_key;
  operator_user_id = some input.operator_user_id;
  reason = some input.reason;
}

unfoldable pub audited : String → Adjustment → Wallet → Wallet
unfolding record_audit
audited uuid input w = elim input.audit [
  | none ↦ w
  | some a ↦ record_audit uuid input.operator_user_id input.reason a w
]

-- The body of the transaction, and its commit, which the database may refuse.
unfoldable pub adjust_tx : Attempt → Adjustment → Wallet → Tx (String × ℤ)
unfolding adjustment_entry audited
adjust_tx a input w =
    append_ledger_entry a.now a.ledger_uuid (adjustment_entry input)
      (ensure_wallet_account a.now input.user_id w)
    >>= λ r. elim a.fault [
      | none ↦ ok (r.0, audited a.audit_uuid input r.1)
      | some fault ↦ err fault
    ]

abbrev pub is_sqlite_busy : WalletError → Bool
is_sqlite_busy sqlite_busy = true
is_sqlite_busy _ = false

abbrev pub applied_before : Entry → Applied
applied_before row = record {
  ledger_id = row.id;
  balance_after_micro_usd = row.balance_after_micro_usd;
  already_applied = true;
}

abbrev pub applied_now : String × ℤ → Applied
applied_now (id, balance) = record {
  ledger_id = id;
  balance_after_micro_usd = balance;
  already_applied = false;
}

-- The `catch` of one round: `none` is the `continue` of the loop.
unfoldable pub recover : ℕ → Adjustment → WalletError → Wallet → Option (Result WalletError Applied)
recover attempt input e w = elim (read_back input w) [
  | err conflict ↦ some (err conflict)
  | ok (some row) ↦ some (ok (applied_before row))
  | ok none ↦ if is_sqlite_busy e && ltb attempt 4 then none else some (err e)
]

-- `for (let attempt = 0; attempt < 5; attempt += 1)`, on the rounds left.
unfoldable pub adjust_rounds :
    ℕ → ℕ → (ℕ → Attempt) → Adjustment → Wallet → Result WalletError Applied × Wallet
adjust_rounds zero attempt env input w = (err retry_exhausted, w)
adjust_rounds (suc left) attempt env input w =
    let a = env attempt in
    let before = a.before_tx w in
    let after = a.after_tx before in
    let again = adjust_rounds left (suc attempt) env input after in
    elim (adjust_tx a input before) [
      | ok (r, written) ↦ (ok (applied_now r), written)
      | err e ↦ elim (recover attempt input e after) [ some r ↦ (r, after) | none ↦ again ]
    ]

unfoldable pub apply_manual_adjustment :
    (ℕ → Attempt) → Adjustment → Wallet → Result WalletError Applied × Wallet
apply_manual_adjustment env input w = elim (read_back input w) [
  | err conflict ↦ (err conflict, w)
  | ok (some row) ↦ (ok (applied_before row), w)
  | ok none ↦ adjust_rounds 5 0 env input w
]

-- `reverse:${id}`
unfoldable pub reverse_key : String → String
reverse_key id = concat "reverse:" id

unfoldable pub reversal : String → Entry → Adjustment
unfolding reverse_key
reversal operator original =
    let amount = number (integer (pos (abs original.signed_amount_micro_usd))) in
    record {
      user_id = original.user_id;
      signed_amount_micro_usd = integer (pos (abs original.signed_amount_micro_usd));
      reason = reverse_key original.id;
      operator_user_id = operator;
      idempotency_key = reverse_key original.id;
      audit = some (record {
        action = "wallet.adjust";
        target_type = "wallet_account";
        target_id = some original.user_id;
        before_json = none;
        after_json = some (
            object (
              field "reverseWalletLedgerId" (string original.id)
                (field "signedAmountMicroUsd" amount end)));
      });
    }

unfoldable pub reverse_request_charge :
    (ℕ → Attempt) → String → String → Wallet → Result WalletError Applied × Wallet
reverse_request_charge env wallet_ledger_id operator w =
    elim (find_by (λ row. str_eq row.id wallet_ledger_id) w.ledger) [
      | none ↦ (err not_a_request_charge, w)
      | some original ↦
          if is_request_charge original.entry_type
          then apply_manual_adjustment env (reversal operator original) w
          else (err not_a_request_charge, w)
    ]
