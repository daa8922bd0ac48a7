-- ===== src/Wallet/Tests.antt =====
-- Runs of the wallet on small tables.
use apipool_v.Base.{
  ℕ, zero, suc, true, false, none, some, [], ◌∷◌, ok, err, refl, ◌≡◌, ◌<◌, str_eq, arith,
}
use apipool_v.Base.Int.{pos, neg, ◌+ℤ◌}
use apipool_v.Base.{find_by, has, update_where}
use apipool_v.Base.Numbers.{integer}
use apipool_v.Wallet.{
  Wallet, Entry, request_charge, manual_adjustment, clashes, is_refused, sqlite_busy,
  idempotency_conflict,
}
use apipool_v.Wallet.Ledger.{
  sign_ok, new_account, ensure_wallet_account, safe_amount, lacks_operator, credit, entry_row,
  insert_entry, post_entry, append_ledger_entry,
}
use apipool_v.Wallet.Adjust.{
  Adjustment, Applied, Attempt, payload_matches, read_back, record_audit, adjustment_entry, audited,
  adjust_tx, applied_now, recover, adjust_rounds, apply_manual_adjustment, reverse_key, reversal,
  reverse_request_charge,
}
use apipool_v.Wallet.Balance.{
  IsConsistent, append-IsConsistent, ensure-IsConsistent, balance_of, sum_for,
}
use apipool_v.Wallet.Commit.{IsRecorded}
use apipool_v.Wallet.Idempotency.{IsQuiet, Effect, apply-IsRecorded, apply_again, apply-Effect}
use apipool_v.Wallet.Retry.{IsCareful, apply-IsConsistent, apply_rides_out}
use apipool_v.Wallet.Freeze.{is_space, is_blank, freeze_wallet, unfreeze_wallet}
use apipool_v.Wallet.Frozen.{freeze_again, unfreeze_again}
use apipool_v.Wallet.Amount.{max_adjustment_usd, parse_adjustment_amount}
use apipool_v.Wallet.AmountLaws.{parse_adjustment_amount_iff}
use apipool_v.Wallet.{manual, refund_in_progress}
use apipool_v.Base.{false, ◌≤◌, ◌↔◌}
use apipool_v.Base.Int.{abs, eqb_ℤ}
use apipool_v.Wallet.Reversal.{Refunded, reverse_gives_back, reverse_again}

abbrev no_rows : Wallet
no_rows = record { accounts = []; ledger = []; audit = [] }

no_rows-IsConsistent : IsConsistent no_rows
unfolding balance_of sum_for
no_rows-IsConsistent = record { balanced = λ u. refl; running = tt; unique = tt }

abbrev calm : ℕ → Attempt
calm n = record {
  now = n;
  ledger_uuid = "l1";
  audit_uuid = "a1";
  before_tx = λ w. w;
  fault = none;
  after_tx = λ w. w;
}

-- The first transaction meets a lock.
abbrev busy_first : ℕ → Attempt
busy_first zero = record (calm 0) { fault = some sqlite_busy }
busy_first (suc n) = record (calm (suc n)) { now = 9 }

calm-IsQuiet : IsQuiet calm
calm-IsQuiet n w = (refl, refl)

busy_first-IsQuiet : IsQuiet busy_first
busy_first-IsQuiet zero w = (refl, refl)
busy_first-IsQuiet (suc n) w = (refl, refl)

busy_first-IsCareful : IsCareful busy_first
busy_first-IsCareful zero w c = (c, c)
busy_first-IsCareful (suc n) w c = (c, c)

abbrev grant : Adjustment
grant = record {
  user_id = "u";
  signed_amount_micro_usd = integer (pos 500);
  reason = "gift";
  operator_user_id = "op";
  idempotency_key = "k";
  audit = none;
}

abbrev grant_row : Entry
grant_row = record {
  id = "l1";
  user_id = "u";
  entry_type = manual_adjustment;
  signed_amount_micro_usd = pos 500;
  balance_after_micro_usd = pos 500;
  request_ledger_id = none;
  order_no = none;
  idempotency_key = some "k";
  operator_user_id = some "op";
  reason = some "gift";
}

abbrev granted : Wallet
granted = record {
  accounts =
      record {
        user_id = "u";
        balance_micro_usd = pos 500;
        risk_limit_override = none;
        frozen_at = none;
        freeze_reason = none;
        frozen_by = none;
        updated_at = 0;
      }
      ∷ [];
  ledger = grant_row ∷ [];
  audit = [];
}

abbrev grant_result : Applied
grant_result = record {
  ledger_id = "l1";
  balance_after_micro_usd = pos 500;
  already_applied = false;
}

grant_runs : apply_manual_adjustment calm grant no_rows ≡ (ok grant_result, granted)
unfolding apply_manual_adjustment adjust_rounds adjust_tx append_ledger_entry sign_ok new_account
    ensure_wallet_account safe_amount lacks_operator credit entry_row insert_entry post_entry
    read_back adjustment_entry audited recover clashes is_refused find_by has update_where neg ◌+ℤ◌
    payload_matches record_audit
grant_runs = refl

granted-IsConsistent : IsConsistent granted
unfolding append_ledger_entry sign_ok safe_amount lacks_operator credit entry_row insert_entry
    post_entry adjustment_entry clashes is_refused find_by has update_where neg ◌+ℤ◌
    ensure_wallet_account new_account
granted-IsConsistent =
    append-IsConsistent 0 "l1" (adjustment_entry grant) (ensure_wallet_account 0 "u" no_rows)
      granted "l1" (pos 500) refl (ensure-IsConsistent 0 "u" no_rows no_rows-IsConsistent)

append_example : IsConsistent granted
unfolding append_ledger_entry sign_ok safe_amount lacks_operator credit entry_row insert_entry
    post_entry adjustment_entry clashes is_refused find_by has update_where neg ◌+ℤ◌
    ensure_wallet_account new_account
append_example =
    append-IsConsistent 0 "l1" (adjustment_entry grant) (ensure_wallet_account 0 "u" no_rows)
      granted "l1" (pos 500) refl (ensure-IsConsistent 0 "u" no_rows no_rows-IsConsistent)

apply-IsRecorded_example : IsRecorded grant grant_result granted
apply-IsRecorded_example = apply-IsRecorded calm grant no_rows grant_result granted grant_runs

apply_again_example :
    apply_manual_adjustment busy_first grant granted
    ≡ (ok (record grant_result { already_applied = true }), granted)
apply_again_example = apply_again calm busy_first grant no_rows grant_result granted grant_runs

apply-Effect_example : Effect grant no_rows (ok grant_result) granted
apply-Effect_example =
    apply-Effect calm grant calm-IsQuiet no_rows (ok grant_result) granted grant_runs

apply-IsConsistent_example : IsConsistent (apply_manual_adjustment busy_first grant no_rows).1
apply-IsConsistent_example =
    apply-IsConsistent busy_first grant busy_first-IsCareful no_rows no_rows-IsConsistent

abbrev granted_later : Wallet
granted_later = record granted {
  accounts =
      record {
        user_id = "u";
        balance_micro_usd = pos 500;
        risk_limit_override = none;
        frozen_at = none;
        freeze_reason = none;
        frozen_by = none;
        updated_at = 9;
      }
      ∷ [];
}

first_is_busy : (n : ℕ) → n < 1 → adjust_tx (busy_first n) grant no_rows ≡ err sqlite_busy
unfolding adjust_tx append_ledger_entry sign_ok new_account ensure_wallet_account safe_amount
    lacks_operator credit entry_row insert_entry post_entry read_back adjustment_entry audited
    clashes is_refused find_by has update_where neg ◌+ℤ◌
first_is_busy zero below = refl
first_is_busy (suc n) below = absurd (omega arith)

apply_rides_out_example :
    apply_manual_adjustment busy_first grant no_rows
    ≡ (ok (applied_now ("l1", pos 500)), granted_later)
unfolding adjust_tx append_ledger_entry sign_ok new_account ensure_wallet_account safe_amount
    lacks_operator credit entry_row insert_entry post_entry read_back adjustment_entry audited
    clashes is_refused find_by has update_where neg ◌+ℤ◌
apply_rides_out_example =
    apply_rides_out busy_first grant busy_first-IsQuiet no_rows 1 ("l1", pos 500) granted_later
      (omega arith) refl first_is_busy refl

abbrev charge_row : Entry
charge_row = record {
  id = "c1";
  user_id = "u";
  entry_type = request_charge;
  signed_amount_micro_usd = neg (pos 70);
  balance_after_micro_usd = neg (pos 70);
  request_ledger_id = some "r1";
  order_no = none;
  idempotency_key = none;
  operator_user_id = none;
  reason = none;
}

abbrev charged_once : Wallet
charged_once = record {
  accounts =
      record {
        user_id = "u";
        balance_micro_usd = neg (pos 70);
        risk_limit_override = none;
        frozen_at = none;
        freeze_reason = none;
        frozen_by = none;
        updated_at = 0;
      }
      ∷ [];
  ledger = charge_row ∷ [];
  audit = [];
}

abbrev refund_result : Applied
refund_result = record {
  ledger_id = "l1";
  balance_after_micro_usd = pos 0;
  already_applied = false;
}

abbrev refunded : Wallet
refunded = (reverse_request_charge calm "c1" "op" charged_once).1

refund_runs : reverse_request_charge calm "c1" "op" charged_once ≡ (ok refund_result, refunded)
unfolding adjust_tx append_ledger_entry sign_ok new_account ensure_wallet_account safe_amount
    lacks_operator credit entry_row insert_entry post_entry read_back adjustment_entry audited
    clashes is_refused find_by has update_where neg ◌+ℤ◌ reverse_request_charge reversal reverse_key
    apply_manual_adjustment adjust_rounds payload_matches record_audit recover
refund_runs = refl

refund_keeps : find_by (λ (row : Entry). str_eq row.id "c1") refunded.ledger ≡ some charge_row
unfolding adjust_tx append_ledger_entry sign_ok new_account ensure_wallet_account safe_amount
    lacks_operator credit entry_row insert_entry post_entry read_back adjustment_entry audited
    clashes is_refused find_by has update_where neg ◌+ℤ◌ reverse_request_charge reversal reverse_key
    apply_manual_adjustment adjust_rounds payload_matches record_audit recover
refund_keeps = refl

reverse_gives_back_example : Refunded charge_row charged_once (ok refund_result) refunded
unfolding find_by
reverse_gives_back_example =
    reverse_gives_back calm calm-IsQuiet "c1" "op" charge_row charged_once (ok refund_result)
      refunded (refl, refl) refund_runs

reverse_again_example :
    reverse_request_charge busy_first "c1" "other" refunded ≡ (err idempotency_conflict, refunded)
unfolding find_by
reverse_again_example =
    reverse_again calm busy_first "c1" "op" "other" charge_row charged_once refund_result refunded
      (refl, refl) (refund_keeps, refl) refund_runs

abbrev iced : Wallet
iced = (freeze_wallet 7 "u" manual "admin" granted).1

unfreeze_again_example :
    unfreeze_wallet 9 "a2" none "u" "op" "again"
      (unfreeze_wallet 8 "a1" none "u" "op" "paid" iced).1
    ≡ (ok false, (unfreeze_wallet 8 "a1" none "u" "op" "paid" iced).1)
unfolding is_blank is_space
unfreeze_again_example =
    unfreeze_again 8 9 "a1" "a2" none none "u" "op" "op" "paid" "again" iced refl refl

freeze_again_example :
    freeze_wallet 9 "u" refund_in_progress "op" (freeze_wallet 7 "u" manual "admin" granted).1
    ≡ (false, (freeze_wallet 7 "u" manual "admin" granted).1)
freeze_again_example = freeze_again 7 9 "u" manual refund_in_progress "admin" "op" granted

parse_adjustment_amount_iff_example :
    (parse_adjustment_amount (integer (pos 250)) ≡ ok (pos 250)) ↔ (
      (integer (pos 250) ≡ integer (pos 250))
      × (eqb_ℤ (pos 250) (pos 0) ≡ false)
      × (abs (pos 250) ≤ max_adjustment_usd))
parse_adjustment_amount_iff_example = parse_adjustment_amount_iff (integer (pos 250)) (pos 250)
