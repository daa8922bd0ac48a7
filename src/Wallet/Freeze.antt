-- ===== src/Wallet/Freeze.antt =====
-- src/features/wallet/server/freeze.ts: freezing and unfreezing an account.
use apipool_v.Base.{
  ℕ, String, Bool, true, false, ◌&&◌, ◌||◌, not, Option, none, some, Result, ok, err, if◌then◌else◌,
  leb, ◌==◌, update_where, has, is_some,
}
use apipool_v.Wallet.Defs.{FreezeReason, Account, Wallet, WalletError, reason_required, of_user}
use Prim.Native.Char.{code}
use apipool_v.Wallet.Adjust.{AuditInput, record_audit}

-- The characters that `trim` removes.
unfoldable pub is_space : ℕ → Bool
is_space c =
    leb 9 c && leb c 13
    || c == 32
    || c == 160
    || c == 0x1680
    || leb 0x2000 c && leb c 0x200a
    || c == 0x2028
    || c == 0x2029
    || c == 0x202f
    || c == 0x205f
    || c == 0x3000
    || c == 0xfeff

-- `!text.trim()`
unfoldable pub is_blank : String → Bool
unfolding is_space
is_blank String.[] = true
is_blank (String.◌∷◌ c s) = is_space (code c) && is_blank s

abbrev pub is_frozen : Account → Bool
is_frozen a = is_some a.frozen_at

unfoldable pub freeze_account : ℕ → FreezeReason → String → Account → Account
freeze_account now reason by a = record a {
  frozen_at = some now;
  freeze_reason = some reason;
  frozen_by = some by;
  updated_at = now;
}

unfoldable pub unfreeze_account : ℕ → Account → Account
unfreeze_account now a = record a {
  frozen_at = none;
  freeze_reason = none;
  frozen_by = none;
  updated_at = now;
}

unfoldable pub freeze_wallet : ℕ → String → FreezeReason → String → Wallet → Bool × Wallet
unfolding freeze_account
freeze_wallet now user_id reason by w =
    let thawed = λ (a : Account). of_user user_id a && not (is_frozen a) in
    (
      has thawed w.accounts,
      record w { accounts = update_where thawed (freeze_account now reason by) w.accounts },
    )

-- The audit row is written after the account, outside a transaction: `fault` is its failure.
unfoldable pub unfreeze_wallet :
    ℕ
    → String
    → Option WalletError
    → String
    → String
    → String
    → Wallet
    → Result WalletError Bool × Wallet
unfolding is_blank unfreeze_account record_audit
unfreeze_wallet now audit_uuid fault user_id operator reason w =
    let frozen = λ (a : Account). of_user user_id a && is_frozen a in
    let thawed = record w { accounts = update_where frozen (unfreeze_account now) w.accounts } in
    let audit : AuditInput = record {
      action = "wallet.unfreeze";
      target_type = "wallet_account";
      target_id = some user_id;
      before_json = none;
      after_json = none;
    } in
    if is_blank reason
    then (err reason_required, w)
    else if has frozen w.accounts
    then elim fault [
      | none ↦ (ok true, record_audit audit_uuid operator reason audit thawed)
      | some e ↦ (err e, thawed)
    ]
    else (ok false, thawed)
