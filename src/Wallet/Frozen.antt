-- ===== src/Wallet/Frozen.antt =====
-- Freezing and unfreezing: what a second call does, and that no balance moves.
use apipool_v.Base.{
  List, ℕ, String, Bool, false, Option, some, none, ok, ◌≡◌, refl, arith, Bool-cases,
  has-update_where, update_where-has, update_where, has, inl, inr, ◌&&◌, not,
}
use apipool_v.Wallet.Defs.{FreezeReason, Account, Wallet, WalletError, of_user}
use apipool_v.Wallet.Freeze.{
  is_blank, is_frozen, freeze_account, unfreeze_account, freeze_wallet, unfreeze_wallet,
}
use apipool_v.Wallet.Adjust.{record_audit}
use apipool_v.Wallet.Balance.{balance_of-keep, balance_of}

abbrev thawed : String → Account → Bool
thawed u a = of_user u a && not (is_frozen a)

abbrev frozen : String → Account → Bool
frozen u a = of_user u a && is_frozen a

freeze_account-thawed :
    (now : ℕ) (u : String) (reason : FreezeReason) (by : String) (a : Account)
    → thawed u (freeze_account now reason by a) ≡ false
unfolding freeze_account
freeze_account-thawed now u reason by a = ground arith

unfreeze_account-frozen :
    (now : ℕ) (u : String) (a : Account) → frozen u (unfreeze_account now a) ≡ false
unfolding unfreeze_account
unfreeze_account-frozen now u a = ground arith

-- A second freeze changes nothing and reports that: the time, the reason and the author of the
-- first one stand.
pub freeze_again :
    (now now' : ℕ) (u : String) (reason reason' : FreezeReason) (by by' : String) (w : Wallet)
    → let w' = (freeze_wallet now u reason by w).1 in
      freeze_wallet now' u reason' by' w' ≡ (false, w')
unfolding freeze_wallet
freeze_again now now' u reason reason' by by' w =
    let clear : has (thawed u) (update_where (thawed u) (freeze_account now reason by) w.accounts)
        ≡ false =
      has-update_where (thawed u) (freeze_account now reason by) w.accounts
        (freeze_account-thawed now u reason by) in
    let kept : update_where (thawed u) (freeze_account now' reason' by')
          (update_where (thawed u) (freeze_account now reason by) w.accounts)
        ≡ update_where (thawed u) (freeze_account now reason by) w.accounts =
      update_where-has (thawed u) (freeze_account now' reason' by') _ clear in
    rw (clear, kept) refl

updated-clear :
    (now : ℕ) (u : String) (accounts : List Account)
    → has (frozen u) (update_where (frozen u) (unfreeze_account now) accounts) ≡ false
updated-clear now u accounts =
    has-update_where (frozen u) (unfreeze_account now) accounts (unfreeze_account-frozen now u)

unfreeze-clear :
    (now : ℕ) (id : String) (fault : Option WalletError) (u operator reason : String) (w : Wallet)
    → is_blank reason ≡ false
    → has (frozen u) (unfreeze_wallet now id fault u operator reason w).1.accounts ≡ false
unfolding unfreeze_wallet record_audit
unfreeze-clear now id none u operator reason w given =
    let clear : has (frozen u) (update_where (frozen u) (unfreeze_account now) w.accounts) ≡ false =
      updated-clear now u w.accounts in
    elim (Bool-cases (has (frozen u) w.accounts)) [
      | inl some_frozen ↦ rw (given, some_frozen) clear
      | inr none_frozen ↦ rw (given, none_frozen) clear
    ]
unfreeze-clear now id (some e) u operator reason w given =
    let clear : has (frozen u) (update_where (frozen u) (unfreeze_account now) w.accounts) ≡ false =
      updated-clear now u w.accounts in
    elim (Bool-cases (has (frozen u) w.accounts)) [
      | inl some_frozen ↦ rw (given, some_frozen) clear
      | inr none_frozen ↦ rw (given, none_frozen) clear
    ]

unfreeze-nothing :
    (now : ℕ) (id : String) (fault : Option WalletError) (u operator reason : String) (w : Wallet)
    → is_blank reason ≡ false
    → has (frozen u) w.accounts ≡ false
    → unfreeze_wallet now id fault u operator reason w ≡ (ok false, w)
unfolding unfreeze_wallet
unfreeze-nothing now id fault u operator reason w given clear =
    let kept : update_where (frozen u) (unfreeze_account now) w.accounts ≡ w.accounts =
      update_where-has (frozen u) (unfreeze_account now) w.accounts clear in
    rw (given, clear, kept) refl

-- After an unfreeze with a reason, whether its audit row could be written or not, another one with
-- a reason reports that nothing was frozen and writes neither account nor audit row.
pub unfreeze_again :
    (now now' : ℕ) (id id' : String) (fault fault' : Option WalletError)
    (u operator operator' reason reason' : String) (w : Wallet)
    → is_blank reason ≡ false
    → is_blank reason' ≡ false
    → let w' = (unfreeze_wallet now id fault u operator reason w).1 in
      unfreeze_wallet now' id' fault' u operator' reason' w' ≡ (ok false, w')
unfreeze_again now now' id id' fault fault' u operator operator' reason reason' w given given' =
    unfreeze-nothing now' id' fault' u operator' reason' _ given'
      (unfreeze-clear now id fault u operator reason w given)

unfreeze-balance :
    (now : ℕ) (id : String) (fault : Option WalletError) (u operator reason v : String) (w : Wallet)
    → balance_of v (unfreeze_wallet now id fault u operator reason w).1.accounts
      ≡ balance_of v w.accounts
unfolding unfreeze_wallet record_audit unfreeze_account
unfreeze-balance now id fault u operator reason v w =
    let kept : balance_of v (update_where (frozen u) (unfreeze_account now) w.accounts)
        ≡ balance_of v w.accounts =
      balance_of-keep (frozen u) (unfreeze_account now) v w.accounts (λ a. (refl, refl)) in
    ground (arith, kept)

unfreeze-ledger :
    (now : ℕ) (id : String) (fault : Option WalletError) (u operator reason : String) (w : Wallet)
    → (unfreeze_wallet now id fault u operator reason w).1.ledger ≡ w.ledger
unfolding unfreeze_wallet record_audit
unfreeze-ledger now id fault u operator reason w = ground arith
