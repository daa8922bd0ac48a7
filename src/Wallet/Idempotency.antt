-- ===== src/Wallet/Idempotency.antt =====
-- A manual adjustment is applied once for each idempotency key, however often it is sent.
use apipool_v.Base.{
  ℕ, zero, suc, String, true, false, some, Result, ok, err, if◌then◌else◌, str_eq, find_by, ◌≡◌,
  refl, sym, ap, ◌∙◌, ◌⊎◌, inl, inr, arith, Bool-cases,
}
use apipool_v.Base.Int.{ℤ, ◌+ℤ◌}
use apipool_v.Wallet.Defs.{Entry, Wallet, WalletError, idempotency_conflict}
use mathlib.Core.Path.{subst, subst₂}
use apipool_v.Wallet.Ledger.{safe_amount}
use apipool_v.Wallet.Adjust.{
  Adjustment, Applied, Attempt, payload_matches, has_key, read_back, applied_before, recover,
  adjust_rounds, apply_manual_adjustment,
}
use apipool_v.Wallet.Balance.{balance_of}
use apipool_v.Wallet.Commit.{
  IsRecorded, Committed-IsRecorded, Committed-balances, read_back-IsRecorded, recover-IsRecorded,
  commit, stop, retry, adjust_rounds-Round, conflict, replay, loop, apply-Start,
}

ok-eq :
    {x y : Result WalletError Applied} {v w : Wallet}
    → ◌≡◌ {A = Result WalletError Applied × Wallet} (x, v) (y, w)
    → (x ≡ y) × (v ≡ w)
ok-eq h = (ap (λ t. t.0) h, ap (λ t. t.1) h)

module _ (env : ℕ → Attempt) (input : Adjustment) where
  adjust_rounds-IsRecorded :
      (left attempt : ℕ) (w : Wallet) (r : Applied) (w' : Wallet)
      → adjust_rounds left attempt env input w ≡ (ok r, w')
      → IsRecorded input r w'
  unfolding adjust_rounds
  adjust_rounds-IsRecorded zero attempt w r w' h = absurd (ground arith)
  adjust_rounds-IsRecorded (suc left) attempt w r w' h =
      elim (adjust_rounds-Round left attempt env input w) [
        | commit s v c q ↦
            let (same, at) = ok-eq (sym q ∙ h) in
            subst₂ (IsRecorded input) (ground arith) at (Committed-IsRecorded _ input _ v s c)
        | stop x e f q ↦
            let (same, at) = ok-eq (sym q ∙ h) in
            subst (IsRecorded input r) at
              (recover-IsRecorded attempt input e _ r (f ∙ ap some same))
        | retry q ↦ adjust_rounds-IsRecorded left (suc attempt) _ r w' (sym q ∙ h)
      ]

-- Whatever others write meanwhile and however often the database fails: when an adjustment
-- reports success, the ledger holds a row under its key, the row has the payload of the request,
-- and its id and balance are the ones reported.
pub apply-IsRecorded :
    (env : ℕ → Attempt) (input : Adjustment) (w : Wallet) (r : Applied) (w' : Wallet)
    → apply_manual_adjustment env input w ≡ (ok r, w')
    → IsRecorded input r w'
apply-IsRecorded env input w r w' h = elim (apply-Start env input w) [
  | conflict q ↦ let (same, at) = ok-eq (sym q ∙ h) in absurd (cc)
  | replay row f q ↦
      let (same, at) = ok-eq (sym q ∙ h) in
      subst₂ (IsRecorded input) (ground arith) at (read_back-IsRecorded input w row f)
  | loop f q ↦ adjust_rounds-IsRecorded env input 5 0 w r w' (sym q ∙ h)
]

-- What a call finds under its key decides it.
pub apply_of_found :
    (env : ℕ → Attempt) (input : Adjustment) (w : Wallet) (row : Entry)
    → find_by (has_key input.idempotency_key) w.ledger ≡ some row
    → apply_manual_adjustment env input w
      ≡ (if payload_matches input row then ok (applied_before row) else err idempotency_conflict, w)
unfolding apply_manual_adjustment read_back
apply_of_found env input w row found = elim (Bool-cases (payload_matches input row)) [
  | inl hit ↦ rw (found, hit, apply_manual_adjustment, read_back)
  | inr miss ↦ rw (found, miss, apply_manual_adjustment, read_back)
]

-- An adjustment that has reported success and is sent again reports the same row as applied
-- before, and changes nothing.
pub apply_again :
    (env env' : ℕ → Attempt) (input : Adjustment) (w : Wallet) (r : Applied) (w' : Wallet)
    → apply_manual_adjustment env input w ≡ (ok r, w')
    → apply_manual_adjustment env' input w' ≡ (ok (record r { already_applied = true }), w')
apply_again env env' input w r w' h =
    let k = apply-IsRecorded env input w r w' h in
    apply_of_found env' input w' k.row k.found ∙ rw (k.matches, k.row_id, k.balance)

-- Nobody else writes during the call.
abbrev pub IsQuiet : (ℕ → Attempt) → Type 0
IsQuiet env = (n : ℕ) (w : Wallet) → ((env n).before_tx w ≡ w) × ((env n).after_tx w ≡ w)

-- What a call has done to the wallet, by how it ended.
abbrev pub Effect : Adjustment → Wallet → Result WalletError Applied → Wallet → Type 0
Effect input w (err e) w' = w' ≡ w
Effect input w (ok r) w' =
    ((r.already_applied ≡ true) × (w' ≡ w))
    ⊎ ((r.already_applied ≡ false)
        × (delta : ℤ) × (safe_amount input.signed_amount_micro_usd ≡ some delta)
        × ((v : String)
            → balance_of v w'.accounts ≡ (
                if str_eq input.user_id v
                then balance_of v w.accounts +ℤ delta
                else balance_of v w.accounts)))

recover-Effect :
    (attempt : ℕ) (input : Adjustment) (e : WalletError) (w : Wallet)
    (x : Result WalletError Applied)
    → recover attempt input e w ≡ some x
    → Effect input w x w
unfolding recover read_back
recover-Effect attempt input e w (err f) h = refl
recover-Effect attempt input e w (ok r) h = inl (ground arith, refl)

module _ (env : ℕ → Attempt) (input : Adjustment) (quiet : IsQuiet env) where
  adjust_rounds-Effect :
      (left attempt : ℕ) (w : Wallet) (x : Result WalletError Applied) (w' : Wallet)
      → adjust_rounds left attempt env input w ≡ (x, w')
      → Effect input w x w'
  unfolding adjust_rounds
  adjust_rounds-Effect zero attempt w x w' h =
      let (same, at) = ok-eq h in subst₂ (Effect input w) same at refl
  adjust_rounds-Effect (suc left) attempt w x w' h =
      let there = (quiet attempt w).0 in
      let back : (env attempt).after_tx ((env attempt).before_tx w) ≡ w =
        rw there (quiet attempt w).1 in
      elim (adjust_rounds-Round left attempt env input w) [
        | commit s v c q ↦
            let (same, at) = ok-eq (sym q ∙ h) in
            subst₂ (Effect input w) same at
              (inr (refl, c.delta, c.safe, λ u. rw (Committed-balances _ input _ v s c u, there)))
        | stop y e f q ↦
            let (same, at) = ok-eq (sym q ∙ h) in
            subst₂ (Effect input w) same (sym back ∙ at)
              (recover-Effect attempt input e w y (rw back at f))
        | retry q ↦ adjust_rounds-Effect left (suc attempt) w x w' (rw back at (sym q ∙ h))
      ]

  -- When nobody else writes meanwhile, a call that fails changes nothing, a call that reports an
  -- earlier application changes nothing, and any other call moves the balance of its user by
  -- exactly the requested amount, whatever faults it met on the way, and no other balance.
  pub apply-Effect :
      (w : Wallet) (x : Result WalletError Applied) (w' : Wallet)
      → apply_manual_adjustment env input w ≡ (x, w')
      → Effect input w x w'
  apply-Effect w x w' h = elim (apply-Start env input w) [
    | conflict q ↦ let (same, at) = ok-eq (sym q ∙ h) in subst₂ (Effect input w) same at refl
    | replay row f q ↦
        let (same, at) = ok-eq (sym q ∙ h) in subst₂ (Effect input w) same at (inl (refl, refl))
    | loop f q ↦ adjust_rounds-Effect 5 0 w x w' (sym q ∙ h)
  ]
