-- ===== src/Wallet/Reversal.antt =====
-- The reversal of a charge: it gives back the charged amount, once.
use apipool_v.Base.{
  ℕ, String, true, Option, none, some, Result, ok, err, if◌then◌else◌, str_eq, is_text, find_by,
  ◌≡◌, sym, ap, ◌∙◌, inl, inr, arith, eq_iff, false, ◌⊎◌,
}
use mathlib.Core.Path.{subst}
use apipool_v.Base.Int.{ℤ, pos, abs, ◌+ℤ◌}
use apipool_v.Base.Numbers.{integer}
use apipool_v.Wallet.Ledger.{safe_amount}
use apipool_v.Wallet.Balance.{balance_of}
use apipool_v.Wallet.Defs.{Entry, Wallet, WalletError, idempotency_conflict, is_request_charge}
use apipool_v.Wallet.Adjust.{
  payload_matches, Applied, Attempt, apply_manual_adjustment, reverse_request_charge, reversal,
}
use apipool_v.Wallet.Idempotency.{IsQuiet, Effect, apply-Effect, apply-IsRecorded, apply_of_found}

-- The row that a reversal is about.
abbrev pub IsCharge : String → Entry → Wallet → Type 0
IsCharge id original w =
    (find_by (λ row. str_eq row.id id) w.ledger ≡ some original)
    × (is_request_charge original.entry_type ≡ true)

reverse-eq-apply :
    (env : ℕ → Attempt) (id operator : String) (original : Entry) (w : Wallet)
    → IsCharge id original w
    → reverse_request_charge env id operator w
      ≡ apply_manual_adjustment env (reversal operator original) w
unfolding reverse_request_charge
reverse-eq-apply env id operator original w (found, kind) = rw (found, kind, reverse_request_charge)

-- What a reversal leaves of the wallet, by how it ended: a failure or a repeated reversal nothing
-- new, a first one the charged amount on the account of the user whom the charge names.
abbrev pub Refunded : Entry → Wallet → Result WalletError Applied → Wallet → Type 0
Refunded charge w (err e) w' = w' ≡ w
Refunded charge w (ok r) w' =
    ((r.already_applied ≡ true) × (w' ≡ w))
    ⊎ ((r.already_applied ≡ false)
        × ((v : String)
            → balance_of v w'.accounts ≡ (
                if str_eq charge.user_id v
                then balance_of v w.accounts +ℤ pos (abs charge.signed_amount_micro_usd)
                else balance_of v w.accounts)))

exact_amount : (z delta : ℤ) → safe_amount (integer z) ≡ some delta → delta ≡ z
unfolding safe_amount
exact_amount z delta h = ground arith

Effect-Refunded :
    (operator : String) (original : Entry) (w : Wallet) (x : Result WalletError Applied)
    (w' : Wallet)
    → Effect (reversal operator original) w x w'
    → Refunded original w x w'
unfolding reversal
Effect-Refunded operator original w (err e) w' f = f
Effect-Refunded operator original w (ok r) w' (inl again) = inl again
Effect-Refunded operator original w (ok r) w' (inr (first, delta, safe, moves)) =
    let amount = exact_amount (pos (abs original.signed_amount_micro_usd)) delta safe in
    inr (
      first,
      λ v.
          subst
            (λ z. balance_of v w'.accounts ≡ (
              if str_eq original.user_id v
              then balance_of v w.accounts +ℤ z
              else balance_of v w.accounts))
            amount (moves v),
    )

-- Reversing a charge, when nobody else writes meanwhile: a failure or a reversal that was made
-- before changes nothing; otherwise the balance of the user whom the charge names rises by the
-- absolute value of the charge's amount, and no other balance moves.
pub reverse_gives_back :
    (env : ℕ → Attempt) (quiet : IsQuiet env) (id operator : String) (original : Entry) (w : Wallet)
    (x : Result WalletError Applied) (w' : Wallet)
    → IsCharge id original w
    → reverse_request_charge env id operator w ≡ (x, w')
    → Refunded original w x w'
reverse_gives_back env quiet id operator original w x w' c h =
    Effect-Refunded operator original w x w' (
      apply-Effect env (reversal operator original) quiet w x w'
        (sym (reverse-eq-apply env id operator original w c) ∙ h))

operator_text : (o : Option String) (t : String) → is_text o t ≡ true → o ≡ some t
operator_text none t h = absurd (cc)
operator_text (some s) t h = ap some ((eq_iff s t).0 h)

other_operator :
    (operator operator' : String) (original row : Entry)
    → payload_matches (reversal operator original) row ≡ true
    → payload_matches (reversal operator' original) row ≡ str_eq operator operator'
unfolding payload_matches reversal
other_operator operator operator' original row h = ground (
  arith,
  eq_iff operator operator',
  eq_iff operator' operator,
  operator_text row.operator_user_id operator,
)

-- Once a reversal has succeeded and the charge still stands in the ledger, another reversal of it
-- pays nothing: it reports the first if the same operator asks, and an idempotency conflict if
-- another does.
pub reverse_again :
    (env env' : ℕ → Attempt) (id operator operator' : String) (original : Entry) (w : Wallet)
    (r : Applied) (w' : Wallet)
    → IsCharge id original w
    → IsCharge id original w'
    → reverse_request_charge env id operator w ≡ (ok r, w')
    → reverse_request_charge env' id operator' w' ≡ (
      if str_eq operator operator'
          then ok (record r { already_applied = true })
          else err idempotency_conflict,
      w',
    )
unfolding reversal
reverse_again env env' id operator operator' original w r w' c c' h =
    let k =
      apply-IsRecorded env (reversal operator original) w r w'
        (sym (reverse-eq-apply env id operator original w c) ∙ h) in
    let same = other_operator operator operator' original k.row k.matches in
    reverse-eq-apply env' id operator' original w' c'
    ∙ apply_of_found env' (reversal operator' original) w' k.row k.found
    ∙ rw (same, k.row_id, k.balance)
