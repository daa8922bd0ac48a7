-- ===== src/Wallet/Retry.antt =====
-- The retry loop of a manual adjustment: it rides out a busy database, and keeps the invariant.
use apipool_v.Base.{
  ℕ, zero, suc, ◌+◌, ◌≤◌, ◌<◌, String, none, ok, err, ◌==◌, ◌≡◌, sym, ◌∙◌, inl, inr, arith,
  Bool-cases,
}
use apipool_v.Base.Int.{ℤ}
use apipool_v.Wallet.Defs.{Wallet, sqlite_busy}
use mathlib.Core.Path.{subst}
use apipool_v.Wallet.Adjust.{
  Adjustment, Attempt, read_back, adjust_tx, applied_now, recover, adjust_rounds,
  apply_manual_adjustment,
}
use apipool_v.Wallet.Balance.{IsConsistent}
use apipool_v.Wallet.Commit.{
  Committed-IsConsistent, commit, stop, retry, adjust_rounds-Round, conflict, replay, loop,
  apply-Start,
}
use apipool_v.Wallet.Idempotency.{IsQuiet}

-- What others write keeps the invariant.
abbrev pub IsCareful : (ℕ → Attempt) → Type 0
IsCareful env =
    (n : ℕ) (w : Wallet)
    → IsConsistent w
    → IsConsistent ((env n).before_tx w) × IsConsistent ((env n).after_tx w)

module _ (env : ℕ → Attempt) (input : Adjustment) (careful : IsCareful env) where
  adjust_rounds-IsConsistent :
      (left attempt : ℕ) (w : Wallet)
      → IsConsistent w
      → IsConsistent (adjust_rounds left attempt env input w).1
  unfolding adjust_rounds
  adjust_rounds-IsConsistent zero attempt w k = k
  adjust_rounds-IsConsistent (suc left) attempt w k =
      let there = (careful attempt w k).0 in
      let back = (careful attempt ((env attempt).before_tx w) there).1 in
      elim (adjust_rounds-Round left attempt env input w) [
        | commit s v c q ↦
            subst (λ t. IsConsistent t.1) (sym q) (Committed-IsConsistent _ input _ v s c there)
        | stop x e f q ↦ subst (λ t. IsConsistent t.1) (sym q) back
        | retry q ↦
            subst (λ t. IsConsistent t.1) (sym q)
              (adjust_rounds-IsConsistent left (suc attempt) _ back)
      ]

  -- However an adjustment ends, accounts and ledger that are in step stay so, as long as the
  -- writes of others keep them in step.
  pub apply-IsConsistent :
      (w : Wallet) → IsConsistent w → IsConsistent (apply_manual_adjustment env input w).1
  apply-IsConsistent w k = elim (apply-Start env input w) [
    | conflict q ↦ subst (λ t. IsConsistent t.1) (sym q) k
    | replay row f q ↦ subst (λ t. IsConsistent t.1) (sym q) k
    | loop f q ↦ subst (λ t. IsConsistent t.1) (sym q) (adjust_rounds-IsConsistent 5 0 w k)
  ]

recover_busy :
    (attempt : ℕ) (input : Adjustment) (w : Wallet)
    → read_back input w ≡ ok none
    → attempt < 4
    → recover attempt input sqlite_busy w ≡ none
unfolding recover
recover_busy attempt input w new few = rw (new, recover) (ground arith)

module _ (env : ℕ → Attempt) (input : Adjustment) (quiet : IsQuiet env) (w : Wallet) where
  busy_round :
      (left attempt : ℕ)
      → read_back input w ≡ ok none
      → adjust_tx (env attempt) input w ≡ err sqlite_busy
      → attempt < 4
      → adjust_rounds (suc left) attempt env input w ≡ adjust_rounds left (suc attempt) env input w
  unfolding adjust_rounds
  busy_round left attempt new busy few =
      let there = (quiet attempt w).0 in
      rw
        (
          there,
          busy,
          there,
          (quiet attempt w).1,
          recover_busy attempt input w new few,
          adjust_rounds,
        )
        (rw (there, (quiet attempt w).1))

  last_round :
      (left attempt : ℕ) (r : String × ℤ) (w' : Wallet)
      → adjust_tx (env attempt) input w ≡ ok (r, w')
      → adjust_rounds (suc left) attempt env input w ≡ (ok (applied_now r), w')
  unfolding adjust_rounds
  last_round left attempt r w' done = rw ((quiet attempt w).0, done, adjust_rounds)

  rides_out :
      (left attempt k : ℕ) (r : String × ℤ) (w' : Wallet)
      → attempt ≤ k
      → k < attempt + left
      → k ≤ 4
      → read_back input w ≡ ok none
      → ((n : ℕ) → n < k → adjust_tx (env n) input w ≡ err sqlite_busy)
      → adjust_tx (env k) input w ≡ ok (r, w')
      → adjust_rounds left attempt env input w ≡ (ok (applied_now r), w')
  rides_out zero attempt k r w' low high few new busy done = absurd (omega arith)
  rides_out (suc left) attempt k r w' low high few new busy done =
      elim (Bool-cases (attempt == k)) [
        | inl here ↦
            let same : k ≡ attempt = ground arith in
            last_round left attempt r w'
              (subst (λ n. adjust_tx (env n) input w ≡ ok (r, w')) same done)
        | inr later ↦
            let below : attempt < k = ground arith in
            busy_round left attempt new (busy attempt below) (omega arith)
            ∙ rides_out left (suc attempt) k r w' below (omega arith) few new busy done
      ]

  -- A busy database does not lose an adjustment: when its key is new, nobody else writes, and at
  -- most the first four transactions meet a lock before one goes through, the call succeeds with
  -- what that transaction returned and wrote.
  pub apply_rides_out :
      (k : ℕ) (r : String × ℤ) (w' : Wallet)
      → k ≤ 4
      → read_back input w ≡ ok none
      → ((n : ℕ) → n < k → adjust_tx (env n) input w ≡ err sqlite_busy)
      → adjust_tx (env k) input w ≡ ok (r, w')
      → apply_manual_adjustment env input w ≡ (ok (applied_now r), w')
  unfolding apply_manual_adjustment
  apply_rides_out k r w' few new busy done =
      rw (new, apply_manual_adjustment)
        (rides_out 5 0 k r w' (omega arith) (omega arith) few new busy done)
