-- ===== src/Wallet/Commit.antt =====
-- What a committed adjustment has done, and how a round of its retry loop ends.
use apipool_v.Base.{
  ℕ, suc, String, true, Option, none, some, Result, ok, err, if◌then◌else◌, str_eq, find_by, ◌≡◌,
  refl, sym, arith, eq_refl,
}
use apipool_v.Base.Int.{ℤ, ◌+ℤ◌}
use apipool_v.Base.Numbers.{JsNumber, integer, fractional, infinite, nan}
use apipool_v.Wallet.Defs.{Entry, Wallet, WalletError, idempotency_conflict}
use mathlib.Core.Path.{subst}
use apipool_v.Wallet.Ledger.{Tx, safe_amount, ensure_wallet_account, append_ledger_entry}
use apipool_v.Wallet.Adjust.{
  Adjustment, Applied, Attempt, is_number, payload_matches, has_key, read_back, adjustment_entry,
  audited, adjust_tx, applied_before, applied_now, recover, adjust_rounds, apply_manual_adjustment,
}
use apipool_v.Wallet.Balance.{
  balance_of, IsConsistent, Posted, append-Posted, Posted-IsConsistent, ensure-IsConsistent,
  balance_of-ensure,
}

-- The first row under the input's key is the input's, and it is the one that `r` reports.
pub record IsRecorded (input : Adjustment) (r : Applied) (w : Wallet) : Type 0 where
  pub row : Entry
  pub found : find_by (has_key input.idempotency_key) w.ledger ≡ some row
  pub matches : payload_matches input row ≡ true
  pub row_id : r.ledger_id ≡ row.id
  pub balance : r.balance_after_micro_usd ≡ row.balance_after_micro_usd

pub audited-ledger :
    (uuid : String) (input : Adjustment) (w : Wallet) → (audited uuid input w).ledger ≡ w.ledger
unfolding audited
audited-ledger uuid input w = ground arith

pub audited-accounts :
    (uuid : String) (input : Adjustment) (w : Wallet) → (audited uuid input w).accounts ≡ w.accounts
unfolding audited
audited-accounts uuid input w = ground arith

-- What the transaction has done when it commits.
pub record Committed (a : Attempt) (input : Adjustment) (w w' : Wallet) (r : String × ℤ)
    : Type 0 where
  pub posted_in : Wallet
  pub delta : ℤ
  pub safe : safe_amount input.signed_amount_micro_usd ≡ some delta
  pub posted :
      Posted
        (adjustment_entry input)
        delta
        (ensure_wallet_account a.now input.user_id w)
        posted_in
        r.0
        r.1
  pub logged : w' ≡ audited a.audit_uuid input posted_in

commit_split :
    (fault : Option WalletError) (s r : String × ℤ) (v w' : Wallet)
    → ◌≡◌ {A = Tx (String × ℤ)} (elim fault [ none ↦ ok (s, v) | some e ↦ err e ]) (ok (r, w'))
    → (s ≡ r) × (w' ≡ v)
commit_split none s r v w' h = ground arith
commit_split (some e) s r v w' h = absurd (cc)

adjust_tx-Committed :
    (a : Attempt) (input : Adjustment) (w w' : Wallet) (r : String × ℤ)
    → adjust_tx a input w ≡ ok (r, w')
    → Committed a input w w' r
unfolding adjust_tx
adjust_tx-Committed a input w w' r h =
    go
      (append_ledger_entry a.now a.ledger_uuid (adjustment_entry input)
        (ensure_wallet_account a.now input.user_id w))
      refl
  where
    go :
        (res : Tx (String × ℤ))
        → append_ledger_entry a.now a.ledger_uuid
            (adjustment_entry input)
            (ensure_wallet_account a.now input.user_id w)
          ≡ res
        → Committed a input w w' r
    go (err e) q = absurd (ground arith)
    go (ok (s, posted)) q =
        let (delta, safe, _, _, _, p) =
          append-Posted a.now a.ledger_uuid (adjustment_entry input) _ posted s.0 s.1 q in
        let (same, logged) =
          commit_split a.fault s r (audited a.audit_uuid input posted) w'
            (rw (q, adjust_tx) at h) in
        record {
          posted_in = posted;
          delta = delta;
          safe = unfold adjustment_entry in safe;
          posted =
              subst
                (λ t.
                  Posted (adjustment_entry input) delta
                    (ensure_wallet_account a.now input.user_id w) posted t.0 t.1)
                same p;
          logged = logged;
        }

safe_amount-is_number :
    (n : JsNumber) (delta : ℤ) → safe_amount n ≡ some delta → is_number delta n ≡ true
unfolding safe_amount
safe_amount-is_number (integer z) delta h = ground arith
safe_amount-is_number (fractional f d) delta h = absurd (cc)
safe_amount-is_number (infinite p) delta h = absurd (cc)
safe_amount-is_number nan delta h = absurd (cc)

row_matches :
    (input : Adjustment) (row : Entry) (delta : ℤ)
    → safe_amount input.signed_amount_micro_usd ≡ some delta
    → row.user_id ≡ input.user_id
    → row.signed_amount_micro_usd ≡ delta
    → row.reason ≡ some input.reason
    → row.operator_user_id ≡ some input.operator_user_id
    → payload_matches input row ≡ true
unfolding payload_matches
row_matches input row delta safe u d r o =
    rw (u, d, r, o, eq_refl, eq_refl, eq_refl, safe_amount-is_number _ _ safe)

pub Committed-IsRecorded :
    (a : Attempt) (input : Adjustment) (w w' : Wallet) (r : String × ℤ)
    → Committed a input w w' r
    → IsRecorded input (applied_now r) w'
unfolding adjustment_entry find_by
Committed-IsRecorded a input w w' r c =
    let p = c.posted in
    record {
      row = p.row;
      found = rw (c.logged, audited-ledger, p.ledger, p.key, eq_refl);
      matches = row_matches input p.row c.delta c.safe p.user p.amount p.reason p.operator;
      row_id = sym p.row_id;
      balance = sym p.after;
    }

pub Committed-IsConsistent :
    (a : Attempt) (input : Adjustment) (w w' : Wallet) (r : String × ℤ)
    → Committed a input w w' r
    → IsConsistent w
    → IsConsistent w'
Committed-IsConsistent a input w w' r c k =
    let q : IsConsistent c.posted_in =
      Posted-IsConsistent _ c.delta _ c.posted_in _ _ c.posted
        (ensure-IsConsistent a.now input.user_id w k) in
    record {
      balanced = λ v. rw (c.logged, audited-ledger, audited-accounts) (q.balanced v);
      running = rw (c.logged, audited-ledger) q.running;
      unique = rw (c.logged, audited-ledger) q.unique;
    }

-- The user's balance moves by the amount, and nobody else's.
pub Committed-balances :
    (a : Attempt) (input : Adjustment) (w w' : Wallet) (r : String × ℤ)
    (c : Committed a input w w' r) (v : String)
    → balance_of v w'.accounts ≡ (
        if str_eq input.user_id v
        then balance_of v w.accounts +ℤ c.delta
        else balance_of v w.accounts)
unfolding adjustment_entry
Committed-balances a input w w' r c v =
    rw (c.logged, audited-accounts, c.posted.balances v, balance_of-ensure a.now input.user_id v w)

pub read_back-IsRecorded :
    (input : Adjustment) (w : Wallet) (row : Entry)
    → read_back input w ≡ ok (some row)
    → IsRecorded input (applied_before row) w
unfolding read_back
read_back-IsRecorded input w row h = record {
  row = row;
  found = ground arith;
  matches = ground arith;
  row_id = refl;
  balance = refl;
}

pub recover-IsRecorded :
    (attempt : ℕ) (input : Adjustment) (e : WalletError) (w : Wallet) (r : Applied)
    → recover attempt input e w ≡ some (ok r)
    → IsRecorded input r w
unfolding recover
recover-IsRecorded attempt input e w r h = go (read_back input w) refl
  where
    go : (b : Result WalletError (Option Entry)) → read_back input w ≡ b → IsRecorded input r w
    go (err c) q = absurd (ground arith)
    go (ok none) q = absurd (ground arith)
    go (ok (some row)) q =
        let same : applied_before row ≡ r = ground arith in
        subst (λ t. IsRecorded input t w) same (read_back-IsRecorded input w row q)

-- How one round of the loop ends.
pub data Round (left attempt : ℕ) (env : ℕ → Attempt) (input : Adjustment) (w : Wallet)
    (res : Result WalletError Applied × Wallet) : Type 0 where
  commit :
      (r : String × ℤ) (w' : Wallet)
      → Committed (env attempt) input ((env attempt).before_tx w) w' r
      → res ≡ (ok (applied_now r), w')
      → Round left attempt env input w res
  stop :
      (x : Result WalletError Applied) (e : WalletError)
      → recover attempt input e ((env attempt).after_tx ((env attempt).before_tx w)) ≡ some x
      → res ≡ (x, (env attempt).after_tx ((env attempt).before_tx w))
      → Round left attempt env input w res
  retry :
      res
        ≡ adjust_rounds left
            (suc attempt)
            env
            input
            ((env attempt).after_tx ((env attempt).before_tx w))
      → Round left attempt env input w res

pub adjust_rounds-Round :
    (left attempt : ℕ) (env : ℕ → Attempt) (input : Adjustment) (w : Wallet)
    → Round left attempt env input w (adjust_rounds (suc left) attempt env input w)
unfolding adjust_rounds
adjust_rounds-Round left attempt env input w =
    go (adjust_tx (env attempt) input ((env attempt).before_tx w)) refl
  where
    stopped :
        (e : WalletError) (x : Option (Result WalletError Applied))
        → adjust_tx (env attempt) input ((env attempt).before_tx w) ≡ err e
        → recover attempt input e ((env attempt).after_tx ((env attempt).before_tx w)) ≡ x
        → Round left attempt env input w (adjust_rounds (suc left) attempt env input w)
    stopped e none q s = retry (rw (q, adjust_rounds, s))
    stopped e (some x) q s = stop x e s (rw (q, adjust_rounds, s))

    go :
        (t : Tx (String × ℤ))
        → adjust_tx (env attempt) input ((env attempt).before_tx w) ≡ t
        → Round left attempt env input w (adjust_rounds (suc left) attempt env input w)
    go (ok (r, w')) q = commit r w' (adjust_tx-Committed _ input _ w' r q) (rw (q, adjust_rounds))
    go (err e) q = stopped e _ q refl

-- How an adjustment begins: with what is recorded under its key.
pub data Start (env : ℕ → Attempt) (input : Adjustment) (w : Wallet)
    (res : Result WalletError Applied × Wallet) : Type 0 where
  conflict : res ≡ (err idempotency_conflict, w) → Start env input w res
  replay :
      (row : Entry)
      → read_back input w ≡ ok (some row)
      → res ≡ (ok (applied_before row), w)
      → Start env input w res
  loop : read_back input w ≡ ok none → res ≡ adjust_rounds 5 0 env input w → Start env input w res

read_back-eq-err :
    (input : Adjustment) (w : Wallet) (e : WalletError)
    → read_back input w ≡ err e
    → e ≡ idempotency_conflict
unfolding read_back
read_back-eq-err input w e h = ground arith

pub apply-Start :
    (env : ℕ → Attempt) (input : Adjustment) (w : Wallet)
    → Start env input w (apply_manual_adjustment env input w)
unfolding apply_manual_adjustment
apply-Start env input w = go (read_back input w) refl
  where
    go :
        (b : Result WalletError (Option Entry))
        → read_back input w ≡ b
        → Start env input w (apply_manual_adjustment env input w)
    go (err e) q = conflict (rw (q, apply_manual_adjustment) (rw (read_back-eq-err input w e q)))
    go (ok none) q = loop q (rw (q, apply_manual_adjustment))
    go (ok (some row)) q = replay row q (rw (q, apply_manual_adjustment))
