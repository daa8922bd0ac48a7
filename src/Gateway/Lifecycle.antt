-- ===== src/Gateway/Lifecycle.antt =====
-- The life of a request as a step relation over the shared store, and what every run keeps.
use apipool_v.Base.{ℕ, String, Bool, Result, ok, err, ◌≡◌, refl, ◌∙◌, inl, inr, arith}
use mathlib.Core.Path.{subst}
use apipool_v.Wallet.Adjust.{Adjustment, Attempt, apply_manual_adjustment}
use apipool_v.Wallet.Balance.{IsConsistent}
use apipool_v.Wallet.Retry.{IsCareful, apply-IsConsistent}
use apipool_v.Gateway.Requests.{AdmissionInput, Bill, Request, Store, GatewayError}
use apipool_v.Gateway.Admission.{
  admit_request, capture_request_id, FailurePatch, mark_failed_unbilled,
}
use apipool_v.Gateway.Settlement.{
  SettlementUsage, SettleResult, done, already_finalized, not_found, Settling, settle_row,
}
use apipool_v.Gateway.Charging.{IsApart, Charged}
use apipool_v.Gateway.Once.{IsAlone, SettleEffect, settle_row-Effect}

-- One committed operation. Settlements and adjustments are those whose environment does nothing of
-- its own: what others do is further steps.
pub data Step (s : Store) : Store → Type 0 where
  admit :
      (now : ℕ) (input : AdmissionInput) (limit : ℕ) (b : Bool) (s' : Store)
      → admit_request now input limit s ≡ ok (b, s')
      → Step s s'
  captured : (now : ℕ) (id newapi_id : String) → Step s (capture_request_id now id newapi_id s).1
  failed :
      (now : ℕ) (id : String) (patch : FailurePatch)
      → Step s (mark_failed_unbilled now id patch s).1
  settle :
      (env : Settling) (ledger : Request) (usage : SettlementUsage)
      → IsApart env
      → IsAlone env
      → Step s (settle_row env ledger usage s).1
  adjust :
      (env : ℕ → Attempt) (input : Adjustment)
      → IsCareful env
      → Step s (record s { wallet = (apply_manual_adjustment env input s.wallet).1 })

pub data Reach (s : Store) : Store → Type 0 where
  here : Reach s s
  next : {t u : Store} → Reach s t → Step t u → Reach s u

-- What a settlement leaves: the store as it was, or the rows with the live one settled.
pub data Left (s s' : Store) : Type 0 where
  same : s' ≡ s → Left s s'
  charged :
      (ledger : Request) (usage : SettlementUsage) (bill : Bill)
      → Charged ledger usage bill s s'
      → Left s s'

pub settle-Left :
    (env : Settling) (ledger : Request) (usage : SettlementUsage) (s : Store)
    → IsApart env
    → IsAlone env
    → Left s (settle_row env ledger usage s).1
settle-Left env ledger usage s apart alone =
    go (settle_row env ledger usage s).0 (settle_row env ledger usage s).1
      (settle_row-Effect env ledger usage s apart)
  where
    go :
        (x : Result GatewayError SettleResult) (s' : Store)
        → SettleEffect env ledger usage s x s'
        → Left s s'
    go (err e) s' (inl p) = same p
    go (err e) s' (inr p) = same (p ∙ alone s)
    go (ok already_finalized) s' (inl p) = same p
    go (ok already_finalized) s' (inr p) = same (p ∙ alone s)
    go (ok not_found) s' p = same p
    go (ok done) s' (bill, flags, priced, c) =
        charged ledger usage bill (subst (λ t. Charged ledger usage bill t s') (alone s) c)

admit-wallet :
    (now : ℕ) (input : AdmissionInput) (limit : ℕ) (b : Bool) (s s' : Store)
    → admit_request now input limit s ≡ ok (b, s')
    → s'.wallet ≡ s.wallet
unfolding admit_request
admit-wallet now input limit b s s' h = ground arith

capture-wallet :
    (now : ℕ) (id newapi_id : String) (s : Store)
    → (capture_request_id now id newapi_id s).1.wallet ≡ s.wallet
unfolding capture_request_id
capture-wallet now id newapi_id s = ground arith

mark-wallet :
    (now : ℕ) (id : String) (patch : FailurePatch) (s : Store)
    → (mark_failed_unbilled now id patch s).1.wallet ≡ s.wallet
unfolding mark_failed_unbilled
mark-wallet now id patch s = refl

Step-IsConsistent : {s s' : Store} → Step s s' → IsConsistent s.wallet → IsConsistent s'.wallet
Step-IsConsistent {s} (admit now input limit b s' h) c =
    rw (admit-wallet now input limit b s s' h) c
Step-IsConsistent {s} (captured now id newapi_id) c = rw (capture-wallet now id newapi_id s) c
Step-IsConsistent {s} (failed now id patch) c = rw (mark-wallet now id patch s) c
Step-IsConsistent {s} (settle env ledger usage apart alone) c =
    elim (settle-Left env ledger usage s apart alone) [
      | same p ↦ rw p c
      | charged l u bill k ↦ k.consistent c
    ]
Step-IsConsistent {s} (adjust env input careful) c = apply-IsConsistent env input careful s.wallet c

-- In every run of admissions, captures, failures, settlements and adjustments that starts with
-- accounts and ledger in step, each balance stays the sum of its user's ledger entries, each entry
-- the balance it led to, and no two rows clash.
pub Reach-IsConsistent : {s t : Store} → Reach s t → IsConsistent s.wallet → IsConsistent t.wallet
Reach-IsConsistent here c = c
Reach-IsConsistent (next r st) c = Step-IsConsistent st (Reach-IsConsistent r c)
