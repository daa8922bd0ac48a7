-- ===== src/Gateway/Once.antt =====
-- A request is charged once: by what a settlement reports, and when it is sent again.
use apipool_v.Base.{
  Result-cases, ℕ, String, true, false, Option, none, some, List, [], ◌∷◌, Result, ok, err,
  is_truthy, find_by, update_where, has, ◌≡◌, refl, ◌⊎◌, inl, inr, Bool-cases,
}
use mathlib.Core.Path.{subst}
use apipool_v.Billing.Usage.{Flag}
use apipool_v.Gateway.Requests.{Bill, Request, Store, GatewayError, is_live, is_row, is_live_row}
use apipool_v.Gateway.Settlement.{
  SettlementUsage, SettleResult, done, already_finalized, not_found, Settling, settle_request,
  settle_tx, commit_settlement, price_request, settle_row, settle_by_ledger_id,
}
use apipool_v.Gateway.Charging.{IsApart, Charged, settle_tx-Charged}

-- Nobody else writes between the reads of a settlement and its transaction.
abbrev pub IsAlone : Settling → Type 0
IsAlone env = (s : Store) → env.between s ≡ s

-- What a settlement has done, by what it reports.
abbrev pub SettleEffect :
    Settling → Request → SettlementUsage → Store → Result GatewayError SettleResult → Store → Type 0
SettleEffect env ledger usage s (ok done) s' =
    (bill : Bill) × (flags : List Flag) × (price_request env ledger usage s ≡ ok (bill, flags))
    × Charged ledger usage bill (env.between s) s'
SettleEffect env ledger usage s (ok already_finalized) s' = (s' ≡ s) ⊎ (s' ≡ env.between s)
SettleEffect env ledger usage s (ok not_found) s' = s' ≡ s
SettleEffect env ledger usage s (err e) s' = (s' ≡ s) ⊎ (s' ≡ env.between s)

commit-Effect :
    (env : Settling) (ledger : Request) (usage : SettlementUsage) (s : Store) (bill : Bill)
    (flags : List Flag)
    → IsApart env
    → price_request env ledger usage s ≡ ok (bill, flags)
    → let r =
        commit_settlement (env.between s) (settle_tx env ledger usage bill flags (env.between s)) in
      SettleEffect env ledger usage s r.0 r.1
unfolding commit_settlement
commit-Effect env ledger usage s bill flags apart priced =
    go (settle_tx env ledger usage bill flags (env.between s)) refl
  where
    go :
        (t : Result GatewayError (Option Store))
        → settle_tx env ledger usage bill flags (env.between s) ≡ t
        → SettleEffect env ledger usage s
            (commit_settlement (env.between s) t).0
            (commit_settlement (env.between s) t).1
    go (err e) q = inr refl
    go (ok none) q = inr refl
    go (ok (some s')) q = (
      bill,
      flags,
      priced,
      settle_tx-Charged env ledger usage bill flags apart (env.between s) s' q,
    )

-- When the callback writes neither wallet nor requests, a settlement that reports success has
-- charged the row the computed price in one transaction; any other leaves the store as it is, or
-- as others have written it meanwhile.
pub settle_row-Effect :
    (env : Settling) (ledger : Request) (usage : SettlementUsage) (s : Store)
    → IsApart env
    → SettleEffect env ledger usage s
        (settle_row env ledger usage s).0
        (settle_row env ledger usage s).1
unfolding settle_row
settle_row-Effect env ledger usage s apart = elim (Bool-cases (is_live ledger.status)) [
  | inr final ↦ rw (final, settle_row) (inl refl)
  | inl live ↦ elim (Bool-cases (is_truthy ledger.newapi_request_id)) [
    | inr blank ↦ rw (live, blank, settle_row) (inl refl)
    | inl named ↦ elim (Result-cases (price_request env ledger usage s)) [
      | inl (e, bad) ↦ rw (live, named, bad, settle_row) (inl refl)
      | inr ((bill, flags), priced) ↦
          rw (live, named, priced, settle_row)
            (commit-Effect env ledger usage s bill flags apart priced)
    ]
  ]
]

-- Once a live row has been settled, the row that its id finds is final.
settled_row :
    (id : String) (now : ℕ) (usage : SettlementUsage) (bill : Bill) (flags : List Flag)
    (rows : List Request)
    → has (is_live_row id) rows ≡ true
    → (r : Request) × (find_by
          (is_row id)
          (update_where (is_live_row id) (settle_request now usage bill flags) rows)
        ≡ some r)
      × (is_live r.status ≡ false)
unfolding has find_by update_where settle_request
settled_row id now usage bill flags [] h = absurd (cc)
settled_row id now usage bill flags (r ∷ rows) h = elim (Bool-cases (is_row id r)) [
  | inl mine ↦ elim (Bool-cases (is_live r.status)) [
    | inl live ↦ (settle_request now usage bill flags r, rw (mine, live) (rw mine), refl)
    | inr final ↦ (r, rw (mine, final) (rw mine), final)
  ]
  | inr other ↦
      let (t, e, final) = settled_row id now usage bill flags rows (rw other at h) in
      (t, rw other (rw other e), final)
]

-- A request is charged once: when the callback writes neither wallet nor requests, after a
-- settlement that reports success every later one of the same row reports that it is finalized and
-- changes nothing, whatever usage it brings.
pub settle_again :
    (env env' : Settling) (ledger : Request) (usage usage' : SettlementUsage) (s : Store)
    → IsApart env
    → (settle_row env ledger usage s).0 ≡ ok done
    → let s' = (settle_row env ledger usage s).1 in
      settle_by_ledger_id env' ledger.admitted.id usage' s' ≡ (ok already_finalized, s')
unfolding settle_by_ledger_id settle_row
settle_again env env' ledger usage usage' s apart h =
    let (bill, flags, priced, c) =
      subst (λ x. SettleEffect env ledger usage s x (settle_row env ledger usage s).1) h
        (settle_row-Effect env ledger usage s apart) in
    let (r, found, final) =
      settled_row ledger.admitted.id c.now usage bill c.flags (env.between s).requests c.live in
    rw (c.requests, found, settle_by_ledger_id) (rw (final, settle_row))
