-- ===== src/Gateway/Charging.antt =====
-- What a settlement has done when it reports success: one charge, one final row.
use apipool_v.Base.{
  Result-cases, ℕ, String, true, some, List, ◌∷◌, ok, if◌then◌else◌, str_eq, update_where, has, ◌≡◌,
  refl, ap, ◌∙◌, inl, inr, arith, Bool-cases,
}
use apipool_v.Base.Int.{ℤ, pos, neg, ◌+ℤ◌}
use apipool_v.Base.Numbers.{integer}
use apipool_v.Wallet.{Entry, Wallet, request_charge}
use apipool_v.Wallet.Ledger.{safe_amount, ensure_wallet_account, append_ledger_entry}
use apipool_v.Wallet.Balance.{
  balance_of, IsConsistent, Posted, append-Posted, Posted-IsConsistent, ensure-IsConsistent,
  ensure-ledger, balance_of-ensure, balance_of-keep, keep-IsConsistent,
}
use apipool_v.Billing.Usage.{Flag}
use apipool_v.Gateway.Requests.{Bill, Request, Store, is_live_row}
use apipool_v.Gateway.Settlement.{
  SettlementUsage, Settling, settle_request, charge_entry, freeze_overdrawn, settle_tx,
}

-- The callback of a settlement writes neither to the wallet nor to the requests.
abbrev pub IsApart : Settling → Type 0
IsApart env =
    (s s' : Store) → env.on_settled s ≡ ok s' → (s'.wallet ≡ s.wallet) × (s'.requests ≡ s.requests)

freeze_overdrawn-balance :
    (now threshold : ℕ) (user v : String) (w : Wallet)
    → balance_of v (freeze_overdrawn now threshold user w).accounts ≡ balance_of v w.accounts
unfolding freeze_overdrawn
freeze_overdrawn-balance now threshold user v w =
    balance_of-keep _ _ v w.accounts (λ a. (refl, refl))

freeze_overdrawn-ledger :
    (now threshold : ℕ) (user : String) (w : Wallet)
    → (freeze_overdrawn now threshold user w).ledger ≡ w.ledger
unfolding freeze_overdrawn
freeze_overdrawn-ledger now threshold user w = refl

safe_charge :
    (n : ℕ) (delta : ℤ) → safe_amount (integer (neg (pos n))) ≡ some delta → delta ≡ neg (pos n)
unfolding safe_amount
safe_charge n delta h = ground arith

-- From the store of the transaction to the store that it commits.
pub record Charged (ledger : Request) (usage : SettlementUsage) (bill : Bill) (s s' : Store)
    : Type 0 where
  pub live : has (is_live_row ledger.admitted.id) s.requests ≡ true
  pub now : ℕ
  pub flags : List Flag
  pub requests :
      s'.requests
      ≡ update_where
          (is_live_row ledger.admitted.id)
          (settle_request now usage bill flags)
          s.requests
  pub entry : Entry
  pub posted : s'.wallet.ledger ≡ entry ∷ s.wallet.ledger
  pub kind : entry.entry_type ≡ request_charge
  pub request : entry.request_ledger_id ≡ some ledger.admitted.id
  pub user : entry.user_id ≡ ledger.admitted.user_id
  pub amount : entry.signed_amount_micro_usd ≡ neg (pos bill.charged_micro_usd)
  pub balances :
      (v : String)
      → balance_of v s'.wallet.accounts ≡ (
          if str_eq ledger.admitted.user_id v
          then balance_of v s.wallet.accounts +ℤ neg (pos bill.charged_micro_usd)
          else balance_of v s.wallet.accounts)
  pub consistent : IsConsistent s.wallet → IsConsistent s'.wallet

module _ (env : Settling) (ledger : Request) (usage : SettlementUsage) (bill : Bill)
    (flags : List Flag) (apart : IsApart env) where
  abbrev before : Store → Wallet
  before s = ensure_wallet_account env.now ledger.admitted.user_id s.wallet

  abbrev after : Wallet → Store → Store
  after w s = record s {
    wallet = freeze_overdrawn env.now env.freeze_threshold ledger.admitted.user_id w;
    requests =
        update_where (is_live_row ledger.admitted.id) (settle_request env.now usage bill flags)
          s.requests;
  }

  Posted-Charged :
      (s s' : Store) (w : Wallet) (i : String) (b : ℤ) (delta : ℤ)
      → has (is_live_row ledger.admitted.id) s.requests ≡ true
      → delta ≡ neg (pos bill.charged_micro_usd)
      → Posted (charge_entry ledger bill.charged_micro_usd) delta (before s) w i b
      → (s'.wallet ≡ (after w s).wallet) × (s'.requests ≡ (after w s).requests)
      → Charged ledger usage bill s s'
  unfolding charge_entry
  Posted-Charged s s' w i b delta live same p kept =
      let balances : (v : String)
          → balance_of v s'.wallet.accounts ≡ (
              if str_eq ledger.admitted.user_id v
              then balance_of v s.wallet.accounts +ℤ neg (pos bill.charged_micro_usd)
              else balance_of v s.wallet.accounts) =
        λ v. rw (
          kept.0,
          freeze_overdrawn-balance,
          p.balances v,
          balance_of-ensure env.now ledger.admitted.user_id v s.wallet,
          same,
        ) in
      record {
        live = live;
        now = env.now;
        flags = flags;
        requests = kept.1;
        entry = p.row;
        posted = rw (kept.0, freeze_overdrawn-ledger, p.ledger, ensure-ledger);
        kind = p.kind;
        request = p.charged;
        user = p.user;
        amount = p.amount ∙ same;
        balances = balances;
        consistent = λ c.
            keep-IsConsistent w s'.wallet (λ v. rw (kept.0, freeze_overdrawn-balance))
              (rw (kept.0, freeze_overdrawn-ledger))
              (Posted-IsConsistent _ delta (before s) w i b p
                (ensure-IsConsistent env.now ledger.admitted.user_id s.wallet c));
      }

  pub settle_tx-Charged :
      (s s' : Store)
      → settle_tx env ledger usage bill flags s ≡ ok (some s')
      → Charged ledger usage bill s s'
  unfolding settle_tx
  settle_tx-Charged s s' h = elim (Bool-cases (has (is_live_row ledger.admitted.id) s.requests)) [
    | inr gone ↦ absurd (ground arith)
    | inl live ↦
        elim (Result-cases (
          append_ledger_entry env.now env.uuid (charge_entry ledger bill.charged_micro_usd)
            (before s))) [
              | inl (e, failed) ↦ absurd (ground arith)
              | inr (((i, b), w), posted) ↦ elim (Result-cases (env.on_settled (after w s))) [
                | inl (e, failed) ↦ absurd (ground arith)
                | inr (t, called) ↦
                    let (delta, safe, _, _, _, p) =
                      append-Posted env.now env.uuid (charge_entry ledger bill.charged_micro_usd)
                        (before s) w i b posted in
                    let same : t ≡ s' = ground arith in
                    Posted-Charged s s' w i b delta live
                      (safe_charge bill.charged_micro_usd delta (unfold charge_entry in safe)) p
                      (apart (after w s) s' (called ∙ ap ok same))
              ]
            ]
  ]
