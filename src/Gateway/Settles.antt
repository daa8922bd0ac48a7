-- ===== src/Gateway/Settles.antt =====
-- When a settlement goes through.
use apipool_v.Base.{
  ℕ, zero, suc, ◌≤◌, ◌<◌, String, true, false, ◌&&◌, Option, none, some, List, [], ◌∷◌, ok, All,
  has, Option-cases, ◌*◌, update_where, find_by, has-find_by, eq_refl, ◌≡◌, refl, inl, inr, arith,
  Bool-cases, Result-cases, is_truthy, or_else, str_eq, if◌then◌else◌, ltb,
}
use mathlib.Core.Path.{subst}
use apipool_v.Base.Int.{ℤ, pos, neg, eqb_ℤ, ltb_ℤ, pos_part}
use apipool_v.Base.Numbers.{JsNumber, integer, fractional, infinite, nan, max_safe, is_safe}
use apipool_v.Wallet.{
  Account, Entry, Wallet, request_charge, is_request_charge, same_key, clashes, is_refused, of_user,
}
use apipool_v.Wallet.Ledger.{
  safe_amount, sign_ok, lacks_operator, ensure_wallet_account, new_account, credit, entry_row,
  insert_entry, post_entry, append_ledger_entry,
}
use apipool_v.Wallet.Balance.{ensure-ledger}
use apipool_v.Billing.Usage.{Flag}
use apipool_v.Billing.Spec.{parse_pricing_spec, PricingSpec, is_token}
use apipool_v.Billing.Charge.{
  compute_pricing_charge, at_least_one, quantity_charge, gather, quantities, sum_ceilings, ceil_div,
  is_rate_for, sku_or_default,
}
use apipool_v.Billing.Meters.{MeterKey, MeterQuantities}
use apipool_v.Gateway.Requests.{PriceVersion, Bill, Request, Store, is_live, is_live_row}
use apipool_v.Gateway.Settlement.{
  Settling, SettlementUsage, done, make_bill, price_request, charge_entry, freeze_overdrawn,
  settle_request, settle_tx, settle_row, commit_settlement,
}
use apipool_v.Gateway.Once.{IsAlone}

-- A row that neither has the id nor is a charge of the request.
abbrev pub IsOther : String → String → Entry → Type 0
IsOther id request_id e =
    (str_eq e.id id ≡ false)
    × ((is_request_charge e.entry_type && same_key e.request_ledger_id (some request_id)) ≡ false)

charge_safe :
    (c : ℕ) → 0 < c → c ≤ max_safe → safe_amount (integer (neg (pos c))) ≡ some (neg (pos c))
unfolding safe_amount neg
charge_safe zero positive small = absurd (omega arith)
charge_safe (suc k) positive small = ground arith

charge_sign :
    (c : ℕ)
    → 0 < c
    → (sign_ok request_charge (neg (pos c)) ≡ true) × (eqb_ℤ (neg (pos c)) (pos 0) ≡ false)
unfolding sign_ok neg
charge_sign zero positive = absurd (omega arith)
charge_sign (suc k) positive = (ground arith, ground arith)

charge-fresh :
    (id : String) (ledger : Request) (c : ℕ) (a : Account) (rows : List Entry)
    → All (IsOther id ledger.admitted.id) rows
    → has (clashes (entry_row id (charge_entry ledger c) (neg (pos c)) a)) rows ≡ false
unfolding has clashes entry_row charge_entry
charge-fresh id ledger c a [] other = refl
charge-fresh id ledger c a (e ∷ rows) other =
    ground (arith, charge-fresh id ledger c a rows other.1)

ensured :
    (now : ℕ) (u : String) (w : Wallet)
    → (a : Account) × (find_by (of_user u) (ensure_wallet_account now u w).accounts ≡ some a)
unfolding ensure_wallet_account new_account find_by
ensured now u w = elim (Bool-cases (has (of_user u) w.accounts)) [
  | inl known ↦ let (a, e) = has-find_by (of_user u) w.accounts known in (a, rw known e)
  | inr unknown ↦ (new_account now u, rw (unknown, eq_refl u) refl)
]

charge_goes_through :
    (now : ℕ) (id : String) (ledger : Request) (c : ℕ) (w : Wallet)
    → 0 < c
    → c ≤ max_safe
    → All (IsOther id ledger.admitted.id) w.ledger
    → (r : (String × ℤ) × Wallet) × (append_ledger_entry now id
          (charge_entry ledger c)
          (ensure_wallet_account now ledger.admitted.user_id w)
        ≡ ok r)
unfolding append_ledger_entry lacks_operator post_entry insert_entry is_refused charge_entry
    entry_row
charge_goes_through now id ledger c w positive small other =
    let (a, known) = ensured now ledger.admitted.user_id w in
    let (sign, nonzero) = charge_sign c positive in
    let rows : (ensure_wallet_account now ledger.admitted.user_id w).ledger ≡ w.ledger =
      ensure-ledger now ledger.admitted.user_id w in
    let fresh : has
          (clashes
            (entry_row id (charge_entry ledger c) (neg (pos c)) (credit now (neg (pos c)) a)))
          w.ledger
        ≡ false =
      charge-fresh id ledger c (credit now (neg (pos c)) a) w.ledger other in
    let w1 : Wallet = ensure_wallet_account now ledger.admitted.user_id w in
    let amount : ℤ = neg (pos c) in
    let account : Account = credit now amount a in
    (
      (
        (id, account.balance_micro_usd),
        record w1 {
          accounts = update_where (of_user ledger.admitted.user_id) (credit now amount) w1.accounts;
          ledger = entry_row id (charge_entry ledger c) amount account ∷ w1.ledger;
        },
      ),
      rw
          (
            charge_safe c positive small,
            sign,
            known,
            rows,
            nonzero,
            fresh,
            append_ledger_entry,
            post_entry,
            insert_entry,
            is_refused,
          )
          refl,
    )

at_least_one-positive : (n : ℕ) → 0 < at_least_one n
unfolding at_least_one
at_least_one-positive n = ground arith

counted_positive :
    (spec : PricingSpec) (sku_key : Option String) (amount : Option JsNumber) (c : ℕ)
    (missing : List MeterKey)
    → quantity_charge spec sku_key amount ≡ ok (c, missing)
    → 0 < c
unfolding quantity_charge
counted_positive spec sku_key none c missing h = absurd (cc)
counted_positive spec sku_key (some (fractional floor digits)) c missing h = absurd (cc)
counted_positive spec sku_key (some (infinite sign)) c missing h = absurd (cc)
counted_positive spec sku_key (some nan) c missing h = absurd (cc)
counted_positive spec sku_key (some (integer z)) c missing h =
    elim (Bool-cases (is_safe z && ltb_ℤ (pos 0) z)) [
      | inl safe ↦
          elim (Option-cases
            (find_by (is_rate_for spec.quantity_meter (sku_or_default sku_key)) spec.rates)) [
              | inl unpriced ↦ absurd (ground arith)
              | inr (rate, e) ↦
                  elim (Result-cases
                    (ceil_div (pos_part z * rate.price_micro_usd) rate.unit_size)) [
                      | inl (e', thrown) ↦ absurd (ground arith)
                      | inr (n, divided) ↦
                          let same : at_least_one n ≡ c = ground arith in
                          subst (λ n. 0 < n) same (at_least_one-positive n)
                    ]
            ]
      | inr unsafe ↦ absurd (ground arith)
    ]

charge_positive :
    (spec : PricingSpec) (ms : MeterQuantities) (count : ℕ) (sku_key : Option String)
    (amount : Option JsNumber) (c : ℕ) (missing : List MeterKey)
    → compute_pricing_charge spec ms count sku_key amount ≡ ok (c, missing)
    → 0 < c
unfolding compute_pricing_charge
charge_positive spec ms count sku_key amount c missing h = elim (Bool-cases (is_token spec.basis)) [
  | inl by_token ↦ elim (Result-cases (gather spec.rates [] (quantities ms count))) [
    | inl (e, q) ↦ absurd (ground arith)
    | inr (r, q) ↦ elim (Result-cases (sum_ceilings r.0)) [
      | inl (e, thrown) ↦ absurd (ground arith)
      | inr (n, summed) ↦
          let same : at_least_one n ≡ c = ground arith in
          subst (λ n. 0 < n) same (at_least_one-positive n)
    ]
  ]
  | inr counted ↦ counted_positive spec sku_key amount c missing (ground arith)
]

-- The charge of a bill is a positive safe integer.
bill_charge :
    (spec : PricingSpec) (usage : SettlementUsage) (bill : Bill) (flags : List Flag)
    → make_bill spec usage ≡ ok (bill, flags)
    → (0 < bill.charged_micro_usd) × (bill.charged_micro_usd ≤ max_safe)
unfolding make_bill
bill_charge spec usage bill flags h =
    elim (Result-cases (
      compute_pricing_charge spec usage.meters usage.web_search_count
        (if is_token spec.basis then none else some (or_else usage.sku_key "default"))
        (if is_token spec.basis
          then none
          else some (or_else usage.unit_count (integer (pos 0)))))) [
            | inl (e, q) ↦ absurd (ground arith)
            | inr ((c, missing), q) ↦
                let positive : 0 < c =
                  charge_positive spec usage.meters usage.web_search_count _ _ c missing q in
                elim (Bool-cases (ltb max_safe c)) [
                  | inl big ↦ absurd (ground arith)
                  | inr small ↦
                      let same : c ≡ bill.charged_micro_usd = ground arith in
                      let bounded : c ≤ max_safe = ground arith in
                      subst (λ n. (0 < n) × (n ≤ max_safe)) same (positive, bounded)
                ]
          ]

priced_bill :
    (env : Settling) (ledger : Request) (usage : SettlementUsage) (s : Store) (bill : Bill)
    (flags : List Flag)
    → price_request env ledger usage s ≡ ok (bill, flags)
    → (0 < bill.charged_micro_usd) × (bill.charged_micro_usd ≤ max_safe)
unfolding price_request
priced_bill env ledger usage s bill flags h =
    elim (Option-cases
      (find_by (λ (p : PriceVersion). str_eq p.id ledger.admitted.price_version_id) s.prices)) [
        | inl missing ↦ absurd (ground arith)
        | inr (price, e) ↦
            elim (Result-cases (parse_pricing_spec env.shown env.parse price.pricing_spec_json)) [
              | inl (bad, q) ↦ absurd (ground arith)
              | inr (spec, q) ↦ bill_charge spec usage bill flags (ground arith)
            ]
      ]

tx_goes_through :
    (env : Settling) (ledger : Request) (usage : SettlementUsage) (s : Store) (bill : Bill)
    (flags : List Flag)
    → ((t : Store) → (t' : Store) × (env.on_settled t ≡ ok t'))
    → has (is_live_row ledger.admitted.id) s.requests ≡ true
    → (0 < bill.charged_micro_usd) × (bill.charged_micro_usd ≤ max_safe)
    → All (IsOther env.uuid ledger.admitted.id) s.wallet.ledger
    → (t : Store) × (settle_tx env ledger usage bill flags s ≡ ok (some t))
unfolding settle_tx
tx_goes_through env ledger usage s bill flags accepts present (positive, small) other =
    let (r, charged) =
      charge_goes_through env.now env.uuid ledger bill.charged_micro_usd s.wallet positive small
        other in
    let after : Store = record s {
      wallet = freeze_overdrawn env.now env.freeze_threshold ledger.admitted.user_id r.1;
      requests =
          update_where (is_live_row ledger.admitted.id) (settle_request env.now usage bill flags)
            s.requests;
    } in
    let (t, accepted) = accepts after in (t, rw (present, charged, accepted) refl)

-- A settlement goes through when nobody else writes meanwhile, the row is live and has the
-- upstream's id, the request can be priced, the callback accepts every store, and no ledger row has
-- the fresh id or charges this request.
pub settle_goes_through :
    (env : Settling) (ledger : Request) (usage : SettlementUsage) (s : Store) (bill : Bill)
    (flags : List Flag)
    → IsAlone env
    → ((t : Store) → (t' : Store) × (env.on_settled t ≡ ok t'))
    → has (is_live_row ledger.admitted.id) s.requests ≡ true
    → is_live ledger.status ≡ true
    → is_truthy ledger.newapi_request_id ≡ true
    → price_request env ledger usage s ≡ ok (bill, flags)
    → All (IsOther env.uuid ledger.admitted.id) s.wallet.ledger
    → (settle_row env ledger usage s).0 ≡ ok done
unfolding settle_row commit_settlement
settle_goes_through env ledger usage s bill flags alone accepts present live captured priced other =
    let (t, through) =
      tx_goes_through env ledger usage s bill flags accepts present
        (priced_bill env ledger usage s bill flags priced) other in
    rw (live, captured, priced, alone s, through) refl
