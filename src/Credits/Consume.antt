-- ===== src/Credits/Consume.antt =====
-- What `consumeCredits` promises, seen from the balances.
use apipool_v.Base.{
  ℕ, suc, ◌≤◌, ◌<◌, String, Bool, false, [], ◌∷◌, Result, ok, err, >>=-eq-ok, ◌==◌, length, ◌≡◌,
  refl, sym, ap, ◌∙◌, inl, inr, arith, Bool-cases,
}
use mathlib.Core.Path.{subst}
use apipool_v.Credits.Defs.{
  Credit, Credits, CreditError, too_many_batches, Consuming, sum_remaining, take, consume_batch,
  get_batch, after_batch, consume_rounds, batch_size, get_remaining_credits,
}
use apipool_v.Credits.Rows.{HasUniqueIds, take-all, take-take, length_of_sum, length-take}
use apipool_v.Credits.Paying.{IsReady, Drained, consume_batch-Drained}
use apipool_v.Credits.Rounds.{
  consume_batch-too_many, consume_batch-enough, get_batch-IsReady, available_in_order, first_batch,
  first_batch-left, sum_in_order,
}

abbrev pub start : Credits → ℕ → Consuming
start rows n = record { rows = rows; remaining_to_consume = n; batch_no = 1; consumed_items = [] }

-- The first `n` rows that are used up, by what remains of them.
abbrev pub sum_of_first : (Credit → Credit → Bool) → String → ℕ → ℕ → Credits → ℕ
sum_of_first before u now n rows = sum_remaining (take n (available_in_order before u now rows))

after_batch-err :
    (items : Credits) (st : Consuming) (k : Consuming → Result CreditError Consuming)
    (e : CreditError)
    → consume_batch items st ≡ err e
    → after_batch items st k ≡ err e
unfolding after_batch consume_batch
after_batch-err [] st k e h = absurd (cc)
after_batch-err (c ∷ cs) st k e h = rw h refl

after_batch-ok :
    (items : Credits) (st mid : Consuming) (k : Consuming → Result CreditError Consuming)
    → consume_batch items st ≡ ok mid
    → k mid ≡ ok mid
    → (st' : Consuming) × (after_batch items st k ≡ ok st')
unfolding after_batch
after_batch-ok [] st mid k h next_ok = (st, refl)
after_batch-ok (c ∷ cs) st mid k h next_ok = (mid, rw h next_ok)

module _ (before : Credit → Credit → Bool) (u : String) (now : ℕ) (rows : Credits) where
  rounds_stop :
      (fuel : ℕ) (st : Consuming)
      → st.remaining_to_consume ≡ 0
      → consume_rounds before u now (suc fuel) st ≡ ok st
  unfolding consume_rounds
  rounds_stop fuel st z = ground arith

  rest_ok :
      (fuel : ℕ) (st st' : Consuming)
      → st.remaining_to_consume ≡ 0
      → consume_rounds before u now (suc fuel) st ≡ ok st'
      → st ≡ st'
  unfolding consume_rounds
  rest_ok fuel st st' z h = ground arith

  first_round-left :
      (fuel n : ℕ) (items : Credits) (st' : Consuming)
      → take batch_size (available_in_order before u now rows) ≡ items
      → HasUniqueIds rows
      → n ≤ get_remaining_credits now u rows
      → 0 < n
      → after_batch items (start rows n) (λ t. consume_rounds before u now (suc fuel) t) ≡ ok st'
      → st'.remaining_to_consume ≡ 0
  unfolding after_batch sum_remaining
  first_round-left fuel n [] st' e unique covered positive h =
      let whole : take batch_size (available_in_order before u now rows)
          ≡ available_in_order before u now rows =
        take-all batch_size _ (rw e (omega arith)) in
      let nothing : get_remaining_credits now u rows ≡ 0 =
        sym (sum_in_order before u now rows) ∙ ap sum_remaining (sym whole ∙ e) in
      absurd (omega arith)
  first_round-left fuel n (c ∷ cs) st' e unique covered positive h =
      let (mid, q, later) =
        >>=-eq-ok (consume_batch (c ∷ cs) (start rows n))
          (λ t. consume_rounds before u now (suc fuel) t) h in
      let d : Drained u now (c ∷ cs) (start rows n) mid =
        consume_batch-Drained u now (c ∷ cs) (start rows n) mid
          (subst (λ t. IsReady u now rows t) (first_batch before u now rows ∙ e)
            (get_batch-IsReady before u now 1 rows unique))
          q in
      let z : mid.remaining_to_consume ≡ 0 =
        first_batch-left before u now (c ∷ cs) (start rows n) mid e refl covered d in
      subst (λ t. t.remaining_to_consume ≡ 0) (rest_ok fuel mid st' z later) z

  pub rounds-left :
      (fuel n : ℕ) (st' : Consuming)
      → HasUniqueIds rows
      → n ≤ get_remaining_credits now u rows
      → consume_rounds before u now (suc (suc fuel)) (start rows n) ≡ ok st'
      → st'.remaining_to_consume ≡ 0
  unfolding consume_rounds
  rounds-left fuel n st' unique covered h = elim (Bool-cases (n == 0)) [
    | inl none_left ↦
        let same : start rows n ≡ st' = ground arith in
        subst (λ t. t.remaining_to_consume ≡ 0) same (ground arith)
    | inr more ↦
        first_round-left fuel n (get_batch before u now 1 rows) st'
          (sym (first_batch before u now rows)) unique covered (ground arith) (ground arith)
  ]

  -- Ten rows or more are too many.
  pub rounds-too_many :
      (fuel n : ℕ)
      → sum_of_first before u now 9 rows < n
      → n ≤ get_remaining_credits now u rows
      → consume_rounds before u now (suc fuel) (start rows n) ≡ err too_many_batches
  unfolding consume_rounds
  rounds-too_many fuel n few covered =
      let batch : get_batch before u now 1 rows
          ≡ take batch_size (available_in_order before u now rows) =
        first_batch before u now rows in
      let cut : take 9 (take batch_size (available_in_order before u now rows))
          ≡ take 9 (available_in_order before u now rows) =
        take-take 9 batch_size _ (omega arith) in
      let long : 9 < length (available_in_order before u now rows) =
        length_of_sum 9 _ (omega (arith, sum_in_order before u now rows)) in
      let fails : consume_batch (take batch_size (available_in_order before u now rows))
            (start rows n)
          ≡ err too_many_batches =
        consume_batch-too_many 9 _ (start rows n) (rw cut few)
          (omega (arith, length-take batch_size (available_in_order before u now rows), long))
          refl in
      let more : (n == 0) ≡ false = ground arith in
      rw (more, batch, consume_rounds) (after_batch-err _ (start rows n) _ too_many_batches fails)

  pub rounds-enough :
      (fuel n : ℕ)
      → n ≤ sum_of_first before u now 9 rows
      → (st : Consuming) × (consume_rounds before u now (suc (suc fuel)) (start rows n) ≡ ok st)
  unfolding consume_rounds
  rounds-enough fuel n few = elim (Bool-cases (n == 0)) [
    | inl none_left ↦ (start rows n, rw (none_left, consume_rounds) refl)
    | inr more ↦
        let batch : get_batch before u now 1 rows
            ≡ take batch_size (available_in_order before u now rows) =
          first_batch before u now rows in
        let cut : take 9 (take batch_size (available_in_order before u now rows))
            ≡ take 9 (available_in_order before u now rows) =
          take-take 9 batch_size _ (omega arith) in
        let (mid, q, z) =
          consume_batch-enough 9 (take batch_size (available_in_order before u now rows))
            (start rows n) (rw cut few) (omega arith) in
        let (st, e) =
          after_batch-ok _ (start rows n) mid (λ t. consume_rounds before u now (suc fuel) t) q
            (rounds_stop fuel mid z) in
        (st, rw (more, batch, consume_rounds) e)
  ]
