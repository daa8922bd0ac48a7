-- ===== src/Credits/Rounds.antt =====
-- The rounds of `consumeCredits`: they end, they use up what was asked for, and they stop at the
-- tenth row.
use apipool_v.Base.{
  ℕ, zero, suc, ◌+◌, ◌-◌, ◌*◌, ◌≤◌, ◌<◌, String, Bool, false, [], ◌∷◌, ok, err, >>=-eq-ok,
  Result-cases, ltb, ◌==◌, length, ◌≡◌, ◌≢◌, refl, sym, ap, ◌∙◌, inl, inr, arith, Bool-cases,
}
use mathlib.Core.Path.{subst}
use apipool_v.Credits.Defs.{
  Credit, Credits, CreditError, too_many_batches, out_of_fuel, Consuming, is_available, select,
  sum_remaining, sort_by, take, drop, consume_item, consume_batch, get_batch, after_batch,
  consume_rounds, batch_size, max_batch_no, get_remaining_credits,
}
use apipool_v.Credits.Rows.{
  HasUniqueIds, select-HasUniqueIds, sort_by-HasUniqueIds, take-HasUniqueIds, drop-HasUniqueIds,
  All-selected, All-sort_by, All-take, All-drop, sum-sort_by, take-all, found_self,
}
use apipool_v.Credits.Paying.{
  IsReady, Paid, Paid-refl, Paid-trans, Drained, consume_batch-Drained, consume_item_no,
  consume_item_left,
}

-- A batch fails only by its tenth row, and otherwise raises the batch number with every row.
consume_batch-err :
    (items : Credits) (st : Consuming) (e : CreditError)
    → consume_batch items st ≡ err e
    → e ≡ too_many_batches
unfolding consume_batch
consume_batch-err [] st e h = absurd (cc)
consume_batch-err (c ∷ cs) st e h = ground (arith, consume_batch-err cs (consume_item c st) e)

consume_batch-forward :
    (items : Credits) (st st' : Consuming)
    → consume_batch items st ≡ ok st'
    → st.batch_no ≤ max_batch_no
    → (st.batch_no ≤ st'.batch_no) × (st'.batch_no ≤ max_batch_no)
unfolding consume_batch
consume_batch-forward [] st st' h low = ground arith
consume_batch-forward (c ∷ cs) st st' h low = elim (Bool-cases (st.remaining_to_consume == 0)) [
  | inl enough ↦ ground arith
  | inr more ↦ elim (Bool-cases (ltb max_batch_no (consume_item c st).batch_no)) [
    | inl many ↦ absurd (ground arith)
    | inr few ↦
        let rest : ((consume_item c st).batch_no ≤ st'.batch_no) × (st'.batch_no ≤ max_batch_no) =
          consume_batch-forward cs (consume_item c st) st' (ground arith) (ground arith) in
        (omega (arith, rest.0, consume_item_no c st), rest.1)
  ]
]

consume_batch-up :
    (c : Credit) (cs : Credits) (st st' : Consuming)
    → consume_batch (c ∷ cs) st ≡ ok st'
    → 0 < st.remaining_to_consume
    → (st.batch_no < st'.batch_no) × (st'.batch_no ≤ max_batch_no)
unfolding consume_batch
consume_batch-up c cs st st' h some_left =
    let more : (st.remaining_to_consume == 0) ≡ false = ground arith in
    elim (Bool-cases (ltb max_batch_no (consume_item c st).batch_no)) [
      | inl many ↦ absurd (ground arith)
      | inr few ↦
          let rest : ((consume_item c st).batch_no ≤ st'.batch_no) × (st'.batch_no ≤ max_batch_no) =
            consume_batch-forward cs (consume_item c st) st' (ground arith) (ground arith) in
          (omega (arith, rest.0, consume_item_no c st), rest.1)
    ]

-- Rows whose sum is not enough, and one more: the batch fails.
pub consume_batch-too_many :
    (k : ℕ) (items : Credits) (st : Consuming)
    → sum_remaining (take k items) < st.remaining_to_consume
    → k < length items
    → st.batch_no + k ≡ max_batch_no
    → consume_batch items st ≡ err too_many_batches
unfolding consume_batch sum_remaining take
consume_batch-too_many k [] st h long at = absurd (omega arith)
consume_batch-too_many zero (c ∷ cs) st h long at = ground (arith, consume_item_no c st)
consume_batch-too_many (suc k) (c ∷ cs) st h long at = ground (
  arith,
  consume_batch-too_many k cs (consume_item c st),
  consume_item_no c st,
  consume_item_left c st,
)

-- Few enough rows that are enough: the batch succeeds and nothing is left to consume.
pub consume_batch-enough :
    (k : ℕ) (items : Credits) (st : Consuming)
    → st.remaining_to_consume ≤ sum_remaining (take k items)
    → st.batch_no + k ≤ max_batch_no
    → (st' : Consuming) × (consume_batch items st ≡ ok st') × (st'.remaining_to_consume ≡ 0)
unfolding consume_batch sum_remaining take
consume_batch-enough zero [] st h at = (st, refl, omega arith)
consume_batch-enough (suc k) [] st h at = (st, refl, omega arith)
consume_batch-enough zero (c ∷ cs) st h at = (st, ground arith, omega arith)
consume_batch-enough (suc k) (c ∷ cs) st h at = elim (Bool-cases (st.remaining_to_consume == 0)) [
  | inl enough ↦ (st, rw (enough, consume_batch) refl, ground arith)
  | inr more ↦
      let few : ltb max_batch_no (consume_item c st).batch_no ≡ false =
        ground (arith, consume_item_no c st) in
      let (st', e, z) =
        consume_batch-enough k cs (consume_item c st) (omega (arith, consume_item_left c st))
          (omega (arith, consume_item_no c st)) in
      (st', rw (more, few, consume_batch) e, z)
]

module _ (before : Credit → Credit → Bool) (u : String) (now : ℕ) where
  -- The loop ends: no round is left over.
  after_batch-ends :
      (fuel : ℕ) (items : Credits) (st : Consuming)
      → ((st' : Consuming)
          → st'.batch_no ≤ max_batch_no
          → max_batch_no < st'.batch_no + fuel
          → consume_rounds before u now fuel st' ≢ err out_of_fuel)
      → 0 < st.remaining_to_consume
      → max_batch_no < st.batch_no + suc fuel
      → after_batch items st (λ st'. consume_rounds before u now fuel st') ≢ err out_of_fuel
  unfolding after_batch
  after_batch-ends fuel [] st ih some_left enough h = absurd (cc)
  after_batch-ends fuel (c ∷ cs) st ih some_left enough h =
      elim (Result-cases (consume_batch (c ∷ cs) st)) [
        | inl (e, q) ↦
            let why : e ≡ too_many_batches = consume_batch-err (c ∷ cs) st e q in
            absurd (ground arith)
        | inr (st', q) ↦
            let (up, low) = consume_batch-up c cs st st' q some_left in
            ih st' low (omega arith) (rw q at h)
      ]

  pub consume_rounds-ends :
      (fuel : ℕ) (st : Consuming)
      → st.batch_no ≤ max_batch_no
      → max_batch_no < st.batch_no + fuel
      → consume_rounds before u now fuel st ≢ err out_of_fuel
  unfolding consume_rounds
  consume_rounds-ends zero st low enough h = absurd (omega arith)
  consume_rounds-ends (suc fuel) st low enough h =
      elim (Bool-cases (st.remaining_to_consume == 0)) [
        | inl none_left ↦ absurd (ground arith)
        | inr more ↦
            after_batch-ends fuel (get_batch before u now st.batch_no st.rows) st
              (consume_rounds-ends fuel) (ground arith) enough (ground arith)
      ]

  pub get_batch-IsReady :
      (n : ℕ) (rows : Credits)
      → HasUniqueIds rows
      → IsReady u now rows (get_batch before u now n rows)
  unfolding get_batch
  get_batch-IsReady n rows h = record {
    unique = h;
    fresh = All-take _ batch_size _ (
        All-drop _ ((n - 1) * batch_size) _
          (All-sort_by _ before _ (All-selected _ (is_available u now) rows (found_self rows h))));
    apart = take-HasUniqueIds batch_size _ (
        drop-HasUniqueIds _ _
          (sort_by-HasUniqueIds before _ (select-HasUniqueIds (is_available u now) rows h)));
  }

  after_batch-Paid :
      (fuel : ℕ) (items : Credits) (st st' : Consuming)
      → ((mid : Consuming)
          → HasUniqueIds mid.rows
          → consume_rounds before u now fuel mid ≡ ok st'
          → Paid u now mid st')
      → IsReady u now st.rows items
      → after_batch items st (λ t. consume_rounds before u now fuel t) ≡ ok st'
      → Paid u now st st'
  unfolding after_batch
  after_batch-Paid fuel [] st st' ih r h =
      let same : st ≡ st' = ground arith in
      subst (λ t. Paid u now st t) same (Paid-refl u now st r.unique)
  after_batch-Paid fuel (c ∷ cs) st st' ih r h =
      let (mid, q, later) =
        >>=-eq-ok (consume_batch (c ∷ cs) st) (λ t. consume_rounds before u now fuel t) h in
      let d : Drained u now (c ∷ cs) st mid = consume_batch-Drained u now (c ∷ cs) st mid r q in
      Paid-trans u now st mid st' d.paid (ih mid d.paid.unique later)

  pub consume_rounds-Paid :
      (fuel : ℕ) (st st' : Consuming)
      → HasUniqueIds st.rows
      → consume_rounds before u now fuel st ≡ ok st'
      → Paid u now st st'
  unfolding consume_rounds
  consume_rounds-Paid zero st st' unique h = absurd (cc)
  consume_rounds-Paid (suc fuel) st st' unique h =
      elim (Bool-cases (st.remaining_to_consume == 0)) [
        | inl none_left ↦
            let same : st ≡ st' = ground arith in
            subst (λ t. Paid u now st t) same (Paid-refl u now st unique)
        | inr more ↦
            after_batch-Paid fuel (get_batch before u now st.batch_no st.rows) st st'
              (λ mid. consume_rounds-Paid fuel mid st')
              (get_batch-IsReady st.batch_no st.rows unique) (ground arith)
      ]

  abbrev pub available_in_order : Credits → Credits
  available_in_order rows = sort_by before (select (is_available u now) rows)

  pub sum_in_order :
      (rows : Credits) → sum_remaining (available_in_order rows) ≡ get_remaining_credits now u rows
  unfolding get_remaining_credits
  sum_in_order rows = sum-sort_by before (select (is_available u now) rows)

  pub first_batch :
      (rows : Credits) → get_batch before u now 1 rows ≡ take batch_size (available_in_order rows)
  unfolding get_batch drop
  first_batch rows = refl

  -- One batch is enough, or too much: the first one leaves nothing to consume.
  pub first_batch-left :
      (items : Credits) (st mid : Consuming)
      → take batch_size (available_in_order st.rows) ≡ items
      → st.batch_no ≡ 1
      → st.remaining_to_consume ≤ get_remaining_credits now u st.rows
      → Drained u now items st mid
      → mid.remaining_to_consume ≡ 0
  first_batch-left items st mid e at covered d = elim (Bool-cases (mid.remaining_to_consume == 0)) [
    | inl none_left ↦ ground arith
    | inr more ↦
        let some_left : 0 < mid.remaining_to_consume = ground arith in
        let short : length (take batch_size (available_in_order st.rows)) < batch_size =
          rw e (omega (arith, d.whole some_left, d.bounded (omega arith))) in
        let whole : take batch_size (available_in_order st.rows) ≡ available_in_order st.rows =
          take-all batch_size _ short in
        let sum : sum_remaining items ≡ get_remaining_credits now u st.rows =
          ap sum_remaining (sym e ∙ whole) ∙ sum_in_order st.rows in
        omega (arith, d.left, sum)
  ]
