-- ===== src/Credits/Outcomes.antt =====
-- src/shared/models/credit.ts: when `consumeCredits` goes through, and when it does not.
use apipool_v.Base.{
  ℕ, zero, suc, ◌≤◌, ◌<◌, String, Bool, false, List, [], ◌∷◌, ok, err, Result-cases, has, ◌≡◌, ◌≢◌,
  refl, ◌∙◌, ◌⊎◌, inl, inr, arith, Bool-cases,
}
use apipool_v.Credits.Defs.{
  Credit, Credits, CreditError, too_many_batches, constraint_failed, out_of_fuel, Consuming,
  ConsumedItem, Consumption, is_available, select, sum_remaining, take, consume_rounds,
  enough_rounds, get_remaining_credits, same_credit, create_credit, consumed_credit, is_short,
  consume_credits,
}
use apipool_v.Credits.Rounds.{
  available_in_order, sum_in_order, consume_rounds-ends, consume_rounds-ends,
}
use apipool_v.Credits.Kept.{consume_rounds-keeps, same_credit-set_remaining}
use apipool_v.Credits.Consume.{start, sum_of_first, rounds-too_many, rounds-enough}
use apipool_v.Credits.Promises.{ended}

creates :
    (c : Credit) (rows : Credits)
    → has (same_credit c) rows ≡ false
    → create_credit c rows ≡ ok (c ∷ rows)
unfolding create_credit
creates c rows h = ground arith

not_short :
    (n : ℕ) (cs : Credits) → n ≤ sum_remaining cs → 0 < sum_remaining cs → is_short n cs ≡ false
unfolding is_short sum_remaining
not_short n [] h positive = absurd (omega arith)
not_short n (c ∷ cs) h positive = ground arith

enough_there :
    (u : String) (now n : ℕ) (rows : Credits)
    → n ≤ get_remaining_credits now u rows
    → 0 < get_remaining_credits now u rows
    → is_short n (select (is_available u now) rows) ≡ false
unfolding get_remaining_credits
enough_there u now n rows h positive = not_short n (select (is_available u now) rows) h positive

-- A user whose credits suffice cannot consume them when the first nine grants in order are worth
-- less: the tenth grant is refused as a batch too many.
pub consume_credits-too_many :
    (before : Credit → Credit → Bool) (now : ℕ) (id tx : String) (input : Consumption)
    (rows : Credits)
    → sum_of_first before input.user_id now 9 rows < input.credits
    → input.credits ≤ get_remaining_credits now input.user_id rows
    → consume_credits before now id tx input rows ≡ err too_many_batches
unfolding consume_credits
consume_credits-too_many before now id tx input rows few all =
    let enough : is_short input.credits (select (is_available input.user_id now) rows) ≡ false =
      enough_there input.user_id now input.credits rows all (omega arith) in
    let fails : consume_rounds before input.user_id now enough_rounds (start rows input.credits)
        ≡ err too_many_batches =
      rounds-too_many before input.user_id now rows 10 input.credits few all in
    rw (enough, fails, consume_credits) refl

same_id_of_items :
    (id tx : String) (input : Consumption) (items : List ConsumedItem) (rows : Credits)
    → has (same_credit (consumed_credit id tx input items)) rows
      ≡ has (same_credit (consumed_credit id tx input [])) rows
unfolding consumed_credit same_credit
same_id_of_items id tx input items rows = refl

sum-take : (k : ℕ) (cs : Credits) → sum_remaining (take k cs) ≤ sum_remaining cs
unfolding take sum_remaining
sum-take zero cs = omega arith
sum-take (suc k) [] = omega arith
sum-take (suc k) (c ∷ cs) = omega (arith, sum-take k cs)

-- A payment that the first nine grants in order cover goes through, where the new row's id and
-- transaction number are new.
pub consume_credits-goes_through :
    (before : Credit → Credit → Bool) (now : ℕ) (id tx : String) (input : Consumption)
    (rows : Credits)
    → input.credits ≤ sum_of_first before input.user_id now 9 rows
    → 0 < get_remaining_credits now input.user_id rows
    → has (same_credit (consumed_credit id tx input [])) rows ≡ false
    → (row : Credit) × (rows' : Credits) × (consume_credits before now id tx input rows
        ≡ ok (row, rows'))
unfolding consume_credits
consume_credits-goes_through before now id tx input rows few positive fresh =
    let enough : is_short input.credits (select (is_available input.user_id now) rows) ≡ false =
      enough_there input.user_id now input.credits rows
        (omega (
          arith,
          few,
          sum-take 9 (available_in_order before input.user_id now rows),
          sum_in_order before input.user_id now rows,
        ))
        positive in
    let (st, q) = rounds-enough before input.user_id now rows 9 input.credits few in
    let unused : has (same_credit (consumed_credit id tx input st.consumed_items)) st.rows ≡ false =
      same_id_of_items id tx input st.consumed_items st.rows
      ∙ consume_rounds-keeps (same_credit (consumed_credit id tx input []))
          (same_credit-set_remaining _) before input.user_id now enough_rounds
          (start rows input.credits) st q
      ∙ fresh in
    let made : create_credit (consumed_credit id tx input st.consumed_items) st.rows
        ≡ ok (consumed_credit id tx input st.consumed_items ∷ st.rows) =
      creates _ st.rows unused in
    (
      consumed_credit id tx input st.consumed_items,
      consumed_credit id tx input st.consumed_items ∷ st.rows,
      rw (enough, q, made, consume_credits) refl,
    )

create_credit-Result :
    (c : Credit) (rows : Credits)
    → (create_credit c rows ≡ err constraint_failed) ⊎ (create_credit c rows ≡ ok (c ∷ rows))
unfolding create_credit
create_credit-Result c rows = ground arith

ended-ends :
    (before : Credit → Credit → Bool) (now : ℕ) (id tx : String) (input : Consumption)
    (rows : Credits) (st : Consuming)
    → ended before now id tx input rows st ≢ err out_of_fuel
ended-ends before now id tx input rows st h =
    elim (create_credit-Result (consumed_credit id tx input st.consumed_items) st.rows) [
      | inl refused ↦ absurd (ground arith)
      | inr made ↦ absurd (ground arith)
    ]

rounds-failed :
    (before : Credit → Credit → Bool) (now : ℕ) (id tx : String) (input : Consumption)
    (rows : Credits) (e : CreditError)
    → is_short input.credits (select (is_available input.user_id now) rows) ≡ false
    → consume_rounds before input.user_id now enough_rounds (start rows input.credits) ≡ err e
    → consume_credits before now id tx input rows ≡ err out_of_fuel
    → consume_rounds before input.user_id now enough_rounds (start rows input.credits)
      ≡ err out_of_fuel
unfolding consume_credits
rounds-failed before now id tx input rows e enough q h = ground arith

rounds-passed :
    (before : Credit → Credit → Bool) (now : ℕ) (id tx : String) (input : Consumption)
    (rows : Credits) (st : Consuming)
    → is_short input.credits (select (is_available input.user_id now) rows) ≡ false
    → consume_rounds before input.user_id now enough_rounds (start rows input.credits) ≡ ok st
    → ended before now id tx input rows st ≡ consume_credits before now id tx input rows
unfolding consume_credits
rounds-passed before now id tx input rows st enough q = rw (enough, q) refl

-- The loop that consumes credits always ends: its ten batches are all the rounds it makes.
pub consume_credits-ends :
    (before : Credit → Credit → Bool) (now : ℕ) (id tx : String) (input : Consumption)
    (rows : Credits)
    → consume_credits before now id tx input rows ≢ err out_of_fuel
unfolding consume_credits
consume_credits-ends before now id tx input rows h =
    elim (Bool-cases (is_short input.credits (select (is_available input.user_id now) rows))) [
      | inl too_little ↦ absurd (ground arith)
      | inr enough ↦
          elim (Result-cases
            (consume_rounds before input.user_id now enough_rounds (start rows input.credits))) [
              | inl (e, q) ↦
                  consume_rounds-ends before input.user_id now enough_rounds
                    (start rows input.credits) (omega arith) (omega arith)
                    (rounds-failed before now id tx input rows e enough q h)
              | inr (st, q) ↦
                  ended-ends before now id tx input rows st
                    (rounds-passed before now id tx input rows st enough q ∙ h)
            ]
    ]
