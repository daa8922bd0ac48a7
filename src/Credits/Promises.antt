-- ===== src/Credits/Promises.antt =====
-- src/shared/models/credit.ts: `consumeCredits` against the balances that `getRemainingCredits`
-- shows.
use apipool_v.Base.{
  ℕ, ◌-◌, ◌≤◌, String, Bool, false, List, [], ◌∷◌, Result, ok, ◌>>=◌, >>=-eq-ok, str_eq, ◌≡◌, sym,
  ap, ◌∙◌, inl, inr, arith, Bool-cases,
}
use apipool_v.Credits.Defs.{
  Credit, Credits, CreditError, Consuming, ConsumedItem, Consumption, is_available, select,
  sum_remaining, consume_rounds, enough_rounds, get_remaining_credits, create_credit,
  consumed_credit, is_short, consume_credits,
}
use apipool_v.Credits.Rows.{HasUniqueIds}
use apipool_v.Credits.Paying.{Paid}
use apipool_v.Credits.Rounds.{consume_rounds-Paid}
use apipool_v.Credits.Consume.{start, rounds-left}

-- A purse: what everybody has to spend.
abbrev pub Purse : Type 0
Purse = String → ℕ

-- The abstract payment: refused beyond the balance, and no one else's business.
abbrev pub IsPayment : String → ℕ → Purse → Purse → Type 0
IsPayment u n before after =
    (n ≤ before u)
    × (after u ≡ before u - n)
    × ((v : String) → str_eq u v ≡ false → after v ≡ before v)

sum_covers : (n : ℕ) (cs : Credits) → is_short n cs ≡ false → n ≤ sum_remaining cs
unfolding is_short
sum_covers n [] h = absurd (cc)
sum_covers n (c ∷ cs) h = ground arith

covered :
    (u : String) (now n : ℕ) (rows : Credits)
    → is_short n (select (is_available u now) rows) ≡ false
    → n ≤ get_remaining_credits now u rows
unfolding get_remaining_credits
covered u now n rows h = sum_covers n (select (is_available u now) rows) h

-- A row that records consumption adds to no balance.
balance-consumed :
    (v : String) (t : ℕ) (id tx : String) (input : Consumption) (items : List ConsumedItem)
    (rows : Credits)
    → get_remaining_credits t v (consumed_credit id tx input items ∷ rows)
      ≡ get_remaining_credits t v rows
unfolding consumed_credit get_remaining_credits select is_available
balance-consumed v t id tx input items rows = ground arith

pub created :
    (c : Credit) (rows rows' : Credits) → create_credit c rows ≡ ok rows' → c ∷ rows ≡ rows'
unfolding create_credit
created c rows rows' h = ground arith

pub ok-eq :
    (rows rows' : Credits) → Path (Result CreditError Credits) (ok rows) (ok rows') → rows ≡ rows'
ok-eq rows rows' h = ground arith

module _ (before : Credit → Credit → Bool) (now : ℕ) (id tx : String) (input : Consumption)
    (rows : Credits) where
  abbrev pub ended : Consuming → Result CreditError (Credit × Credits)
  ended st = create_credit (consumed_credit id tx input st.consumed_items) st.rows >>= λ rows'.
      ok (consumed_credit id tx input st.consumed_items, rows')

  ended-IsPayment :
      (st : Consuming) (row : Credit) (rows' : Credits)
      → ended st ≡ ok (row, rows')
      → Paid input.user_id now (start rows input.credits) st
      → st.remaining_to_consume ≡ 0
      → input.credits ≤ get_remaining_credits now input.user_id rows
      → IsPayment input.user_id input.credits
          (λ v. get_remaining_credits now v rows)
          (λ v. get_remaining_credits now v rows')
  ended-IsPayment st row rows' h p z enough =
      let (made, written, last) =
        >>=-eq-ok (create_credit (consumed_credit id tx input st.consumed_items) st.rows)
          (λ r. ok (consumed_credit id tx input st.consumed_items, r)) h in
      let same : consumed_credit id tx input st.consumed_items ∷ st.rows ≡ rows' =
        created _ st.rows made written ∙ ground arith in
      let seen : (v : String)
          → get_remaining_credits now v rows' ≡ get_remaining_credits now v st.rows =
        λ v.
          ap (get_remaining_credits now v) (sym same)
          ∙ balance-consumed v now id tx input st.consumed_items st.rows in
      (
        enough,
        omega (arith, p.paid, z, seen input.user_id),
        λ v other. seen v ∙ p.others v now other,
      )

-- Credits are consumed as from a purse: a success has taken the amount, which the balance covered,
-- from the user's balance and from no one else's. Ids are unique in the table.
pub consume_credits-IsPayment :
    (before : Credit → Credit → Bool) (now : ℕ) (id tx : String) (input : Consumption)
    (rows : Credits) (row : Credit) (rows' : Credits)
    → HasUniqueIds rows
    → consume_credits before now id tx input rows ≡ ok (row, rows')
    → IsPayment input.user_id input.credits
        (λ v. get_remaining_credits now v rows)
        (λ v. get_remaining_credits now v rows')
unfolding consume_credits
consume_credits-IsPayment before now id tx input rows row rows' unique h =
    elim (Bool-cases (is_short input.credits (select (is_available input.user_id now) rows))) [
      | inl too_little ↦ absurd (ground arith)
      | inr enough ↦
          let (st, q, later) =
            >>=-eq-ok
              (consume_rounds before input.user_id now enough_rounds (start rows input.credits))
              (ended before now id tx input rows) (ground arith) in
          let all : input.credits ≤ get_remaining_credits now input.user_id rows =
            covered input.user_id now input.credits rows enough in
          ended-IsPayment before now id tx input rows st row rows' later
            (consume_rounds-Paid before input.user_id now enough_rounds (start rows input.credits)
              st unique q)
            (rounds-left before input.user_id now rows 9 input.credits st unique all q) all
    ]
