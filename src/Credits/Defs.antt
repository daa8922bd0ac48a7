-- ===== src/Credits/Defs.antt =====
-- src/shared/models/credit.ts: granting, consuming and counting credits. Amounts are whole numbers
-- that are not negative. The clock, fresh ids, the calendar and the order in which the database
-- returns rows (`before`) are arguments.
use apipool_v.Base.{
  ℕ, zero, suc, ◌+◌, ◌-◌, ◌*◌, min, String, Bool, true, false, ◌&&◌, ◌||◌, Option, none, some, List,
  [], ◌∷◌, ◌++◌, Result, ok, err, ◌>>=◌, if◌then◌else◌, str_eq, ltb, ◌==◌, has, update_where,
  is_truthy, or_else,
}
use apipool_v.Base.Int.{ℤ, pos, neg}

pub data CreditStatus : Type 0 where
  active expired deleted : CreditStatus

pub data TransactionType : Type 0 where
  grant consume : TransactionType

pub data TransactionScene : Type 0 where
  payment subscription renewal gift reward : TransactionScene

-- The batch size, which is a constant, is left out.
pub record ConsumedItem : Type 0 where
  pub credit_id : String
  pub transaction_no : String
  pub expires_at : Option ℕ
  pub credits_to_consume : ℕ
  pub credits_consumed : ℕ
  pub credits_before : ℕ
  pub credits_after : ℕ
  pub batch_no : ℕ

-- A row; order and subscription numbers and the e-mail are left out.
pub record Credit : Type 0 where
  pub id : String
  pub user_id : String
  pub transaction_no : String
  pub transaction_type : TransactionType
  pub transaction_scene : Option TransactionScene
  pub credits : ℤ
  pub remaining_credits : ℕ
  pub description : Option String
  pub expires_at : Option ℕ
  pub status : CreditStatus
  pub consumed_detail : Option (List ConsumedItem)
  pub metadata : Option String

abbrev pub Credits : Type 0
Credits = List Credit

pub data CreditError : Type 0 where
  insufficient too_many_batches constraint_failed out_of_fuel : CreditError

abbrev pub is_grant : TransactionType → Bool
is_grant grant = true
is_grant consume = false

abbrev pub is_active : CreditStatus → Bool
is_active active = true
is_active _ = false

-- `expires_at IS NULL OR expires_at > now`
abbrev pub is_unexpired : ℕ → Option ℕ → Bool
is_unexpired now none = true
is_unexpired now (some t) = ltb now t

-- The condition of the three queries.
unfoldable pub is_available : String → ℕ → Credit → Bool
is_available user_id now c =
    str_eq c.user_id user_id
    && is_grant c.transaction_type
    && is_active c.status
    && ltb 0 c.remaining_credits
    && is_unexpired now c.expires_at

unfoldable pub select : (Credit → Bool) → Credits → Credits
select p [] = []
select p (c ∷ cs) = if p c then c ∷ select p cs else select p cs

unfoldable pub sum_remaining : Credits → ℕ
sum_remaining [] = 0
sum_remaining (c ∷ cs) = c.remaining_credits + sum_remaining cs

unfoldable pub insert_by : (Credit → Credit → Bool) → Credit → Credits → Credits
insert_by before c [] = c ∷ []
insert_by before c (d ∷ ds) = if before c d then c ∷ d ∷ ds else d ∷ insert_by before c ds

-- `ORDER BY`
unfoldable pub sort_by : (Credit → Credit → Bool) → Credits → Credits
sort_by before [] = []
sort_by before (c ∷ cs) = insert_by before c (sort_by before cs)

-- `LIMIT` and `OFFSET`
unfoldable pub take : ℕ → Credits → Credits
take zero cs = []
take (suc n) [] = []
take (suc n) (c ∷ cs) = c ∷ take n cs

unfoldable pub drop : ℕ → Credits → Credits
drop zero cs = cs
drop (suc n) [] = []
drop (suc n) (c ∷ cs) = drop n cs

abbrev pub batch_size : ℕ
batch_size = 1000

abbrev pub max_batch_no : ℕ
max_batch_no = 10

abbrev pub is_credit : String → Credit → Bool
is_credit id c = str_eq c.id id

abbrev pub set_remaining : ℕ → Credit → Credit
set_remaining n c = record c { remaining_credits = n }

-- The variables of the loop, and the table it writes.
pub record Consuming : Type 0 where
  pub rows : Credits
  pub remaining_to_consume : ℕ
  pub batch_no : ℕ
  pub consumed_items : List ConsumedItem

-- One row of a batch: as much of it as is still wanted.
unfoldable pub consume_item : Credit → Consuming → Consuming
consume_item c st =
    let to_consume = min st.remaining_to_consume c.remaining_credits in
    record {
      rows =
          update_where (is_credit c.id) (set_remaining (c.remaining_credits - to_consume)) st.rows;
      remaining_to_consume = st.remaining_to_consume - to_consume;
      batch_no = st.batch_no + 1;
      consumed_items =
          st.consumed_items
          ++ record {
            credit_id = c.id;
            transaction_no = c.transaction_no;
            expires_at = c.expires_at;
            credits_to_consume = st.remaining_to_consume;
            credits_consumed = to_consume;
            credits_before = c.remaining_credits;
            credits_after = c.remaining_credits - to_consume;
            batch_no = st.batch_no;
          }
            ∷ [];
    }

-- `for (const item of batchCredits)`
unfoldable pub consume_batch : Credits → Consuming → Result CreditError Consuming
consume_batch [] st = ok st
consume_batch (c ∷ cs) st = elim (st.remaining_to_consume == 0) [
  | true ↦ ok st
  | false ↦ elim (ltb max_batch_no (consume_item c st).batch_no) [
    | true ↦ err too_many_batches
    | false ↦ consume_batch cs (consume_item c st)
  ]
]

-- No more rows, and the loop breaks.
unfoldable pub after_batch :
    Credits → Consuming → (Consuming → Result CreditError Consuming) → Result CreditError Consuming
after_batch [] st next_round = ok st
after_batch (c ∷ cs) st next_round = consume_batch (c ∷ cs) st >>= next_round

module _ (before : Credit → Credit → Bool) (user_id : String) (now : ℕ) where
  unfoldable pub get_batch : ℕ → Credits → Credits
  get_batch batch_no rows =
      take batch_size (
        drop ((batch_no - 1) * batch_size)
          (sort_by before (select (is_available user_id now) rows)))

  -- `while (remainingToConsume > 0)`
  unfoldable pub consume_rounds : ℕ → Consuming → Result CreditError Consuming
  unfolding get_batch after_batch
  consume_rounds zero st = err out_of_fuel
  consume_rounds (suc fuel) st = elim (st.remaining_to_consume == 0) [
    | true ↦ ok st
    | false ↦ after_batch (get_batch st.batch_no st.rows) st (λ st'. consume_rounds fuel st')
  ]

-- Every round but the last raises the batch number, which is at most 10.
abbrev pub enough_rounds : ℕ
enough_rounds = 11

unfoldable pub same_credit : Credit → Credit → Bool
same_credit new old = str_eq old.id new.id || str_eq old.transaction_no new.transaction_no

-- The primary key, and the unique transaction number.
unfoldable pub create_credit : Credit → Credits → Result CreditError Credits
unfolding same_credit
create_credit new rows =
    if has (same_credit new) rows then err constraint_failed else ok (new ∷ rows)

pub record Consumption : Type 0 where
  pub user_id : String
  pub credits : ℕ
  pub scene : Option TransactionScene
  pub description : Option String
  pub metadata : Option String

unfoldable pub consumed_credit : String → String → Consumption → List ConsumedItem → Credit
consumed_credit id transaction_no input items = record {
  id = id;
  user_id = input.user_id;
  transaction_no = transaction_no;
  transaction_type = consume;
  transaction_scene = input.scene;
  credits = neg (pos input.credits);
  remaining_credits = 0;
  description = input.description;
  expires_at = none;
  status = active;
  consumed_detail = some items;
  metadata = input.metadata;
}

-- The balance is refused when no row is available, too: the sum is then null.
unfoldable pub is_short : ℕ → Credits → Bool
is_short wanted [] = true
is_short wanted (c ∷ cs) = ltb (sum_remaining (c ∷ cs)) wanted

-- `consumeCredits`: the rows of the committed transaction, with the row that was written.
unfoldable pub consume_credits :
    (Credit → Credit → Bool)
    → ℕ
    → String
    → String
    → Consumption
    → Credits
    → Result CreditError (Credit × Credits)
unfolding is_short consume_rounds
consume_credits before now id transaction_no input rows =
    if is_short input.credits (select (is_available input.user_id now) rows)
    then err insufficient
    else consume_rounds before input.user_id now enough_rounds (record {
      rows = rows;
      remaining_to_consume = input.credits;
      batch_no = 1;
      consumed_items = [];
    })
      >>= λ st.
          create_credit (consumed_credit id transaction_no input st.consumed_items) st.rows
          >>= λ rows'. ok (consumed_credit id transaction_no input st.consumed_items, rows')

-- `parseInt(total || '0')`
unfoldable pub get_remaining_credits : ℕ → String → Credits → ℕ
get_remaining_credits now user_id rows = sum_remaining (select (is_available user_id now) rows)

-- `add_days` is `Date.setDate(getDate() + days)`.
unfoldable pub credit_expiration : (ℕ → ℕ → ℕ) → ℕ → ℕ → Option ℕ → Option ℕ
credit_expiration add_days now zero period_end = none
credit_expiration add_days now (suc n) (some t) = some t
credit_expiration add_days now (suc n) none = some (add_days now (suc n))

-- `grantCreditsForUser`; no credits, no row.
unfoldable pub grant_credits :
    (ℕ → ℕ → ℕ)
    → ℕ
    → String
    → String
    → String
    → ℕ
    → ℕ
    → Option String
    → Credits
    → Result CreditError Credits
unfolding credit_expiration create_credit
grant_credits add_days now id transaction_no user_id zero valid_days description rows = ok rows
grant_credits add_days now id transaction_no user_id (suc n) valid_days description rows =
    create_credit
      (record {
        id = id;
        user_id = user_id;
        transaction_no = transaction_no;
        transaction_type = grant;
        transaction_scene = some gift;
        credits = pos (suc n);
        remaining_credits = suc n;
        description =
            some (if is_truthy description then or_else description "" else "grant credits");
        expires_at = credit_expiration add_days now valid_days none;
        status = active;
        consumed_detail = none;
        metadata = none;
      })
      rows
