-- ===== src/Credits/Tests.antt =====
-- src/shared/models/credit.ts on concrete tables.
use apipool_v.Base.{
  ℕ, ◌+◌, ◌-◌, ◌*◌, update_where, ◌<◌, ◌≤◌, String, Bool, true, false, Option, none, some, List, [],
  ◌∷◌, ◌≡◌, refl, ok, err, ltb, has, arith,
}
use apipool_v.Base.Int.{pos}
use apipool_v.Credits.Defs.{
  Credit, Credits, grant, active, gift, Consumption, ConsumedItem, is_unexpired,
  get_remaining_credits, consume_credits, too_many_batches, insufficient, same_credit,
  consumed_credit, grant_credits, credit_expiration, is_available, is_short, consume_rounds,
  create_credit, insert_by, sort_by, select, sum_remaining, take, drop, get_batch, after_batch,
  consume_batch, consume_item,
}
use apipool_v.Credits.Rows.{HasUniqueIds}
use apipool_v.Credits.Consume.{sum_of_first}
use apipool_v.Credits.Promises.{IsPayment, consume_credits-IsPayment}
use apipool_v.Credits.Outcomes.{consume_credits-too_many, consume_credits-goes_through}
use apipool_v.Credits.Grants.{grant_credits-IsDeposit}

abbrev a_grant : String → ℕ → ℕ → Credit
a_grant id n expiry = record {
  id = id;
  user_id = "ann";
  transaction_no = id;
  transaction_type = grant;
  transaction_scene = some gift;
  credits = pos n;
  remaining_credits = n;
  description = none;
  expires_at = some expiry;
  status = active;
  consumed_detail = none;
  metadata = none;
}

abbrev expires_first : Credit → Credit → Bool
expires_first c d = is_sooner c.expires_at d.expires_at
  where
    is_sooner : Option ℕ → Option ℕ → Bool
    is_sooner (some t) (some u) = ltb t u
    is_sooner (some t) none = true
    is_sooner none e = false

abbrev two_grants : Credits
two_grants = a_grant "late" 50 900 ∷ a_grant "soon" 20 300 ∷ []

abbrev ten_grants : Credits
ten_grants =
    a_grant "c0" 1 500
    ∷ a_grant "c1" 1 501
    ∷ a_grant "c2" 1 502
    ∷ a_grant "c3" 1 503
    ∷ a_grant "c4" 1 504
    ∷ a_grant "c5" 1 505
    ∷ a_grant "c6" 1 506
    ∷ a_grant "c7" 1 507
    ∷ a_grant "c8" 1 508
    ∷ a_grant "c9" 1 509
    ∷ []

abbrev thirty : Consumption
thirty = record { user_id = "ann"; credits = 30; scene = none; description = none; metadata = none }

abbrev ten : Consumption
ten = record { user_id = "ann"; credits = 10; scene = none; description = none; metadata = none }

abbrev item : String → ℕ → ℕ → ℕ → ℕ → ℕ → ConsumedItem
item id expiry wanted had used number = record {
  credit_id = id;
  transaction_no = id;
  expires_at = some expiry;
  credits_to_consume = wanted;
  credits_consumed = used;
  credits_before = had;
  credits_after = had - used;
  batch_no = number;
}

-- What is written: the grant that expires first is empty, the other pays the rest.
abbrev items_of_thirty : List ConsumedItem
items_of_thirty = item "soon" 300 30 20 20 1 ∷ item "late" 900 10 50 10 2 ∷ []

abbrev after_thirty : Credits
after_thirty =
    consumed_credit "new" "tx" thirty items_of_thirty
    ∷ record (a_grant "late" 50 900) { remaining_credits = 40 }
    ∷ record (a_grant "soon" 20 300) { remaining_credits = 0 }
    ∷ []

thirty_consumed :
    consume_credits expires_first 100 "new" "tx" thirty two_grants
    ≡ ok (consumed_credit "new" "tx" thirty items_of_thirty, after_thirty)
unfolding consume_credits is_short consume_rounds get_batch after_batch consume_batch consume_item
    create_credit same_credit select is_available sum_remaining sort_by insert_by take drop has
    update_where consumed_credit
thirty_consumed = refl

thirty_too_late : consume_credits expires_first 901 "new" "tx" thirty two_grants ≡ err insufficient
unfolding consume_credits is_short select is_available sum_remaining
thirty_too_late = refl

two_grants-HasUniqueIds : HasUniqueIds two_grants
unfolding has
two_grants-HasUniqueIds = (refl, (refl, tt))

consume_credits-IsPayment_example :
    IsPayment "ann" 30
      (λ v. get_remaining_credits 100 v two_grants)
      (λ v. get_remaining_credits 100 v after_thirty)
consume_credits-IsPayment_example =
    consume_credits-IsPayment expires_first 100 "new" "tx" thirty two_grants
      (consumed_credit "new" "tx" thirty items_of_thirty) after_thirty two_grants-HasUniqueIds
      thirty_consumed

nine_are_few : sum_of_first expires_first "ann" 100 9 ten_grants < 10
unfolding sort_by insert_by select is_available sum_remaining take
nine_are_few = omega arith

ten_are_there : 10 ≤ get_remaining_credits 100 "ann" ten_grants
unfolding get_remaining_credits select is_available sum_remaining
ten_are_there = omega arith

consume_credits-too_many_example :
    consume_credits expires_first 100 "new" "tx" ten ten_grants ≡ err too_many_batches
consume_credits-too_many_example =
    consume_credits-too_many expires_first 100 "new" "tx" ten ten_grants nine_are_few ten_are_there

two_are_enough : 30 ≤ sum_of_first expires_first "ann" 100 9 two_grants
unfolding sort_by insert_by select is_available sum_remaining take
two_are_enough = omega arith

two_are_there : 0 < get_remaining_credits 100 "ann" two_grants
unfolding get_remaining_credits select is_available sum_remaining
two_are_there = omega arith

new_is_new : has (same_credit (consumed_credit "new" "tx" thirty [])) two_grants ≡ false
unfolding has same_credit consumed_credit
new_is_new = refl

consume_credits-goes_through_example :
    (row : Credit) × (rows' : Credits) × (consume_credits expires_first 100 "new" "tx" thirty
        two_grants
      ≡ ok (row, rows'))
consume_credits-goes_through_example =
    consume_credits-goes_through expires_first 100 "new" "tx" thirty two_grants two_are_enough
      two_are_there new_is_new

abbrev thirty_days : ℕ → ℕ → ℕ
thirty_days now days = now + days * 86400000

abbrev a_gift : Credit
a_gift = record (a_grant "g" 5 0) {
  transaction_no = "tx";
  description = some "grant credits";
  expires_at = some (thirty_days 100 30);
}

gift_granted :
    grant_credits thirty_days 100 "g" "tx" "ann" 5 30 none two_grants ≡ ok (a_gift ∷ two_grants)
unfolding grant_credits credit_expiration create_credit same_credit has
gift_granted = refl

gift_lives : is_unexpired 200 (credit_expiration thirty_days 100 30 none) ≡ true
unfolding credit_expiration
gift_lives = refl

grant_credits-IsDeposit_example :
    get_remaining_credits 200 "ann" (a_gift ∷ two_grants)
    ≡ get_remaining_credits 200 "ann" two_grants + 5
grant_credits-IsDeposit_example =
    grant_credits-IsDeposit thirty_days 100 200 "g" "tx" "ann" "ann" 5 30 none two_grants
      (a_gift ∷ two_grants) gift_lives gift_granted
