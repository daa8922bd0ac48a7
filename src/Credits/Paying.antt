-- ===== src/Credits/Paying.antt =====
-- The loop of `consumeCredits`: what it pays, how far it gets, and that it ends.
use apipool_v.Base.{
  ℕ, ◌+◌, ◌-◌, ◌≤◌, ◌<◌, min, String, true, false, some, [], ◌∷◌, ok, if◌then◌else◌, str_eq, ltb,
  ◌==◌, length, has, find_by, find_by-update_where, update_where, All, ◌≡◌, refl, ◌∙◌, inl, inr,
  arith, eq_iff, Bool-cases,
}
use mathlib.Core.Path.{subst}
use apipool_v.Credits.Defs.{
  Credit, Credits, Consuming, is_available, sum_remaining, is_credit, set_remaining, consume_item,
  consume_batch, max_batch_no, get_remaining_credits,
}
use apipool_v.Credits.Rows.{HasUniqueIds, set_remaining-HasUniqueIds}
use apipool_v.Credits.Purse.{share_available, balance-set_remaining, balance-set_remaining-other}

same_id :
    (i j : String) (n : ℕ) (y : Credit)
    → is_credit j (if is_credit i y then set_remaining n y else y) ≡ is_credit j y
same_id i j n y = ground arith

pub consume_item_no : (c : Credit) (st : Consuming) → (consume_item c st).batch_no ≡ st.batch_no + 1
unfolding consume_item
consume_item_no c st = refl

pub consume_item_left :
    (c : Credit) (st : Consuming)
    → (consume_item c st).remaining_to_consume ≡ st.remaining_to_consume - c.remaining_credits
unfolding consume_item
consume_item_left c st = omega arith

module _ (u : String) (now : ℕ) where
  -- A row of the batch is still as the query read it.
  abbrev pub IsFresh : Credits → Credit → Type 0
  IsFresh rows c = (find_by (is_credit c.id) rows ≡ some c) × (is_available u now c ≡ true)

  pub record IsReady (rows : Credits) (items : Credits) : Type 0 where
    pub unique : HasUniqueIds rows
    pub fresh : All (IsFresh rows) items
    pub apart : HasUniqueIds items

  -- What the loop has done between two of its states.
  pub record Paid (st st' : Consuming) : Type 0 where
    pub unique : HasUniqueIds st'.rows
    pub paid :
        get_remaining_credits now u st'.rows + st.remaining_to_consume
        ≡ get_remaining_credits now u st.rows + st'.remaining_to_consume
    pub others :
        (v : String) (t : ℕ)
        → str_eq u v ≡ false
        → get_remaining_credits t v st'.rows ≡ get_remaining_credits t v st.rows
    pub less : st'.remaining_to_consume ≤ st.remaining_to_consume

  pub Paid-refl : (st : Consuming) → HasUniqueIds st.rows → Paid st st
  Paid-refl st h = record { unique = h; paid = refl; others = λ v t e. refl; less = omega arith }

  pub Paid-trans : (a b c : Consuming) → Paid a b → Paid b c → Paid a c
  Paid-trans a b c p q = record {
    unique = q.unique;
    paid = omega (arith, p.paid, q.paid);
    others = λ v t e. q.others v t e ∙ p.others v t e;
    less = omega (arith, p.less, q.less);
  }

  user_of : (c : Credit) → is_available u now c ≡ true → c.user_id ≡ u
  unfolding is_available
  user_of c h = (eq_iff c.user_id u).0 (ground arith)

  consume_item-Paid :
      (c : Credit) (cs : Credits) (st : Consuming)
      → IsReady st.rows (c ∷ cs)
      → Paid st (consume_item c st)
  unfolding consume_item
  consume_item-Paid c cs st r =
      let n : ℕ = min st.remaining_to_consume c.remaining_credits in
      let (found, available) = r.fresh.0 in
      let moved : get_remaining_credits now u
              (update_where (is_credit c.id) (set_remaining (c.remaining_credits - n)) st.rows)
            + n
          ≡ get_remaining_credits now u st.rows =
        balance-set_remaining now u c n st.rows r.unique found (share_available u now c available)
          (omega arith) in
      record {
        unique =
            set_remaining-HasUniqueIds (is_credit c.id) (c.remaining_credits - n) st.rows r.unique;
        paid = omega (arith, moved);
        others = λ v t e.
            balance-set_remaining-other now u c n v t (c.remaining_credits - n) st.rows
              (rw (user_of c available) e) found r.unique;
        less = omega arith;
      }

  still-IsFresh :
      (c : Credit) (n : ℕ) (rows items : Credits)
      → All (IsFresh rows) items
      → has (is_credit c.id) items ≡ false
      → All (IsFresh (update_where (is_credit c.id) (set_remaining n) rows)) items
  unfolding has
  still-IsFresh c n rows [] fresh other = tt
  still-IsFresh c n rows (d ∷ ds) fresh other =
      let apart : str_eq d.id c.id ≡ false = ground arith in
      (
        (
          find_by-update_where (is_credit c.id) (is_credit d.id) (set_remaining n) rows
                (same_id c.id d.id n)
              ∙ rw (fresh.0.0, apart) refl,
          fresh.0.1,
        ),
        still-IsFresh c n rows ds fresh.1 (ground arith),
      )

  consume_item-IsReady :
      (c : Credit) (cs : Credits) (st : Consuming)
      → IsReady st.rows (c ∷ cs)
      → IsReady (consume_item c st).rows cs
  unfolding consume_item
  consume_item-IsReady c cs st r = record {
    unique = set_remaining-HasUniqueIds (is_credit c.id) _ st.rows r.unique;
    fresh = still-IsFresh c _ st.rows cs r.fresh.1 r.apart.0;
    apart = r.apart.1;
  }

  -- A batch that is used up without an error.
  pub record Drained (items : Credits) (st st' : Consuming) : Type 0 where
    pub paid : Paid st st'
    pub left : st'.remaining_to_consume ≡ st.remaining_to_consume - sum_remaining items
    pub whole : 0 < st'.remaining_to_consume → st'.batch_no ≡ st.batch_no + length items
    pub bounded : st.batch_no ≤ max_batch_no → st'.batch_no ≤ max_batch_no
    pub forward : st.batch_no ≤ st'.batch_no

  pub consume_batch-Drained :
      (items : Credits) (st st' : Consuming)
      → IsReady st.rows items
      → consume_batch items st ≡ ok st'
      → Drained items st st'
  unfolding consume_batch sum_remaining
  consume_batch-Drained [] st st' r h =
      let same : st ≡ st' = ground arith in
      subst (λ t. Drained [] st t) same
        (record {
          paid = Paid-refl st r.unique;
          left = omega arith;
          whole = λ e. omega arith;
          bounded = λ e. e;
          forward = omega arith;
        })
  consume_batch-Drained (c ∷ cs) st st' r h = elim (Bool-cases (st.remaining_to_consume == 0)) [
    | inl enough ↦
        let same : st ≡ st' = ground arith in
        let zero_left : st.remaining_to_consume ≡ 0 = ground arith in
        subst (λ t. Drained (c ∷ cs) st t) same
          (record {
            paid = Paid-refl st r.unique;
            left = omega arith;
            whole = λ e. omega arith;
            bounded = λ e. e;
            forward = omega arith;
          })
    | inr more ↦ elim (Bool-cases (ltb max_batch_no (consume_item c st).batch_no)) [
      | inl many ↦ absurd (ground arith)
      | inr few ↦
          let rest : Drained cs (consume_item c st) st' =
            consume_batch-Drained cs (consume_item c st) st' (consume_item-IsReady c cs st r)
              (ground arith) in
          let some_left : 0 < st.remaining_to_consume = ground arith in
          let below : st.batch_no + 1 ≤ max_batch_no = ground (arith, consume_item_no c st) in
          record {
            paid = Paid-trans st (consume_item c st) st' (consume_item-Paid c cs st r) rest.paid;
            left = omega (arith, rest.left, consume_item_left c st);
            whole = λ e. omega (arith, rest.whole e, consume_item_no c st);
            bounded = λ e. rest.bounded (omega (arith, below, consume_item_no c st));
            forward = omega (arith, rest.forward, consume_item_no c st);
          }
    ]
  ]
