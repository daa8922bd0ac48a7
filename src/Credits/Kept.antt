-- ===== src/Credits/Kept.antt =====
-- The loop of `consumeCredits` writes what remains of a row and nothing else.
use apipool_v.Base.{
  ℕ, zero, suc, String, Bool, [], ◌∷◌, ◌==◌, Result, ok, >>=-eq-ok, has, update_where, ◌≡◌, refl,
  ◌∙◌, sym, ap, inl, inr, arith, Bool-cases, ltb,
}
use apipool_v.Credits.Defs.{
  Credit, Credits, CreditError, Consuming, consume_item, consume_batch, get_batch, after_batch,
  consume_rounds, is_credit, set_remaining, same_credit, max_batch_no,
}

pub same_credit-set_remaining :
    (new : Credit) (n : ℕ) (c : Credit) → same_credit new (set_remaining n c) ≡ same_credit new c
unfolding same_credit
same_credit-set_remaining new n c = refl

ok-eq : (st st' : Consuming) → Path (Result CreditError Consuming) (ok st) (ok st') → st ≡ st'
ok-eq st st' h = ground arith

module _ (p : Credit → Bool) (blind : (n : ℕ) (c : Credit) → p (set_remaining n c) ≡ p c) where
  has-set_remaining :
      (i : String) (n : ℕ) (rows : Credits)
      → has p (update_where (is_credit i) (set_remaining n) rows) ≡ has p rows
  unfolding has update_where
  has-set_remaining i n [] = refl
  has-set_remaining i n (d ∷ ds) = ground (arith, has-set_remaining i n ds, blind n d)

  consume_item-keeps :
      (c : Credit) (st : Consuming) → has p (consume_item c st).rows ≡ has p st.rows
  unfolding consume_item
  consume_item-keeps c st = has-set_remaining c.id _ st.rows

  consume_batch-keeps :
      (items : Credits) (st st' : Consuming)
      → consume_batch items st ≡ ok st'
      → has p st'.rows ≡ has p st.rows
  unfolding consume_batch
  consume_batch-keeps [] st st' h = ap (λ s. has p s.rows) (sym (ok-eq st st' h))
  consume_batch-keeps (c ∷ cs) st st' h = elim (Bool-cases (st.remaining_to_consume == 0)) [
    | inl enough ↦ ap (λ s. has p s.rows) (sym (ok-eq st st' (ground arith)))
    | inr more ↦ elim (Bool-cases (ltb max_batch_no (consume_item c st).batch_no)) [
      | inl many ↦ absurd (ground arith)
      | inr few ↦
          consume_batch-keeps cs (consume_item c st) st' (ground arith) ∙ consume_item-keeps c st
    ]
  ]

  module _ (before : Credit → Credit → Bool) (user_id : String) (now : ℕ) where
    after_batch-keeps :
        (fuel : ℕ)
        → ((mid st' : Consuming)
            → consume_rounds before user_id now fuel mid ≡ ok st'
            → has p st'.rows ≡ has p mid.rows)
        → (items : Credits) (st st' : Consuming)
        → after_batch items st (λ mid. consume_rounds before user_id now fuel mid) ≡ ok st'
        → has p st'.rows ≡ has p st.rows
    unfolding after_batch
    after_batch-keeps fuel later [] st st' h = ap (λ s. has p s.rows) (sym (ok-eq st st' h))
    after_batch-keeps fuel later (c ∷ cs) st st' h =
        let (mid, first, rest) =
          >>=-eq-ok (consume_batch (c ∷ cs) st) (λ mid. consume_rounds before user_id now fuel mid)
            h in
        later mid st' rest ∙ consume_batch-keeps (c ∷ cs) st mid first

    -- No row starts or stops to answer a test that does not look at what remains.
    pub consume_rounds-keeps :
        (fuel : ℕ) (st st' : Consuming)
        → consume_rounds before user_id now fuel st ≡ ok st'
        → has p st'.rows ≡ has p st.rows
    unfolding consume_rounds
    consume_rounds-keeps zero st st' h = absurd (cc)
    consume_rounds-keeps (suc fuel) st st' h = elim (Bool-cases (st.remaining_to_consume == 0)) [
      | inl enough ↦ ap (λ s. has p s.rows) (sym (ok-eq st st' (ground arith)))
      | inr more ↦
          after_batch-keeps fuel (λ mid st'' e. consume_rounds-keeps fuel mid st'' e)
            (get_batch before user_id now st.batch_no st.rows) st st' (ground arith)
    ]
