-- ===== src/Credits/Purse.antt =====
-- What using up one row does to the balances.
use apipool_v.Base.{
  ℕ, ◌+◌, ◌-◌, ◌≤◌, String, Bool, true, false, ◌&&◌, some, [], ◌∷◌, if◌then◌else◌, str_eq, has,
  find_by, update_where, update_where-has, ◌≡◌, refl, inl, inr, arith, Bool-cases,
}
use mathlib.Core.Path.{subst}
use apipool_v.Credits.Defs.{
  Credit, Credits, is_grant, is_active, is_unexpired, is_available, select, sum_remaining,
  is_credit, set_remaining, get_remaining_credits,
}
use apipool_v.Credits.Rows.{HasUniqueIds}

-- Everything but what remains says whether a row is open.
abbrev is_spendable : String → ℕ → Credit → Bool
is_spendable u now c =
    str_eq c.user_id u
    && is_grant c.transaction_type
    && is_active c.status
    && is_unexpired now c.expires_at

-- What one row adds to a balance.
unfoldable pub share : String → ℕ → Credit → ℕ
share u now c = if is_spendable u now c then c.remaining_credits else 0

pub balance_cons :
    (u : String) (now : ℕ) (c : Credit) (cs : Credits)
    → get_remaining_credits now u (c ∷ cs) ≡ share u now c + get_remaining_credits now u cs
unfolding get_remaining_credits select sum_remaining is_available share
balance_cons u now c cs = ground arith

pub share_available :
    (u : String) (now : ℕ) (c : Credit) → is_available u now c ≡ true → is_spendable u now c ≡ true
unfolding is_available
share_available u now c h = ground arith

share_other :
    (v : String) (t k : ℕ) (c : Credit)
    → str_eq c.user_id v ≡ false
    → share v t (set_remaining k c) ≡ share v t c
unfolding share
share_other v t k c h = ground arith

module _ (now : ℕ) (u : String) (c : Credit) (n : ℕ) where
  paid_row :
      is_spendable u now c ≡ true
      → n ≤ c.remaining_credits
      → share u now (set_remaining (c.remaining_credits - n) c) + n ≡ share u now c
  unfolding share
  paid_row usable small = ground arith

  -- Taking `n` from the row that an id finds takes `n` from the balance.
  pub balance-set_remaining :
      (rows : Credits)
      → HasUniqueIds rows
      → find_by (is_credit c.id) rows ≡ some c
      → is_spendable u now c ≡ true
      → n ≤ c.remaining_credits
      → get_remaining_credits now u
            (update_where (is_credit c.id) (set_remaining (c.remaining_credits - n)) rows)
          + n
        ≡ get_remaining_credits now u rows
  unfolding update_where find_by
  balance-set_remaining [] unique found usable small = absurd (cc)
  balance-set_remaining (d ∷ ds) unique found usable small = elim (Bool-cases (str_eq d.id c.id)) [
    | inl hit ↦
        let same : d ≡ c = ground arith in
        let none_left : update_where (is_credit c.id) (set_remaining (c.remaining_credits - n)) ds
            ≡ ds =
          update_where-has (is_credit c.id) (set_remaining (c.remaining_credits - n)) ds
            (subst (λ x. has (is_credit x.id) ds ≡ false) same unique.0) in
        rw (hit, none_left, same)
          (omega (
            arith,
            balance_cons u now (set_remaining (c.remaining_credits - n) c) ds,
            balance_cons u now c ds,
            paid_row usable small,
          ))
    | inr miss ↦
        let rest : get_remaining_credits now u
                (update_where (is_credit c.id) (set_remaining (c.remaining_credits - n)) ds)
              + n
            ≡ get_remaining_credits now u ds =
          balance-set_remaining ds unique.1 (ground arith) usable small in
        rw miss (
          omega (
            arith,
            rest,
            balance_cons u now d ds,
            balance_cons u now d
                (update_where (is_credit c.id) (set_remaining (c.remaining_credits - n)) ds),
          ))
  ]

  -- No one else's balance moves.
  pub balance-set_remaining-other :
      (v : String) (t k : ℕ) (rows : Credits)
      → str_eq c.user_id v ≡ false
      → find_by (is_credit c.id) rows ≡ some c
      → HasUniqueIds rows
      → get_remaining_credits t v (update_where (is_credit c.id) (set_remaining k) rows)
        ≡ get_remaining_credits t v rows
  unfolding update_where find_by
  balance-set_remaining-other v t k [] other found unique = refl
  balance-set_remaining-other v t k (d ∷ ds) other found unique =
      elim (Bool-cases (str_eq d.id c.id)) [
        | inl hit ↦
            let same : d ≡ c = ground arith in
            let none_left : update_where (is_credit c.id) (set_remaining k) ds ≡ ds =
              update_where-has (is_credit c.id) (set_remaining k) ds
                (subst (λ x. has (is_credit x.id) ds ≡ false) same unique.0) in
            rw (hit, none_left, same)
              (omega (
                arith,
                balance_cons v t (set_remaining k c) ds,
                balance_cons v t c ds,
                share_other v t k c other,
              ))
        | inr miss ↦ rw miss (
            omega (
              arith,
              balance-set_remaining-other v t k ds other (ground arith) unique.1,
              balance_cons v t d ds,
              balance_cons v t d (update_where (is_credit c.id) (set_remaining k) ds),
            ))
      ]
