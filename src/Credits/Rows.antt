-- ===== src/Credits/Rows.antt =====
-- Selecting, ordering and cutting rows, and what a write to one row does to a sum.
use apipool_v.Base.{
  ℕ, zero, suc, ◌+◌, ◌≤◌, ◌<◌, min, String, Bool, true, false, ◌||◌, some, [], ◌∷◌, str_eq, has,
  find_by, update_where, All, length, ◌≡◌, refl, ap, ◌∙◌, inl, inr, arith, eq_iff, eq_refl,
  Bool-cases,
}
use apipool_v.Credits.Defs.{
  Credit, Credits, select, sum_remaining, insert_by, sort_by, take, drop, is_credit, set_remaining,
}

-- No two rows have the same id.
abbrev pub HasUniqueIds : Credits → Type 0
HasUniqueIds [] = Unit
HasUniqueIds (c ∷ cs) = (has (is_credit c.id) cs ≡ false) × HasUniqueIds cs

module _ (P : Credit → Type 0) where
  pub All-select : (p : Credit → Bool) (cs : Credits) → All P cs → All P (select p cs)
  unfolding select
  All-select p [] h = tt
  All-select p (c ∷ cs) h = elim (Bool-cases (p c)) [
    | inl hit ↦ rw hit (h.0, All-select p cs h.1)
    | inr miss ↦ rw miss (All-select p cs h.1)
  ]

  -- What is selected has passed the test.
  pub All-selected :
      (p : Credit → Bool) (cs : Credits) → All P cs → All (λ c. P c × (p c ≡ true)) (select p cs)
  unfolding select
  All-selected p [] h = tt
  All-selected p (c ∷ cs) h = elim (Bool-cases (p c)) [
    | inl hit ↦ rw hit ((h.0, hit), All-selected p cs h.1)
    | inr miss ↦ rw miss (All-selected p cs h.1)
  ]

  pub All-insert_by :
      (before : Credit → Credit → Bool) (c : Credit) (cs : Credits)
      → P c
      → All P cs
      → All P (insert_by before c cs)
  unfolding insert_by
  All-insert_by before c [] h hs = (h, tt)
  All-insert_by before c (d ∷ ds) h hs = elim (Bool-cases (before c d)) [
    | inl first ↦ rw first (h, hs)
    | inr later ↦ rw later (hs.0, All-insert_by before c ds h hs.1)
  ]

  pub All-sort_by :
      (before : Credit → Credit → Bool) (cs : Credits) → All P cs → All P (sort_by before cs)
  unfolding sort_by
  All-sort_by before [] h = tt
  All-sort_by before (c ∷ cs) h =
      All-insert_by before c (sort_by before cs) h.0 (All-sort_by before cs h.1)

  pub All-take : (n : ℕ) (cs : Credits) → All P cs → All P (take n cs)
  unfolding take
  All-take zero cs h = tt
  All-take (suc n) [] h = tt
  All-take (suc n) (c ∷ cs) h = (h.0, All-take n cs h.1)

  pub All-drop : (n : ℕ) (cs : Credits) → All P cs → All P (drop n cs)
  unfolding drop
  All-drop zero cs h = h
  All-drop (suc n) [] h = tt
  All-drop (suc n) (c ∷ cs) h = All-drop n cs h.1

module _ (id : String) where
  has-select :
      (p : Credit → Bool) (cs : Credits)
      → has (is_credit id) cs ≡ false
      → has (is_credit id) (select p cs) ≡ false
  unfolding has select
  has-select p [] h = refl
  has-select p (c ∷ cs) h = ground (arith, has-select p cs)

  has-insert_by :
      (before : Credit → Credit → Bool) (c : Credit) (cs : Credits)
      → has (is_credit id) (insert_by before c cs) ≡ (is_credit id c || has (is_credit id) cs)
  unfolding has insert_by
  has-insert_by before c [] = refl
  has-insert_by before c (d ∷ ds) = ground (arith, has-insert_by before c ds)

  has-sort_by :
      (before : Credit → Credit → Bool) (cs : Credits)
      → has (is_credit id) (sort_by before cs) ≡ has (is_credit id) cs
  unfolding has sort_by
  has-sort_by before [] = refl
  has-sort_by before (c ∷ cs) =
      has-insert_by before c (sort_by before cs) ∙ rw (has-sort_by before cs) refl

  has-take :
      (n : ℕ) (cs : Credits)
      → has (is_credit id) cs ≡ false
      → has (is_credit id) (take n cs) ≡ false
  unfolding has take
  has-take zero cs h = refl
  has-take (suc n) [] h = refl
  has-take (suc n) (c ∷ cs) h = ground (arith, has-take n cs)

pub select-HasUniqueIds :
    (p : Credit → Bool) (cs : Credits) → HasUniqueIds cs → HasUniqueIds (select p cs)
unfolding select
select-HasUniqueIds p [] u = tt
select-HasUniqueIds p (c ∷ cs) u = elim (Bool-cases (p c)) [
  | inl hit ↦ rw hit (has-select c.id p cs u.0, select-HasUniqueIds p cs u.1)
  | inr miss ↦ rw miss (select-HasUniqueIds p cs u.1)
]

insert_by-HasUniqueIds :
    (before : Credit → Credit → Bool) (c : Credit) (cs : Credits)
    → has (is_credit c.id) cs ≡ false
    → HasUniqueIds cs
    → HasUniqueIds (insert_by before c cs)
unfolding insert_by has
insert_by-HasUniqueIds before c [] new u = (refl, tt)
insert_by-HasUniqueIds before c (d ∷ ds) new u = elim (Bool-cases (before c d)) [
  | inl first ↦ rw first (new, u)
  | inr later ↦
      let rest : has (is_credit c.id) ds ≡ false = ground arith in
      let apart : has (is_credit d.id) (insert_by before c ds) ≡ false =
        ground (arith, eq_iff c.id d.id, eq_iff d.id c.id, has-insert_by d.id before c ds) in
      rw later (apart, insert_by-HasUniqueIds before c ds rest u.1)
]

pub sort_by-HasUniqueIds :
    (before : Credit → Credit → Bool) (cs : Credits)
    → HasUniqueIds cs
    → HasUniqueIds (sort_by before cs)
unfolding sort_by
sort_by-HasUniqueIds before [] u = tt
sort_by-HasUniqueIds before (c ∷ cs) u =
    insert_by-HasUniqueIds before c (sort_by before cs) (has-sort_by c.id before cs ∙ u.0)
      (sort_by-HasUniqueIds before cs u.1)

pub take-HasUniqueIds : (n : ℕ) (cs : Credits) → HasUniqueIds cs → HasUniqueIds (take n cs)
unfolding take
take-HasUniqueIds zero cs u = tt
take-HasUniqueIds (suc n) [] u = tt
take-HasUniqueIds (suc n) (c ∷ cs) u = (has-take c.id n cs u.0, take-HasUniqueIds n cs u.1)

sum-insert_by :
    (before : Credit → Credit → Bool) (c : Credit) (cs : Credits)
    → sum_remaining (insert_by before c cs) ≡ c.remaining_credits + sum_remaining cs
unfolding sum_remaining insert_by
sum-insert_by before c [] = refl
sum-insert_by before c (d ∷ ds) = ground (arith, sum-insert_by before c ds)

pub sum-sort_by :
    (before : Credit → Credit → Bool) (cs : Credits)
    → sum_remaining (sort_by before cs) ≡ sum_remaining cs
unfolding sum_remaining sort_by
sum-sort_by before [] = refl
sum-sort_by before (c ∷ cs) =
    omega (arith, sum-insert_by before c (sort_by before cs), sum-sort_by before cs)

-- A list that a limit has not cut is whole.
pub take-all : (n : ℕ) (cs : Credits) → length (take n cs) < n → take n cs ≡ cs
unfolding take
take-all zero cs h = absurd (omega arith)
take-all (suc n) [] h = refl
take-all (suc n) (c ∷ cs) h = ap (λ t. c ∷ t) (take-all n cs (omega arith))

found_behind :
    (c : Credit) (cs ys : Credits)
    → All (λ x. find_by (is_credit x.id) cs ≡ some x) ys
    → has (is_credit c.id) ys ≡ false
    → All (λ x. find_by (is_credit x.id) (c ∷ cs) ≡ some x) ys
unfolding find_by has
found_behind c cs [] found new = tt
found_behind c cs (y ∷ ys) found new =
    let other : str_eq c.id y.id ≡ false = ground (arith, eq_iff c.id y.id, eq_iff y.id c.id) in
    (rw other found.0, found_behind c cs ys found.1 (ground arith))

-- Every row is the one under its id.
pub found_self :
    (cs : Credits) → HasUniqueIds cs → All (λ c. find_by (is_credit c.id) cs ≡ some c) cs
unfolding find_by
found_self [] u = tt
found_self (c ∷ cs) u = (rw (eq_refl c.id) refl, found_behind c cs cs (found_self cs u.1) u.0)

has-set_remaining :
    (id : String) (q : Credit → Bool) (n : ℕ) (cs : Credits)
    → has (is_credit id) (update_where q (set_remaining n) cs) ≡ has (is_credit id) cs
unfolding has update_where
has-set_remaining id q n [] = refl
has-set_remaining id q n (c ∷ cs) = ground (arith, has-set_remaining id q n cs)

pub set_remaining-HasUniqueIds :
    (q : Credit → Bool) (n : ℕ) (cs : Credits)
    → HasUniqueIds cs
    → HasUniqueIds (update_where q (set_remaining n) cs)
unfolding update_where
set_remaining-HasUniqueIds q n [] u = tt
set_remaining-HasUniqueIds q n (c ∷ cs) u = elim (Bool-cases (q c)) [
  | inl hit ↦ rw hit (has-set_remaining c.id q n cs ∙ u.0, set_remaining-HasUniqueIds q n cs u.1)
  | inr miss ↦ rw miss (has-set_remaining c.id q n cs ∙ u.0, set_remaining-HasUniqueIds q n cs u.1)
]

pub drop-HasUniqueIds : (n : ℕ) (cs : Credits) → HasUniqueIds cs → HasUniqueIds (drop n cs)
unfolding drop
drop-HasUniqueIds zero cs u = u
drop-HasUniqueIds (suc n) [] u = tt
drop-HasUniqueIds (suc n) (c ∷ cs) u = drop-HasUniqueIds n cs u.1

pub take-take : (k n : ℕ) (cs : Credits) → k ≤ n → take k (take n cs) ≡ take k cs
unfolding take
take-take zero n cs h = refl
take-take (suc k) zero cs h = absurd (omega arith)
take-take (suc k) (suc n) [] h = refl
take-take (suc k) (suc n) (c ∷ cs) h = ap (λ t. c ∷ t) (take-take k n cs (omega arith))

-- A prefix whose sum is smaller is shorter.
pub length_of_sum :
    (k : ℕ) (cs : Credits) → sum_remaining (take k cs) < sum_remaining cs → k < length cs
unfolding take sum_remaining
length_of_sum zero [] h = absurd (omega arith)
length_of_sum zero (c ∷ cs) h = omega arith
length_of_sum (suc k) [] h = absurd (omega arith)
length_of_sum (suc k) (c ∷ cs) h = omega (arith, length_of_sum k cs)

pub length-take : (n : ℕ) (cs : Credits) → length (take n cs) ≡ min n (length cs)
unfolding take
length-take zero cs = omega arith
length-take (suc n) [] = omega arith
length-take (suc n) (c ∷ cs) = omega (arith, length-take n cs)
