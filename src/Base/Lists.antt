-- ===== src/Base/Lists.antt =====
-- Tables: a table is the list of its rows. `select … limit 1`, `update … where` and counts.
use Prim.Native.Nat.{ℕ, suc, ◌+◌, ◌≤◌}
use mathlib.Core.Path.{◌≡◌, refl, subst}
use mathlib.Core.Bool.{Bool, true, false, ◌||◌}
use mathlib.Core.List.{List, [], ◌∷◌}
use mathlib.Core.Logic.{inl, inr}
use mathlib.Core.Option.{Option, none, some}
use native.Mathlib.Omega.{arith}
use apipool_v.Base.Tests.{if◌then◌else◌, Bool-cases}

abbrev pub All {ℓ κ} : {A : Type ℓ} → (A → Type κ) → List A → Type κ
All P [] = Unit
All P (x ∷ xs) = P x × All P xs

module _ {ℓ} {A : Type ℓ} where
  abbrev pub length : List A → ℕ
  length [] = 0
  length (x ∷ xs) = suc (length xs)

  -- The first row that the condition selects.
  unfoldable pub find_by : (A → Bool) → List A → Option A
  find_by p [] = none
  find_by p (x ∷ xs) = if p x then some x else find_by p xs

  unfoldable pub has : (A → Bool) → List A → Bool
  has p [] = false
  has p (x ∷ xs) = p x || has p xs

  -- Every row that the condition selects is rewritten.
  unfoldable pub update_where : (A → Bool) → (A → A) → List A → List A
  update_where p f [] = []
  update_where p f (x ∷ xs) = (if p x then f x else x) ∷ update_where p f xs

  unfoldable pub count_where : (A → Bool) → List A → ℕ
  count_where p [] = 0
  count_where p (x ∷ xs) = (if p x then 1 else 0) + count_where p xs

module _ {ℓ} {A : Type ℓ} where
  pub find_by-holds : (p : A → Bool) (xs : List A) (x : A) → find_by p xs ≡ some x → p x ≡ true
  unfolding find_by
  find_by-holds p [] x e = cc
  find_by-holds p (y ∷ ys) x e = ground (arith, find_by-holds p ys x)

  pub find_by-All {κ} :
      (P : A → Type κ) (p : A → Bool) (xs : List A) (x : A) → All P xs → find_by p xs ≡ some x → P x
  unfolding find_by
  find_by-All P p [] x h e = absurd (cc)
  find_by-All P p (y ∷ ys) x h e = elim (Bool-cases (p y)) [
    | inl hit ↦ let same : y ≡ x = ground arith in subst P same h.0
    | inr miss ↦ find_by-All P p ys x h.1 (ground arith)
  ]

  pub update_where-none :
      (p : A → Bool) (f : A → A) (xs : List A) → find_by p xs ≡ none → update_where p f xs ≡ xs
  unfolding find_by update_where
  update_where-none p f [] e = refl
  update_where-none p f (x ∷ xs) e = ground (arith, update_where-none p f xs)

  -- A selected row is found as the update leaves it, by every condition that picks out the same
  -- rows before and after.
  pub find_by-update_where :
      (p q : A → Bool) (f : A → A) (xs : List A)
      → ((y : A) → q (if p y then f y else y) ≡ q y)
      → find_by q (update_where p f xs)
        ≡ elim (find_by q xs) [ none ↦ none | some y ↦ some (if p y then f y else y) ]
  unfolding find_by update_where
  find_by-update_where p q f [] keep = refl
  find_by-update_where p q f (y ∷ ys) keep = elim (Bool-cases (q y)) [
    | inl hit ↦ rw (keep y, hit)
    | inr miss ↦ rw (keep y, miss) (find_by-update_where p q f ys keep)
  ]

  -- An update after which the condition selects no new row raises no count.
  pub count_where-update_where :
      (p q : A → Bool) (f : A → A) (xs : List A)
      → ((y : A) → q (if p y then f y else y) ≡ true → q y ≡ true)
      → count_where q (update_where p f xs) ≤ count_where q xs
  unfolding count_where update_where
  count_where-update_where p q f [] keep = omega arith
  count_where-update_where p q f (y ∷ ys) keep =
      ground (arith, count_where-update_where p q f ys keep, keep y)

  -- An update after which no row is selected leaves nothing for a second one to do.
  pub has-update_where :
      (p : A → Bool) (f : A → A) (xs : List A)
      → ((y : A) → p (f y) ≡ false)
      → has p (update_where p f xs) ≡ false
  unfolding has update_where
  has-update_where p f [] off = refl
  has-update_where p f (x ∷ xs) off = elim (Bool-cases (p x)) [
    | inl hit ↦ rw (hit, off x) (has-update_where p f xs off)
    | inr miss ↦ rw (miss, miss) (has-update_where p f xs off)
  ]

  pub update_where-has :
      (p : A → Bool) (g : A → A) (xs : List A) → has p xs ≡ false → update_where p g xs ≡ xs
  unfolding has update_where
  update_where-has p g [] none_left = refl
  update_where-has p g (x ∷ xs) none_left = ground (arith, update_where-has p g xs)

  pub has-find_by :
      (p : A → Bool) (xs : List A) → has p xs ≡ true → (x : A) × (find_by p xs ≡ some x)
  unfolding has find_by
  has-find_by p [] hit = absurd (cc)
  has-find_by p (x ∷ xs) hit = elim (Bool-cases (p x)) [
    | inl here ↦ (x, rw here refl)
    | inr miss ↦ let (y, e) = has-find_by p xs (ground arith) in (y, rw miss e)
  ]
