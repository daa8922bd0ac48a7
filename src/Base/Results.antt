-- ===== src/Base/Results.antt =====
-- Results of code that may throw.
use mathlib.Core.Path.{◌≡◌, refl}
use mathlib.Core.Logic.{◌⊎◌, inl, inr}
use mathlib.Core.Bool.{Bool, true, false}

pub data Result {ℓ κ} (E : Type κ) (A : Type ℓ) : Type (ℓ ⊔ κ) where
  ok : A → Result E A
  err : E → Result E A

-- A thrown error skips what comes after it.
infixl 5 ◌>>=◌
abbrev pub ◌>>=◌ {ℓ} : {Err A B : Type ℓ} → Result Err A → (A → Result Err B) → Result Err B
err thrown >>= _ = err thrown
ok value >>= next = next value

infixl 5 ◌>>◌
abbrev pub ◌>>◌ {ℓ} : {Err B : Type ℓ} → Result Err (Unit {ℓ}) → Result Err B → Result Err B
err thrown >> _ = err thrown
ok _ >> after = after

-- `if (c) throw e`
abbrev pub throw_if {ℓ} : {E : Type ℓ} → Bool → E → Result E (Unit {ℓ})
throw_if true e = err e
throw_if false e = ok tt

-- A chain that succeeds has succeeded in each step.
pub >>=-eq-ok {ℓ} :
    {Err A B : Type ℓ} (first : Result Err A) (next : A → Result Err B) {out : B}
    → first >>= next ≡ ok out
    → (value : A) × (first ≡ ok value) × (next value ≡ ok out)
>>=-eq-ok (err thrown) next done = absurd (cc)
>>=-eq-ok (ok value) next done = (value, refl, done)

pub throw_if-eq-ok {ℓ} :
    {E B : Type ℓ} (c : Bool) (e : E) (k : Result E B) {b : B}
    → (throw_if c e >> k) ≡ ok b
    → (c ≡ false) × (k ≡ ok b)
throw_if-eq-ok true e k h = absurd (cc)
throw_if-eq-ok false e k h = (refl, h)

pub Result-cases {ℓ} :
    {E A : Type ℓ} (r : Result E A) → ((e : E) × (r ≡ err e)) ⊎ ((a : A) × (r ≡ ok a))
Result-cases (ok a) = inr (a, refl)
Result-cases (err e) = inl (e, refl)
