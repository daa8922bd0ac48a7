-- ===== src/Scanner/Runs.antt =====
-- src/features/gateway/lib/sse-parser.ts: the loop of the three extractions, freed of its fuel.
use apipool_v.Base.{
  ℕ, zero, suc, ◌≤◌, Bool, ◌&&◌, Option, none, some, [], ◌∷◌, ◌==◌, length, Result, ok, err, ◌>>=◌,
  >>=-eq-ok, Result-cases, ◌≡◌, ◌≢◌, refl, sym, ap, ◌∙◌, inl, inr, arith, Bool-cases, Option-cases,
}
use mathlib.Core.Path.{subst}
use apipool_v.Scanner.Text.{Bytes, quote, match_string}
use apipool_v.Scanner.Chars.{chars}
use apipool_v.Scanner.Matching.{IsCut, chars-IsCut, eq_bytes, match_string-chars}
use apipool_v.Scanner.Extract.{
  Reason, out_of_fuel, skip_whitespace, behind_colon, colon_value, colon, depth_after, Place,
  on_member, on_key, on_depth, step, finish, scan,
}

pub skip_whitespace-short : (body : Bytes) → length (skip_whitespace body) ≤ length body
unfolding skip_whitespace
skip_whitespace-short [] = omega arith
skip_whitespace-short (byte ∷ rest) = ground (arith, skip_whitespace-short rest)

behind_colon-short :
    (body value : Bytes) → behind_colon body ≡ some value → length value ≤ length body
behind_colon-short [] value h = absurd (cc)
behind_colon-short (byte ∷ rest) value h = elim (Bool-cases (byte == colon)) [
  | inl yes_colon ↦
      let same : rest ≡ value = ground arith in
      subst (λ v. length v ≤ length (byte ∷ rest)) same (omega arith)
  | inr other ↦ absurd (ground arith)
]

colon_value-short :
    (body value : Bytes) → colon_value body ≡ some value → length value ≤ length body
unfolding colon_value
colon_value-short body value h =
    omega (arith, behind_colon-short (skip_whitespace body) value h, skip_whitespace-short body)

match_string-short :
    (key body end : Bytes) (b : Bool)
    → match_string key body ≡ some (end, b)
    → length end ≤ length body
match_string-short key body end b h = elim (Option-cases (chars body)) [
  | inl bad ↦
      let e : Path (Option (Bytes × Bool)) none (some (end, b)) =
        sym (match_string-chars key body ∙ rw bad refl) ∙ h in
      absurd (cc)
  | inr ((out, end'), good) ↦
      let cut : IsCut body (some (out, end')) 0 =
        subst (λ o. IsCut body o 0) good (chars-IsCut body) in
      let e : Path (Option (Bytes × Bool)) (some (end', eq_bytes out key)) (some (end, b)) =
        sym (match_string-chars key body ∙ rw good refl) ∙ h in
      let same : end' ≡ end = ground arith in omega (arith, cut.0, ap length same)
]

finish-ends : {A : Type 0} (depth : ℕ) (found : Option A) → finish depth found ≢ err out_of_fuel
unfolding finish
finish-ends (suc n) found h = absurd (cc)
finish-ends zero none h = absurd (cc)
finish-ends zero (some a) h = absurd (cc)

module _ {A : Type 0} (key : Bytes)
    (on_value : Option A → Bytes → Result Reason (Option A × Bytes)) where
  -- What is done with a value reads on, and does not wait for fuel.
  pub record IsReader : Type 0 where
    pub shrinks :
        (found found' : Option A) (value rest : Bytes)
        → on_value found value ≡ ok (found', rest)
        → length rest ≤ length value
    pub never_waits : (found : Option A) (value : Bytes) → on_value found value ≢ err out_of_fuel

  on_member-short :
      IsReader
      → (o : Option Bytes) (end : Bytes) (depth : ℕ) (found : Option A) (p : Place key on_value)
      → ((value : Bytes) → o ≡ some value → length value ≤ length end)
      → on_member key on_value o end depth found ≡ ok p
      → length p.0 ≤ length end
  unfolding on_member
  on_member-short r none end depth found p low h =
      let same : (end, depth, found) ≡ p = ground arith in
      subst (λ q. length q.0 ≤ length end) same (omega arith)
  on_member-short r (some value) end depth found p low h =
      let (x, q, later) = >>=-eq-ok (on_value found value) (λ x. ok (x.1, depth, x.0)) h in
      let same : Path (Place key on_value) (x.1, depth, x.0) p = ground arith in
      subst (λ q. length q.0 ≤ length end) same
        (omega (arith, r.shrinks found x.0 value x.1 q, low value refl))

  on_key-short :
      IsReader
      → (o : Option (Bytes × Bool)) (rest : Bytes) (depth : ℕ) (found : Option A)
        (p : Place key on_value)
      → ((end : Bytes) (b : Bool) → o ≡ some (end, b) → length end ≤ length rest)
      → on_key key on_value o depth found ≡ ok p
      → length p.0 ≤ length rest
  unfolding on_key
  on_key-short r none rest depth found p low h = absurd (cc)
  on_key-short r (some (end, matches)) rest depth found p low h =
      elim (Bool-cases ((depth == 1) && matches)) [
        | inl hit ↦
            let short : length p.0 ≤ length end =
              on_member-short r (colon_value end) end depth found p
                (λ value. colon_value-short end value) (ground arith) in
            omega (arith, short, low end matches refl)
        | inr miss ↦
            let same : Path (Place key on_value) (end, depth, found) p = ground arith in
            subst (λ q. length q.0 ≤ length rest) same (low end matches refl)
      ]

  on_depth-short :
      (o : Option ℕ) (rest : Bytes) (found : Option A) (p : Place key on_value)
      → on_depth key on_value o rest found ≡ ok p
      → length p.0 ≤ length rest
  unfolding on_depth
  on_depth-short none rest found p h = absurd (cc)
  on_depth-short (some depth) rest found p h =
      let same : Path (Place key on_value) (rest, depth, found) p = ground arith in
      subst (λ q. length q.0 ≤ length rest) same (omega arith)

  step-short :
      IsReader
      → (byte : ℕ) (rest : Bytes) (depth : ℕ) (found : Option A) (p : Place key on_value)
      → step key on_value byte rest depth found ≡ ok p
      → length p.0 ≤ length rest
  unfolding step
  step-short r byte rest depth found p h = elim (Bool-cases (byte == quote)) [
    | inl q ↦
        on_key-short r (match_string key rest) rest depth found p
          (λ end b. match_string-short key rest end b) (ground arith)
    | inr n ↦ on_depth-short (depth_after byte depth) rest found p (ground arith)
  ]

  -- Fuel that is enough is as good as any other.
  scan-fuel :
      IsReader
      → (n m : ℕ) (body : Bytes) (depth : ℕ) (found : Option A) → length body ≤ n
      → length body ≤ m
      → scan key on_value n body depth found ≡ scan key on_value m body depth found
  unfolding scan
  scan-fuel r n m [] depth found low low' = refl
  scan-fuel r zero m (byte ∷ rest) depth found low low' = absurd (omega arith)
  scan-fuel r (suc n) zero (byte ∷ rest) depth found low low' = absurd (omega arith)
  scan-fuel r (suc n) (suc m) (byte ∷ rest) depth found low low' =
      elim (Result-cases (step key on_value byte rest depth found)) [
        | inl (e, bad) ↦ rw (bad, scan) refl
        | inr (p, good) ↦
            let short : length p.0 ≤ length rest = step-short r byte rest depth found p good in
            rw (good, scan) (scan-fuel r n m p.0 p.1 p.2 (omega arith) (omega arith))
      ]

  on_member-ends :
      IsReader
      → (o : Option Bytes) (end : Bytes) (depth : ℕ) (found : Option A)
      → on_member key on_value o end depth found ≢ err out_of_fuel
  unfolding on_member
  on_member-ends r none end depth found h = absurd (cc)
  on_member-ends r (some value) end depth found h = elim (Result-cases (on_value found value)) [
    | inl (e, bad) ↦ r.never_waits found value (ground arith)
    | inr (x, good) ↦ absurd (ground arith)
  ]

  on_key-ends :
      IsReader
      → (o : Option (Bytes × Bool)) (depth : ℕ) (found : Option A)
      → on_key key on_value o depth found ≢ err out_of_fuel
  unfolding on_key
  on_key-ends r none depth found h = absurd (cc)
  on_key-ends r (some (end, matches)) depth found h = elim (Bool-cases ((depth == 1) && matches)) [
    | inl hit ↦ on_member-ends r (colon_value end) end depth found (ground arith)
    | inr miss ↦ absurd (ground arith)
  ]

  on_depth-ends :
      (o : Option ℕ) (rest : Bytes) (found : Option A)
      → on_depth key on_value o rest found ≢ err out_of_fuel
  unfolding on_depth
  on_depth-ends none rest found h = absurd (cc)
  on_depth-ends (some depth) rest found h = absurd (cc)

  step-ends :
      IsReader
      → (byte : ℕ) (rest : Bytes) (depth : ℕ) (found : Option A)
      → step key on_value byte rest depth found ≢ err out_of_fuel
  unfolding step
  step-ends r byte rest depth found h = elim (Bool-cases (byte == quote)) [
    | inl q ↦ on_key-ends r (match_string key rest) depth found (ground arith)
    | inr n ↦ on_depth-ends (depth_after byte depth) rest found (ground arith)
  ]

  pub scan-ends :
      IsReader
      → (n : ℕ) (body : Bytes) (depth : ℕ) (found : Option A) → length body ≤ n
      → scan key on_value n body depth found ≢ err out_of_fuel
  unfolding scan
  scan-ends r n [] depth found low h = finish-ends depth found h
  scan-ends r zero (byte ∷ rest) depth found low h = absurd (omega arith)
  scan-ends r (suc n) (byte ∷ rest) depth found low h =
      elim (Result-cases (step key on_value byte rest depth found)) [
        | inl (e, bad) ↦ step-ends r byte rest depth found (ground arith)
        | inr (p, good) ↦
            scan-ends r n p.0 p.1 p.2 (omega (arith, step-short r byte rest depth found p good))
              (ground arith)
      ]

  -- The loop on a body, with the fuel it is given.
  unfoldable pub run : Bytes → ℕ → Option A → Result Reason A
  run body depth found = scan key on_value (length body) body depth found

  pub run-step :
      IsReader
      → (byte : ℕ) (rest : Bytes) (depth : ℕ) (found : Option A)
      → run (byte ∷ rest) depth found
        ≡ (step key on_value byte rest depth found >>= λ p. run p.0 p.1 p.2)
  unfolding run scan
  run-step r byte rest depth found = elim (Result-cases (step key on_value byte rest depth found)) [
    | inl (e, bad) ↦ rw (bad, scan) refl
    | inr (p, good) ↦
        let short : length p.0 ≤ length rest = step-short r byte rest depth found p good in
        rw (good, scan) (scan-fuel r (length rest) (length p.0) p.0 p.1 p.2 short (omega arith))
  ]
