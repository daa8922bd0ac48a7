-- ===== src/Scanner/Matching.antt =====
-- src/features/gateway/lib/sse-parser.ts: `matchJsonString` against the whole string it looks at.
use apipool_v.Base.{
  ℕ, suc, ◌+◌, ◌-◌, ◌*◌, ◌≤◌, ◌<◌, Bool, true, false, ◌&&◌, Option, none, some, [], ◌∷◌, ◌++◌, ltb,
  ◌==◌, length, ◌≡◌, refl, sym, ap, ◌∙◌, inl, inr, arith, Bool-cases, Option-cases,
}
use mathlib.Core.Path.{subst}
use apipool_v.Scanner.Text.{
  Bytes, quote, backslash, ◌>>=◌, code_point, escaped_byte, utf8, skip_string, on_bytes,
  walk_string, Matching, match_byte, is_empty, match_string,
}
use apipool_v.Scanner.Chars.{
  chars, chars_escape, chars_unicode, prepend, ends, fed, skip-chars, walk-chars,
}

unfoldable pub eq_bytes : Bytes → Bytes → Bool
eq_bytes [] [] = true
eq_bytes [] (c ∷ cs) = false
eq_bytes (b ∷ bs) [] = false
eq_bytes (b ∷ bs) (c ∷ cs) = (b == c) && eq_bytes bs cs

eq_bytes-length : (bs cs : Bytes) → eq_bytes bs cs ≡ true → length bs ≡ length cs
unfolding eq_bytes
eq_bytes-length [] [] h = refl
eq_bytes-length [] (c ∷ cs) h = absurd (cc)
eq_bytes-length (b ∷ bs) [] h = absurd (cc)
eq_bytes-length (b ∷ bs) (c ∷ cs) h = ap suc (eq_bytes-length bs cs (ground arith))

-- What a string of a body takes: at most six bytes for each byte it says, and the closing quote.
abbrev pub IsCut : Bytes → Option (Bytes × Bytes) → ℕ → Type 0
IsCut body none extra = Unit
IsCut body (some (out, end)) extra =
    (length end < length body) × (length body + extra ≤ length end + 1 + 6 * length out)

pub length-++ : (bs cs : Bytes) → length (bs ++ cs) ≡ length bs + length cs
length-++ [] cs = omega arith
length-++ (b ∷ bs) cs = omega (arith, length-++ bs cs)

utf8-nonempty : (code : ℕ) → 1 ≤ length (utf8 code)
unfolding utf8
utf8-nonempty code = ground arith

prepend-IsCut :
    (bs rest longer : Bytes) (extra : ℕ) (o : Option (Bytes × Bytes))
    → IsCut rest o 0
    → length rest ≤ length longer
    → length longer + extra ≤ length rest + 6
    → 1 ≤ length bs
    → IsCut longer (prepend bs o) extra
prepend-IsCut bs rest longer extra none h long few one = tt
prepend-IsCut bs rest longer extra (some (out, end)) h long few one =
    (omega (arith, h.0, long), omega (arith, h.1, few, one, length-++ bs out))

-- A byte in front takes one of the bytes to spare.
longer-IsCut :
    (byte : ℕ) (rest : Bytes) (o : Option (Bytes × Bytes)) (extra : ℕ)
    → IsCut rest o (suc extra)
    → IsCut (byte ∷ rest) o extra
longer-IsCut byte rest none extra h = tt
longer-IsCut byte rest (some (out, end)) extra h = (omega (arith, h.0), omega (arith, h.1))

mutual
  unfolding chars

  pub chars-IsCut : (body : Bytes) → IsCut body (chars body) 0
  chars-IsCut [] = tt
  chars-IsCut (byte ∷ rest) = elim (Bool-cases (byte == quote)) [
    | inl q ↦ rw (q, chars) (omega arith, omega arith)
    | inr n ↦ elim (Bool-cases (ltb byte 32)) [
      | inl low ↦ rw (n, low, chars) tt
      | inr high ↦ elim (Bool-cases (byte == backslash)) [
        | inl esc ↦
            rw (n, high, esc, chars)
              (longer-IsCut byte rest (chars_escape rest) 0 (chars_escape-IsCut rest))
        | inr plain ↦
            rw (n, high, plain, chars)
              (prepend-IsCut (byte ∷ []) rest (byte ∷ rest) 0 (chars rest) (chars-IsCut rest)
                (omega arith) (omega arith) (omega arith))
      ]
    ]
  ]

  chars_escape-IsCut : (body : Bytes) → IsCut body (chars_escape body) 1
  chars_escape-IsCut [] = tt
  chars_escape-IsCut (escape ∷ rest) = elim (Bool-cases (escape == 117)) [
    | inl u ↦
        rw (u, chars_escape)
          (longer-IsCut escape rest (chars_unicode rest) 1 (chars_unicode-IsCut rest))
    | inr n ↦ elim (Option-cases (escaped_byte escape)) [
      | inl bad ↦ rw (n, bad, chars_escape) tt
      | inr (byte, good) ↦
          rw (n, good, chars_escape)
            (prepend-IsCut (byte ∷ []) rest (escape ∷ rest) 1 (chars rest) (chars-IsCut rest)
              (omega arith) (omega arith) (omega arith))
    ]
  ]

  chars_unicode-IsCut : (body : Bytes) → IsCut body (chars_unicode body) 2
  chars_unicode-IsCut (a ∷ b ∷ c ∷ d ∷ rest) = elim (Option-cases (code_point a b c d)) [
    | inl bad ↦ rw (bad, chars_unicode) tt
    | inr (code, good) ↦
        rw (good, chars_unicode)
          (prepend-IsCut (utf8 code) rest (a ∷ b ∷ c ∷ d ∷ rest) 2 (chars rest) (chars-IsCut rest)
            (omega arith) (omega arith) (utf8-nonempty code))
  ]
  chars_unicode-IsCut [] = tt
  chars_unicode-IsCut (a ∷ []) = tt
  chars_unicode-IsCut (a ∷ b ∷ []) = tt
  chars_unicode-IsCut (a ∷ b ∷ c ∷ []) = tt

-- The comparison on the fly is the comparison of the whole.
abbrev is_said : Matching → Bool
is_said m = m.matches && is_empty m.expected

and_assoc : (a b c : Bool) → ((a && b) && c) ≡ (a && (b && c))
and_assoc true b c = refl
and_assoc false b c = refl

and_false : (a : Bool) → false ≡ (a && false)
and_false true = refl
and_false false = refl

abbrev at : Bytes → Bool → Matching
at expected matches = record { expected = expected; matches = matches }

match_bytes :
    (out expected : Bytes) (k : Bool)
    → (m : Matching) × (on_bytes match_byte out (at expected k) ≡ some m)
      × (is_said m ≡ (k && eq_bytes out expected))
unfolding eq_bytes
match_bytes [] [] k = (at [] k, refl, refl)
match_bytes [] (e ∷ es) k = (at (e ∷ es) k, refl, refl)
match_bytes (b ∷ bs) [] k = let (m, q, said) = match_bytes bs [] false in (m, q, said ∙ and_false k)
match_bytes (b ∷ bs) (e ∷ es) k =
    let (m, q, said) = match_bytes bs es (k && (b == e)) in
    (m, q, said ∙ and_assoc k (b == e) (eq_bytes bs es))

too_long :
    (expected out end body : Bytes)
    → IsCut body (some (out, end)) 0
    → ltb (length expected * 6 + 2) (length body + 1 - length end) ≡ true
    → eq_bytes out expected ≡ false
too_long expected out end body cut long = elim (Bool-cases (eq_bytes out expected)) [
  | inl same ↦
      let more : length expected * 6 + 2 < length body + 1 - length end = ground arith in
      absurd (omega (arith, cut.1, more, eq_bytes-length out expected same))
  | inr other ↦ other
]

-- A string is matched as if it were decoded and compared: the length test that saves the walk and
-- the comparison byte by byte change nothing, and the walk never fails where the skip went through.
pub match_string-chars :
    (expected body : Bytes)
    → match_string expected body
      ≡ elim (chars body) [ none ↦ none | some (out, end) ↦ some (end, eq_bytes out expected) ]
unfolding match_string
match_string-chars expected body = elim (Option-cases (chars body)) [
  | inl bad ↦ rw (skip-chars body, bad, match_string) refl
  | inr ((out, end), good) ↦
      let cut : IsCut body (some (out, end)) 0 =
        subst (λ o. IsCut body o 0) good (chars-IsCut body) in
      let skipped : skip_string body ≡ some end = skip-chars body ∙ ap ends good in
      elim (Bool-cases (ltb (length expected * 6 + 2) (length body + 1 - length end))) [
        | inl long ↦
            rw (skipped, ◌>>=◌, good, long, match_string)
              (ap (λ b. some (end, b)) (sym (too_long expected out end body cut long)))
        | inr short ↦
            let (m, q, said) = match_bytes out expected true in
            let walked : walk_string match_byte body (at expected true) ≡ some (end, m) =
              walk-chars match_byte body (at expected true) ∙ rw (good, fed, q) refl in
            rw (skipped, ◌>>=◌, good, short, walked, match_string) (ap (λ b. some (end, b)) said)
      ]
]
