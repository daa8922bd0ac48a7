-- ===== src/Scanner/Chars.antt =====
-- src/features/gateway/lib/sse-parser.ts: what a string says, without a callback, and the three
-- routines that read a string against it.
use apipool_v.Base.{
  ℕ, true, false, Option, none, some, [], ◌∷◌, ◌++◌, ltb, ◌==◌, ◌≡◌, refl, sym, ap, ◌∙◌, inl, inr,
  Bool-cases, Option-cases,
}
use apipool_v.Scanner.Text.{
  Bytes, quote, backslash, code_point, escaped_byte, utf8, skip_string, skip_escape, skip_unicode,
  on_bytes, walk_string, walk_escape, walk_unicode,
}

-- The bytes of a string, and those behind its closing quote.
abbrev pub prepend : Bytes → Option (Bytes × Bytes) → Option (Bytes × Bytes)
prepend bs none = none
prepend bs (some (cs, end)) = some (bs ++ cs, end)

unfoldable mutual
  pub chars : Bytes → Option (Bytes × Bytes)
  chars [] = none
  chars (byte ∷ rest) = elim (byte == quote) [
    | true ↦ some ([], rest)
    | false ↦ elim (ltb byte 32) [
      | true ↦ none
      | false ↦ elim (byte == backslash) [
        | true ↦ chars_escape rest
        | false ↦ prepend (byte ∷ []) (chars rest)
      ]
    ]
  ]

  pub chars_escape : Bytes → Option (Bytes × Bytes)
  chars_escape [] = none
  chars_escape (escape ∷ rest) = elim (escape == 117) [
    | true ↦ chars_unicode rest
    | false ↦ elim (escaped_byte escape) [
      | none ↦ none
      | some byte ↦ prepend (byte ∷ []) (chars rest)
    ]
  ]

  pub chars_unicode : Bytes → Option (Bytes × Bytes)
  chars_unicode (a ∷ b ∷ c ∷ d ∷ rest) = elim (code_point a b c d) [
    | none ↦ none
    | some code ↦ prepend (utf8 code) (chars rest)
  ]
  chars_unicode _ = none

abbrev pub ends : Option (Bytes × Bytes) → Option Bytes
ends none = none
ends (some (out, end)) = some end

ends-prepend : (bs : Bytes) (o : Option (Bytes × Bytes)) → ends (prepend bs o) ≡ ends o
ends-prepend bs none = refl
ends-prepend bs (some (out, end)) = refl

mutual
  unfolding skip_string chars

  pub skip-chars : (body : Bytes) → skip_string body ≡ ends (chars body)
  skip-chars [] = refl
  skip-chars (byte ∷ rest) = elim (Bool-cases (byte == quote)) [
    | inl q ↦ rw (q, skip_string, chars) refl
    | inr n ↦ elim (Bool-cases (ltb byte 32)) [
      | inl low ↦ rw (n, low, skip_string, chars) refl
      | inr high ↦ elim (Bool-cases (byte == backslash)) [
        | inl esc ↦ rw (n, high, esc, skip_string, chars) (skip-chars_escape rest)
        | inr plain ↦
            rw (n, high, plain, skip_string, chars)
              (skip-chars rest ∙ sym (ends-prepend (byte ∷ []) (chars rest)))
      ]
    ]
  ]

  skip-chars_escape : (body : Bytes) → skip_escape body ≡ ends (chars_escape body)
  skip-chars_escape [] = refl
  skip-chars_escape (escape ∷ rest) = elim (Bool-cases (escape == 117)) [
    | inl u ↦ rw (u, skip_escape, chars_escape) (skip-chars_unicode rest)
    | inr n ↦ elim (Option-cases (escaped_byte escape)) [
      | inl bad ↦ rw (n, bad, skip_escape, chars_escape) refl
      | inr (byte, good) ↦
          rw (n, good, skip_escape, chars_escape)
            (skip-chars rest ∙ sym (ends-prepend (byte ∷ []) (chars rest)))
    ]
  ]

  skip-chars_unicode : (body : Bytes) → skip_unicode body ≡ ends (chars_unicode body)
  skip-chars_unicode (a ∷ b ∷ c ∷ d ∷ rest) = elim (Option-cases (code_point a b c d)) [
    | inl bad ↦ rw (bad, skip_unicode, chars_unicode) refl
    | inr (code, good) ↦
        rw (good, skip_unicode, chars_unicode)
          (skip-chars rest ∙ sym (ends-prepend (utf8 code) (chars rest)))
  ]
  skip-chars_unicode [] = refl
  skip-chars_unicode (a ∷ []) = refl
  skip-chars_unicode (a ∷ b ∷ []) = refl
  skip-chars_unicode (a ∷ b ∷ c ∷ []) = refl

module _ {S : Type 0} (on_byte : ℕ → S → Option S) where
  abbrev pub fed : S → Option (Bytes × Bytes) → Option (Bytes × S)
  fed s none = none
  fed s (some (out, end)) = elim (on_bytes on_byte out s) [ none ↦ none | some s' ↦ some (end, s') ]

  abbrev later : Option S → Option (Bytes × Bytes) → Option (Bytes × S)
  later none o = none
  later (some s) o = fed s o

  on_bytes-++ :
      (bs cs : Bytes) (s : S)
      → on_bytes on_byte (bs ++ cs) s
        ≡ elim (on_bytes on_byte bs s) [ none ↦ none | some s' ↦ on_bytes on_byte cs s' ]
  on_bytes-++ [] cs s = refl
  on_bytes-++ (b ∷ bs) cs s = elim (Option-cases (on_byte b s)) [
    | inl stop ↦ rw stop refl
    | inr (s', go) ↦ rw go (on_bytes-++ bs cs s')
  ]

  fed-prepend :
      (bs : Bytes) (s : S) (o : Option (Bytes × Bytes))
      → fed s (prepend bs o) ≡ later (on_bytes on_byte bs s) o
  fed-prepend bs s none = elim (Option-cases (on_bytes on_byte bs s)) [
    | inl stop ↦ rw stop refl
    | inr (s', go) ↦ rw go refl
  ]
  fed-prepend bs s (some (out, end)) = elim (Option-cases (on_bytes on_byte bs s)) [
    | inl stop ↦ rw (on_bytes-++ bs out s, stop, fed) refl
    | inr (s', go) ↦ rw (on_bytes-++ bs out s, go, fed) refl
  ]

  fed-stop :
      (bs : Bytes) (s : S) (o : Option (Bytes × Bytes))
      → on_bytes on_byte bs s ≡ none
      → none ≡ fed s (prepend bs o)
  fed-stop bs s o stop = sym (fed-prepend bs s o ∙ ap (λ r. later r o) stop)

  fed-go :
      (bs : Bytes) (s s' : S) (o : Option (Bytes × Bytes))
      → on_bytes on_byte bs s ≡ some s'
      → fed s' o ≡ fed s (prepend bs o)
  fed-go bs s s' o go = sym (fed-prepend bs s o ∙ ap (λ r. later r o) go)

  mutual
    unfolding walk_string chars

    -- The callback sees the bytes of the string in order.
    pub walk-chars : (body : Bytes) (s : S) → walk_string on_byte body s ≡ fed s (chars body)
    walk-chars [] s = refl
    walk-chars (byte ∷ rest) s = elim (Bool-cases (byte == quote)) [
      | inl q ↦ rw (q, walk_string, chars) refl
      | inr n ↦ elim (Bool-cases (ltb byte 32)) [
        | inl low ↦ rw (n, low, walk_string, chars) refl
        | inr high ↦ elim (Bool-cases (byte == backslash)) [
          | inl esc ↦ rw (n, high, esc, walk_string, chars) (walk-chars_escape rest s)
          | inr plain ↦ elim (Option-cases (on_byte byte s)) [
            | inl stop ↦
                rw (n, high, plain, stop, walk_string, chars)
                  (fed-stop (byte ∷ []) s (chars rest) (rw (stop, on_bytes) refl))
            | inr (s', go) ↦
                rw (n, high, plain, go, walk_string, chars)
                  (walk-chars rest s'
                    ∙ fed-go (byte ∷ []) s s' (chars rest) (rw (go, on_bytes) refl))
          ]
        ]
      ]
    ]

    walk-chars_escape :
        (body : Bytes) (s : S) → walk_escape on_byte body s ≡ fed s (chars_escape body)
    walk-chars_escape [] s = refl
    walk-chars_escape (escape ∷ rest) s = elim (Bool-cases (escape == 117)) [
      | inl u ↦ rw (u, walk_escape, chars_escape) (walk-chars_unicode rest s)
      | inr n ↦ elim (Option-cases (escaped_byte escape)) [
        | inl bad ↦ rw (n, bad, walk_escape, chars_escape) refl
        | inr (byte, good) ↦ elim (Option-cases (on_byte byte s)) [
          | inl stop ↦
              rw (n, good, stop, walk_escape, chars_escape)
                (fed-stop (byte ∷ []) s (chars rest) (rw (stop, on_bytes) refl))
          | inr (s', go) ↦
              rw (n, good, go, walk_escape, chars_escape)
                (walk-chars rest s' ∙ fed-go (byte ∷ []) s s' (chars rest) (rw (go, on_bytes) refl))
        ]
      ]
    ]

    walk-chars_unicode :
        (body : Bytes) (s : S) → walk_unicode on_byte body s ≡ fed s (chars_unicode body)
    walk-chars_unicode (a ∷ b ∷ c ∷ d ∷ rest) s = elim (Option-cases (code_point a b c d)) [
      | inl bad ↦ rw (bad, walk_unicode, chars_unicode) refl
      | inr (code, good) ↦ elim (Option-cases (on_bytes on_byte (utf8 code) s)) [
        | inl stop ↦
            rw (good, stop, walk_unicode, chars_unicode) (fed-stop (utf8 code) s (chars rest) stop)
        | inr (s', go) ↦
            rw (good, go, walk_unicode, chars_unicode)
              (walk-chars rest s' ∙ fed-go (utf8 code) s s' (chars rest) go)
      ]
    ]
    walk-chars_unicode [] s = refl
    walk-chars_unicode (a ∷ []) s = refl
    walk-chars_unicode (a ∷ b ∷ []) s = refl
    walk-chars_unicode (a ∷ b ∷ c ∷ []) s = refl
