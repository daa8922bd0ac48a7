-- ===== src/Scanner/Print.antt =====
-- Bodies as `JSON.stringify` prints them: strings with their escapes, and objects without spaces.
use apipool_v.Base.{
  ℕ, ◌+◌, ◌/◌, ◌%◌, ◌<◌, true, false, some, [], ◌∷◌, ltb, ◌==◌, if◌then◌else◌, ◌≡◌, refl, ap, ◌∙◌,
  inl, inr, arith, Bool-cases,
}
use mathlib.Core.Path.{subst}
use apipool_v.Scanner.Text.{
  ◌>>=◌, Bytes, quote, backslash, code_point, escaped_byte, utf8, hex_digit,
}
use apipool_v.Scanner.Chars.{chars, prepend}

abbrev pub hex : ℕ → ℕ
hex n = if ltb n 10 then 48 + n else 87 + n

-- A byte of a string, in front of what follows.
unfoldable pub write_byte : ℕ → Bytes → Bytes
write_byte b k =
    if b == 34
    then backslash ∷ 34 ∷ k
    else if b == 92
    then backslash ∷ 92 ∷ k
    else if b == 8
    then backslash ∷ 98 ∷ k
    else if b == 12
    then backslash ∷ 102 ∷ k
    else if b == 10
    then backslash ∷ 110 ∷ k
    else if b == 13
    then backslash ∷ 114 ∷ k
    else if b == 9
    then backslash ∷ 116 ∷ k
    else if ltb b 32
    then backslash ∷ 117 ∷ 48 ∷ 48 ∷ hex (b / 16) ∷ hex (b % 16) ∷ k
    else b ∷ k

unfoldable pub write : Bytes → Bytes → Bytes
write [] k = k
write (b ∷ bs) k = write_byte b (write bs k)

utf8_low : (b : ℕ) → b < 32 → utf8 b ≡ b ∷ []
unfolding utf8
utf8_low b small = ground arith

pub hex_digit-hex : (n : ℕ) → n < 16 → hex_digit (hex n) ≡ some n
unfolding hex_digit
hex_digit-hex n small = ground arith

code_point-hex : (b : ℕ) → b < 32 → code_point 48 48 (hex (b / 16)) (hex (b % 16)) ≡ some b
unfolding code_point hex_digit
code_point-hex b small =
    rw
      (
        hex_digit-hex (b / 16) (omega arith),
        hex_digit-hex (b % 16) (omega arith),
        code_point,
        ◌>>=◌,
      )
      (ap some (omega arith))

abbrev IsReadBack : Bytes → ℕ → Type 0
IsReadBack k b = chars (write_byte b k) ≡ prepend (b ∷ []) (chars k)

at_literal : (k : Bytes) (n b : ℕ) → (b == n) ≡ true → IsReadBack k n → IsReadBack k b
at_literal k n b hit h = let same : n ≡ b = ground arith in subst (IsReadBack k) same h

plain_byte :
    (b : ℕ) (k : Bytes)
    → (b == quote) ≡ false
    → (b == backslash) ≡ false
    → ltb b 32 ≡ false
    → chars (b ∷ k) ≡ prepend (b ∷ []) (chars k)
unfolding chars
plain_byte b k no_quote no_escape high = rw (no_quote, high, no_escape, chars) refl

control_byte :
    (b : ℕ) (k : Bytes)
    → ltb b 32 ≡ true
    → chars (backslash ∷ 117 ∷ 48 ∷ 48 ∷ hex (b / 16) ∷ hex (b % 16) ∷ k)
      ≡ prepend (b ∷ []) (chars k)
unfolding chars
control_byte b k low =
    let code : code_point 48 48 (hex (b / 16)) (hex (b % 16)) ≡ some b =
      code_point-hex b (ground arith) in
    let small : utf8 b ≡ b ∷ [] = utf8_low b (ground arith) in rw (code, small, chars) refl

pub chars-write_byte : (b : ℕ) (k : Bytes) → IsReadBack k b
unfolding chars write_byte escaped_byte
chars-write_byte b k = elim (Bool-cases (b == 34)) [
  | inl e ↦ at_literal k 34 b e refl
  | inr n34 ↦ elim (Bool-cases (b == 92)) [
    | inl e ↦ at_literal k 92 b e refl
    | inr n92 ↦ elim (Bool-cases (b == 8)) [
      | inl e ↦ at_literal k 8 b e refl
      | inr n8 ↦ elim (Bool-cases (b == 12)) [
        | inl e ↦ at_literal k 12 b e refl
        | inr n12 ↦ elim (Bool-cases (b == 10)) [
          | inl e ↦ at_literal k 10 b e refl
          | inr n10 ↦ elim (Bool-cases (b == 13)) [
            | inl e ↦ at_literal k 13 b e refl
            | inr n13 ↦ elim (Bool-cases (b == 9)) [
              | inl e ↦ at_literal k 9 b e refl
              | inr n9 ↦ elim (Bool-cases (ltb b 32)) [
                | inl low ↦
                    rw (n34, n92, n8, n12, n10, n13, n9, low, write_byte) (control_byte b k low)
                | inr high ↦
                    rw (n34, n92, n8, n12, n10, n13, n9, high, write_byte)
                      (plain_byte b k n34 n92 high)
              ]
            ]
          ]
        ]
      ]
    ]
  ]
]

-- A string that was written is read as it was.
pub chars-write : (bs rest : Bytes) → chars (write bs (quote ∷ rest)) ≡ some (bs, rest)
unfolding chars write
chars-write [] rest = refl
chars-write (b ∷ bs) rest =
    chars-write_byte b (write bs (quote ∷ rest)) ∙ ap (prepend (b ∷ [])) (chars-write bs rest)
