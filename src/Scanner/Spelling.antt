-- ===== src/Scanner/Spelling.antt =====
-- The spellings of a JSON string: any character below 128 may be written as `\\u` and four digits.
use apipool_v.Base.{
  ℕ, ◌/◌, ◌%◌, ◌<◌, some, List, [], ◌∷◌, ltb, leb, if◌then◌else◌, length, String, none, ◌≡◌, refl,
  ap, ◌∙◌, inl, inr, arith, Bool-cases,
}
use apipool_v.Scanner.Text.{
  ◌>>=◌, Bytes, quote, backslash, code_point, utf8, hex_digit, decode_bounded,
}
use apipool_v.Scanner.Chars.{chars, prepend}
use apipool_v.Scanner.Print.{hex, hex_digit-hex, write_byte, chars-write_byte}
use apipool_v.Scanner.Bounded.{decoded, decode_bounded-chars}

-- A byte of a string, written as `JSON.stringify` writes it or by its number.
pub data Piece : Type 0 where
  usual : ℕ → Piece
  coded : ℕ → Piece

abbrev pub Spelling : Type 0
Spelling = List Piece

-- What is spelled.
unfoldable pub spelled : Spelling → Bytes
spelled [] = []
spelled (usual b ∷ ps) = b ∷ spelled ps
spelled (coded b ∷ ps) = b ∷ spelled ps

-- A byte by its number, where it is a character of its own.
unfoldable pub write_code : ℕ → Bytes → Bytes
write_code b k =
    if ltb b 128
    then backslash ∷ 117 ∷ 48 ∷ 48 ∷ hex (b / 16) ∷ hex (b % 16) ∷ k
    else write_byte b k

unfoldable pub spell : Spelling → Bytes → Bytes
spell [] k = k
spell (usual b ∷ ps) k = write_byte b (spell ps k)
spell (coded b ∷ ps) k = write_code b (spell ps k)

code_point-code : (b : ℕ) → b < 128 → code_point 48 48 (hex (b / 16)) (hex (b % 16)) ≡ some b
unfolding code_point hex_digit
code_point-code b small =
    rw
      (
        hex_digit-hex (b / 16) (omega arith),
        hex_digit-hex (b % 16) (omega arith),
        code_point,
        ◌>>=◌,
      )
      (ap some (omega arith))

utf8_one : (b : ℕ) → b < 128 → utf8 b ≡ b ∷ []
unfolding utf8
utf8_one b small = ground arith

chars-write_code : (b : ℕ) (k : Bytes) → chars (write_code b k) ≡ prepend (b ∷ []) (chars k)
unfolding chars write_code
chars-write_code b k = elim (Bool-cases (ltb b 128)) [
  | inl low ↦
      let code : code_point 48 48 (hex (b / 16)) (hex (b % 16)) ≡ some b =
        code_point-code b (ground arith) in
      let one : utf8 b ≡ b ∷ [] = utf8_one b (ground arith) in rw (low, code, one, chars) refl
  | inr high ↦ rw high (chars-write_byte b k)
]

-- However a string is spelled, it is read as it is.
pub chars-spell :
    (ps : Spelling) (rest : Bytes) → chars (spell ps (quote ∷ rest)) ≡ some (spelled ps, rest)
unfolding chars spell spelled
chars-spell [] rest = refl
chars-spell (usual b ∷ ps) rest =
    chars-write_byte b (spell ps (quote ∷ rest)) ∙ ap (prepend (b ∷ [])) (chars-spell ps rest)
chars-spell (coded b ∷ ps) rest =
    chars-write_code b (spell ps (quote ∷ rest)) ∙ ap (prepend (b ∷ [])) (chars-spell ps rest)

pub decode_bounded-spell :
    (decode : Bytes → String) (max_bytes : ℕ) (ps : Spelling) (rest : Bytes)
    → decode_bounded decode max_bytes (spell ps (quote ∷ rest))
      ≡ (if leb (length (spelled ps)) max_bytes then some (decode (spelled ps), rest) else none)
decode_bounded-spell decode max_bytes ps rest =
    decode_bounded-chars decode max_bytes (spell ps (quote ∷ rest))
    ∙ ap (decoded decode max_bytes) (chars-spell ps rest)
