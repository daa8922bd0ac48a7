-- ===== src/Scanner/Text.antt =====
-- src/features/gateway/lib/sse-parser.ts: `skipJsonString`, `walkJsonString`, `matchJsonString` and
-- `decodeBoundedString`. A string is given from behind its opening quote.
use apipool_v.Base.{
  ℕ, ◌+◌, ◌-◌, ◌*◌, ◌/◌, ◌%◌, Bool, true, false, ◌&&◌, ◌||◌, Option, none, some, List, [], ◌∷◌,
  ◌++◌, String, ltb, leb, ◌==◌, if◌then◌else◌, length,
}

infixl 5 ◌>>=◌
abbrev pub ◌>>=◌ : {A B : Type 0} → Option A → (A → Option B) → Option B
none >>= f = none
some a >>= f = f a

abbrev pub Bytes : Type 0
Bytes = List ℕ

abbrev pub quote : ℕ
quote = 34

abbrev pub backslash : ℕ
backslash = 92

abbrev pub is_whitespace : ℕ → Bool
is_whitespace byte = (byte == 32) || (byte == 9) || (byte == 10) || (byte == 13)

-- `none` for -1
unfoldable pub hex_digit : ℕ → Option ℕ
hex_digit byte =
    if leb 48 byte && leb byte 57
    then some (byte - 48)
    else if leb 97 byte && leb byte 102
    then some (byte - 87)
    else if leb 65 byte && leb byte 70
    then some (byte - 55)
    else none

-- Four hexadecimal digits: the code point is 16 times what was read so far and the next digit.
unfoldable pub code_point : ℕ → ℕ → ℕ → ℕ → Option ℕ
unfolding hex_digit
code_point a b c d = do
  a ← hex_digit a
  b ← hex_digit b
  c ← hex_digit c
  d ← hex_digit d
  some (((a * 16 + b) * 16 + c) * 16 + d)

-- What follows a backslash, but for `u`.
unfoldable pub escaped_byte : ℕ → Option ℕ
escaped_byte escape =
    if escape == 34
    then some 34
    else if escape == 92
    then some 92
    else if escape == 47
    then some 47
    else if escape == 98
    then some 8
    else if escape == 102
    then some 12
    else if escape == 110
    then some 10
    else if escape == 114
    then some 13
    else if escape == 116
    then some 9
    else none

-- The bytes that a code point adds. The bits joined by `|` lie apart: `|` is `+`.
unfoldable pub utf8 : ℕ → Bytes
utf8 code =
    if ltb code 128
    then code ∷ []
    else if ltb code 2048
    then (192 + code / 64) ∷ (128 + code % 64) ∷ []
    else (224 + code / 4096) ∷ (128 + code / 64 % 64) ∷ (128 + code % 64) ∷ []

-- `skipJsonString`: the bytes behind the closing quote.
unfoldable mutual
  pub skip_string : Bytes → Option Bytes
  skip_string [] = none
  skip_string (byte ∷ rest) = elim (byte == quote) [
    | true ↦ some rest
    | false ↦ elim (ltb byte 32) [
      | true ↦ none
      | false ↦ elim (byte == backslash) [ true ↦ skip_escape rest | false ↦ skip_string rest ]
    ]
  ]

  pub skip_escape : Bytes → Option Bytes
  skip_escape [] = none
  skip_escape (escape ∷ rest) = elim (escape == 117) [
    | true ↦ skip_unicode rest
    | false ↦ elim (escaped_byte escape) [ none ↦ none | some byte ↦ skip_string rest ]
  ]

  pub skip_unicode : Bytes → Option Bytes
  skip_unicode (a ∷ b ∷ c ∷ d ∷ rest) = elim (code_point a b c d) [
    | none ↦ none
    | some code ↦ skip_string rest
  ]
  skip_unicode _ = none

-- Several calls of `onByte`, up to the first that is false.
abbrev pub on_bytes : {S : Type 0} → (ℕ → S → Option S) → Bytes → S → Option S
on_bytes on_byte [] s = some s
on_bytes on_byte (b ∷ bs) s = elim (on_byte b s) [ none ↦ none | some s' ↦ on_bytes on_byte bs s' ]

-- `walkJsonString`: `on_byte` is the callback, on the variables it captures.
module _ {S : Type 0} (on_byte : ℕ → S → Option S) where
  unfoldable mutual
    pub walk_string : Bytes → S → Option (Bytes × S)
    walk_string [] s = none
    walk_string (byte ∷ rest) s = elim (byte == quote) [
      | true ↦ some (rest, s)
      | false ↦ elim (ltb byte 32) [
        | true ↦ none
        | false ↦ elim (byte == backslash) [
          | true ↦ walk_escape rest s
          | false ↦ elim (on_byte byte s) [ none ↦ none | some s' ↦ walk_string rest s' ]
        ]
      ]
    ]

    pub walk_escape : Bytes → S → Option (Bytes × S)
    walk_escape [] s = none
    walk_escape (escape ∷ rest) s = elim (escape == 117) [
      | true ↦ walk_unicode rest s
      | false ↦ elim (escaped_byte escape) [
        | none ↦ none
        | some byte ↦ elim (on_byte byte s) [ none ↦ none | some s' ↦ walk_string rest s' ]
      ]
    ]

    pub walk_unicode : Bytes → S → Option (Bytes × S)
    walk_unicode (a ∷ b ∷ c ∷ d ∷ rest) s = elim (code_point a b c d) [
      | none ↦ none
      | some code ↦ elim (on_bytes on_byte (utf8 code) s) [
        | none ↦ none
        | some s' ↦ walk_string rest s'
      ]
    ]
    walk_unicode _ s = none

-- The variables of `matchJsonString`; what is still expected stands for the position.
pub record Matching : Type 0 where
  pub expected : Bytes
  pub matches : Bool

abbrev pub match_byte : ℕ → Matching → Option Matching
match_byte byte m = some (next m.expected)
  where
    next : Bytes → Matching
    next [] = record { expected = []; matches = false }
    next (e ∷ es) = record { expected = es; matches = m.matches && (byte == e) }

abbrev pub is_empty : Bytes → Bool
is_empty [] = true
is_empty (b ∷ bs) = false

-- `matchJsonString`: whether the string says `expected`, and the bytes behind it. The length of the
-- string is counted with its two quotes.
unfoldable pub match_string : Bytes → Bytes → Option (Bytes × Bool)
unfolding skip_string walk_string
match_string expected body = do
  end ← skip_string body
  elim (ltb (length expected * 6 + 2) (length body + 1 - length end)) [
    | true ↦ some (end, false)
    | false ↦ do
      (decoded_end, m) ←
          walk_string match_byte body (record { expected = expected; matches = true })
      some (end, m.matches && is_empty m.expected)
  ]

abbrev pub push_byte : ℕ → ℕ → Bytes → Option Bytes
push_byte max_bytes byte output =
    if leb max_bytes (length output) then none else some (output ++ byte ∷ [])

-- `decodeBoundedString`, `decode` being the text decoder.
unfoldable pub decode_bounded : (Bytes → String) → ℕ → Bytes → Option (String × Bytes)
unfolding walk_string
decode_bounded decode max_bytes body = do
  (end, output) ← walk_string (push_byte max_bytes) body []
  some (decode output, end)
