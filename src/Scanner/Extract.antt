-- ===== src/Scanner/Extract.antt =====
-- src/features/gateway/lib/sse-parser.ts: `extractTopLevelModel`, `extractTopLevelStream` and
-- `extractTopLevelImageCount`. The three loops are the same but for the key and what is done with
-- the bytes behind its colon, which are arguments of one loop here. `decode` is the text decoder.
use apipool_v.Base.{
  ℕ, zero, suc, ◌+◌, ◌-◌, ◌*◌, Bool, true, false, ◌&&◌, ◌||◌, not, Option, none, some, [], ◌∷◌,
  String, ltb, leb, ◌==◌, length, is_some, Result, ok, err, ◌>>=◌, if◌then◌else◌,
}
use apipool_v.Base.Numbers.{max_safe}
use apipool_v.Scanner.Text.{Bytes, quote, is_whitespace, match_string, decode_bounded}

pub data Reason : Type 0 where
  missing ambiguous malformed out_of_fuel : Reason

abbrev pub colon : ℕ
colon = 58

abbrev pub is_open : ℕ → Bool
is_open byte = (byte == 123) || (byte == 91)

abbrev pub is_close : ℕ → Bool
is_close byte = (byte == 125) || (byte == 93)

abbrev pub model_key : Bytes
model_key = 109 ∷ 111 ∷ 100 ∷ 101 ∷ 108 ∷ []

abbrev pub stream_key : Bytes
stream_key = 115 ∷ 116 ∷ 114 ∷ 101 ∷ 97 ∷ 109 ∷ []

abbrev pub image_count_key : Bytes
image_count_key = 110 ∷ []

abbrev pub true_value : Bytes
true_value = 116 ∷ 114 ∷ 117 ∷ 101 ∷ []

abbrev pub false_value : Bytes
false_value = 102 ∷ 97 ∷ 108 ∷ 115 ∷ 101 ∷ []

unfoldable pub skip_whitespace : Bytes → Bytes
skip_whitespace [] = []
skip_whitespace (byte ∷ rest) = if is_whitespace byte then skip_whitespace rest else byte ∷ rest

-- The bytes behind the colon, where the next byte that is no space is one.
abbrev pub behind_colon : Bytes → Option Bytes
behind_colon [] = none
behind_colon (byte ∷ rest) = if byte == colon then some rest else none

unfoldable pub colon_value : Bytes → Option Bytes
unfolding skip_whitespace
colon_value body = behind_colon (skip_whitespace body)

-- The depth behind a byte that is no quote; `none` below 0.
unfoldable pub depth_after : ℕ → ℕ → Option ℕ
depth_after byte zero = if is_close byte then none else some (if is_open byte then 1 else 0)
depth_after byte (suc n) =
    if is_close byte then some n else some (if is_open byte then suc (suc n) else suc n)

-- Behind the loop.
unfoldable pub finish {ℓ} : {A : Type ℓ} → ℕ → Option A → Result Reason A
finish (suc n) found = err malformed
finish zero none = err missing
finish zero (some a) = ok a

module _ {A : Type 0} (key : Bytes)
    (on_value : Option A → Bytes → Result Reason (Option A × Bytes)) where
  abbrev pub Place : Type 0
  Place = Bytes × ℕ × Option A

  unfoldable pub on_member : Option Bytes → Bytes → ℕ → Option A → Result Reason Place
  on_member none end depth found = ok (end, depth, found)
  on_member (some value) end depth found = on_value found value >>= λ r. ok (r.1, depth, r.0)

  unfoldable pub on_key : Option (Bytes × Bool) → ℕ → Option A → Result Reason Place
  unfolding colon_value on_member
  on_key none depth found = err malformed
  on_key (some (end, matches)) depth found =
      if (depth == 1) && matches
      then on_member (colon_value end) end depth found
      else ok (end, depth, found)

  unfoldable pub on_depth : Option ℕ → Bytes → Option A → Result Reason Place
  on_depth none rest found = err malformed
  on_depth (some depth) rest found = ok (rest, depth, found)

  -- The body of the loop.
  unfoldable pub step : ℕ → Bytes → ℕ → Option A → Result Reason Place
  unfolding match_string on_key depth_after on_depth
  step byte rest depth found =
      if byte == quote
      then on_key (match_string key rest) depth found
      else on_depth (depth_after byte depth) rest found

  unfoldable pub scan : ℕ → Bytes → ℕ → Option A → Result Reason A
  unfolding step finish
  scan fuel [] depth found = finish depth found
  scan zero (byte ∷ rest) depth found = err out_of_fuel
  scan (suc fuel) (byte ∷ rest) depth found =
      step byte rest depth found >>= λ p. scan fuel p.0 p.1 p.2

  -- Every round reads a byte.
  unfoldable pub extract : Bytes → Result Reason A
  unfolding scan
  extract body = scan (length body) body 0 none

abbrev pub model_value_max_bytes : ℕ
model_value_max_bytes = 512

abbrev pub decoded_model : Option (String × Bytes) → Result Reason (Option String × Bytes)
decoded_model none = err malformed
decoded_model (some (value, end)) = ok (some value, end)

module _ (decode : Bytes → String) where
  unfoldable pub model_text : Option String → Bytes → Result Reason (Option String × Bytes)
  unfolding decode_bounded
  model_text found [] = err malformed
  model_text found (byte ∷ rest) =
      if not (byte == quote)
      then err malformed
      else if is_some found
      then err ambiguous
      else decoded_model (decode_bounded decode model_value_max_bytes rest)

  unfoldable pub model_value : Option String → Bytes → Result Reason (Option String × Bytes)
  unfolding model_text skip_whitespace
  model_value found value = model_text found (skip_whitespace value)

  unfoldable pub extract_top_level_model : Bytes → Result Reason String
  unfolding extract model_value
  extract_top_level_model body = extract model_key model_value body

abbrev pub ends_value : Bytes → Bool
ends_value [] = true
ends_value (next ∷ rest) = is_whitespace next || (next == 44) || is_close next

-- `matchesLiteral`, with the bytes behind the literal.
unfoldable pub matches_literal : Bytes → Bytes → Option Bytes
matches_literal [] body = if ends_value body then some body else none
matches_literal (e ∷ es) [] = none
matches_literal (e ∷ es) (byte ∷ rest) = elim (byte == e) [
  | true ↦ matches_literal es rest
  | false ↦ none
]

abbrev pub stream_literal : Option Bytes → Option Bytes → Result Reason (Option Bool × Bytes)
stream_literal (some end) other = ok (some true, end)
stream_literal none (some end) = ok (some false, end)
stream_literal none none = err malformed

unfoldable pub stream_value : Option Bool → Bytes → Result Reason (Option Bool × Bytes)
unfolding matches_literal skip_whitespace
stream_value found value =
    if is_some found
    then err ambiguous
    else stream_literal (matches_literal true_value (skip_whitespace value))
        (matches_literal false_value (skip_whitespace value))

unfoldable pub extract_top_level_stream : Bytes → Result Reason Bool
unfolding extract stream_value
extract_top_level_stream body = extract stream_key stream_value body

abbrev pub is_digit : ℕ → Bool
is_digit byte = leb 48 byte && leb byte 57

-- The number that the digits write, behind those that were read, and the bytes behind them.
unfoldable pub digits : ℕ → Bytes → ℕ × Bytes
digits n [] = (n, [])
digits n (byte ∷ rest) = elim (is_digit byte) [
  | true ↦ digits (n * 10 + (byte - 48)) rest
  | false ↦ (n, byte ∷ rest)
]

abbrev pub is_delimiter : Bytes → Bool
is_delimiter [] = false
is_delimiter (next ∷ rest) = (next == 44) || (next == 125)

abbrev pub counted : ℕ → Bytes → Result Reason (Option ℕ × Bytes)
counted n delimiter =
    if not (is_delimiter delimiter)
    then err malformed
    else if leb n max_safe
    then ok (some n, delimiter)
    else err malformed

unfoldable pub count_text : Bytes → Result Reason (Option ℕ × Bytes)
unfolding digits skip_whitespace
count_text [] = err malformed
count_text (byte ∷ rest) =
    if ltb byte 49 || ltb 57 byte
    then err malformed
    else counted (digits (byte - 48) rest).0 (skip_whitespace (digits (byte - 48) rest).1)

unfoldable pub count_value : Option ℕ → Bytes → Result Reason (Option ℕ × Bytes)
unfolding count_text skip_whitespace
count_value found value =
    if is_some found then err ambiguous else count_text (skip_whitespace value)

unfoldable pub extract_top_level_image_count : Bytes → Result Reason ℕ
unfolding extract count_value
extract_top_level_image_count body = extract image_count_key count_value body
