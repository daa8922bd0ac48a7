-- ===== src/Billing/SkuCheck.antt =====
-- src/features/api-catalog/lib/sku-rule.ts: `validateCompiledSkuRule`, the check of a stored rule
-- before it is evaluated. The messages of the errors are not kept.
use apipool_v.Base.{
  ℕ, zero, suc, ◌+◌, String, Bool, true, false, ◌&&◌, ◌||◌, not, Option, none, some, List, [], ◌∷◌,
  Result, ok, err, ◌>>=◌, if◌then◌else◌, str_eq, ltb, leb, ◌==◌, has, length,
}
use apipool_v.Base.Int.{pos, eqb_ℤ}
use apipool_v.Base.Numbers.{integer}
use apipool_v.Base.Json.{Json, number, string, array, object, Fields, elems, get}
use Prim.Native.Char.{code}
use apipool_v.Billing.Sku.{
  Condition, eq, ne, one_of, missing, present, Output, sku, reject, Rule, SkuRule, is_letter,
  is_word, placeholder,
}

pub data SkuError : Type 0 where
  bad_version bad_rules bad_rule bad_condition_count bad_condition bad_field bad_operator : SkuError
  bad_output bad_template stray_interpolation : SkuError

-- `text.length`, in UTF-16 units.
unfoldable pub utf16_length : String → ℕ
utf16_length String.[] = 0
utf16_length (String.◌∷◌ c s) = (if ltb (code c) 0x10000 then 1 else 2) + utf16_length s

abbrev pub max_source : ℕ
max_source = 8192

abbrev pub max_rules : ℕ
max_rules = 64

abbrev pub max_conditions : ℕ
max_conditions = 12

abbrev pub max_values : ℕ
max_values = 32

unfoldable pub all_word : String → Bool
unfolding is_word
all_word String.[] = true
all_word (String.◌∷◌ c s) = is_word (code c) && all_word s

-- `/^[A-Za-z_][A-Za-z0-9_]*$/.test(value)`
unfoldable pub is_field_name : String → Bool
unfolding is_letter all_word
is_field_name String.[] = false
is_field_name (String.◌∷◌ c s) = is_letter (code c) && all_word s

unfoldable pub assert_field_name : Option Json → Result SkuError String
unfolding is_field_name utf16_length
assert_field_name (some (string s)) =
    if is_field_name s && leb (utf16_length s) 128 then ok s else err bad_field
assert_field_name _ = err bad_field

-- The template with its placeholders cut out.
unfoldable pub cut_placeholders : ℕ → String → String
unfolding placeholder
cut_placeholders skip String.[] = ""
cut_placeholders (suc skip) (String.◌∷◌ c s) = cut_placeholders skip s
cut_placeholders zero (String.◌∷◌ c s) = elim (if code c == b'$' then placeholder s else none) [
  | none ↦ String.◌∷◌ c (cut_placeholders zero s)
  | some (field, n) ↦ cut_placeholders n s
]

-- `text.includes('${')`
unfoldable pub has_opening : String → Bool
has_opening (String.◌∷◌ c (String.◌∷◌ d s)) =
    code c == b'$' && code d == b'{' || has_opening (String.◌∷◌ d s)
has_opening _ = false

unfoldable pub validate_output : Option Json → Result SkuError Output
unfolding cut_placeholders has_opening utf16_length
validate_output (some (object fs)) = elim (get "type" fs) [
  | some (string t) ↦
      if str_eq t "reject"
      then ok reject
      else if not (str_eq t "sku")
      then err bad_template
      else elim (get "template" fs) [
        | some (string template) ↦
            if str_eq template "" || ltb max_source (utf16_length template)
            then err bad_template
            else if has_opening (cut_placeholders zero template)
            then err stray_interpolation
            else ok (sku template)
        | _ ↦ err bad_template
      ]
  | _ ↦ err bad_template
]
validate_output _ = err bad_output

-- `values.every(item => typeof item === 'string' && item.length <= MAX)`, with the strings.
unfoldable pub texts : List Json → Option (List String)
unfolding utf16_length
texts [] = some []
texts (string s ∷ vs) =
    if leb (utf16_length s) max_source
    then elim (texts vs) [ none ↦ none | some ts ↦ some (s ∷ ts) ]
    else none
texts (v ∷ vs) = none

-- `[...new Set(values)]`
unfoldable pub distinct_from : List String → List String → List String
distinct_from seen [] = []
distinct_from seen (s ∷ ss) = elim (has (str_eq s) seen) [
  | true ↦ distinct_from seen ss
  | false ↦ s ∷ distinct_from (s ∷ seen) ss
]

unfoldable pub validate_operand : String → String → Fields → Result SkuError Condition
unfolding texts distinct_from elems utf16_length
validate_operand field operator fs =
    if str_eq operator "missing"
    then ok (missing field)
    else if str_eq operator "present"
    then ok (present field)
    else if str_eq operator "eq" || str_eq operator "ne"
    then elim (get "value" fs) [
      | some (string v) ↦
          if str_eq v "" || ltb max_source (utf16_length v)
          then err bad_operator
          else if str_eq operator "eq"
          then ok (eq field v)
          else ok (ne field v)
      | _ ↦ err bad_operator
    ]
    else if str_eq operator "in"
    then elim (get "values" fs) [
      | some (array items) ↦
          let vs = elems items in
          if length vs == 0 || ltb max_values (length vs)
          then err bad_operator
          else elim (texts vs) [
            | none ↦ err bad_operator
            | some ts ↦ ok (one_of field (distinct_from [] ts))
          ]
      | _ ↦ err bad_operator
    ]
    else err bad_operator

unfoldable pub validate_condition : Json → Result SkuError Condition
unfolding assert_field_name validate_operand
validate_condition (object fs) = do
  field ← assert_field_name (get "field" fs)
  elim (get "operator" fs) [
    | some (string operator) ↦ validate_operand field operator fs
    | _ ↦ err bad_operator
  ]
validate_condition _ = err bad_condition

unfoldable pub validate_conditions : List Json → Result SkuError (List Condition)
unfolding validate_condition
validate_conditions [] = ok []
validate_conditions (v ∷ vs) = do c ← validate_condition v; cs ← validate_conditions vs; ok (c ∷ cs)

unfoldable pub validate_rule : Json → Result SkuError Rule
unfolding validate_conditions validate_output elems
validate_rule (object fs) = elim (get "conditions" fs) [
  | some (array items) ↦
      let n = length (elems items) in
      if n == 0 || ltb max_conditions n then err bad_condition_count else do
        cs ← validate_conditions (elems items)
        output ← validate_output (get "output" fs)
        ok (record { conditions = cs; output = output })
  | _ ↦ err bad_rule
]
validate_rule _ = err bad_rule

unfoldable pub validate_rules : List Json → Result SkuError (List Rule)
unfolding validate_rule
validate_rules [] = ok []
validate_rules (v ∷ vs) = do r ← validate_rule v; rs ← validate_rules vs; ok (r ∷ rs)

-- `value === n`
abbrev pub is_integer : ℕ → Option Json → Bool
is_integer n (some (number (integer z))) = eqb_ℤ z (pos n)
is_integer n _ = false

unfoldable pub validate_compiled_sku_rule : Json → Result SkuError SkuRule
unfolding validate_rules validate_output elems
validate_compiled_sku_rule (object fs) =
    if is_integer 1 (get "version" fs)
    then elim (get "rules" fs) [
      | some (array items) ↦ if ltb max_rules (length (elems items)) then err bad_rules else do
        rules ← validate_rules (elems items)
        fallback ← validate_output (get "fallback" fs)
        ok (record { rules = rules; fallback = fallback })
      | _ ↦ err bad_rules
    ]
    else err bad_version
validate_compiled_sku_rule _ = err bad_version
