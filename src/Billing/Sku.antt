-- ===== src/Billing/Sku.antt =====
-- src/features/api-catalog/lib/sku-rule.ts: the evaluation of a compiled SKU rule. Facts are an
-- association list; a field that it lacks reads as null.
use apipool_v.Base.{
  ℕ, zero, suc, String, Bool, true, false, ◌&&◌, ◌||◌, not, Option, none, some, List, [], ◌∷◌,
  if◌then◌else◌, str_eq, is_text, is_truthy, leb, ◌==◌, has,
}
use Prim.Native.Char.{code}
use Prim.Native.String.{◌++◌ as concat}

pub data Condition : Type 0 where
  eq ne : (field value : String) → Condition
  one_of : (field : String) (values : List String) → Condition
  missing present : (field : String) → Condition

pub data Output : Type 0 where
  sku : (template : String) → Output
  reject : Output

pub record Rule : Type 0 where
  pub conditions : List Condition
  pub output : Output

pub record SkuRule : Type 0 where
  pub rules : List Rule
  pub fallback : Output

pub data Evaluation : Type 0 where
  found : (sku_key : String) → Evaluation
  rejected missing_template_fact : Evaluation

abbrev pub Facts : Type 0
Facts = List (String × Option String)

-- `facts[field] ?? null`
unfoldable pub fact : String → Facts → Option String
fact field [] = none
fact field ((k, v) ∷ facts) = if str_eq k field then v else fact field facts

unfoldable pub condition_matches : Facts → Condition → Bool
condition_matches facts (missing field) = not (is_truthy (fact field facts))
condition_matches facts (present field) = is_truthy (fact field facts)
condition_matches facts (eq field value) = is_text (fact field facts) value
condition_matches facts (ne field value) = not (is_text (fact field facts) value)
condition_matches facts (one_of field values) = elim (fact field facts) [
  | none ↦ false
  | some v ↦ has (str_eq v) values
]

unfoldable pub is_letter : ℕ → Bool
is_letter c = leb b'A' c && leb c b'Z' || leb b'a' c && leb c b'z' || c == b'_'

unfoldable pub is_word : ℕ → Bool
unfolding is_letter
is_word c = is_letter c || leb b'0' c && leb c b'9'

-- The rest of a placeholder behind its first letter: the letters up to `}`, and their number.
unfoldable pub word_end : String → Option (String × ℕ)
unfolding is_word
word_end String.[] = none
word_end (String.◌∷◌ c s) =
    let rest = word_end s in
    if code c == b'}'
    then some ("", 1)
    else if is_word (code c)
    then elim rest [ none ↦ none | some (w, n) ↦ some (String.◌∷◌ c w, suc n) ]
    else none

-- `/\$\{([A-Za-z_][A-Za-z0-9_]*)\}/` at the start of the text behind a `$`: the field, and how many
-- characters the match takes.
unfoldable pub placeholder : String → Option (String × ℕ)
unfolding word_end
placeholder (String.◌∷◌ b (String.◌∷◌ c s)) =
    if code b == b'{' && is_letter (code c)
    then elim (word_end s) [ none ↦ none | some (w, n) ↦ some (String.◌∷◌ c w, suc (suc n)) ]
    else none
placeholder _ = none

-- `template.replace`: `none` where a fact is missing. `skip` counts the characters of a match that
-- are still to be dropped.
unfoldable pub render_from : Facts → ℕ → String → Option String
unfolding placeholder
render_from facts skip String.[] = some ""
render_from facts (suc skip) (String.◌∷◌ c s) = render_from facts skip s
render_from facts zero (String.◌∷◌ c s) =
    let plain : Option String = elim (render_from facts zero s) [
      | none ↦ none
      | some t ↦ some (String.◌∷◌ c t)
    ] in
    if code c == b'$'
    then elim (placeholder s) [
      | none ↦ plain
      | some (field, n) ↦ elim (fact field facts) [
        | none ↦ none
        | some v ↦
            if is_truthy (some v)
            then elim (render_from facts n s) [ none ↦ none | some t ↦ some (concat v t) ]
            else none
      ]
    ]
    else plain

unfoldable pub render_output : Facts → Output → Evaluation
unfolding render_from
render_output facts reject = rejected
render_output facts (sku template) = elim (render_from facts zero template) [
  | none ↦ missing_template_fact
  | some key ↦ found key
]

unfoldable pub all_match : Facts → List Condition → Bool
all_match facts [] = true
all_match facts (c ∷ cs) = condition_matches facts c && all_match facts cs

unfoldable pub evaluate_rules : Facts → List Rule → Output → Evaluation
evaluate_rules facts [] fallback = render_output facts fallback
evaluate_rules facts (r ∷ rs) fallback =
    if all_match facts r.conditions
    then render_output facts r.output
    else evaluate_rules facts rs fallback

unfoldable pub evaluate_sku_rule : Facts → SkuRule → Evaluation
evaluate_sku_rule facts rule = evaluate_rules facts rule.rules rule.fallback
