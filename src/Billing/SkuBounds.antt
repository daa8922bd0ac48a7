-- ===== src/Billing/SkuBounds.antt =====
-- What the check of a stored SKU rule guarantees.
use apipool_v.Base.{
  zero, suc, ◌≤◌, ◌<◌, String, true, false, ◌||◌, Option, some, none, List, [], ◌∷◌, ok, err, ◌>>=◌,
  >>=-eq-ok, All, length, ◌≡◌, refl, ap, arith, inl, inr, Bool-cases, if◌then◌else◌, ltb, ◌==◌,
  str_eq,
}
use mathlib.Core.Path.{subst}
use apipool_v.Base.Json.{
  Json, null, boolean, number, string, array, object, Fields, Items, elems, get,
}
use apipool_v.Billing.Sku.{Condition, Output, sku, reject, Rule, SkuRule}
use apipool_v.Billing.SkuCheck.{
  SkuError, max_rules, max_conditions, max_source, utf16_length, cut_placeholders, has_opening,
  validate_output, validate_condition, validate_conditions, validate_rule, validate_rules,
  validate_compiled_sku_rule, is_integer,
}

-- A template is not empty and is not over the limit, and nothing but whole placeholders opens one.
abbrev pub IsOutput : Output → Type 0
IsOutput reject = Unit
IsOutput (sku t) =
    (str_eq t "" ≡ false)
    × (utf16_length t ≤ max_source)
    × (has_opening (cut_placeholders zero t) ≡ false)

pub record IsRule (r : Rule) : Type 0 where
  pub some_condition : 0 < length r.conditions
  pub few_conditions : length r.conditions ≤ max_conditions
  pub output : IsOutput r.output

pub record IsSkuRule (r : SkuRule) : Type 0 where
  pub few_rules : length r.rules ≤ max_rules
  pub rules : All IsRule r.rules
  pub fallback : IsOutput r.fallback

validate_template-IsOutput :
    (t : String) (o : Output)
    → (if str_eq t "" || ltb max_source (utf16_length t)
        then err SkuError.bad_template
        else if has_opening (cut_placeholders zero t)
        then err SkuError.stray_interpolation
        else ok (sku t))
      ≡ ok o
    → IsOutput o
validate_template-IsOutput t o h =
    elim (Bool-cases (str_eq t "" || ltb max_source (utf16_length t))) [
      | inl bad ↦ absurd (ground arith)
      | inr fine ↦ elim (Bool-cases (has_opening (cut_placeholders zero t))) [
        | inl stray ↦ absurd (ground arith)
        | inr closed ↦
            let same : sku t ≡ o = ground arith in
            let filled : str_eq t "" ≡ false = ground arith in
            let short : utf16_length t ≤ max_source = ground arith in
            subst IsOutput same (filled, short, closed)
      ]
    ]

template-IsOutput :
    (fs : Fields) (o : Output) (kind : String) (v : Option Json)
    → get "type" fs ≡ some (string kind)
    → str_eq kind "reject" ≡ false
    → get "template" fs ≡ v
    → validate_output (some (object fs)) ≡ ok o
    → IsOutput o
unfolding validate_output
template-IsOutput fs o kind (some (string t)) e other at h = elim (Bool-cases (str_eq kind "sku")) [
  | inl is_sku ↦ validate_template-IsOutput t o (ground arith)
  | inr neither ↦ absurd (ground arith)
]
template-IsOutput fs o kind none e other at h = absurd (ground arith)
template-IsOutput fs o kind (some null) e other at h = absurd (ground arith)
template-IsOutput fs o kind (some (boolean b)) e other at h = absurd (ground arith)
template-IsOutput fs o kind (some (number n)) e other at h = absurd (ground arith)
template-IsOutput fs o kind (some (array vs)) e other at h = absurd (ground arith)
template-IsOutput fs o kind (some (object gs)) e other at h = absurd (ground arith)

typed-IsOutput :
    (fs : Fields) (o : Output) (v : Option Json)
    → get "type" fs ≡ v
    → validate_output (some (object fs)) ≡ ok o
    → IsOutput o
unfolding validate_output
typed-IsOutput fs o (some (string kind)) e h = elim (Bool-cases (str_eq kind "reject")) [
  | inl rejects ↦ let same : reject ≡ o = ground arith in subst IsOutput same tt
  | inr other ↦ template-IsOutput fs o kind (get "template" fs) e other refl h
]
typed-IsOutput fs o none e h = absurd (ground arith)
typed-IsOutput fs o (some null) e h = absurd (ground arith)
typed-IsOutput fs o (some (boolean b)) e h = absurd (ground arith)
typed-IsOutput fs o (some (number n)) e h = absurd (ground arith)
typed-IsOutput fs o (some (array vs)) e h = absurd (ground arith)
typed-IsOutput fs o (some (object gs)) e h = absurd (ground arith)

validate_output-IsOutput : (v : Option Json) (o : Output) → validate_output v ≡ ok o → IsOutput o
unfolding validate_output
validate_output-IsOutput (some (object fs)) o h = typed-IsOutput fs o (get "type" fs) refl h
validate_output-IsOutput none o h = absurd (cc)
validate_output-IsOutput (some null) o h = absurd (cc)
validate_output-IsOutput (some (boolean b)) o h = absurd (cc)
validate_output-IsOutput (some (number n)) o h = absurd (cc)
validate_output-IsOutput (some (string t)) o h = absurd (cc)
validate_output-IsOutput (some (array vs)) o h = absurd (cc)

validate_conditions-length :
    (vs : List Json) (cs : List Condition) → validate_conditions vs ≡ ok cs → length cs ≡ length vs
unfolding validate_conditions
validate_conditions-length [] cs h = ground arith
validate_conditions-length (v ∷ vs) cs h =
    let (c, first, later) =
      >>=-eq-ok (validate_condition v) (λ c. validate_conditions vs >>= λ cs'. ok (c ∷ cs')) h in
    let (cs', rest, last) = >>=-eq-ok (validate_conditions vs) (λ cs'. ok (c ∷ cs')) later in
    let same : c ∷ cs' ≡ cs = ground arith in
    subst (λ xs. length xs ≡ suc (length vs)) same (ap suc (validate_conditions-length vs cs' rest))

made-IsRule :
    (items : Items) (output : Option Json) (r : Rule)
    → (length (elems items) == 0 || ltb max_conditions (length (elems items))) ≡ false
    → (validate_conditions (elems items) >>= λ cs.
        validate_output output >>= λ o. ok (record { conditions = cs; output = o }))
      ≡ ok r
    → IsRule r
made-IsRule items output r counted h =
    let (cs, made, later) =
      >>=-eq-ok (validate_conditions (elems items))
        (λ cs. validate_output output >>= λ o. ok (record { conditions = cs; output = o })) h in
    let (o, checked, last) =
      >>=-eq-ok (validate_output output) (λ o. ok (record { conditions = cs; output = o })) later in
    let same : record { conditions = cs; output = o } ≡ r = ground arith in
    let long : length cs ≡ length (elems items) =
      validate_conditions-length (elems items) cs made in
    subst IsRule same (record {
      some_condition = ground arith;
      few_conditions = ground arith;
      output = validate_output-IsOutput output o checked;
    })

conditions-IsRule :
    (fs : Fields) (r : Rule) (v : Option Json)
    → get "conditions" fs ≡ v
    → validate_rule (object fs) ≡ ok r
    → IsRule r
unfolding validate_rule
conditions-IsRule fs r (some (array items)) e h =
    elim (Bool-cases (length (elems items) == 0 || ltb max_conditions (length (elems items)))) [
      | inl bad ↦ absurd (ground arith)
      | inr counted ↦ made-IsRule items (get "output" fs) r counted (ground arith)
    ]
conditions-IsRule fs r none e h = absurd (ground arith)
conditions-IsRule fs r (some null) e h = absurd (ground arith)
conditions-IsRule fs r (some (boolean b)) e h = absurd (ground arith)
conditions-IsRule fs r (some (number n)) e h = absurd (ground arith)
conditions-IsRule fs r (some (string t)) e h = absurd (ground arith)
conditions-IsRule fs r (some (object gs)) e h = absurd (ground arith)

validate_rule-IsRule : (v : Json) (r : Rule) → validate_rule v ≡ ok r → IsRule r
unfolding validate_rule
validate_rule-IsRule (object fs) r h = conditions-IsRule fs r (get "conditions" fs) refl h
validate_rule-IsRule null r h = absurd (cc)
validate_rule-IsRule (boolean b) r h = absurd (cc)
validate_rule-IsRule (number n) r h = absurd (cc)
validate_rule-IsRule (string t) r h = absurd (cc)
validate_rule-IsRule (array vs) r h = absurd (cc)

validate_rules-IsRule :
    (vs : List Json) (rs : List Rule)
    → validate_rules vs ≡ ok rs
    → All IsRule rs × (length rs ≡ length vs)
unfolding validate_rules
validate_rules-IsRule [] rs h =
    let same : [] ≡ rs = ground arith in
    subst (λ xs. All IsRule xs × (length xs ≡ 0)) same (tt, refl)
validate_rules-IsRule (v ∷ vs) rs h =
    let (r, first, later) =
      >>=-eq-ok (validate_rule v) (λ r. validate_rules vs >>= λ rs'. ok (r ∷ rs')) h in
    let (rs', rest, last) = >>=-eq-ok (validate_rules vs) (λ rs'. ok (r ∷ rs')) later in
    let same : r ∷ rs' ≡ rs = ground arith in
    let (goods, long) = validate_rules-IsRule vs rs' rest in
    subst (λ xs. All IsRule xs × (length xs ≡ suc (length vs))) same
      ((validate_rule-IsRule v r first, goods), ap suc long)

made-IsSkuRule :
    (items : Items) (fallback : Option Json) (r : SkuRule)
    → ltb max_rules (length (elems items)) ≡ false
    → (validate_rules (elems items) >>= λ rules.
        validate_output fallback >>= λ o. ok (record { rules = rules; fallback = o }))
      ≡ ok r
    → IsSkuRule r
made-IsSkuRule items fallback r few h =
    let (rules, made, later) =
      >>=-eq-ok (validate_rules (elems items))
        (λ rules. validate_output fallback >>= λ o. ok (record { rules = rules; fallback = o }))
        h in
    let (o, checked, last) =
      >>=-eq-ok (validate_output fallback) (λ o. ok (record { rules = rules; fallback = o }))
        later in
    let same : record { rules = rules; fallback = o } ≡ r = ground arith in
    let (goods, long) = validate_rules-IsRule (elems items) rules made in
    subst IsSkuRule same (record {
      few_rules = ground arith;
      rules = goods;
      fallback = validate_output-IsOutput fallback o checked;
    })

listed-IsSkuRule :
    (fs : Fields) (r : SkuRule) (v : Option Json)
    → get "rules" fs ≡ v
    → is_integer 1 (get "version" fs) ≡ true
    → validate_compiled_sku_rule (object fs) ≡ ok r
    → IsSkuRule r
unfolding validate_compiled_sku_rule
listed-IsSkuRule fs r (some (array items)) e versioned h =
    elim (Bool-cases (ltb max_rules (length (elems items)))) [
      | inl many ↦ absurd (ground arith)
      | inr few ↦ made-IsSkuRule items (get "fallback" fs) r few (ground arith)
    ]
listed-IsSkuRule fs r none e versioned h = absurd (ground arith)
listed-IsSkuRule fs r (some null) e versioned h = absurd (ground arith)
listed-IsSkuRule fs r (some (boolean b)) e versioned h = absurd (ground arith)
listed-IsSkuRule fs r (some (number n)) e versioned h = absurd (ground arith)
listed-IsSkuRule fs r (some (string t)) e versioned h = absurd (ground arith)
listed-IsSkuRule fs r (some (object gs)) e versioned h = absurd (ground arith)

-- A stored SKU rule that passes the check has at most 64 rules, each with 1 to 12 conditions, and
-- every template in it is between 1 and 8192 long and opens nothing but whole placeholders.
pub validate_compiled_sku_rule-IsSkuRule :
    (v : Json) (r : SkuRule) → validate_compiled_sku_rule v ≡ ok r → IsSkuRule r
unfolding validate_compiled_sku_rule
validate_compiled_sku_rule-IsSkuRule (object fs) r h =
    elim (Bool-cases (is_integer 1 (get "version" fs))) [
      | inl versioned ↦ listed-IsSkuRule fs r (get "rules" fs) refl versioned h
      | inr other ↦ absurd (ground arith)
    ]
validate_compiled_sku_rule-IsSkuRule null r h = absurd (cc)
validate_compiled_sku_rule-IsSkuRule (boolean b) r h = absurd (cc)
validate_compiled_sku_rule-IsSkuRule (number n) r h = absurd (cc)
validate_compiled_sku_rule-IsSkuRule (string t) r h = absurd (cc)
validate_compiled_sku_rule-IsSkuRule (array vs) r h = absurd (cc)
