-- ===== src/Scanner/Objects.antt =====
-- src/features/gateway/lib/sse-parser.ts: what the loop finds in a printed object.
use apipool_v.Base.{
  true, false, Option, none, [], ◌∷◌, Result, ok, ◌>>=◌, Result-cases, ◌≡◌, refl, ◌∙◌, inl, inr,
  arith, Bool-cases,
}
use apipool_v.Scanner.Text.{Bytes}
use apipool_v.Scanner.Spelling.{Spelling, spelled}
use apipool_v.Scanner.Matching.{eq_bytes}
use apipool_v.Scanner.Extract.{
  Reason, colon_value, colon, depth_after, on_member, on_key, on_depth, step, finish, scan, extract,
  is_delimiter,
}
use apipool_v.Scanner.Runs.{IsReader, run, run-step}
use apipool_v.Scanner.Values.{
  Value, text, atom, array, object, Members, no_members, and_member, comma, write_text, print,
  print_values, print_members, print_more_members, IsWell, MembersAreWell,
}
use apipool_v.Scanner.Deep.{
  run-text, run-open, run-close, run-other, run-atom, deep_values, deep_members,
}

-- A value of an object ends at a comma or at the brace.
abbrev pub IsEnd : Bytes → Type 0
IsEnd tail = is_delimiter tail ≡ true

no_colon : (tail : Bytes) → IsEnd tail → colon_value tail ≡ none
unfolding colon_value
no_colon [] e = absurd (cc)
no_colon (c ∷ k) e = ground arith

more-IsEnd : (ms : Members) (k : Bytes) → IsEnd (print_more_members ms (125 ∷ k))
unfolding print
more-IsEnd no_members k = refl
more-IsEnd (and_member name v ms) k = refl

module _ {A : Type 0} (key : Bytes) (said : Option A → Value → Result Reason (Option A)) where
  -- What the members of an object say, one after the other.
  unfoldable pub members_say : Option A → Members → Result Reason A
  unfolding finish eq_bytes
  members_say found no_members = finish 0 found
  members_say found (and_member name v ms) = elim (eq_bytes (spelled name) key) [
    | true ↦ said found v >>= λ found'. members_say found' ms
    | false ↦ members_say found ms
  ]

module _ {A : Type 0} (key : Bytes)
    (on_value : Option A → Bytes → Result Reason (Option A × Bytes)) where
  -- What a value that stands behind the key says, after what was found before.
  pub record Says (said : Option A → Value → Result Reason (Option A)) : Type 0 where
    pub reader : IsReader key on_value
    pub reads :
        (found : Option A) (v : Value) (tail : Bytes)
        → IsWell v
        → IsEnd tail
        → on_value found (print v tail) ≡ (said found v >>= λ found'. ok (found', tail))

  module _ (said : Option A → Value → Result Reason (Option A)) (says : Says said) where
    top_value :
        (v : Value) (tail : Bytes) (found : Option A)
        → IsWell v
        → IsEnd tail
        → run key on_value (print v tail) 1 found ≡ run key on_value tail 1 found
    unfolding print IsWell on_key on_member
    top_value (text s) tail found w e =
        run-text key on_value says.reader s tail 1 found
        ∙ elim (Bool-cases (eq_bytes (spelled s) key)) [
          | inl hit ↦ rw (hit, no_colon tail e, on_key, on_member) refl
          | inr miss ↦ rw (miss, on_key) refl
        ]
    top_value (atom bs) tail found w e = run-atom key on_value says.reader bs tail 0 found w
    top_value (array vs) tail found w e =
        run-open key on_value says.reader 91 (print_values vs (93 ∷ tail)) 0 found refl refl refl
        ∙ deep_values key on_value says.reader vs (93 ∷ tail) 0 found w
        ∙ run-close key on_value says.reader 93 tail 1 found refl refl
    top_value (object ms) tail found w e =
        run-open key on_value says.reader 123 (print_members ms (125 ∷ tail)) 0 found refl refl refl
        ∙ deep_members key on_value says.reader ms (125 ∷ tail) 0 found w
        ∙ run-close key on_value says.reader 125 tail 1 found refl refl

    top_member :
        (name : Spelling) (v : Value) (tail : Bytes) (found : Option A)
        → IsWell v
        → IsEnd tail
        → run key on_value (write_text name (colon ∷ print v tail)) 1 found
          ≡ elim (eq_bytes (spelled name) key) [
            | true ↦ said found v >>= λ found'. run key on_value tail 1 found'
            | false ↦ run key on_value tail 1 found
          ]
    unfolding on_key on_member colon_value
    top_member name v tail found w e =
        run-text key on_value says.reader name (colon ∷ print v tail) 1 found
        ∙ elim (Bool-cases (eq_bytes (spelled name) key)) [
          | inl hit ↦ elim (Result-cases (said found v)) [
            | inl (reason, bad) ↦ rw (hit, says.reads found v tail w e, bad, on_key, on_member) refl
            | inr (found', good) ↦
                rw (hit, says.reads found v tail w e, good, on_key, on_member) refl
          ]
          | inr miss ↦
              rw (miss, on_key)
                (run-other key on_value says.reader colon (print v tail) 0 found refl refl refl
                  ∙ top_value v tail found w e)
        ]

    then_more :
        (name : Spelling) (v : Value) (ms : Members) (tail : Bytes) (found : Option A)
        → ((found' : Option A) → run key on_value tail 1 found' ≡ members_say key said found' ms)
        → (elim (eq_bytes (spelled name) key) as (λ _. Result Reason A) [
          | true ↦ said found v >>= λ found'. run key on_value tail 1 found'
          | false ↦ run key on_value tail 1 found
        ])
          ≡ members_say key said found (and_member name v ms)
    unfolding members_say
    then_more name v ms tail found later = elim (Bool-cases (eq_bytes (spelled name) key)) [
      | inl hit ↦ elim (Result-cases (said found v)) [
        | inl (reason, bad) ↦ rw (hit, bad, members_say) refl
        | inr (found', good) ↦ rw (hit, good, members_say) (later found')
      ]
      | inr miss ↦ rw (miss, members_say) (later found)
    ]

    top_more :
        (ms : Members) (found : Option A)
        → MembersAreWell ms
        → run key on_value (print_more_members ms (125 ∷ [])) 1 found
          ≡ members_say key said found ms
    unfolding print IsWell members_say run scan
    top_more no_members found w = run-close key on_value says.reader 125 [] 0 found refl refl ∙ refl
    top_more (and_member name v ms) found w =
        run-other key on_value says.reader comma
          (write_text name (colon ∷ print v (print_more_members ms (125 ∷ [])))) 0 found refl refl
          refl
        ∙ top_member name v (print_more_members ms (125 ∷ [])) found w.0 (more-IsEnd ms [])
        ∙ then_more name v ms (print_more_members ms (125 ∷ [])) found
            (λ found'. top_more ms found' w.1)

    top_members :
        (ms : Members) (found : Option A)
        → MembersAreWell ms
        → run key on_value (print_members ms (125 ∷ [])) 1 found ≡ members_say key said found ms
    unfolding print IsWell members_say run scan
    top_members no_members found w = run-close key on_value says.reader 125 [] 0 found refl refl
    top_members (and_member name v ms) found w =
        top_member name v (print_more_members ms (125 ∷ [])) found w.0 (more-IsEnd ms [])
        ∙ then_more name v ms (print_more_members ms (125 ∷ [])) found
            (λ found'. top_more ms found' w.1)

    -- The loop on the body of a printed object.
    pub extract-members_say :
        (ms : Members)
        → MembersAreWell ms
        → extract key on_value (print (object ms) []) ≡ members_say key said none ms
    unfolding print extract run step depth_after on_depth
    extract-members_say ms w =
        run-step key on_value says.reader 123 (print_members ms (125 ∷ [])) 0 none
        ∙ top_members ms none w
