-- ===== src/Scanner/Models.antt =====
-- src/features/gateway/lib/sse-parser.ts: `extractTopLevelModel` on printed objects.
use apipool_v.Base.{
  ℕ, ◌≤◌, ◌<◌, false, Option, none, some, [], ◌∷◌, ◌==◌, leb, if◌then◌else◌, length, is_some,
  String, Result, ok, err, ◌>>=◌, ◌≡◌, ◌≢◌, refl, inl, inr, arith, Bool-cases, Option-cases,
}
use mathlib.Core.Path.{subst}
use apipool_v.Scanner.Text.{Bytes, quote, is_whitespace, decode_bounded}
use apipool_v.Scanner.Bounded.{decode_bounded-shorter}
use apipool_v.Scanner.Spelling.{Spelling, spelled, decode_bounded-spell}
use apipool_v.Scanner.Extract.{
  Reason, ambiguous, malformed, out_of_fuel, skip_whitespace, model_key, model_value_max_bytes,
  decoded_model, model_text, model_value, extract_top_level_model, extract,
}
use apipool_v.Scanner.Runs.{IsReader, skip_whitespace-short, scan-ends}
use apipool_v.Scanner.Values.{
  Value, text, atom, array, object, Members, print, IsAtom, IsWell, MembersAreWell, append,
}
use apipool_v.Scanner.Objects.{IsEnd, members_say, extract-members_say}

module _ (decode : Bytes → String) where
  -- What a member `model` says.
  abbrev pub model_says : Option String → Value → Result Reason (Option String)
  model_says found (text s) =
      if is_some found
      then err ambiguous
      else if leb (length (spelled s)) model_value_max_bytes
      then ok (some (decode (spelled s)))
      else err malformed
  model_says found v = err malformed

  decoded_model-short :
      (body rest : Bytes) (found' : Option String)
      → decoded_model (decode_bounded decode model_value_max_bytes body) ≡ ok (found', rest)
      → length rest < length body
  decoded_model-short body rest found' h =
      elim (Option-cases (decode_bounded decode model_value_max_bytes body)) [
        | inl bad ↦ absurd (ground arith)
        | inr ((s, end), good) ↦
            let same : end ≡ rest = ground arith in
            subst (λ e. length e < length body) same
              (decode_bounded-shorter decode model_value_max_bytes body end s good)
      ]

  model_text-short :
      (found found' : Option String) (value rest : Bytes)
      → model_text decode found value ≡ ok (found', rest)
      → length rest ≤ length value
  unfolding model_text
  model_text-short found found' [] rest h = absurd (cc)
  model_text-short found found' (byte ∷ value) rest h = elim (Bool-cases (byte == quote)) [
    | inr other ↦ absurd (ground arith)
    | inl q ↦ elim (Bool-cases (is_some found)) [
      | inl again ↦ absurd (ground arith)
      | inr first ↦
          let short : length rest < length value =
            decoded_model-short value rest found' (ground arith) in
          omega (arith, short)
    ]
  ]

  decoded_model-answers : (o : Option (String × Bytes)) → decoded_model o ≢ err out_of_fuel
  decoded_model-answers none h = absurd (cc)
  decoded_model-answers (some (s, end)) h = absurd (cc)

  model_text-answers :
      (found : Option String) (value : Bytes) → model_text decode found value ≢ err out_of_fuel
  unfolding model_text
  model_text-answers found [] h = absurd (cc)
  model_text-answers found (byte ∷ value) h = elim (Bool-cases (byte == quote)) [
    | inr other ↦ absurd (ground arith)
    | inl q ↦ elim (Bool-cases (is_some found)) [
      | inl again ↦ absurd (ground arith)
      | inr first ↦
          decoded_model-answers (decode_bounded decode model_value_max_bytes value) (ground arith)
    ]
  ]

  model_value-IsReader : IsReader model_key (model_value decode)
  unfolding model_value
  model_value-IsReader = record {
    shrinks = λ found found' value rest h. omega (
      arith,
      model_text-short found found' (skip_whitespace value) rest h,
      skip_whitespace-short value,
    );
    never_waits = λ found value. model_text-answers found (skip_whitespace value);
  }

  pub extract_top_level_model-ends :
      (body : Bytes) → extract_top_level_model decode body ≢ err out_of_fuel
  unfolding extract_top_level_model extract
  extract_top_level_model-ends body h =
      scan-ends model_key (model_value decode) model_value-IsReader (length body) body 0 none
        (omega arith) h

  text_says :
      (found : Option String) (s : Spelling) (tail : Bytes)
      → model_value decode found (print (text s) tail)
        ≡ (model_says found (text s) >>= λ found'. ok (found', tail))
  unfolding model_value model_text print skip_whitespace
  text_says found s tail = elim (Bool-cases (is_some found)) [
    | inl again ↦ rw again refl
    | inr first ↦ elim (Bool-cases (leb (length (spelled s)) model_value_max_bytes)) [
      | inl low ↦ rw (first, decode_bounded-spell decode model_value_max_bytes s tail, low) refl
      | inr high ↦ rw (first, decode_bounded-spell decode model_value_max_bytes s tail, high) refl
    ]
  ]

  no_quote :
      (found : Option String) (b : ℕ) (bs : Bytes)
      → is_whitespace b ≡ false
      → (b == quote) ≡ false
      → model_value decode found (b ∷ bs) ≡ err malformed
  unfolding model_value model_text skip_whitespace
  no_quote found b bs w q = rw (w, q, skip_whitespace, model_text) refl

  atom_says :
      (found : Option String) (bs tail : Bytes)
      → IsAtom bs
      → IsEnd tail
      → model_value decode found (append bs tail) ≡ err malformed
  atom_says found [] [] w e = absurd (cc)
  atom_says found [] (c ∷ k) w e = no_quote found c k (ground arith) (ground arith)
  atom_says found (b ∷ bs) tail w e =
      no_quote found b (append bs tail) (ground (arith, w.0)) (ground (arith, w.0))

  model-says :
      (found : Option String) (v : Value) (tail : Bytes)
      → IsWell v
      → IsEnd tail
      → model_value decode found (print v tail)
        ≡ (model_says found v >>= λ found'. ok (found', tail))
  unfolding print IsWell
  model-says found (text s) tail w e = text_says found s tail
  model-says found (atom bs) tail w e = atom_says found bs tail w e
  model-says found (array vs) tail w e = no_quote found 91 _ refl refl
  model-says found (object ms) tail w e = no_quote found 123 _ refl refl

  pub extract_top_level_model-members :
      (ms : Members)
      → MembersAreWell ms
      → extract_top_level_model decode (print (object ms) [])
        ≡ members_say model_key model_says none ms
  unfolding extract_top_level_model
  extract_top_level_model-members ms w =
      extract-members_say model_key (model_value decode) model_says
        (record { reader = model_value-IsReader; reads = model-says }) ms w
