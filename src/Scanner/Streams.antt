-- ===== src/Scanner/Streams.antt =====
-- src/features/gateway/lib/sse-parser.ts: `extractTopLevelStream` on printed objects.
use apipool_v.Base.{
  ◌≤◌, Bool, true, false, Option, none, some, [], ◌∷◌, ◌==◌, if◌then◌else◌, length, Result, ok, err,
  ◌>>=◌, ◌≡◌, ◌≢◌, refl, ap, ◌∙◌, inl, inr, arith, Bool-cases,
}
use mathlib.Core.Path.{subst}
use apipool_v.Scanner.Text.{Bytes}
use apipool_v.Scanner.Matching.{eq_bytes}
use apipool_v.Scanner.Extract.{
  Reason, ambiguous, malformed, out_of_fuel, skip_whitespace, stream_key, true_value, false_value,
  ends_value, matches_literal, stream_literal, stream_value, extract_top_level_stream, extract,
}
use apipool_v.Scanner.Runs.{IsReader, skip_whitespace-short, scan-ends}
use apipool_v.Scanner.Values.{
  Value, text, atom, array, object, Members, print, IsAtom, IsWell, MembersAreWell, append,
}
use apipool_v.Scanner.Objects.{IsEnd, members_say, extract-members_say}

-- What a member `stream` says.
abbrev literal_says : Bytes → Result Reason (Option Bool)
literal_says bs =
    if eq_bytes bs true_value
    then ok (some true)
    else if eq_bytes bs false_value
    then ok (some false)
    else err malformed

abbrev pub stream_says : Option Bool → Value → Result Reason (Option Bool)
stream_says (some b) v = err ambiguous
stream_says none (atom bs) = literal_says bs
stream_says none v = err malformed

matches_literal-short :
    (lit body rest : Bytes) → matches_literal lit body ≡ some rest → length rest ≤ length body
unfolding matches_literal
matches_literal-short [] body rest h = elim (Bool-cases (ends_value body)) [
  | inl stop ↦
      let same : body ≡ rest = ground arith in
      subst (λ r. length r ≤ length body) same (omega arith)
  | inr on ↦ absurd (ground arith)
]
matches_literal-short (e ∷ es) [] rest h = absurd (cc)
matches_literal-short (e ∷ es) (byte ∷ body) rest h = elim (Bool-cases (byte == e)) [
  | inl hit ↦ omega (arith, matches_literal-short es body rest (ground arith))
  | inr miss ↦ absurd (ground arith)
]

stream_literal-short :
    (o q : Option Bytes) (found' : Option Bool) (body rest : Bytes)
    → ((r : Bytes) → o ≡ some r → length r ≤ length body)
    → ((r : Bytes) → q ≡ some r → length r ≤ length body)
    → stream_literal o q ≡ ok (found', rest)
    → length rest ≤ length body
stream_literal-short (some a) q found' body rest low low' h =
    let same : a ≡ rest = ground arith in subst (λ r. length r ≤ length body) same (low a refl)
stream_literal-short none (some a) found' body rest low low' h =
    let same : a ≡ rest = ground arith in subst (λ r. length r ≤ length body) same (low' a refl)
stream_literal-short none none found' body rest low low' h = absurd (cc)

stream_literal-answers : (o q : Option Bytes) → stream_literal o q ≢ err out_of_fuel
stream_literal-answers (some a) q h = absurd (cc)
stream_literal-answers none (some a) h = absurd (cc)
stream_literal-answers none none h = absurd (cc)

stream_value-short :
    (found found' : Option Bool) (value rest : Bytes)
    → stream_value found value ≡ ok (found', rest)
    → length rest ≤ length value
unfolding stream_value
stream_value-short (some b) found' value rest h = absurd (cc)
stream_value-short none found' value rest h =
    let short : length rest ≤ length (skip_whitespace value) =
      stream_literal-short _ _ found' (skip_whitespace value) rest
        (λ r. matches_literal-short true_value _ r) (λ r. matches_literal-short false_value _ r)
        h in
    omega (arith, short, skip_whitespace-short value)

stream_value-answers :
    (found : Option Bool) (value : Bytes) → stream_value found value ≢ err out_of_fuel
unfolding stream_value
stream_value-answers (some b) value h = absurd (cc)
stream_value-answers none value h = stream_literal-answers _ _ h

stream_value-IsReader : IsReader stream_key stream_value
stream_value-IsReader = record { shrinks = stream_value-short; never_waits = stream_value-answers }

-- A literal is found where it is the whole atom.
literal-atom :
    (lit bs tail : Bytes)
    → IsAtom lit
    → IsAtom bs
    → IsEnd tail
    → matches_literal lit (append bs tail) ≡ (if eq_bytes bs lit then some tail else none)
unfolding matches_literal eq_bytes
literal-atom [] [] [] l w e = absurd (cc)
literal-atom [] [] (c ∷ k) l w e = ground arith
literal-atom [] (b ∷ bs) tail l w e = ground (arith, w.0)
literal-atom (x ∷ xs) [] [] l w e = refl
literal-atom (x ∷ xs) [] (c ∷ k) l w e =
    let other : (c == x) ≡ false = ground (arith, l.0) in rw (other, matches_literal) refl
literal-atom (x ∷ xs) (b ∷ bs) tail l w e = elim (Bool-cases (b == x)) [
  | inl hit ↦ rw (hit, matches_literal, eq_bytes) (literal-atom xs bs tail l.1 w.1 e)
  | inr miss ↦ rw (miss, matches_literal, eq_bytes) refl
]

pub no_space :
    (bs tail : Bytes) → IsAtom bs → IsEnd tail → skip_whitespace (append bs tail) ≡ append bs tail
unfolding skip_whitespace
no_space [] [] w e = refl
no_space [] (c ∷ k) w e = ground arith
no_space (b ∷ bs) tail w e = ground (arith, w.0)

literals-say :
    (bs tail : Bytes)
    → IsAtom bs
    → IsEnd tail
    → stream_literal
        (matches_literal true_value (append bs tail))
        (matches_literal false_value (append bs tail))
      ≡ (literal_says bs >>= λ found'. ok (found', tail))
literals-say bs tail w e =
    let yes_true : matches_literal true_value (append bs tail)
        ≡ (if eq_bytes bs true_value then some tail else none) =
      literal-atom true_value bs tail (refl, (refl, (refl, (refl, tt)))) w e in
    let yes_false : matches_literal false_value (append bs tail)
        ≡ (if eq_bytes bs false_value then some tail else none) =
      literal-atom false_value bs tail (refl, (refl, (refl, (refl, (refl, tt))))) w e in
    elim (Bool-cases (eq_bytes bs true_value)) [
      | inl hit ↦ rw (yes_true, yes_false, hit) refl
      | inr miss ↦ elim (Bool-cases (eq_bytes bs false_value)) [
        | inl hit ↦ rw (yes_true, yes_false, miss, hit) refl
        | inr neither ↦ rw (yes_true, yes_false, miss, neither) refl
      ]
    ]

stream-says :
    (found : Option Bool) (v : Value) (tail : Bytes)
    → IsWell v
    → IsEnd tail
    → stream_value found (print v tail) ≡ (stream_says found v >>= λ found'. ok (found', tail))
unfolding stream_value print IsWell matches_literal skip_whitespace
stream-says (some b) v tail w e = refl
stream-says none (text s) tail w e = refl
stream-says none (atom bs) tail w e =
    ap (λ k. stream_literal (matches_literal true_value k) (matches_literal false_value k))
      (no_space bs tail w e)
    ∙ literals-say bs tail w e
stream-says none (array vs) tail w e = refl
stream-says none (object ms) tail w e = refl

pub extract_top_level_stream-ends : (body : Bytes) → extract_top_level_stream body ≢ err out_of_fuel
unfolding extract_top_level_stream extract
extract_top_level_stream-ends body h =
    scan-ends stream_key stream_value stream_value-IsReader (length body) body 0 none (omega arith)
      h

pub extract_top_level_stream-members :
    (ms : Members)
    → MembersAreWell ms
    → extract_top_level_stream (print (object ms) []) ≡ members_say stream_key stream_says none ms
unfolding extract_top_level_stream
extract_top_level_stream-members ms w =
    extract-members_say stream_key stream_value stream_says
      (record { reader = stream_value-IsReader; reads = stream-says }) ms w
