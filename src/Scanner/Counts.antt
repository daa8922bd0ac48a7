-- ===== src/Scanner/Counts.antt =====
-- src/features/gateway/lib/sse-parser.ts: `extractTopLevelImageCount` on printed objects.
use apipool_v.Base.{
  ℕ, ◌+◌, ◌-◌, ◌*◌, ◌≤◌, true, false, ◌||◌, Option, none, some, [], ◌∷◌, ◌==◌, ltb, leb,
  if◌then◌else◌, length, Result, ok, err, ◌>>=◌, ◌≡◌, ◌≢◌, refl, ap, ◌∙◌, inl, inr, arith,
  Bool-cases,
}
use apipool_v.Base.Numbers.{max_safe}
use apipool_v.Scanner.Text.{Bytes, is_whitespace}
use apipool_v.Scanner.Extract.{
  Reason, ambiguous, malformed, out_of_fuel, skip_whitespace, is_digit, digits, counted, count_text,
  count_value, image_count_key, extract_top_level_image_count, extract,
}
use apipool_v.Scanner.Runs.{IsReader, skip_whitespace-short, scan-ends}
use apipool_v.Scanner.Values.{
  Value, text, atom, array, object, Members, print, IsAtom, IsWell, MembersAreWell, append,
}
use apipool_v.Scanner.Objects.{IsEnd, members_say, extract-members_say}
use apipool_v.Scanner.Streams.{no_space}

-- The number that an atom writes, where it writes one.
unfoldable pub number : ℕ → Bytes → Option ℕ
number n [] = some n
number n (b ∷ bs) = if is_digit b then number (n * 10 + (b - 48)) bs else none

abbrev safe_number : Option ℕ → Result Reason (Option ℕ)
safe_number none = err malformed
safe_number (some n) = if leb n max_safe then ok (some n) else err malformed

-- What a member `n` says: a safe number without a leading zero.
abbrev number_says : Bytes → Result Reason (Option ℕ)
number_says [] = err malformed
number_says (b ∷ bs) =
    if ltb b 49 || ltb 57 b then err malformed else safe_number (number (b - 48) bs)

abbrev pub count_says : Option ℕ → Value → Result Reason (Option ℕ)
count_says (some n) v = err ambiguous
count_says none (atom bs) = number_says bs
count_says none v = err malformed

digits-short : (n : ℕ) (body : Bytes) → length (digits n body).1 ≤ length body
unfolding digits
digits-short n [] = omega arith
digits-short n (b ∷ body) = elim (Bool-cases (is_digit b)) [
  | inl d ↦ rw (d, digits) (omega (arith, digits-short (n * 10 + (b - 48)) body))
  | inr e ↦ rw (e, digits) (omega arith)
]

counted-short :
    (n : ℕ) (found' : Option ℕ) (delimiter rest : Bytes)
    → counted n delimiter ≡ ok (found', rest)
    → delimiter ≡ rest
counted-short n found' delimiter rest h = ground arith

counted-answers : (n : ℕ) (delimiter : Bytes) → counted n delimiter ≢ err out_of_fuel
counted-answers n delimiter h = absurd (ground arith)

count_text-short :
    (found' : Option ℕ) (value rest : Bytes)
    → count_text value ≡ ok (found', rest)
    → length rest ≤ length value
unfolding count_text
count_text-short found' [] rest h = absurd (cc)
count_text-short found' (b ∷ value) rest h = elim (Bool-cases (ltb b 49 || ltb 57 b)) [
  | inl bad ↦ absurd (ground arith)
  | inr good ↦
      let same : skip_whitespace (digits (b - 48) value).1 ≡ rest =
        counted-short (digits (b - 48) value).0 found' (skip_whitespace (digits (b - 48) value).1)
          rest (ground arith) in
      omega (
        arith,
        ap length same,
        skip_whitespace-short (digits (b - 48) value).1,
        digits-short (b - 48) value,
      )
]

count_text-answers : (value : Bytes) → count_text value ≢ err out_of_fuel
unfolding count_text
count_text-answers [] h = absurd (cc)
count_text-answers (b ∷ value) h = elim (Bool-cases (ltb b 49 || ltb 57 b)) [
  | inl bad ↦ absurd (ground arith)
  | inr good ↦
      counted-answers (digits (b - 48) value).0 (skip_whitespace (digits (b - 48) value).1)
        (ground arith)
]

count_value-short :
    (found found' : Option ℕ) (value rest : Bytes)
    → count_value found value ≡ ok (found', rest)
    → length rest ≤ length value
unfolding count_value
count_value-short (some b) found' value rest h = absurd (cc)
count_value-short none found' value rest h =
    omega
      (arith, count_text-short found' (skip_whitespace value) rest h, skip_whitespace-short value)

count_value-answers : (found : Option ℕ) (value : Bytes) → count_value found value ≢ err out_of_fuel
unfolding count_value
count_value-answers (some b) value h = absurd (cc)
count_value-answers none value h = count_text-answers (skip_whitespace value) h

count_value-IsReader : IsReader image_count_key count_value
count_value-IsReader = record { shrinks = count_value-short; never_waits = count_value-answers }

counted-end :
    (n : ℕ) (tail : Bytes)
    → IsEnd tail
    → counted n tail ≡ (safe_number (some n) >>= λ found'. ok (found', tail))
counted-end n tail e = elim (Bool-cases (leb n max_safe)) [
  | inl low ↦ rw (e, low) refl
  | inr high ↦ rw (e, high) refl
]

-- The digits of an atom are read up to its end, and a byte that is no digit is no delimiter.
digits-atom :
    (n : ℕ) (bs tail : Bytes)
    → IsAtom bs
    → IsEnd tail
    → counted (digits n (append bs tail)).0 (skip_whitespace (digits n (append bs tail)).1)
      ≡ (safe_number (number n bs) >>= λ found'. ok (found', tail))
unfolding digits number skip_whitespace
digits-atom n [] [] w e = absurd (cc)
digits-atom n [] (c ∷ k) w e =
    let other : is_digit c ≡ false = ground arith in
    let solid : is_whitespace c ≡ false = ground arith in
    rw (other, solid, digits, number, skip_whitespace) (counted-end n (c ∷ k) e)
digits-atom n (b ∷ bs) tail w e = elim (Bool-cases (is_digit b)) [
  | inl d ↦ rw (d, digits, number) (digits-atom (n * 10 + (b - 48)) bs tail w.1 e)
  | inr other ↦
      let solid : is_whitespace b ≡ false = ground (arith, w.0) in
      let on : ((b == 44) || (b == 125)) ≡ false = ground (arith, w.0) in
      rw (other, solid, on, digits, number, skip_whitespace) refl
]

text-atom :
    (bs tail : Bytes)
    → IsAtom bs
    → IsEnd tail
    → count_text (append bs tail) ≡ (number_says bs >>= λ found'. ok (found', tail))
unfolding count_text
text-atom [] [] w e = refl
text-atom [] (c ∷ k) w e =
    let outside : (ltb c 49 || ltb 57 c) ≡ true = ground arith in rw outside refl
text-atom (b ∷ bs) tail w e = elim (Bool-cases (ltb b 49 || ltb 57 b)) [
  | inl outside ↦ rw (outside, count_text) refl
  | inr inside ↦ rw (inside, count_text) (digits-atom (b - 48) bs tail w.1 e)
]

count-says :
    (found : Option ℕ) (v : Value) (tail : Bytes)
    → IsWell v
    → IsEnd tail
    → count_value found (print v tail) ≡ (count_says found v >>= λ found'. ok (found', tail))
unfolding count_value count_text print IsWell skip_whitespace
count-says (some b) v tail w e = refl
count-says none (text s) tail w e = refl
count-says none (atom bs) tail w e = ap count_text (no_space bs tail w e) ∙ text-atom bs tail w e
count-says none (array vs) tail w e = refl
count-says none (object ms) tail w e = refl

pub extract_top_level_image_count-ends :
    (body : Bytes) → extract_top_level_image_count body ≢ err out_of_fuel
unfolding extract_top_level_image_count extract
extract_top_level_image_count-ends body h =
    scan-ends image_count_key count_value count_value-IsReader (length body) body 0 none
      (omega arith) h

pub extract_top_level_image_count-members :
    (ms : Members)
    → MembersAreWell ms
    → extract_top_level_image_count (print (object ms) [])
      ≡ members_say image_count_key count_says none ms
unfolding extract_top_level_image_count
extract_top_level_image_count-members ms w =
    extract-members_say image_count_key count_value count_says
      (record { reader = count_value-IsReader; reads = count-says }) ms w
