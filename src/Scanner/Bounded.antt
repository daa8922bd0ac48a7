-- ===== src/Scanner/Bounded.antt =====
-- src/features/gateway/lib/sse-parser.ts: `decodeBoundedString` on what `JSON.stringify` writes.
use apipool_v.Base.{
  ℕ, ◌+◌, ◌<◌, ◌≤◌, false, Option, none, some, [], ◌∷◌, ◌++◌, leb, if◌then◌else◌, length, String,
  ◌≡◌, ◌≢◌, refl, sym, ap, ◌∙◌, inl, inr, arith, Bool-cases, Option-cases,
}
use mathlib.Core.Path.{subst}
use apipool_v.Scanner.Text.{◌>>=◌, Bytes, quote, on_bytes, walk_string, push_byte, decode_bounded}
use apipool_v.Scanner.Chars.{chars, fed, walk-chars}
use apipool_v.Scanner.Matching.{IsCut, chars-IsCut, length-++}
use apipool_v.Scanner.Print.{write, chars-write}

++-nil : (bs : Bytes) → bs ++ [] ≡ bs
++-nil [] = refl
++-nil (b ∷ bs) = ap (λ cs. b ∷ cs) (++-nil bs)

++-assoc : (xs bs cs : Bytes) → (xs ++ bs) ++ cs ≡ xs ++ (bs ++ cs)
++-assoc [] bs cs = refl
++-assoc (a ∷ xs) bs cs = ap (λ ds. a ∷ ds) (++-assoc xs bs cs)

abbrev pub fits : ℕ → Bytes → Bytes → Option Bytes
fits max_bytes acc out = if leb (length acc + length out) max_bytes then some (acc ++ out) else none

fits-step :
    (max_bytes b : ℕ) (acc out : Bytes)
    → fits max_bytes (acc ++ b ∷ []) out ≡ fits max_bytes acc (b ∷ out)
fits-step max_bytes b acc out =
    rw (length-++ acc (b ∷ []), ++-assoc acc (b ∷ []) out)
      (ap (λ n. if leb n max_bytes then some (acc ++ b ∷ out) else none) (omega arith))

pushed :
    (max_bytes : ℕ) (out acc : Bytes)
    → length acc ≤ max_bytes
    → on_bytes (push_byte max_bytes) out acc ≡ fits max_bytes acc out
pushed max_bytes [] acc low = rw (++-nil acc) (ground arith)
pushed max_bytes (b ∷ out) acc low = elim (Bool-cases (leb max_bytes (length acc))) [
  | inl full ↦
      let over : leb (length acc + length (b ∷ out)) max_bytes ≡ false = ground arith in
      rw (full, over, on_bytes) refl
  | inr room ↦
      let below : length (acc ++ b ∷ []) ≤ max_bytes = ground (arith, length-++ acc (b ∷ [])) in
      rw (room, on_bytes)
        (pushed max_bytes out (acc ++ b ∷ []) below ∙ fits-step max_bytes b acc out)
]

abbrev pub decoded : (Bytes → String) → ℕ → Option (Bytes × Bytes) → Option (String × Bytes)
decoded decode max_bytes none = none
decoded decode max_bytes (some (out, end)) =
    if leb (length out) max_bytes then some (decode out, end) else none

-- Decoding with a bound is decoding, and then the bound.
pub decode_bounded-chars :
    (decode : Bytes → String) (max_bytes : ℕ) (body : Bytes)
    → decode_bounded decode max_bytes body ≡ decoded decode max_bytes (chars body)
unfolding decode_bounded
decode_bounded-chars decode max_bytes body = elim (Option-cases (chars body)) [
  | inl bad ↦ rw (walk-chars (push_byte max_bytes) body [], bad, fed, decode_bounded, ◌>>=◌) refl
  | inr ((out, end), good) ↦
      let walked : walk_string (push_byte max_bytes) body []
          ≡ elim (fits max_bytes [] out) [ none ↦ none | some o ↦ some (end, o) ] =
        walk-chars (push_byte max_bytes) body []
        ∙ rw (good, fed, pushed max_bytes out [] (omega arith)) refl in
      let starting : fits max_bytes [] out
          ≡ (if leb (length out) max_bytes then some out else none) =
        ap (λ n. if leb n max_bytes then some out else none) (omega arith) in
      elim (Bool-cases (leb (length out) max_bytes)) [
        | inl low ↦ rw (walked, starting, good, low, decode_bounded, ◌>>=◌) refl
        | inr high ↦ rw (walked, starting, good, high, decode_bounded, ◌>>=◌) refl
      ]
]

-- A string that was written is read back with the bytes behind it, whatever they are, where it has
-- at most the bytes that are allowed; otherwise it is refused.
pub decode_bounded-write :
    (decode : Bytes → String) (max_bytes : ℕ) (bs rest : Bytes)
    → decode_bounded decode max_bytes (write bs (quote ∷ rest))
      ≡ (if leb (length bs) max_bytes then some (decode bs, rest) else none)
decode_bounded-write decode max_bytes bs rest =
    decode_bounded-chars decode max_bytes (write bs (quote ∷ rest))
    ∙ ap (decoded decode max_bytes) (chars-write bs rest)

nothing :
    (decode : Bytes → String) (max_bytes : ℕ) (body : Bytes) (s : String) (end : Bytes)
    → chars body ≡ none
    → decode_bounded decode max_bytes body ≢ some (s, end)
nothing decode max_bytes body s end bad h =
    let e : Path (Option (String × Bytes)) none (some (s, end)) =
      sym (decode_bounded-chars decode max_bytes body ∙ ap (decoded decode max_bytes) bad) ∙ h in
    absurd (cc)

same_end :
    (decode : Bytes → String) (max_bytes : ℕ) (out end' end : Bytes) (s : String)
    → decoded decode max_bytes (some (out, end')) ≡ some (s, end)
    → end' ≡ end
same_end decode max_bytes out end' end s h = ground arith

-- A string that is decoded leaves fewer bytes.
pub decode_bounded-shorter :
    (decode : Bytes → String) (max_bytes : ℕ) (body end : Bytes) (s : String)
    → decode_bounded decode max_bytes body ≡ some (s, end)
    → length end < length body
decode_bounded-shorter decode max_bytes body end s h = elim (Option-cases (chars body)) [
  | inl bad ↦ absurd (nothing decode max_bytes body s end bad h)
  | inr ((out, end'), good) ↦
      let cut : IsCut body (some (out, end')) 0 =
        subst (λ o. IsCut body o 0) good (chars-IsCut body) in
      let same : end' ≡ end = same_end decode max_bytes out end' end s (
        sym (decode_bounded-chars decode max_bytes body ∙ ap (decoded decode max_bytes) good)
        ∙ h) in
      omega (arith, cut.0, ap length same)
]
