-- ===== src/Events/Drains.antt =====
-- src/features/gateway/lib/sse-parser.ts: draining the lines of a text that comes in pieces.
use apipool_v.Base.{
  ℕ, ◌+◌, false, List, [], ◌∷◌, ◌++◌, ◌==◌, length, ◌≡◌, refl, sym, ap, ◌∙◌, inl, inr, arith,
  Bool-cases,
}
use apipool_v.Events.Line.{Text, Usage}
use apipool_v.Events.Extractor.{drain_lines}

++-nil : (bs : Text) → bs ++ [] ≡ bs
++-nil [] = refl
++-nil (b ∷ bs) = ap (λ cs. b ∷ cs) (++-nil bs)

++-assoc : (xs bs cs : Text) → (xs ++ bs) ++ cs ≡ xs ++ (bs ++ cs)
++-assoc [] bs cs = refl
++-assoc (a ∷ xs) bs cs = ap (λ ds. a ∷ ds) (++-assoc xs bs cs)

pub length-++ : (bs cs : List ℕ) → length (bs ++ cs) ≡ length bs + length cs
length-++ [] cs = omega arith
length-++ (b ∷ bs) cs = omega (arith, length-++ bs cs)

module _ (line : Text → Usage → Usage) where
  drain-++ :
      (acc x y : Text) (u : Usage)
      → drain_lines line acc (x ++ y) u
        ≡ drain_lines line (drain_lines line acc x u).0 y (drain_lines line acc x u).1
  unfolding drain_lines
  drain-++ acc [] y u = refl
  drain-++ acc (c ∷ x) y u = elim (Bool-cases (c == 10)) [
    | inl feed ↦ rw (feed, drain_lines) (drain-++ [] x y (line acc u))
    | inr other ↦ rw (other, drain_lines) (drain-++ (acc ++ c ∷ []) x y u)
  ]

  -- A carry holds no line feed: it can be read again.
  abbrev pub IsClean : Text → Type 0
  IsClean carry =
      (acc y : Text) (u : Usage)
      → drain_lines line acc (carry ++ y) u ≡ drain_lines line (acc ++ carry) y u

  pub nil-IsClean : IsClean []
  nil-IsClean acc y u = ap (λ z. drain_lines line z y u) (sym (++-nil acc))

  snoc-IsClean :
      (carry : Text) (c : ℕ) → (c == 10) ≡ false → IsClean carry → IsClean (carry ++ c ∷ [])
  unfolding drain_lines
  snoc-IsClean carry c other clean acc y u =
      ap (λ z. drain_lines line acc z u) (++-assoc carry (c ∷ []) y)
      ∙ clean acc (c ∷ y) u
      ∙ rw (other, drain_lines) (ap (λ z. drain_lines line z y u) (++-assoc acc carry (c ∷ [])))

  pub drain-IsClean :
      (acc x : Text) (u : Usage) → IsClean acc → IsClean (drain_lines line acc x u).0
  unfolding drain_lines
  drain-IsClean acc [] u clean = clean
  drain-IsClean acc (c ∷ x) u clean = elim (Bool-cases (c == 10)) [
    | inl feed ↦ rw (feed, drain_lines) (drain-IsClean [] x (line acc u) nil-IsClean)
    | inr other ↦
        rw (other, drain_lines) (drain-IsClean (acc ++ c ∷ []) x u (snoc-IsClean acc c other clean))
  ]

  -- Reading on from a carry is reading it again with what follows.
  pub drain-twice :
      (carry x y : Text) (u : Usage)
      → drain_lines line []
          ((drain_lines line [] (carry ++ x) u).0 ++ y)
          (drain_lines line [] (carry ++ x) u).1
        ≡ drain_lines line [] (carry ++ (x ++ y)) u
  drain-twice carry x y u =
      drain-IsClean [] (carry ++ x) u nil-IsClean [] y (drain_lines line [] (carry ++ x) u).1
      ∙ sym (drain-++ [] (carry ++ x) y u)
      ∙ ap (λ z. drain_lines line [] z u) (++-assoc carry x y)
