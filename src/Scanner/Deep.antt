-- ===== src/Scanner/Deep.antt =====
-- src/features/gateway/lib/sse-parser.ts: what the loop does on a printed value that is no member of
-- the top-level object: nothing.
use apipool_v.Base.{
  ℕ, suc, true, false, Option, some, [], ◌∷◌, ◌==◌, Result, ◌>>=◌, ◌≡◌, refl, ◌∙◌, arith,
}
use apipool_v.Scanner.Text.{Bytes, quote, match_string}
use apipool_v.Scanner.Matching.{eq_bytes, match_string-chars}
use apipool_v.Scanner.Spelling.{Spelling, spelled, spell, chars-spell}
use apipool_v.Scanner.Extract.{
  Reason, colon, is_open, is_close, depth_after, on_key, on_depth, step,
}
use apipool_v.Scanner.Runs.{IsReader, run, run-step}
use apipool_v.Scanner.Values.{
  Value, text, atom, array, object, Values, no_values, and_value, Members, no_members, and_member,
  comma, write_text, append, print, print_values, print_more_values, print_members,
  print_more_members, IsAtom, IsWell, AreWell, MembersAreWell,
}

pub match-spell :
    (key : Bytes) (s : Spelling) (k : Bytes)
    → match_string key (spell s (quote ∷ k)) ≡ some (k, eq_bytes (spelled s) key)
match-spell key s k = match_string-chars key (spell s (quote ∷ k)) ∙ rw (chars-spell s k) refl

module _ {A : Type 0} (key : Bytes) (on_value : Option A → Bytes → Result Reason (Option A × Bytes))
    (r : IsReader key on_value) where
  pub run-text :
      (s : Spelling) (k : Bytes) (depth : ℕ) (found : Option A)
      → run key on_value (write_text s k) depth found ≡ (
          on_key key on_value (some (k, eq_bytes (spelled s) key)) depth found >>= λ p.
          run key on_value p.0 p.1 p.2)
  unfolding step
  run-text s k depth found =
      run-step key on_value r quote (spell s (quote ∷ k)) depth found
      ∙ rw (match-spell key s k) refl

  pub run-open :
      (b : ℕ) (k : Bytes) (n : ℕ) (found : Option A)
      → (b == quote) ≡ false
      → is_close b ≡ false
      → is_open b ≡ true
      → run key on_value (b ∷ k) (suc n) found ≡ run key on_value k (suc (suc n)) found
  unfolding step depth_after on_depth
  run-open b k n found q c o =
      run-step key on_value r b k (suc n) found ∙ rw (q, c, o, step, depth_after, on_depth) refl

  pub run-close :
      (b : ℕ) (k : Bytes) (n : ℕ) (found : Option A)
      → (b == quote) ≡ false
      → is_close b ≡ true
      → run key on_value (b ∷ k) (suc n) found ≡ run key on_value k n found
  unfolding step depth_after on_depth
  run-close b k n found q c =
      run-step key on_value r b k (suc n) found ∙ rw (q, c, step, depth_after, on_depth) refl

  pub run-other :
      (b : ℕ) (k : Bytes) (n : ℕ) (found : Option A)
      → (b == quote) ≡ false
      → is_open b ≡ false
      → is_close b ≡ false
      → run key on_value (b ∷ k) (suc n) found ≡ run key on_value k (suc n) found
  unfolding step depth_after on_depth
  run-other b k n found q o c =
      run-step key on_value r b k (suc n) found ∙ rw (q, c, o, step, depth_after, on_depth) refl

  pub run-atom :
      (bs k : Bytes) (n : ℕ) (found : Option A)
      → IsAtom bs
      → run key on_value (append bs k) (suc n) found ≡ run key on_value k (suc n) found
  run-atom [] k n found plain = refl
  run-atom (b ∷ bs) k n found plain =
      run-other b (append bs k) n found (ground (arith, plain.0)) (ground (arith, plain.0))
        (ground (arith, plain.0))
      ∙ run-atom bs k n found plain.1

  deep_text :
      (s : Spelling) (k : Bytes) (n : ℕ) (found : Option A)
      → run key on_value (write_text s k) (suc (suc n)) found
        ≡ run key on_value k (suc (suc n)) found
  unfolding on_key
  deep_text s k n found =
      let deep : (suc (suc n) == 1) ≡ false = ground arith in
      run-text s k (suc (suc n)) found ∙ rw (deep, on_key) refl

  mutual
    unfolding print IsWell

    deep_value :
        (v : Value) (k : Bytes) (n : ℕ) (found : Option A)
        → IsWell v
        → run key on_value (print v k) (suc (suc n)) found ≡ run key on_value k (suc (suc n)) found
    deep_value (text s) k n found w = deep_text s k n found
    deep_value (atom bs) k n found w = run-atom bs k (suc n) found w
    deep_value (array vs) k n found w =
        run-open 91 (print_values vs (93 ∷ k)) (suc n) found refl refl refl
        ∙ deep_values vs (93 ∷ k) (suc n) found w
        ∙ run-close 93 k (suc (suc n)) found refl refl
    deep_value (object ms) k n found w =
        run-open 123 (print_members ms (125 ∷ k)) (suc n) found refl refl refl
        ∙ deep_members ms (125 ∷ k) (suc n) found w
        ∙ run-close 125 k (suc (suc n)) found refl refl

    pub deep_values :
        (vs : Values) (k : Bytes) (n : ℕ) (found : Option A)
        → AreWell vs
        → run key on_value (print_values vs k) (suc (suc n)) found
          ≡ run key on_value k (suc (suc n)) found
    deep_values no_values k n found w = refl
    deep_values (and_value v vs) k n found w =
        deep_value v (print_more_values vs k) n found w.0 ∙ deep_more_values vs k n found w.1

    deep_more_values :
        (vs : Values) (k : Bytes) (n : ℕ) (found : Option A)
        → AreWell vs
        → run key on_value (print_more_values vs k) (suc (suc n)) found
          ≡ run key on_value k (suc (suc n)) found
    deep_more_values no_values k n found w = refl
    deep_more_values (and_value v vs) k n found w =
        run-other comma (print v (print_more_values vs k)) (suc n) found refl refl refl
        ∙ deep_value v (print_more_values vs k) n found w.0
        ∙ deep_more_values vs k n found w.1

    pub deep_members :
        (ms : Members) (k : Bytes) (n : ℕ) (found : Option A)
        → MembersAreWell ms
        → run key on_value (print_members ms k) (suc (suc n)) found
          ≡ run key on_value k (suc (suc n)) found
    deep_members no_members k n found w = refl
    deep_members (and_member name v ms) k n found w =
        deep_text name (colon ∷ print v (print_more_members ms k)) n found
        ∙ run-other colon (print v (print_more_members ms k)) (suc n) found refl refl refl
        ∙ deep_value v (print_more_members ms k) n found w.0
        ∙ deep_more_members ms k n found w.1

    deep_more_members :
        (ms : Members) (k : Bytes) (n : ℕ) (found : Option A)
        → MembersAreWell ms
        → run key on_value (print_more_members ms k) (suc (suc n)) found
          ≡ run key on_value k (suc (suc n)) found
    deep_more_members no_members k n found w = refl
    deep_more_members (and_member name v ms) k n found w =
        run-other comma (write_text name (colon ∷ print v (print_more_members ms k))) (suc n) found
          refl refl refl
        ∙ deep_text name (colon ∷ print v (print_more_members ms k)) n found
        ∙ run-other colon (print v (print_more_members ms k)) (suc n) found refl refl refl
        ∙ deep_value v (print_more_members ms k) n found w.0
        ∙ deep_more_members ms k n found w.1
