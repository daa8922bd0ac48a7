-- ===== src/Events/Chunks.antt =====
-- src/features/gateway/lib/sse-parser.ts: how a stream is cut into chunks makes no difference.
use apipool_v.Base.{
  ℕ, ◌+◌, ◌≤◌, true, false, none, List, [], ◌∷◌, ◌++◌, ltb, length, ◌≡◌, refl, sym, ap, ◌∙◌, inl,
  inr, arith, Bool-cases,
}
use apipool_v.Events.Line.{Text, Usage}
use apipool_v.Events.Extractor.{
  drain_lines, Extractor, no_usage, start_extractor, push, finish_stream, push_all,
}
use apipool_v.Events.Drains.{length-++, IsClean, nil-IsClean, drain-IsClean, drain-twice}

-- What the text decoder promises of its streaming mode: no bytes change nothing, and two calls say
-- what one call with the bytes of both says.
pub record IsDecoder {D : Type 0} (decode : D → List ℕ → Text × D) : Type 0 where
  pub nothing : (d : D) → decode d [] ≡ ([], d)
  pub joins :
      (d : D) (a b : List ℕ)
      → decode d (a ++ b)
        ≡ ((decode d a).0 ++ (decode (decode d a).1 b).0, (decode (decode d a).1 b).1)

abbrev pub concat : List (List ℕ) → List ℕ
concat [] = []
concat (chunk ∷ chunks) = chunk ++ concat chunks

module _ {D : Type 0} (decode : D → List ℕ → Text × D) (flush : D → Text)
    (line : Text → Usage → Usage) (max_buffer_bytes : ℕ) where
  abbrev at : D → Text → ℕ → Usage → Extractor D
  at d carry n u = record {
    decoder = d;
    carry = carry;
    consumed = n;
    found = u;
    overflowed = false;
    finished = none;
  }

  abbrev outcome : Extractor D → Usage
  outcome st = (finish_stream decode flush line max_buffer_bytes st).0

  abbrev push_it : List ℕ → Extractor D → Extractor D
  push_it chunk st = push decode flush line max_buffer_bytes chunk st

  abbrev push_them : List (List ℕ) → Extractor D → Extractor D
  push_them chunks st = push_all decode flush line max_buffer_bytes chunks st

  abbrev drained_by : D → Text → ℕ → Usage → List ℕ → Extractor D
  drained_by d carry n u a =
      at (decode d a).1 (drain_lines line [] (carry ++ (decode d a).0) u).0 (n + length a)
        (drain_lines line [] (carry ++ (decode d a).0) u).1

  abbrev spill : D → ℕ → Extractor D
  spill d n = record {
    decoder = d;
    carry = [];
    consumed = n;
    found = no_usage;
    overflowed = true;
    finished = none;
  }

  spilt :
      (d : D) (n : ℕ) (chunks : List (List ℕ)) → outcome (push_them chunks (spill d n)) ≡ no_usage
  unfolding push_all push finish_stream
  spilt d n [] = refl
  spilt d n (chunk ∷ chunks) = spilt d n chunks

  push-over :
      (d : D) (carry : Text) (n : ℕ) (u : Usage) (a : List ℕ)
      → ltb max_buffer_bytes (n + length a) ≡ true
      → push_it a (at d carry n u) ≡ spill d (n + length a)
  unfolding push
  push-over d carry n u a over = rw over refl

  push-fits :
      (d : D) (carry : Text) (n : ℕ) (u : Usage) (a : List ℕ)
      → ltb max_buffer_bytes (n + length a) ≡ false
      → push_it a (at d carry n u) ≡ drained_by d carry n u a
  unfolding push
  push-fits d carry n u a fits = rw fits refl

  drained-twice :
      IsDecoder decode
      → (d : D) (carry : Text) (n : ℕ) (u : Usage) (a b : List ℕ)
      → drained_by
          (decode d a).1
          (drain_lines line [] (carry ++ (decode d a).0) u).0
          (n + length a)
          (drain_lines line [] (carry ++ (decode d a).0) u).1
          b
        ≡ drained_by d carry n u (a ++ b)
  drained-twice decoder d carry n u a b =
      let d' : D = (decode (decode d a).1 b).1 in
      let m : ℕ = n + length a + length b in
      ap (λ r. at d' r.0 m r.1)
        (drain-twice line carry (decode d a).0 (decode (decode d a).1 b).0 u)
      ∙ ap
          (λ p.
            at p.1 (drain_lines line [] (carry ++ p.0) u).0 m
              (drain_lines line [] (carry ++ p.0) u).1)
          (sym (decoder.joins d a b))
      ∙ ap
          (λ k.
            at (decode d (a ++ b)).1 (drain_lines line [] (carry ++ (decode d (a ++ b)).0) u).0 k
              (drain_lines line [] (carry ++ (decode d (a ++ b)).0) u).1)
          (omega (arith, length-++ a b))

  -- After a chunk that fits, pushing is pushing it together with what follows.
  push-twice :
      IsDecoder decode
      → (d : D) (carry : Text) (n : ℕ) (u : Usage) (a b : List ℕ)
      → ltb max_buffer_bytes (n + length a) ≡ false
      → outcome (push_it b (drained_by d carry n u a)) ≡ outcome (push_it (a ++ b) (at d carry n u))
  unfolding finish_stream
  push-twice decoder d carry n u a b fits =
      elim (Bool-cases (ltb max_buffer_bytes (n + length a + length b))) [
        | inl over ↦
            let over' : ltb max_buffer_bytes (n + length (a ++ b)) ≡ true =
              ground (arith, length-++ a b) in
            ap outcome (push-over _ _ (n + length a) _ b over)
            ∙ sym (ap outcome (push-over d carry n u (a ++ b) over'))
        | inr low ↦
            let low' : ltb max_buffer_bytes (n + length (a ++ b)) ≡ false =
              ground (arith, length-++ a b) in
            ap outcome (
              push-fits _ _ (n + length a) _ b low
              ∙ drained-twice decoder d carry n u a b
              ∙ sym (push-fits d carry n u (a ++ b) low'))
      ]

  -- A clean carry is left as it is by an empty chunk.
  push-nothing :
      IsDecoder decode
      → (d : D) (carry : Text) (n : ℕ) (u : Usage) → IsClean line carry
      → n ≤ max_buffer_bytes
      → push_it [] (at d carry n u) ≡ at d carry n u
  unfolding drain_lines
  push-nothing decoder d carry n u clean low =
      push-fits d carry n u [] (ground arith)
      ∙ ap
          (λ p.
            at p.1 (drain_lines line [] (carry ++ p.0) u).0 (n + 0)
              (drain_lines line [] (carry ++ p.0) u).1)
          (decoder.nothing d)
      ∙ ap (λ r. at d r.0 (n + 0) r.1) (clean [] [] u)
      ∙ ap (λ k. at d carry k u) (omega arith)

  pushed :
      IsDecoder decode
      → (chunks : List (List ℕ)) (d : D) (carry : Text) (n : ℕ) (u : Usage) → IsClean line carry
      → n ≤ max_buffer_bytes
      → outcome (push_them chunks (at d carry n u))
        ≡ outcome (push_it (concat chunks) (at d carry n u))
  unfolding push_all
  pushed decoder [] d carry n u clean low =
      ap outcome (sym (push-nothing decoder d carry n u clean low))
  pushed decoder (a ∷ chunks) d carry n u clean low =
      elim (Bool-cases (ltb max_buffer_bytes (n + length a))) [
        | inl over ↦
            let over' : ltb max_buffer_bytes (n + length (a ++ concat chunks)) ≡ true =
              ground (arith, length-++ a (concat chunks)) in
            ap (λ st. outcome (push_them chunks st)) (push-over d carry n u a over)
            ∙ spilt d (n + length a) chunks
            ∙ sym (spilt d (n + length (a ++ concat chunks)) [])
            ∙ sym (ap outcome (push-over d carry n u (a ++ concat chunks) over'))
        | inr fits ↦
            ap (λ st. outcome (push_them chunks st)) (push-fits d carry n u a fits)
            ∙ pushed decoder chunks (decode d a).1
                (drain_lines line [] (carry ++ (decode d a).0) u).0 (n + length a)
                (drain_lines line [] (carry ++ (decode d a).0) u).1
                (drain-IsClean line [] (carry ++ (decode d a).0) u (nil-IsClean line))
                (ground arith)
            ∙ push-twice decoder d carry n u a (concat chunks) fits
      ]

  -- The usage that a stream reports does not depend on how the stream is cut into chunks, lines and
  -- characters that are cut in two and a stream that is too long included, for a text decoder whose
  -- calls in streaming mode say together what one call says.
  pub push_all-concat :
      IsDecoder decode
      → (d : D) (chunks : List (List ℕ))
      → (finish_stream decode flush line max_buffer_bytes (
          push_all decode flush line max_buffer_bytes chunks
            (start_extractor decode flush line max_buffer_bytes d))).0
        ≡ (finish_stream decode flush line max_buffer_bytes (
            push decode flush line max_buffer_bytes
              (concat chunks)
              (start_extractor decode flush line max_buffer_bytes d))).0
  push_all-concat decoder d chunks =
      pushed decoder chunks d [] 0 no_usage (nil-IsClean line) (omega arith)
