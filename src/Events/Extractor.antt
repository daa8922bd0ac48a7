-- ===== src/Events/Extractor.antt =====
-- src/features/gateway/lib/sse-parser.ts: `createStreamExtractor`. The text decoder is a parameter,
-- with its state: `decode` is `decode(chunk, { stream: true })`, `flush` the last call.
use apipool_v.Base.{
  ℕ, ◌+◌, Bool, true, false, ◌||◌, Option, none, some, List, [], ◌∷◌, ◌++◌, ◌==◌, ltb,
  if◌then◌else◌, is_some, length,
}
use apipool_v.Events.Line.{Text, Usage}

-- `drainLines`: the carry that is left behind the last line feed, and what the lines have changed.
module _ (line : Text → Usage → Usage) where
  unfoldable pub drain_lines : Text → Text → Usage → Text × Usage
  drain_lines carry [] u = (carry, u)
  drain_lines carry (c ∷ cs) u = elim (c == 10) [
    | true ↦ drain_lines [] cs (line carry u)
    | false ↦ drain_lines (carry ++ c ∷ []) cs u
  ]

pub record Extractor (D : Type 0) : Type 0 where
  pub decoder : D
  pub carry : Text
  pub consumed : ℕ
  pub found : Usage
  pub overflowed : Bool
  pub finished : Option Usage

abbrev pub no_usage : Usage
no_usage = record { usage = none; complete = false }

module _ {D : Type 0} (decode : D → List ℕ → Text × D) (flush : D → Text)
    (line : Text → Usage → Usage) (max_buffer_bytes : ℕ) where
  abbrev pub start_extractor : D → Extractor D
  start_extractor d = record {
    decoder = d;
    carry = [];
    consumed = 0;
    found = no_usage;
    overflowed = false;
    finished = none;
  }

  abbrev pub overflow : ℕ → Extractor D → Extractor D
  overflow consumed st = record st {
    consumed = consumed;
    overflowed = true;
    carry = [];
    found = no_usage;
  }

  abbrev pub drained : ℕ → Extractor D → Text × D → Extractor D
  drained consumed st (text, d) = record st {
    decoder = d;
    consumed = consumed;
    carry = (drain_lines line [] (st.carry ++ text) st.found).0;
    found = (drain_lines line [] (st.carry ++ text) st.found).1;
  }

  unfoldable pub push : List ℕ → Extractor D → Extractor D
  unfolding drain_lines
  push chunk st =
      if st.overflowed || is_some st.finished
      then st
      else if ltb max_buffer_bytes (st.consumed + length chunk)
      then overflow (st.consumed + length chunk) st
      else drained (st.consumed + length chunk) st (decode st.decoder chunk)

  -- The last line needs no line feed.
  abbrev pub last_line : Text × Usage → Usage
  last_line ([], u) = u
  last_line ((c ∷ cs), u) = line (c ∷ cs) u

  abbrev pub result : Extractor D → Usage
  result st =
      if st.overflowed
      then no_usage
      else last_line (drain_lines line [] (st.carry ++ flush st.decoder) st.found)

  abbrev pub finish_with : Option Usage → Extractor D → Usage × Extractor D
  finish_with (some u) st = (u, st)
  finish_with none st = (result st, record st { finished = some (result st) })

  unfoldable pub finish_stream : Extractor D → Usage × Extractor D
  unfolding drain_lines
  finish_stream st = finish_with st.finished st

  unfoldable pub push_all : List (List ℕ) → Extractor D → Extractor D
  unfolding push
  push_all [] st = st
  push_all (chunk ∷ chunks) st = push_all chunks (push chunk st)
