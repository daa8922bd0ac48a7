-- ===== src/Events/Tests.antt =====
-- src/features/gateway/lib/sse-parser.ts: a stream that is cut in the middle of a line.
use apipool_v.Base.{ℕ, true, false, Option, none, some, List, [], ◌∷◌, ◌≡◌, refl}
use apipool_v.Base.Json.{Json, object, field, end, null, get}
use apipool_v.Gateway.Endpoints.{chat_completions}
use apipool_v.Wallet.Freeze.{is_space}
use apipool_v.Events.Line.{
  Text, Usage, process_line, process_data, process_record, process_event, strip_return, trim_start,
  trim_end, after_prefix, includes, eq_text, merge, spread, set_field,
}
use apipool_v.Events.Extractor.{drain_lines, push, push_all, finish_stream, start_extractor}
use apipool_v.Events.Chunks.{IsDecoder, concat, push_all-concat}

-- A decoder of single bytes.
abbrev plain : ℕ → List ℕ → Text × ℕ
plain d bytes = (bytes, d)

abbrev no_rest : ℕ → Text
no_rest d = []

plain-IsDecoder : IsDecoder plain
plain-IsDecoder = record { nothing = λ d. refl; joins = λ d a b. refl }

abbrev says_usage : Text → Option Json
says_usage t = some (object (field "usage" (object (field "total" null end)) end))

abbrev chat_line : Text → Usage → Usage
chat_line = process_line says_usage chat_completions

abbrev chunks : List (List ℕ)
chunks =
    (100 ∷ 97 ∷ 116 ∷ [])
    ∷ (97 ∷ 58 ∷ 32 ∷ 34 ∷ 117 ∷ 115 ∷ [])
    ∷ (97 ∷ 103 ∷ 101 ∷ 34 ∷ 13 ∷ 10 ∷ [])
    ∷ []

found_usage :
    (finish_stream plain no_rest chat_line 100 (
      push_all plain no_rest chat_line 100 chunks
        (start_extractor plain no_rest chat_line 100 0))).0
    ≡ record { usage = some (field "total" null end); complete = true }
unfolding finish_stream push_all push drain_lines process_line process_data process_record
    process_event strip_return trim_start trim_end after_prefix includes eq_text merge spread
    set_field is_space get
found_usage = refl

too_much :
    (finish_stream plain no_rest chat_line 10
      (push_all plain no_rest chat_line 10 chunks (start_extractor plain no_rest chat_line 10 0))).0
    ≡ record { usage = none; complete = false }
unfolding finish_stream push_all push drain_lines process_line
too_much = refl

push_all-concat_example :
    (finish_stream plain no_rest chat_line 100 (
      push_all plain no_rest chat_line 100 chunks
        (start_extractor plain no_rest chat_line 100 0))).0
    ≡ (finish_stream plain no_rest chat_line 100 (
        push plain no_rest chat_line 100
          (concat chunks)
          (start_extractor plain no_rest chat_line 100 0))).0
push_all-concat_example = push_all-concat plain no_rest chat_line 100 plain-IsDecoder 0 chunks
