-- ===== src/Events/Line.antt =====
-- src/features/gateway/lib/sse-parser.ts: what `createStreamExtractor` does with a line. A text is
-- the list of its code units; `parse` is `JSON.parse`, `none` where that throws.
use apipool_v.Base.{
  ℕ, Bool, true, false, ◌&&◌, ◌||◌, not, Option, none, some, List, [], ◌∷◌, String, str_eq, ◌==◌,
  if◌then◌else◌, is_some,
}
use apipool_v.Base.Json.{Json, null, string, object, Fields, end, field, get}
use apipool_v.Gateway.Endpoints.{EndpointKey, chat_completions, responses, messages, embeddings}
use apipool_v.Wallet.Freeze.{is_space}

abbrev pub Text : Type 0
Text = List ℕ

-- The text without the last code unit, where that is a carriage return.
unfoldable pub strip_return : Text → Text
strip_return [] = []
strip_return (c ∷ []) = if c == 13 then [] else c ∷ []
strip_return (c ∷ d ∷ cs) = c ∷ strip_return (d ∷ cs)

unfoldable pub trim_start : Text → Text
unfolding is_space
trim_start [] = []
trim_start (c ∷ cs) = if is_space c then trim_start cs else c ∷ cs

unfoldable pub trim_end : Text → Text
unfolding is_space
trim_end [] = []
trim_end (c ∷ cs) = keep_solid c (trim_end cs)
  where
    keep_solid : ℕ → Text → Text
    keep_solid c [] = if is_space c then [] else c ∷ []
    keep_solid c (d ∷ ds) = c ∷ d ∷ ds

-- What follows a prefix.
unfoldable pub after_prefix : Text → Text → Option Text
after_prefix [] cs = some cs
after_prefix (p ∷ ps) [] = none
after_prefix (p ∷ ps) (c ∷ cs) = elim (p == c) [ true ↦ after_prefix ps cs | false ↦ none ]

unfoldable pub includes : Text → Text → Bool
unfolding after_prefix
includes needle [] = is_some (after_prefix needle [])
includes needle (c ∷ cs) = is_some (after_prefix needle (c ∷ cs)) || includes needle cs

unfoldable pub eq_text : Text → Text → Bool
eq_text [] [] = true
eq_text (c ∷ cs) (d ∷ ds) = (c == d) && eq_text cs ds
eq_text _ _ = false

abbrev pub data_prefix : Text
data_prefix = 100 ∷ 97 ∷ 116 ∷ 97 ∷ 58 ∷ []

abbrev pub done_mark : Text
done_mark = 91 ∷ 68 ∷ 79 ∷ 78 ∷ 69 ∷ 93 ∷ []

abbrev pub usage_mark : Text
usage_mark = 34 ∷ 117 ∷ 115 ∷ 97 ∷ 103 ∷ 101 ∷ 34 ∷ []

abbrev pub as_record : Option Json → Option Fields
as_record (some (object fs)) = some fs
as_record _ = none

unfoldable pub set_field : String → Json → Fields → Fields
set_field k v end = field k v end
set_field k v (field k' v' fs) =
    if str_eq k' k then field k' v fs else field k' v' (set_field k v fs)

-- `{ ...old, ...new }`
unfoldable pub spread : Fields → Fields → Fields
unfolding set_field
spread old end = old
spread old (field k v fs) = spread (set_field k v old) fs

-- The variables that a line may change.
pub record Usage : Type 0 where
  pub usage : Option Fields
  pub complete : Bool

abbrev pub or_no_fields : Option Fields → Fields
or_no_fields none = end
or_no_fields (some fs) = fs

-- `merge`
unfoldable pub merge : Option Fields → Usage → Usage
unfolding spread
merge none u = u
merge (some fs) u = record u { usage = some (spread (or_no_fields u.usage) fs) }

abbrev pub set_complete : Bool → Usage → Usage
set_complete hit u = record u { complete = hit || u.complete }

-- `a ?? b`
abbrev pub or_else_json : Option Json → Option Json → Option Json
or_else_json none other = other
or_else_json (some null) other = other
or_else_json (some j) other = some j

abbrev pub is_string : String → Option Json → Bool
is_string s (some (string t)) = str_eq t s
is_string s _ = false

abbrev pub field_of : String → Option Fields → Option Json
field_of k none = none
field_of k (some fs) = get k fs

unfoldable pub process_event : EndpointKey → Fields → Usage → Usage
unfolding merge get
process_event chat_completions parsed u =
    set_complete (is_some (as_record (get "usage" parsed)))
      (merge (as_record (get "usage" parsed)) u)
process_event embeddings parsed u =
    set_complete (is_some (as_record (get "usage" parsed)))
      (merge (as_record (get "usage" parsed)) u)
process_event responses parsed u =
    set_complete (is_string "response.completed" (get "type" parsed)) (
      merge
        (as_record (
          or_else_json (field_of "usage" (as_record (get "response" parsed))) (get "usage" parsed)))
        u)
process_event messages parsed u =
    set_complete
      (is_some (as_record (get "usage" parsed)) && is_string "message_delta" (get "type" parsed))
      (merge (as_record (get "usage" parsed))
        (merge (as_record (field_of "usage" (as_record (get "message" parsed)))) u))
process_event _ parsed u = u

module _ (parse : Text → Option Json) (endpoint : EndpointKey) where
  unfoldable pub process_record : Option Fields → Usage → Usage
  unfolding process_event
  process_record none u = u
  process_record (some parsed) u = process_event endpoint parsed u

  unfoldable pub process_data : Option Text → Usage → Usage
  unfolding process_record trim_start trim_end eq_text includes
  process_data none u = u
  process_data (some rest) u =
      let data_text = trim_end (trim_start rest) in
      if eq_text data_text done_mark || not (includes usage_mark data_text)
      then u
      else process_record (as_record (parse data_text)) u

  -- `processLine`
  unfoldable pub process_line : Text → Usage → Usage
  unfolding process_data strip_return
  process_line raw u = process_data (after_prefix data_prefix (trim_start (strip_return raw))) u
