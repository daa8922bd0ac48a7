-- ===== src/Scanner/Tests.antt =====
-- src/features/gateway/lib/sse-parser.ts on concrete bodies.
use apipool_v.Base.{true, none, some, [], ◌∷◌, ◌≡◌, ◌≢◌, refl, String, ok, err, if◌then◌else◌}
use apipool_v.Scanner.Text.{Bytes, quote, code_point, utf8, match_string, decode_bounded}
use apipool_v.Scanner.Chars.{chars}
use apipool_v.Scanner.Matching.{eq_bytes, match_string-chars}
use apipool_v.Scanner.Print.{write}
use apipool_v.Scanner.Spelling.{Spelling, usual, coded, spelled}
use apipool_v.Scanner.Bounded.{decode_bounded-write}
use apipool_v.Scanner.Extract.{
  out_of_fuel, malformed, extract_top_level_model, extract_top_level_stream,
  extract_top_level_image_count, model_key, stream_key, image_count_key, true_value,
}
use apipool_v.Scanner.Values.{
  text, atom, array, object, no_values, and_value, no_members, and_member, Members, print,
  MembersAreWell, IsWell,
}
use apipool_v.Scanner.Objects.{members_say}
use apipool_v.Scanner.Models.{model_says}
use apipool_v.Scanner.Streams.{stream_says}
use apipool_v.Scanner.Counts.{count_says, number}
use apipool_v.Scanner.Facts.{extractions-end, model-members, facts-members}

abbrev gpt : Bytes
gpt = 103 ∷ 112 ∷ 116 ∷ []

abbrev to_text : Bytes → String
to_text bs = if eq_bytes bs gpt then "gpt" else "other"

abbrev usually : Bytes → Spelling
usually [] = []
usually (b ∷ bs) = usual b ∷ usually bs

-- The key `model` with an escaped first letter, and the name `gpt` with an escaped last one.
abbrev escaped_model : Spelling
escaped_model = coded 109 ∷ usual 111 ∷ usual 100 ∷ usual 101 ∷ usual 108 ∷ []

abbrev escaped_gpt : Spelling
escaped_gpt = usual 103 ∷ usual 112 ∷ coded 116 ∷ []

-- {"x":{"model":"n"},"model":"gpt","y":[4],"stream":true,"n":12}, with these two escapes.
abbrev request : Members
request =
    and_member (usual 120 ∷ [])
      (object (and_member (usually model_key) (text (usual 110 ∷ [])) no_members))
      (and_member escaped_model (text escaped_gpt) (
        and_member (usual 121 ∷ []) (array (and_value (atom (52 ∷ [])) no_values)) (
          and_member (usually stream_key) (atom true_value)
            (and_member (usually image_count_key) (atom (49 ∷ 50 ∷ [])) no_members))))

request-AreWell : MembersAreWell request
unfolding IsWell
request-AreWell = (
  (tt, tt),
  (tt, (((refl, tt), tt), ((refl, (refl, (refl, (refl, tt)))), ((refl, (refl, tt)), tt)))),
)

says_gpt : members_say model_key (model_says to_text) none request ≡ ok "gpt"
unfolding members_say spelled
says_gpt = refl

says_true : members_say stream_key stream_says none request ≡ ok true
unfolding members_say spelled
says_true = refl

says_twelve : members_say image_count_key count_says none request ≡ ok 12
unfolding members_say spelled number
says_twelve = refl

model-members_example :
    extract_top_level_model to_text (print (object request) [])
    ≡ members_say model_key (model_says to_text) none request
model-members_example = model-members to_text request request-AreWell

facts-members_example :
    (extract_top_level_stream (print (object request) [])
      ≡ members_say stream_key stream_says none request)
    × (extract_top_level_image_count (print (object request) [])
        ≡ members_say image_count_key count_says none request)
facts-members_example = facts-members request request-AreWell

extractions-end_example :
    (extract_top_level_model to_text (123 ∷ 34 ∷ []) ≢ err out_of_fuel)
    × (extract_top_level_stream (123 ∷ 34 ∷ []) ≢ err out_of_fuel)
    × (extract_top_level_image_count (123 ∷ 34 ∷ []) ≢ err out_of_fuel)
extractions-end_example = extractions-end to_text (123 ∷ 34 ∷ [])

-- The key `n`, written with an escape.
match_string-chars_example :
    match_string image_count_key (92 ∷ 117 ∷ 48 ∷ 48 ∷ 54 ∷ 101 ∷ 34 ∷ 58 ∷ [])
    ≡ elim (chars (92 ∷ 117 ∷ 48 ∷ 48 ∷ 54 ∷ 101 ∷ 34 ∷ 58 ∷ [])) [
      | none ↦ none
      | some (out, end) ↦ some (end, eq_bytes out image_count_key)
    ]
match_string-chars_example =
    match_string-chars image_count_key (92 ∷ 117 ∷ 48 ∷ 48 ∷ 54 ∷ 101 ∷ 34 ∷ 58 ∷ [])

escaped_key :
    match_string image_count_key (92 ∷ 117 ∷ 48 ∷ 48 ∷ 54 ∷ 101 ∷ 34 ∷ 58 ∷ [])
    ≡ some (58 ∷ [], true)
unfolding match_string code_point utf8
escaped_key = refl

unclosed : extract_top_level_stream (123 ∷ 34 ∷ []) ≡ err malformed
unfolding extract_top_level_stream
unclosed = refl

decode_bounded-write_example :
    decode_bounded to_text 512 (write (10 ∷ 34 ∷ gpt) (quote ∷ 58 ∷ [])) ≡ some ("other", 58 ∷ [])
unfolding eq_bytes
decode_bounded-write_example = decode_bounded-write to_text 512 (10 ∷ 34 ∷ gpt) (58 ∷ [])
