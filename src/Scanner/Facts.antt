-- ===== src/Scanner/Facts.antt =====
-- src/features/gateway/lib/sse-parser.ts: the three extractions, on any body and on printed objects.
use apipool_v.Base.{none, [], ◌≡◌, ◌≢◌, String, err}
use apipool_v.Scanner.Text.{Bytes}
use apipool_v.Scanner.Extract.{
  out_of_fuel, extract_top_level_model, extract_top_level_stream, extract_top_level_image_count,
  model_key, stream_key, image_count_key,
}
use apipool_v.Scanner.Values.{object, Members, print, MembersAreWell}
use apipool_v.Scanner.Objects.{members_say}
use apipool_v.Scanner.Models.{
  model_says, extract_top_level_model-ends, extract_top_level_model-members,
}
use apipool_v.Scanner.Streams.{
  stream_says, extract_top_level_stream-ends, extract_top_level_stream-members,
}
use apipool_v.Scanner.Counts.{
  count_says, extract_top_level_image_count-ends, extract_top_level_image_count-members,
}

-- The three extractions end on every body: a byte for every round is enough.
pub extractions-end :
    (decode : Bytes → String) (body : Bytes)
    → (extract_top_level_model decode body ≢ err out_of_fuel)
      × (extract_top_level_stream body ≢ err out_of_fuel)
      × (extract_top_level_image_count body ≢ err out_of_fuel)
extractions-end decode body = (
  extract_top_level_model-ends decode body,
  extract_top_level_stream-ends body,
  extract_top_level_image_count-ends body,
)

-- On an object that is printed without spaces, with its keys and strings in any spelling that
-- escapes characters below 128 by their numbers or leaves them as `JSON.stringify` writes them, and
-- with atoms that hold no quote, bracket, comma or space, the extraction of the model is what the
-- object's own members say: a member `model` counts wherever it stands among them and however its
-- key and its text are spelled, and one inside another value, or a text that looks like one, does
-- not.
pub model-members :
    (decode : Bytes → String) (ms : Members)
    → MembersAreWell ms
    → extract_top_level_model decode (print (object ms) [])
      ≡ members_say model_key (model_says decode) none ms
model-members decode ms w = extract_top_level_model-members decode ms w

-- So it is with the stream flag, which is `true` or `false`, and the image count, which is a safe
-- number without a leading zero.
pub facts-members :
    (ms : Members)
    → MembersAreWell ms
    → (extract_top_level_stream (print (object ms) []) ≡ members_say stream_key stream_says none ms)
      × (extract_top_level_image_count (print (object ms) [])
          ≡ members_say image_count_key count_says none ms)
facts-members ms w =
    (extract_top_level_stream-members ms w, extract_top_level_image_count-members ms w)
