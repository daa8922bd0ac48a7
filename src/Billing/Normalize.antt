-- ===== src/Billing/Normalize.antt =====
-- src/features/gateway/lib/billing.ts: `normalizeUsageMeters`, one endpoint's dialect at a time.
use apipool_v.Base.{
  ℕ, ◌+◌, ◌-◌, max, Bool, false, ◌&&◌, ◌||◌, not, Option, some, List, [], ◌∷◌, ◌++◌, if◌then◌else◌,
  ltb, leb, ◌==◌, is_some,
}
use apipool_v.Base.Int.{pos, leb_ℤ, pos_part}
use apipool_v.Base.Numbers.{JsNumber, integer, fractional}
use apipool_v.Base.Json.{Fields, get}
use apipool_v.Gateway.Endpoints.{
  EndpointKey, chat_completions, responses, messages, embeddings, images_generations, images_edits,
  tasks, models,
}
use apipool_v.Billing.Meters.{
  input, cached_input, cache_write, cache_write_5m, cache_write_1h, output, image_input,
  cached_image_input, image_output, MeterQuantities, quantity,
}
use apipool_v.Billing.Usage.{
  num, obj, nullish_or, Flag, cache_write_sum_mismatch, mapped_keys, mapped_flags, unmapped_flags,
  add_meter, apply_long_context_meters,
}

unfoldable pub chat_meters : Fields → MeterQuantities
chat_meters usage =
    let details = obj (get "prompt_tokens_details" usage) in
    let cached = num (get "cached_tokens" details) in
    let creation =
      nullish_or (get "cache_creation_tokens" details) (get "cache_creation_input_tokens" usage) in
    let written = max (num (get "cache_write_tokens" details)) (num creation) in
    add_meter output (num (get "completion_tokens" usage)) (
      add_meter cache_write written (
        add_meter cached_input cached
          (add_meter input (num (get "prompt_tokens" usage) - cached - written) [])))

unfoldable pub responses_meters : Fields → MeterQuantities
responses_meters usage =
    let details = obj (get "input_tokens_details" usage) in
    let cached = num (get "cached_tokens" details) in
    let written = num (get "cache_write_tokens" details) in
    add_meter output (num (get "output_tokens" usage)) (
      add_meter cache_write written (
        add_meter cached_input cached
          (add_meter input (num (get "input_tokens" usage) - cached - written) [])))

-- The two cache writes of the messages dialect: an aggregate stands for the 5 minute one.
unfoldable pub written_5m : Fields → ℕ
written_5m usage =
    let short = get "ephemeral_5m_input_tokens" (obj (get "cache_creation" usage)) in
    if is_some short then num short else num (get "cache_creation_input_tokens" usage)

unfoldable pub written_1h : Fields → ℕ
written_1h usage = num (get "ephemeral_1h_input_tokens" (obj (get "cache_creation" usage)))

unfoldable pub messages_meters : Fields → MeterQuantities
messages_meters usage = add_meter output (num (get "output_tokens" usage)) (
    add_meter cache_write_1h (written_1h usage) (
      add_meter cache_write_5m (written_5m usage) (
        add_meter cached_input (num (get "cache_read_input_tokens" usage))
          (add_meter input (num (get "input_tokens" usage)) []))))

unfoldable pub messages_flags : Fields → List Flag
messages_flags usage =
    let creation = obj (get "cache_creation" usage) in
    let split =
      is_some (get "ephemeral_5m_input_tokens" creation)
      || is_some (get "ephemeral_1h_input_tokens" creation) in
    let aggregate = get "cache_creation_input_tokens" usage in
    if split && is_some aggregate && not (num aggregate == written_5m usage + written_1h usage)
    then cache_write_sum_mismatch ∷ []
    else []

unfoldable pub images_meters : Fields → MeterQuantities
images_meters usage =
    let details =
      obj (nullish_or (get "input_tokens_details" usage) (get "prompt_tokens_details" usage)) in
    let cached_text = num (get "cached_text_tokens" details) in
    let cached_image = num (get "cached_image_tokens" details) in
    let made = nullish_or (get "output_tokens" usage) (get "completion_tokens" usage) in
    add_meter image_output (num made) (
      add_meter cached_image_input cached_image (
        add_meter cached_input cached_text (
          add_meter image_input (num (get "image_tokens" details) - cached_image)
            (add_meter input (num (get "text_tokens" details) - cached_text) []))))

-- The `switch` over the endpoint.
unfoldable pub endpoint_meters : EndpointKey → Fields → MeterQuantities
endpoint_meters chat_completions usage = chat_meters usage
endpoint_meters responses usage = responses_meters usage
endpoint_meters messages usage = messages_meters usage
endpoint_meters embeddings usage = add_meter input (num (get "prompt_tokens" usage)) []
endpoint_meters images_generations usage = images_meters usage
endpoint_meters images_edits usage = images_meters usage
endpoint_meters tasks usage = []
endpoint_meters models usage = []

unfoldable pub endpoint_flags : EndpointKey → Fields → List Flag
endpoint_flags messages usage = messages_flags usage
endpoint_flags _ usage = []

unfoldable pub input_total : MeterQuantities → ℕ
input_total ms =
    quantity input ms
    + quantity cached_input ms
    + quantity cache_write ms
    + quantity cache_write_5m ms
    + quantity cache_write_1h ms

-- Whether the threshold is a finite non-negative number that the total has reached.
unfoldable pub reaches : ℕ → Option JsNumber → Bool
reaches total (some (integer z)) = leb_ℤ (pos 0) z && leb (pos_part z) total
reaches total (some (fractional floor digits)) = leb_ℤ (pos 0) floor && ltb (pos_part floor) total
reaches total _ = false

pub record NormalizedUsage : Type 0 where
  pub meters : MeterQuantities
  pub web_search_count : ℕ
  pub flags : List Flag

unfoldable pub normalize_usage_meters : EndpointKey → Fields → Option JsNumber → NormalizedUsage
normalize_usage_meters endpoint usage threshold =
    let meters = endpoint_meters endpoint usage in
    let mapped = mapped_keys endpoint in
    record {
      meters =
          if reaches (input_total meters) threshold
          then apply_long_context_meters meters
          else meters;
      web_search_count = num (get "web_search_requests" (obj (get "server_tool_use" usage)));
      flags =
          mapped_flags mapped usage
          ++ (endpoint_flags endpoint usage ++ unmapped_flags mapped usage);
    }
