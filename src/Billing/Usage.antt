-- ===== src/Billing/Usage.antt =====
-- src/features/gateway/lib/billing.ts: the meters of one response, from the usage that the upstream
-- reports in the dialect of the endpoint. A quantity that is no safe non-negative integer counts 0.
use apipool_v.Base.{
  Bool, true, false, ℕ, ◌+◌, String, ◌&&◌, Option, none, some, List, [], ◌∷◌, ◌++◌, if◌then◌else◌,
  str_eq, ltb, has,
}
use apipool_v.Base.Int.{pos, leb_ℤ, pos_part}
use apipool_v.Base.Numbers.{JsNumber, integer, is_safe, is_safe_integer, is_nonnegative, is_zero}
use apipool_v.Base.Json.{Json, null, number, array, object, Fields, field, end, get}
use Prim.Native.String.{◌++◌ as concat}
use apipool_v.Gateway.Endpoints.{
  EndpointKey, chat_completions, responses, messages, embeddings, images_generations, images_edits,
  tasks, models,
}
use apipool_v.Billing.Meters.{
  same_meter, MeterKey, MeterQuantities, quantity, set_meter, to_long_meter_key,
}

-- `num`: an absent value is `undefined`.
unfoldable pub num_of : JsNumber → ℕ
num_of (integer z) = if is_safe z && leb_ℤ (pos 0) z then pos_part z else 0
num_of _ = 0

unfoldable pub num : Option Json → ℕ
unfolding num_of
num (some (number n)) = num_of n
num _ = 0

-- `obj`: an array is an object too, with none of the fields that are read.
unfoldable pub obj : Option Json → Fields
obj (some (object fs)) = fs
obj _ = end

-- `a ?? b`
unfoldable pub nullish_or : Option Json → Option Json → Option Json
nullish_or none b = b
nullish_or (some null) b = b
nullish_or a b = a

-- The strings that are pushed onto `flags`.
pub data Flag : Type 0 where
  invalid_numeric unmapped unmapped_struct : String → Flag
  cache_write_sum_mismatch usage_missing_waived : Flag
  unpriced : MeterKey → Flag
  other_flag : String → Flag

-- Whether two flags are one string; a value of `other_flag` is spelled like no other flag.
unfoldable pub same_flag : Flag → Flag → Bool
same_flag (invalid_numeric a) (invalid_numeric b) = str_eq a b
same_flag (unmapped a) (unmapped b) = str_eq a b
same_flag (unmapped_struct a) (unmapped_struct b) = str_eq a b
same_flag cache_write_sum_mismatch cache_write_sum_mismatch = true
same_flag usage_missing_waived usage_missing_waived = true
same_flag (unpriced a) (unpriced b) = same_meter a b
same_flag (other_flag a) (other_flag b) = str_eq a b
same_flag _ _ = false

-- `MAPPED_KEYS[endpoint] ?? new Set()`
unfoldable pub mapped_keys : EndpointKey → List String
mapped_keys chat_completions =
    "prompt_tokens" ∷ "completion_tokens" ∷ "total_tokens" ∷ "prompt_tokens_details"
    ∷ "completion_tokens_details" ∷ "output_tokens_details" ∷ "cache_creation_input_tokens"
    ∷ "server_tool_use" ∷ []
mapped_keys responses =
    "input_tokens" ∷ "output_tokens" ∷ "total_tokens" ∷ "input_tokens_details"
    ∷ "output_tokens_details" ∷ "server_tool_use" ∷ []
mapped_keys messages =
    "input_tokens" ∷ "output_tokens" ∷ "cache_read_input_tokens" ∷ "cache_creation_input_tokens"
    ∷ "cache_creation" ∷ "server_tool_use" ∷ "service_tier" ∷ []
mapped_keys embeddings = "prompt_tokens" ∷ "total_tokens" ∷ []
mapped_keys images_generations =
    "input_tokens" ∷ "output_tokens" ∷ "total_tokens" ∷ "input_tokens_details" ∷ "prompt_tokens"
    ∷ "completion_tokens" ∷ "prompt_tokens_details" ∷ "completion_tokens_details"
    ∷ "output_tokens_details" ∷ []
mapped_keys images_edits =
    "input_tokens" ∷ "output_tokens" ∷ "total_tokens" ∷ "input_tokens_details" ∷ "prompt_tokens"
    ∷ "completion_tokens" ∷ "prompt_tokens_details" ∷ "completion_tokens_details" ∷ []
mapped_keys tasks = []
mapped_keys models = []

unfoldable mutual
  -- `collectInvalidNumbers`
  pub collect_invalid : Json → String → List Flag
  collect_invalid (number n) path =
      if is_safe_integer n && is_nonnegative n then [] else invalid_numeric path ∷ []
  collect_invalid (object fs) path = collect_fields fs path
  collect_invalid _ path = []

  pub collect_fields : Fields → String → List Flag
  collect_fields end path = []
  collect_fields (field k v fs) path =
      collect_invalid v (concat path (concat "." k)) ++ collect_fields fs path

unfoldable pub mapped_flags : List String → Fields → List Flag
mapped_flags [] usage = []
mapped_flags (key ∷ keys) usage =
    elim (get key usage) [ none ↦ [] | some v ↦ collect_invalid v key ] ++ mapped_flags keys usage

unfoldable pub unmapped_flag : String → Json → List Flag
unmapped_flag key (number n) = if is_zero n then [] else unmapped key ∷ []
unmapped_flag key (array vs) = unmapped_struct key ∷ []
unmapped_flag key (object fs) = unmapped_struct key ∷ []
unmapped_flag key _ = []

-- The flags of the keys that the endpoint does not map.
unfoldable pub unmapped_flags : List String → Fields → List Flag
unmapped_flags mapped end = []
unmapped_flags mapped (field key value fs) =
    (if has (str_eq key) mapped then [] else unmapped_flag key value) ++ unmapped_flags mapped fs

unfoldable pub add_meter : MeterKey → ℕ → MeterQuantities → MeterQuantities
add_meter key q ms = if ltb 0 q then set_meter key q ms else ms

-- `applyLongContextMeters`
unfoldable pub long_from : MeterQuantities → MeterQuantities → MeterQuantities
long_from acc [] = acc
long_from acc ((key, q) ∷ ms) =
    let long = to_long_meter_key key in long_from (set_meter long (quantity long acc + q) acc) ms

unfoldable pub apply_long_context_meters : MeterQuantities → MeterQuantities
unfolding long_from
apply_long_context_meters ms = long_from [] ms
