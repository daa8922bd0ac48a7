-- ===== src/Billing/Conservation.antt =====
-- What the normalisation of usage keeps: every token is metered once, long context or not.
use apipool_v.Base.{
  ℕ, ◌+◌, ◌-◌, max, ◌&&◌, Option, [], ◌∷◌, if◌then◌else◌, ltb, ◌≡◌, refl, inl, inr, arith,
  Bool-cases,
}
use apipool_v.Base.Numbers.{JsNumber}
use apipool_v.Gateway.Endpoints.{EndpointKey, chat_completions, responses}
use apipool_v.Billing.Meters.{
  MeterKey, input, cached_input, cache_write, output, MeterQuantities, quantity, meter?, set_meter,
  to_long_meter_key, total, total-set_meter, meter?-set_meter, same_meter,
}
use apipool_v.Base.Json.{Fields, get}
use apipool_v.Billing.Usage.{num, obj, nullish_or, add_meter, long_from, apply_long_context_meters}
use apipool_v.Billing.LongMeters.{IsLongOf, endpoint_meters-IsLongOf}
use apipool_v.Billing.Normalize.{
  chat_meters, responses_meters, endpoint_meters, normalize_usage_meters, reaches, input_total,
}

pub meter?-add_meter :
    (key k : MeterKey) (q : ℕ) (ms : MeterQuantities)
    → quantity k (add_meter key q ms) ≡ (if same_meter key k && ltb 0 q then q else quantity k ms)
unfolding add_meter
meter?-add_meter key k q ms = ground (arith, meter?-set_meter key k q ms)

pub total-add_meter :
    (key : MeterKey) (q : ℕ) (ms : MeterQuantities)
    → quantity key ms ≡ 0
    → total (add_meter key q ms) ≡ total ms + q
unfolding add_meter
total-add_meter key q ms new = ground (arith, total-set_meter key q ms)

-- The prompt's `p` tokens, `c` of them cached and `w` written to the cache, and `o` output tokens.
abbrev pub IsSplit : MeterQuantities → ℕ → ℕ → ℕ → ℕ → Type 0
IsSplit ms p c w o =
    (input_total ms ≡ max p (c + w))
    × (quantity cached_input ms ≡ c)
    × (quantity cache_write ms ≡ w)
    × (quantity output ms ≡ o)
    × (total ms ≡ max p (c + w) + o)

meters-IsSplit :
    (p c w o : ℕ)
    → IsSplit
        (add_meter output o
          (add_meter cache_write w (add_meter cached_input c (add_meter input (p - c - w) []))))
        p
        c
        w
        o
unfolding input_total same_meter meter? total
meters-IsSplit p c w o =
    let plain = add_meter input (p - c - w) [] in
    let cached = add_meter cached_input c plain in
    let written = add_meter cache_write w cached in
    let sum : total (add_meter output o written) ≡ max p (c + w) + o = omega (
      arith,
      total-add_meter output o written (simp meter?-add_meter),
      total-add_meter cache_write w cached (simp meter?-add_meter),
      total-add_meter cached_input c plain (simp meter?-add_meter),
      total-add_meter input (p - c - w) [] refl,
    ) in
    simp meter?-add_meter (ground arith, ground arith, ground arith, ground arith, sum)

-- In the chat dialect the input meters together are the prompt tokens, or the cached and written
-- ones where the upstream reports more of those; each part and the output are metered as
-- reported, and no token is metered twice.
pub chat_meters-IsSplit :
    (usage : Fields)
    → let details = obj (get "prompt_tokens_details" usage) in
      IsSplit
        (endpoint_meters chat_completions usage)
        (num (get "prompt_tokens" usage))
        (num (get "cached_tokens" details))
        (max (num (get "cache_write_tokens" details)) (
          num (
            nullish_or
              (get "cache_creation_tokens" details)
              (get "cache_creation_input_tokens" usage))))
        (num (get "completion_tokens" usage))
unfolding endpoint_meters chat_meters
chat_meters-IsSplit usage = meters-IsSplit _ _ _ _

-- So it is in the responses dialect, under that dialect's names.
pub responses_meters-IsSplit :
    (usage : Fields)
    → let details = obj (get "input_tokens_details" usage) in
      IsSplit
        (endpoint_meters responses usage)
        (num (get "input_tokens" usage))
        (num (get "cached_tokens" details))
        (num (get "cache_write_tokens" details))
        (num (get "output_tokens" usage))
unfolding endpoint_meters responses_meters
responses_meters-IsSplit usage = meters-IsSplit _ _ _ _

long_from-total : (acc ms : MeterQuantities) → total (long_from acc ms) ≡ total acc + total ms
unfolding long_from total
long_from-total acc [] = omega arith
long_from-total acc ((key, q) ∷ ms) =
    let long = to_long_meter_key key in
    omega (
      arith,
      long_from-total (set_meter long (quantity long acc + q) acc) ms,
      total-set_meter long (quantity long acc + q) acc,
    )

-- Long context moves quantities between meters and loses none. Below the threshold the normalised
-- meters are the endpoint's. Once the input has reached it, they add up to the endpoint's meters,
-- the long meters of input, cached input, cache writes and output hold what their plain meters
-- held and what they held themselves, those plain meters are empty, and every other meter has the
-- quantity it had.
pub normalize-conserves :
    (endpoint : EndpointKey) (usage : Fields) (threshold : Option JsNumber)
    → let ms = (normalize_usage_meters endpoint usage threshold).meters in
      let plain = endpoint_meters endpoint usage in
      (total ms ≡ total plain)
      × (if reaches (input_total plain) threshold then IsLongOf plain ms else (ms ≡ plain))
unfolding normalize_usage_meters apply_long_context_meters total
normalize-conserves endpoint usage threshold =
    let plain = endpoint_meters endpoint usage in
    elim (Bool-cases (reaches (input_total (endpoint_meters endpoint usage)) threshold)) [
      | inl reached ↦
          rw reached
            (omega (arith, long_from-total [] plain), endpoint_meters-IsLongOf endpoint usage)
      | inr below ↦ rw below (refl, refl)
    ]
