-- ===== src/Billing/LongMeters.antt =====
-- src/features/gateway/lib/billing.ts: `applyLongContextMeters`, meter by meter.
use apipool_v.Base.{ℕ, ◌+◌, false, ◌||◌, ◌&&◌, [], ◌∷◌, if◌then◌else◌, ◌≡◌, refl, arith}
use apipool_v.Base.Json.{Fields}
use apipool_v.Gateway.Endpoints.{EndpointKey}
use apipool_v.Billing.Meters.{
  MeterKey, input, cached_input, cache_write, cache_write_5m, cache_write_1h, output, image_input,
  cached_image_input, image_output, input_long, cached_input_long, cache_write_long, output_long,
  web_search, MeterQuantities, quantity, meter?, set_meter, to_long_meter_key, same_meter,
  same_meter_iff, meter?-set_meter,
}
use apipool_v.Billing.Usage.{long_from, apply_long_context_meters}
use apipool_v.Billing.Normalize.{endpoint_meters}
use apipool_v.Billing.Keyed.{amount, IsKeyed, endpoint_meters-IsKeyed}

-- What comes to a meter from the entries of a list.
unfoldable arriving : MeterKey → MeterQuantities → ℕ
arriving k [] = 0
arriving k ((key, q) ∷ ms) = (if same_meter (to_long_meter_key key) k then q else 0) + arriving k ms

long_from-arriving :
    (k : MeterKey) (acc ms : MeterQuantities)
    → quantity k (long_from acc ms) ≡ quantity k acc + arriving k ms
unfolding long_from arriving
long_from-arriving k acc [] = omega arith
long_from-arriving k acc ((key, q) ∷ ms) =
    let long = to_long_meter_key key in
    ground (
      arith,
      long_from-arriving k (set_meter long (quantity long acc + q) acc) ms,
      meter?-set_meter long k (quantity long acc + q) acc,
      same_meter_iff long k,
    )

-- Two meters arrive at `k`, one does, or none.
arriving-two :
    (k a b : MeterKey) (ms : MeterQuantities)
    → ((key : MeterKey)
        → same_meter (to_long_meter_key key) k ≡ (same_meter key a || same_meter key b))
    → ((key : MeterKey) → (same_meter key a && same_meter key b) ≡ false)
    → arriving k ms ≡ amount a ms + amount b ms
unfolding arriving amount
arriving-two k a b [] from apart = refl
arriving-two k a b ((key, q) ∷ ms) from apart =
    ground (arith, from key, apart key, arriving-two k a b ms from apart)

arriving-one :
    (k : MeterKey) (ms : MeterQuantities)
    → ((key : MeterKey) → same_meter (to_long_meter_key key) k ≡ same_meter key k)
    → arriving k ms ≡ amount k ms
unfolding arriving amount
arriving-one k [] from = refl
arriving-one k ((key, q) ∷ ms) from = ground (arith, from key, arriving-one k ms from)

arriving-none :
    (k : MeterKey) (ms : MeterQuantities)
    → ((key : MeterKey) → same_meter (to_long_meter_key key) k ≡ false)
    → arriving k ms ≡ 0
unfolding arriving
arriving-none k [] from = refl
arriving-none k ((key, q) ∷ ms) from = ground (arith, from key, arriving-none k ms from)

-- The four plain meters have gone to their long forms, and no other meter has changed.
pub record IsLongOf (plain ms : MeterQuantities) : Type 0 where
  pub long_input : quantity input_long ms ≡ quantity input plain + quantity input_long plain
  pub long_cached :
      quantity cached_input_long ms ≡ quantity cached_input plain + quantity cached_input_long plain
  pub long_write :
      quantity cache_write_long ms ≡ quantity cache_write plain + quantity cache_write_long plain
  pub long_output : quantity output_long ms ≡ quantity output plain + quantity output_long plain
  pub no_input : quantity input ms ≡ 0
  pub no_cached : quantity cached_input ms ≡ 0
  pub no_write : quantity cache_write ms ≡ 0
  pub no_output : quantity output ms ≡ 0
  pub same_write_5m : quantity cache_write_5m ms ≡ quantity cache_write_5m plain
  pub same_write_1h : quantity cache_write_1h ms ≡ quantity cache_write_1h plain
  pub same_image_input : quantity image_input ms ≡ quantity image_input plain
  pub same_cached_image : quantity cached_image_input ms ≡ quantity cached_image_input plain
  pub same_image_output : quantity image_output ms ≡ quantity image_output plain
  pub same_web_search : quantity web_search ms ≡ quantity web_search plain

module _ (ms : MeterQuantities) (once : IsKeyed ms) where
  long-two :
      (k a b : MeterKey)
      → ((key : MeterKey)
          → same_meter (to_long_meter_key key) k ≡ (same_meter key a || same_meter key b))
      → ((key : MeterKey) → (same_meter key a && same_meter key b) ≡ false)
      → quantity k (apply_long_context_meters ms) ≡ quantity a ms + quantity b ms
  unfolding apply_long_context_meters meter?
  long-two k a b from apart =
      omega (arith, long_from-arriving k [] ms, arriving-two k a b ms from apart, once a, once b)

  long-one :
      (k : MeterKey)
      → ((key : MeterKey) → same_meter (to_long_meter_key key) k ≡ same_meter key k)
      → quantity k (apply_long_context_meters ms) ≡ quantity k ms
  unfolding apply_long_context_meters meter?
  long-one k from = omega (arith, long_from-arriving k [] ms, arriving-one k ms from, once k)

  long-none :
      (k : MeterKey)
      → ((key : MeterKey) → same_meter (to_long_meter_key key) k ≡ false)
      → quantity k (apply_long_context_meters ms) ≡ 0
  unfolding apply_long_context_meters meter?
  long-none k from = omega (arith, long_from-arriving k [] ms, arriving-none k ms from)

  long-IsLongOf : IsLongOf ms (apply_long_context_meters ms)
  unfolding same_meter to_long_meter_key
  long-IsLongOf = record {
    long_input =
        long-two input_long input input_long (elim [ input ↦ refl | _ ↦ refl ])
          (elim [ input ↦ refl | _ ↦ refl ]);
    long_cached =
        long-two cached_input_long cached_input cached_input_long (elim [ input ↦ refl | _ ↦ refl ])
          (elim [ input ↦ refl | _ ↦ refl ]);
    long_write =
        long-two cache_write_long cache_write cache_write_long (elim [ input ↦ refl | _ ↦ refl ])
          (elim [ input ↦ refl | _ ↦ refl ]);
    long_output =
        long-two output_long output output_long (elim [ input ↦ refl | _ ↦ refl ])
          (elim [ input ↦ refl | _ ↦ refl ]);
    no_input = long-none input (elim [ input ↦ refl | _ ↦ refl ]);
    no_cached = long-none cached_input (elim [ input ↦ refl | _ ↦ refl ]);
    no_write = long-none cache_write (elim [ input ↦ refl | _ ↦ refl ]);
    no_output = long-none output (elim [ input ↦ refl | _ ↦ refl ]);
    same_write_5m = long-one cache_write_5m (elim [ input ↦ refl | _ ↦ refl ]);
    same_write_1h = long-one cache_write_1h (elim [ input ↦ refl | _ ↦ refl ]);
    same_image_input = long-one image_input (elim [ input ↦ refl | _ ↦ refl ]);
    same_cached_image = long-one cached_image_input (elim [ input ↦ refl | _ ↦ refl ]);
    same_image_output = long-one image_output (elim [ input ↦ refl | _ ↦ refl ]);
    same_web_search = long-one web_search (elim [ input ↦ refl | _ ↦ refl ]);
  }

pub endpoint_meters-IsLongOf :
    (endpoint : EndpointKey) (usage : Fields)
    → IsLongOf
        (endpoint_meters endpoint usage)
        (apply_long_context_meters (endpoint_meters endpoint usage))
endpoint_meters-IsLongOf endpoint usage =
    long-IsLongOf (endpoint_meters endpoint usage) (endpoint_meters-IsKeyed endpoint usage)
