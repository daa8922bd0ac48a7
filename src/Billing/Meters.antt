-- ===== src/Billing/Meters.antt =====
-- src/features/gateway/lib/meters.ts: the meter keys and quantities.
use apipool_v.Base.{
  ℕ, zero, suc, ◌+◌, Bool, true, Option, none, some, List, [], ◌∷◌, if◌then◌else◌, ◌==◌, ◌≡◌, refl,
  sym, ap, ◌∙◌, ◌↔◌, arith, or_else,
}

pub data MeterKey : Type 0 where
  input cached_input cache_write cache_write_5m cache_write_1h : MeterKey
  output image_input cached_image_input image_output : MeterKey
  input_long cached_input_long cache_write_long output_long : MeterKey
  web_search : MeterKey

-- The position of a key in the vocabulary, by which keys are compared.
abbrev pub meter_index : MeterKey → ℕ
meter_index input = 0
meter_index cached_input = 1
meter_index cache_write = 2
meter_index cache_write_5m = 3
meter_index cache_write_1h = 4
meter_index output = 5
meter_index image_input = 6
meter_index cached_image_input = 7
meter_index image_output = 8
meter_index input_long = 9
meter_index cached_input_long = 10
meter_index cache_write_long = 11
meter_index output_long = 12
meter_index web_search = 13

unfoldable pub same_meter : MeterKey → MeterKey → Bool
same_meter a b = meter_index a == meter_index b

nat_refl : (n : ℕ) → (n == n) ≡ true
nat_refl n = ground arith

meter_at : ℕ → MeterKey
meter_at zero = input
meter_at (suc zero) = cached_input
meter_at (suc (suc zero)) = cache_write
meter_at (suc (suc (suc zero))) = cache_write_5m
meter_at (suc (suc (suc (suc zero)))) = cache_write_1h
meter_at (suc (suc (suc (suc (suc zero))))) = output
meter_at (suc (suc (suc (suc (suc (suc zero)))))) = image_input
meter_at (suc (suc (suc (suc (suc (suc (suc zero))))))) = cached_image_input
meter_at (suc (suc (suc (suc (suc (suc (suc (suc zero)))))))) = image_output
meter_at (suc (suc (suc (suc (suc (suc (suc (suc (suc zero))))))))) = input_long
meter_at (suc (suc (suc (suc (suc (suc (suc (suc (suc (suc zero)))))))))) = cached_input_long
meter_at (suc (suc (suc (suc (suc (suc (suc (suc (suc (suc (suc zero))))))))))) = cache_write_long
meter_at (suc (suc (suc (suc (suc (suc (suc (suc (suc (suc (suc (suc zero)))))))))))) = output_long
meter_at _ = web_search

meter_at-index : (k : MeterKey) → meter_at (meter_index k) ≡ k
unfolding meter_at
meter_at-index = elim [ input ↦ refl | _ ↦ refl ]

same_meter→eq : (a b : MeterKey) → same_meter a b ≡ true → a ≡ b
unfolding same_meter
same_meter→eq a b h =
    let same : meter_index a ≡ meter_index b = ground arith in
    sym (meter_at-index a) ∙ ap meter_at same ∙ meter_at-index b

pub same_meter_refl : (a : MeterKey) → same_meter a a ≡ true
unfolding same_meter
same_meter_refl a = (nat_refl (meter_index a))

pub same_meter_iff : (a b : MeterKey) → (same_meter a b ≡ true) ↔ (a ≡ b)
same_meter_iff a b = (same_meter→eq a b, λ e. rw e (same_meter_refl b))

-- `toLongMeterKey`
unfoldable pub to_long_meter_key : MeterKey → MeterKey
to_long_meter_key input = input_long
to_long_meter_key cached_input = cached_input_long
to_long_meter_key cache_write = cache_write_long
to_long_meter_key output = output_long
to_long_meter_key key = key

-- `Partial<Record<MeterKey, number>>`: the entries in the order in which they were set.
abbrev pub MeterQuantities : Type 0
MeterQuantities = List (MeterKey × ℕ)

-- `meters[key]`, where it is set.
unfoldable pub meter? : MeterKey → MeterQuantities → Option ℕ
meter? key [] = none
meter? key ((k, q) ∷ ms) = if same_meter k key then some q else meter? key ms

-- `meters[key] ?? 0`
abbrev pub quantity : MeterKey → MeterQuantities → ℕ
quantity key ms = or_else (meter? key ms) 0

-- `meters[key] = q`
unfoldable pub set_meter : MeterKey → ℕ → MeterQuantities → MeterQuantities
set_meter key q [] = (key, q) ∷ []
set_meter key q ((k, r) ∷ ms) =
    if same_meter k key then (k, q) ∷ ms else (k, r) ∷ set_meter key q ms

-- The sum of all quantities.
unfoldable pub total : MeterQuantities → ℕ
total [] = 0
total ((k, q) ∷ ms) = q + total ms

pub meter?-set_meter :
    (key k : MeterKey) (q : ℕ) (ms : MeterQuantities)
    → meter? k (set_meter key q ms) ≡ (if same_meter key k then some q else meter? k ms)
unfolding meter? set_meter
meter?-set_meter key k q [] = refl
meter?-set_meter key k q ((j, r) ∷ ms) = ground (
  arith,
  meter?-set_meter key k q ms,
  same_meter_iff j key,
  same_meter_iff j k,
  same_meter_iff key k,
)

-- Setting a key replaces its quantity in the sum.
pub total-set_meter :
    (key : MeterKey) (q : ℕ) (ms : MeterQuantities)
    → total (set_meter key q ms) + quantity key ms ≡ total ms + q
unfolding meter? set_meter total
total-set_meter key q [] = omega arith
total-set_meter key q ((k, r) ∷ ms) = ground (arith, total-set_meter key q ms)
