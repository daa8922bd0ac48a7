-- ===== src/Billing/Rounding.antt =====
-- Rounding: a charge is the least whole micro-USD amount that covers the exact price.
use apipool_v.Base.{
  ℕ, suc, ◌+◌, ◌-◌, ◌*◌, ◌/◌, ◌≤◌, ◌<◌, max, Bool, ◌&&◌, not, Option, none, some, [], ◌∷◌,
  if◌then◌else◌, ◌==◌, has, ◌≡◌, refl, ◌∙◌, arith, is_some, or_else,
}
use apipool_v.Billing.Meters.{MeterKey, MeterQuantities, same_meter, same_meter_iff}
use native.Mathlib.Nat.{div-add-mod, mod-lt, div-lt_iff_lt-mul}
use apipool_v.Billing.Charge.{
  round_up, micro_per_m, at_least_one, RatesMap, priced, sum_priced, web_search_part,
  compute_token_charge,
}

-- Rounding up, for a positive divisor: the result covers `a`, and nothing smaller does.
pub round_up-least :
    (a b : ℕ) → 0 < b → (a ≤ round_up a b * b) × ((c : ℕ) → a ≤ c * b → round_up a b ≤ c)
unfolding round_up
round_up-least a b h =
    let e = div-add-mod (a + b - 1) b in
    let m = mod-lt (a + b - 1) h in
    (
      omega arith,
      λ c k.
          let below : (a + b - 1) / b < suc c = (div-lt_iff_lt-mul h).1 (grind arith) in
          omega arith,
    )

pub at_least_one_lem :
    (n : ℕ) → (1 ≤ at_least_one n) × (n ≤ at_least_one n) × (at_least_one n ≤ max n 1)
unfolding at_least_one
at_least_one_lem n = ground arith

-- The exact price of the metered tokens, in millionths of a micro-USD.
unfoldable pub exact : RatesMap → MeterQuantities → ℕ
exact rates [] = 0
exact rates ((key, q) ∷ ms) = q * or_else (rates key) 0 + exact rates ms

-- The exact price of the request: the tokens, and the web searches where they have a price.
abbrev pub due : MeterQuantities → RatesMap → ℕ → Option ℕ → ℕ
due ms rates count price = exact rates ms + count * or_else price 0 * micro_per_m

sum_priced-eq-exact :
    (rates : RatesMap) (acc : ℕ) (ms : MeterQuantities)
    → (sum_priced rates acc ms).0 ≡ acc + exact rates ms
unfolding sum_priced exact
sum_priced-eq-exact rates acc [] = omega arith
sum_priced-eq-exact rates acc ((key, q) ∷ ms) =
    sum_priced-eq-exact rates (if q == 0 then acc else acc + priced rates key q) ms ∙ grind arith

web_search_part_lem :
    (count : ℕ) (price : Option ℕ)
    → web_search_part count price ≡ count * or_else price 0 * micro_per_m
unfolding web_search_part
web_search_part_lem count none = omega arith
web_search_part_lem count (some p) = ground arith

-- The charge for tokens is at least 1 micro-USD, covers the exact price, and is the least such
-- amount.
pub token_charge-least :
    (ms : MeterQuantities) (rates : RatesMap) (count : ℕ) (price : Option ℕ)
    → let charge = (compute_token_charge ms rates count price).0 in
      (1 ≤ charge)
      × (due ms rates count price ≤ charge * micro_per_m)
      × ((c : ℕ) → 1 ≤ c → due ms rates count price ≤ c * micro_per_m → charge ≤ c)
unfolding compute_token_charge
token_charge-least ms rates count price =
    let exactly : (sum_priced rates 0 ms).0 + web_search_part count price
        ≡ due ms rates count price =
      omega (arith, sum_priced-eq-exact rates 0 ms, web_search_part_lem count price) in
    let (covers, least) = round_up-least (due ms rates count price) micro_per_m (omega arith) in
    let up = at_least_one_lem (round_up (due ms rates count price) micro_per_m) in
    rw exactly (up.0, omega arith, λ c one k. let l = least c k in omega arith)

abbrev pub used : MeterKey → MeterKey × ℕ → Bool
used key (k, q) = same_meter key k && not (q == 0)

sum_priced-unpriced :
    (rates : RatesMap) (key : MeterKey) (acc : ℕ) (ms : MeterQuantities)
    → has (same_meter key) (sum_priced rates acc ms).1
      ≡ (has (used key) ms && not (is_some (rates key)))
unfolding sum_priced has
sum_priced-unpriced rates key acc [] = refl
sum_priced-unpriced rates key acc ((k, q) ∷ ms) = ground (
  arith,
  same_meter_iff key k,
  sum_priced-unpriced rates key acc ms,
  sum_priced-unpriced rates key (acc + priced rates k q) ms,
)

-- A meter is reported as unpriced exactly when it has a quantity and no rate.
pub unpriced_iff :
    (ms : MeterQuantities) (rates : RatesMap) (count : ℕ) (price : Option ℕ) (key : MeterKey)
    → has (same_meter key) (compute_token_charge ms rates count price).1
      ≡ (has (used key) ms && not (is_some (rates key)))
unfolding compute_token_charge
unpriced_iff ms rates count price key = sum_priced-unpriced rates key 0 ms
