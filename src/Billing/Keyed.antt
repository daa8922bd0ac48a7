-- ===== src/Billing/Keyed.antt =====
-- src/features/gateway/lib/billing.ts: the meters of a request hold each key once.
use apipool_v.Base.{ℕ, ◌+◌, [], ◌∷◌, if◌then◌else◌, ◌≡◌, refl, ap, inl, inr, arith, Bool-cases}
use apipool_v.Base.Json.{Fields}
use apipool_v.Gateway.Endpoints.{
  EndpointKey, chat_completions, responses, messages, embeddings, images_generations, images_edits,
  tasks, models,
}
use apipool_v.Billing.Meters.{
  MeterKey, MeterQuantities, quantity, meter?, set_meter, same_meter, same_meter_iff,
  meter?-set_meter,
}
use apipool_v.Billing.Usage.{add_meter}
use apipool_v.Billing.Normalize.{
  chat_meters, responses_meters, messages_meters, images_meters, endpoint_meters,
}

-- All that the list holds under a key.
unfoldable pub amount : MeterKey → MeterQuantities → ℕ
amount key [] = 0
amount key ((k, q) ∷ ms) = (if same_meter k key then q else 0) + amount key ms

-- Each key stands in the list once at most, as in a JavaScript object.
abbrev pub IsKeyed : MeterQuantities → Type 0
IsKeyed ms = (key : MeterKey) → amount key ms ≡ quantity key ms

amount-set_meter :
    (key k : MeterKey) (q : ℕ) (ms : MeterQuantities)
    → amount k (set_meter key q ms) + (if same_meter key k then quantity key ms else 0)
      ≡ amount k ms + (if same_meter key k then q else 0)
unfolding amount set_meter meter?
amount-set_meter key k q [] = ground arith
amount-set_meter key k q ((j, r) ∷ ms) = elim (Bool-cases (same_meter j key)) [
  | inl hit ↦
      let same : same_meter j k ≡ same_meter key k =
        ap (λ i. same_meter i k) ((same_meter_iff j key).0 hit) in
      rw (hit, same) (omega arith)
  | inr miss ↦ let rest = amount-set_meter key k q ms in rw miss (omega (arith, rest))
]

set_meter-IsKeyed :
    (key : MeterKey) (q : ℕ) (ms : MeterQuantities) → IsKeyed ms → IsKeyed (set_meter key q ms)
set_meter-IsKeyed key q ms once k = ground (
  arith,
  amount-set_meter key k q ms,
  meter?-set_meter key k q ms,
  once k,
  once key,
  same_meter_iff key k,
)

add_meter-IsKeyed :
    (key : MeterKey) (q : ℕ) (ms : MeterQuantities) → IsKeyed ms → IsKeyed (add_meter key q ms)
unfolding add_meter
add_meter-IsKeyed key q ms once k = ground (arith, set_meter-IsKeyed key q ms once k, once k)

nothing-IsKeyed : IsKeyed []
unfolding amount meter?
nothing-IsKeyed k = refl

five-IsKeyed :
    (a b c d e : MeterKey) (p q r s t : ℕ)
    → IsKeyed (add_meter e t (add_meter d s (add_meter c r (add_meter b q (add_meter a p [])))))
five-IsKeyed a b c d e p q r s t = add_meter-IsKeyed e t _ (
    add_meter-IsKeyed d s _ (
      add_meter-IsKeyed c r _ (add_meter-IsKeyed b q _ (add_meter-IsKeyed a p [] nothing-IsKeyed))))

four-IsKeyed :
    (a b c d : MeterKey) (p q r s : ℕ)
    → IsKeyed (add_meter d s (add_meter c r (add_meter b q (add_meter a p []))))
four-IsKeyed a b c d p q r s =
    add_meter-IsKeyed d s _
      (add_meter-IsKeyed c r _ (add_meter-IsKeyed b q _ (add_meter-IsKeyed a p [] nothing-IsKeyed)))

pub endpoint_meters-IsKeyed :
    (endpoint : EndpointKey) (usage : Fields) → IsKeyed (endpoint_meters endpoint usage)
unfolding endpoint_meters chat_meters responses_meters messages_meters images_meters
endpoint_meters-IsKeyed chat_completions usage = four-IsKeyed _ _ _ _ _ _ _ _
endpoint_meters-IsKeyed responses usage = four-IsKeyed _ _ _ _ _ _ _ _
endpoint_meters-IsKeyed messages usage = five-IsKeyed _ _ _ _ _ _ _ _ _ _
endpoint_meters-IsKeyed embeddings usage = add_meter-IsKeyed _ _ [] nothing-IsKeyed
endpoint_meters-IsKeyed images_generations usage = five-IsKeyed _ _ _ _ _ _ _ _ _ _
endpoint_meters-IsKeyed images_edits usage = five-IsKeyed _ _ _ _ _ _ _ _ _ _
endpoint_meters-IsKeyed tasks usage = nothing-IsKeyed
endpoint_meters-IsKeyed models usage = nothing-IsKeyed
