-- ===== src/Gateway/Finality.antt =====
-- What no step undoes: final rows, and the bound on a user's risk slots.
use apipool_v.Base.{
  ℕ, ◌≤◌, String, Bool, true, false, ◌&&◌, not, some, List, [], ◌∷◌, ok, str_eq, ltb, find_by,
  find_by-update_where, count_where-update_where, update_where, has, if◌then◌else◌, count_where,
  ◌≡◌, refl, sym, ap, ◌∙◌, inl, inr, arith, eq_iff, Bool-cases,
}
use mathlib.Core.Path.{subst}
use apipool_v.Gateway.Requests.{
  AdmissionInput, Request, Store, Status, opened, pending_backfill, settled, failed_unbilled,
  is_live, is_opened, is_row, is_live_row, takes_slot,
}
use apipool_v.Gateway.Admission.{
  new_request, admit_request, awaits_id, has_newapi_id, capture, capture_request_id, FailurePatch,
  fail_request, mark_failed_unbilled,
}
use apipool_v.Gateway.Charging.{IsApart}
use apipool_v.Gateway.Once.{IsAlone}
use apipool_v.Gateway.Settlement.{SettlementUsage, Settling, settle_request, settle_row}
use apipool_v.Gateway.Lifecycle.{
  Step, admit, captured, failed, settle, adjust, Reach, here, next, same, charged, settle-Left,
}

-- A write that touches live rows only, and never what admission wrote.
data Kept (s s' : Store) : Type 0 where
  unchanged : s'.requests ≡ s.requests → Kept s s'
  updated :
      (p : Request → Bool) (f : Request → Request)
      → ((y : Request) → (f y).admitted ≡ y.admitted)
      → ((y : Request) → is_live y.status ≡ false → p y ≡ false)
      → s'.requests ≡ update_where p f s.requests
      → Kept s s'

-- What a step does to the rows.
data Shape (s s' : Store) : Type 0 where
  kept : Kept s s' → Shape s s'
  inserted :
      (now : ℕ) (input : AdmissionInput)
      → has (is_row input.id) s.requests ≡ false
      → s'.requests ≡ new_request now input ∷ s.requests
      → Shape s s'

admit-Shape :
    (now : ℕ) (input : AdmissionInput) (limit : ℕ) (b : Bool) (s s' : Store)
    → admit_request now input limit s ≡ ok (b, s')
    → Shape s s'
unfolding admit_request
admit-Shape now input limit b s s' h =
    elim (Bool-cases (ltb (count_where (takes_slot input.user_id) s.requests) limit)) [
      | inl room ↦ elim (Bool-cases (has (is_row input.id) s.requests)) [
        | inl clash ↦ absurd (ground arith)
        | inr fresh ↦ inserted now input fresh (ground arith)
      ]
      | inr full ↦ kept (unchanged (ground arith))
    ]

live_row-is_live : (id : String) (y : Request) → is_live y.status ≡ false → is_live_row id y ≡ false
live_row-is_live id y h = ground arith

live-opened : (st : Status) → is_live st ≡ false → is_opened st ≡ true → ⊥
live-opened opened h o = cc
live-opened pending_backfill h o = cc
live-opened settled h o = cc
live-opened failed_unbilled h o = cc

awaits-is_live : (id : String) (y : Request) → is_live y.status ≡ false → awaits_id id y ≡ false
awaits-is_live id y h = elim (Bool-cases (is_opened y.status)) [
  | inl o ↦ absurd (live-opened y.status h o)
  | inr n ↦ ground arith
]

capture-Kept :
    (now : ℕ) (id newapi_id : String) (s : Store) → Kept s (capture_request_id now id newapi_id s).1
unfolding capture_request_id capture
capture-Kept now id newapi_id s =
    elim (Bool-cases
      (has (awaits_id id) s.requests && not (has (has_newapi_id newapi_id) s.requests))) [
        | inl go ↦
            updated (awaits_id id) (capture now newapi_id) (λ y. refl) (awaits-is_live id)
              (rw go refl)
        | inr stay ↦ unchanged (rw stay refl)
      ]

mark-Kept :
    (now : ℕ) (id : String) (patch : FailurePatch) (s : Store)
    → Kept s (mark_failed_unbilled now id patch s).1
unfolding mark_failed_unbilled fail_request
mark-Kept now id patch s =
    updated (is_live_row id) (fail_request now patch) (λ y. refl) (live_row-is_live id) refl

settle-Kept :
    (env : Settling) (ledger : Request) (usage : SettlementUsage) (s : Store)
    → IsApart env
    → IsAlone env
    → Kept s (settle_row env ledger usage s).1
unfolding settle_request
settle-Kept env ledger usage s apart alone = elim (settle-Left env ledger usage s apart alone) [
  | same p ↦ unchanged (ap (λ t. t.requests) p)
  | charged l u bill k ↦
      updated (is_live_row l.admitted.id) (settle_request k.now u bill k.flags) (λ y. refl)
        (live_row-is_live l.admitted.id) k.requests
]

Step-Shape : {s s' : Store} → Step s s' → Shape s s'
Step-Shape {s} (admit now input limit b s' h) = admit-Shape now input limit b s s' h
Step-Shape {s} (captured now id newapi_id) = kept (capture-Kept now id newapi_id s)
Step-Shape {s} (failed now id patch) = kept (mark-Kept now id patch s)
Step-Shape {s} (settle env ledger usage apart alone) =
    kept (settle-Kept env ledger usage s apart alone)
Step-Shape (adjust env input careful) = kept (unchanged refl)

find_by-has {ℓ} :
    {A : Type ℓ} (p : A → Bool) (xs : List A) (x : A) → find_by p xs ≡ some x → has p xs ≡ true
unfolding find_by has
find_by-has p [] x e = absurd (cc)
find_by-has p (y ∷ ys) x e = ground (arith, find_by-has p ys x)

taken :
    (new_id id : String) (rows : List Request) (r : Request)
    → find_by (is_row id) rows ≡ some r
    → str_eq new_id id ≡ true
    → has (is_row new_id) rows ≡ true
taken new_id id rows r found hit =
    subst (λ i. has (is_row i) rows ≡ true) (sym ((eq_iff new_id id).0 hit))
      (find_by-has (is_row id) rows r found)

-- The row under an id, when it is final.
pub record IsFinal (id : String) (r : Request) (s : Store) : Type 0 where
  pub found : find_by (is_row id) s.requests ≡ some r
  pub ended : is_live r.status ≡ false

same_row :
    (id : String) (p : Request → Bool) (f : Request → Request)
    → ((y : Request) → (f y).admitted ≡ y.admitted)
    → (y : Request) → is_row id (if p y then f y else y) ≡ is_row id y
same_row id p f keeps y = elim (Bool-cases (p y)) [
  | inl hit ↦ rw (hit, keeps y) refl
  | inr miss ↦ rw miss refl
]

Shape-IsFinal :
    {s s' : Store} {id : String} {r : Request} → Shape s s' → IsFinal id r s → IsFinal id r s'
unfolding find_by new_request
Shape-IsFinal (kept (unchanged e)) fin = record { found = rw e fin.found; ended = fin.ended }
Shape-IsFinal {s} {id} {r} (kept (updated p f keeps live e)) fin = record {
  found = rw e (
      find_by-update_where p (is_row id) f s.requests (same_row id p f keeps)
      ∙ rw (fin.found, live r fin.ended) refl);
  ended = fin.ended;
}
Shape-IsFinal {s} {id} {r} (inserted now input fresh e) fin =
    elim (Bool-cases (str_eq input.id id)) [
      | inl hit ↦ absurd (
          let known : has (is_row input.id) s.requests ≡ true =
            taken input.id id s.requests r fin.found hit in
          cc)
      | inr miss ↦ record { found = rw (e, miss) fin.found; ended = fin.ended }
    ]

-- In every run of these steps, a request that is settled or failed keeps its row as it is.
pub Reach-IsFinal :
    {s t : Store} (id : String) (r : Request) → Reach s t → IsFinal id r s → IsFinal id r t
Reach-IsFinal id r here fin = fin
Reach-IsFinal id r (next run st) fin = Shape-IsFinal (Step-Shape st) (Reach-IsFinal id r run fin)

-- An admission of the run takes slots up to this limit.
abbrev pub IsCapped : {s s' : Store} → ℕ → Step s s' → Type 0
IsCapped cap (admit now input limit b s' h) = limit ≤ cap
IsCapped cap _ = Unit

abbrev pub AreCapped : {s t : Store} → ℕ → Reach s t → Type 0
AreCapped cap here = Unit
AreCapped cap (next run st) = AreCapped cap run × IsCapped cap st

admit_one :
    (now : ℕ) (input : AdmissionInput) (limit : ℕ) (rows : List Request) (u : String) (cap : ℕ)
    → limit ≤ cap
    → ltb (count_where (takes_slot input.user_id) rows) limit ≡ true
    → count_where (takes_slot u) rows ≤ cap
    → count_where (takes_slot u) (new_request now input ∷ rows) ≤ cap
unfolding count_where new_request
admit_one now input limit rows u cap below room held = elim (Bool-cases (str_eq input.user_id u)) [
  | inl mine ↦
      let fits : ltb (count_where (takes_slot u) rows) limit ≡ true =
        subst (λ v. ltb (count_where (takes_slot v) rows) limit ≡ true)
          ((eq_iff input.user_id u).0 mine) room in
      ground arith
  | inr other ↦ ground arith
]

admit-slots :
    (now : ℕ) (input : AdmissionInput) (limit : ℕ) (b : Bool) (s s' : Store) (u : String) (cap : ℕ)
    → admit_request now input limit s ≡ ok (b, s')
    → limit ≤ cap
    → count_where (takes_slot u) s.requests ≤ cap
    → count_where (takes_slot u) s'.requests ≤ cap
unfolding admit_request count_where new_request
admit-slots now input limit b s s' u cap h below held =
    elim (Bool-cases (ltb (count_where (takes_slot input.user_id) s.requests) limit)) [
      | inl room ↦ elim (Bool-cases (has (is_row input.id) s.requests)) [
        | inl clash ↦ absurd (ground arith)
        | inr fresh ↦
            let e : s'.requests ≡ new_request now input ∷ s.requests = ground arith in
            rw e (admit_one now input limit s.requests u cap below room held)
      ]
      | inr full ↦ ground arith
    ]

both :
    (u : String) (x y : Request)
    → x.admitted ≡ y.admitted
    → takes_slot u x ≡ true
    → is_live y.status ≡ true
    → takes_slot u y ≡ true
both u x y e shown alive =
    let mine : str_eq x.admitted.user_id u ≡ true = ground arith in
    let mine_y : str_eq y.admitted.user_id u ≡ true =
      subst (λ a. str_eq a.user_id u ≡ true) e mine in
    ground arith

live_before :
    (p : Request → Bool) (f : Request → Request) (u : String)
    → ((y : Request) → (f y).admitted ≡ y.admitted)
    → ((y : Request) → is_live y.status ≡ false → p y ≡ false)
    → (y : Request) → takes_slot u (if p y then f y else y) ≡ true
    → takes_slot u y ≡ true
live_before p f u keeps live y after = elim (Bool-cases (p y)) [
  | inl hit ↦ elim (Bool-cases (is_live y.status)) [
    | inl alive ↦
        let shown : takes_slot u (f y) ≡ true =
          subst (λ z. takes_slot u (if z then f y else y) ≡ true) hit after in
        both u (f y) y (keeps y) shown alive
    | inr ended ↦ let never : p y ≡ false = live y ended in absurd (cc)
  ]
  | inr miss ↦ subst (λ z. takes_slot u (if z then f y else y) ≡ true) miss after
]

Kept-slots :
    {s s' : Store} (u : String)
    → Kept s s'
    → count_where (takes_slot u) s'.requests ≤ count_where (takes_slot u) s.requests
Kept-slots u (unchanged e) = rw e (omega arith)
Kept-slots {s} u (updated p f keeps live e) =
    rw e (count_where-update_where p (takes_slot u) f s.requests (live_before p f u keeps live))

within : {a b cap : ℕ} → a ≤ cap → b ≤ a → b ≤ cap
within p q = omega arith

Step-slots :
    {s s' : Store} (u : String) (cap : ℕ) (st : Step s s')
    → IsCapped cap st
    → count_where (takes_slot u) s.requests ≤ cap
    → count_where (takes_slot u) s'.requests ≤ cap
Step-slots {s} u cap (admit now input limit b s' h) below held =
    admit-slots now input limit b s s' u cap h below held
Step-slots {s} u cap (captured now id newapi_id) below held =
    within held (Kept-slots u (capture-Kept now id newapi_id s))
Step-slots {s} u cap (failed now id patch) below held =
    within held (Kept-slots u (mark-Kept now id patch s))
Step-slots {s} u cap (settle env ledger usage apart alone) below held =
    within held (Kept-slots u (settle-Kept env ledger usage s apart alone))
Step-slots u cap (adjust env input careful) below held = held

-- Where every admission of a run is held to a limit of at most `cap`, a user who starts within
-- `cap` live requests is never above it.
pub Reach-slots :
    {s t : Store} (u : String) (cap : ℕ) (run : Reach s t)
    → AreCapped cap run
    → count_where (takes_slot u) s.requests ≤ cap
    → count_where (takes_slot u) t.requests ≤ cap
Reach-slots u cap here below held = held
Reach-slots u cap (next run st) below held =
    Step-slots u cap st below.1 (Reach-slots u cap run below.0 held)
