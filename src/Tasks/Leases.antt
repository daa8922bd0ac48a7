-- ===== src/Tasks/Leases.antt =====
-- src/features/gateway/server/image-tasks.ts: a task that is claimed is not claimed again while its
-- lease lasts.
use apipool_v.Base.{
  ℕ, ◌+◌, ◌≤◌, ◌<◌, String, true, false, none, some, List, [], ◌∷◌, if◌then◌else◌, find_by,
  update_where, has, All, ◌≡◌, ltb, refl, ◌∙◌, inl, inr, arith, Bool-cases, eq_iff,
}
use mathlib.Core.Path.{subst}
use apipool_v.Tasks.Defs.{
  Task, task_lease_ms, is_due, is_reached, is_task, is_claimable, lease, claim_row,
}

abbrev pub HasUniqueIds : List Task → Type 0
HasUniqueIds [] = Unit
HasUniqueIds (t ∷ tasks) = (has (is_task t.id) tasks ≡ false) × HasUniqueIds tasks

-- The row, if it is under the id, is not due before `until`.
abbrev pub IsHeld : String → ℕ → Task → Type 0
IsHeld id until t = is_task id t ≡ true → (now : ℕ) → now < until → is_due now t ≡ false

abbrev pub AllHeld : String → ℕ → List Task → Type 0
AllHeld id until tasks = All (IsHeld id until) tasks

leased_not_due :
    (k : String) (now later : ℕ) (t : Task)
    → later < now + task_lease_ms
    → is_due later (lease k now t) ≡ false
unfolding is_due lease
leased_not_due k now later t soon =
    let waits : is_reached later (some (now + task_lease_ms)) ≡ false = ground arith in
    ground (arith, waits)

lease_task :
    (id k : String) (now : ℕ) (t : Task) → is_task id (lease k now t) ≡ true → is_task id t ≡ true
unfolding lease
lease_task id k now t hit = hit

lease_row-IsHeld :
    (id j k : String) (until now : ℕ) (t : Task)
    → IsHeld id until t
    → IsHeld id until (if is_claimable j now t then lease k now t else t)
lease_row-IsHeld id j k until now t held = elim (Bool-cases (is_claimable j now t)) [
  | inl taken ↦ rw taken (λ hit later soon. elim (Bool-cases (ltb now until)) [
    | inl before ↦
        let due : is_due now t ≡ true = ground (arith, taken) in
        let same : is_task id t ≡ true = lease_task id k now t hit in
        let rests : is_due now t ≡ false = held same now (ground (arith, before)) in
        absurd (ground (arith, due, rests))
    | inr after ↦ leased_not_due k now later t (ground (arith, after, soon))
  ])
  | inr left ↦ rw left held
]

-- A claim at any time leaves held what is held: a row that is not due is passed over, and a lease
-- that begins after `until` ends after it.
pub claim_row-AllHeld :
    (id j k : String) (until now : ℕ) (tasks : List Task)
    → AllHeld id until tasks
    → AllHeld id until (claim_row k now j tasks).1
unfolding claim_row update_where
claim_row-AllHeld id j k until now [] held = tt
claim_row-AllHeld id j k until now (t ∷ tasks) held =
    (lease_row-IsHeld id j k until now t held.0, claim_row-AllHeld id j k until now tasks held.1)

pub held_not_found :
    (id : String) (until now : ℕ) (tasks : List Task)
    → now < until
    → AllHeld id until tasks
    → find_by (is_claimable id now) tasks ≡ none
unfolding find_by
held_not_found id until now [] soon held = refl
held_not_found id until now (t ∷ tasks) soon held = elim (Bool-cases (is_task id t)) [
  | inl hit ↦ rw (hit, held.0 hit now soon) (held_not_found id until now tasks soon held.1)
  | inr miss ↦ rw miss (held_not_found id until now tasks soon held.1)
]

has-claimed :
    (i j k : String) (now : ℕ) (tasks : List Task)
    → has (is_task i) (claim_row k now j tasks).1 ≡ has (is_task i) tasks
unfolding claim_row has update_where lease
has-claimed i j k now [] = refl
has-claimed i j k now (t ∷ tasks) = ground (arith, has-claimed i j k now tasks)

pub claim_row-HasUniqueIds :
    (j k : String) (now : ℕ) (tasks : List Task)
    → HasUniqueIds tasks
    → HasUniqueIds (claim_row k now j tasks).1
unfolding claim_row has update_where lease
claim_row-HasUniqueIds j k now [] unique = tt
claim_row-HasUniqueIds j k now (t ∷ tasks) unique = elim (Bool-cases (is_claimable j now t)) [
  | inl hit ↦
      rw hit
        (has-claimed t.id j k now tasks ∙ unique.0, claim_row-HasUniqueIds j k now tasks unique.1)
  | inr miss ↦
      rw miss
        (has-claimed t.id j k now tasks ∙ unique.0, claim_row-HasUniqueIds j k now tasks unique.1)
]

-- No row under the id: nothing to hold.
none-AllHeld :
    (id : String) (until : ℕ) (tasks : List Task)
    → has (is_task id) tasks ≡ false
    → AllHeld id until tasks
unfolding has
none-AllHeld id until [] gone = tt
none-AllHeld id until (t ∷ tasks) gone =
    ((λ hit. absurd (ground arith)), none-AllHeld id until tasks (ground arith))

found-has :
    (id : String) (now : ℕ) (tasks : List Task) (t : Task)
    → find_by (is_claimable id now) tasks ≡ some t
    → has (is_task id) tasks ≡ true
unfolding find_by has
found-has id now [] t found = absurd (cc)
found-has id now (d ∷ tasks) t found = ground (arith, found-has id now tasks t)

pub AllHeld-sooner :
    (id : String) (soon until : ℕ) (tasks : List Task)
    → soon ≤ until
    → AllHeld id until tasks
    → AllHeld id soon tasks
AllHeld-sooner id soon until [] e held = tt
AllHeld-sooner id soon until (t ∷ tasks) e held = (
  λ hit now before. held.0 hit now (omega (arith, e, before)),
  AllHeld-sooner id soon until tasks e held.1,
)

pub claimed-AllHeld :
    (id k : String) (now : ℕ) (tasks : List Task) (t : Task)
    → HasUniqueIds tasks
    → find_by (is_claimable id now) tasks ≡ some t
    → AllHeld id (now + task_lease_ms) (claim_row k now id tasks).1
unfolding claim_row update_where find_by lease
claimed-AllHeld id k now [] t unique found = absurd (cc)
claimed-AllHeld id k now (d ∷ tasks) t unique found = elim (Bool-cases (is_claimable id now d)) [
  | inl hit ↦
      let same : d.id ≡ id = (eq_iff d.id id).0 (ground (arith, hit)) in
      rw hit (
        λ e later soon. leased_not_due k now later d soon,
        none-AllHeld id (now + task_lease_ms) (claim_row k now id tasks).1 (
            has-claimed id id k now tasks
            ∙ subst (λ i. has (is_task i) tasks ≡ false) same unique.0),
      )
  | inr miss ↦
      let later : find_by (is_claimable id now) tasks ≡ some t = ground arith in
      rw miss (
        λ e.
            let same : d.id ≡ id = (eq_iff d.id id).0 e in
            absurd (
              ground (
                arith,
                found-has id now tasks t later,
                subst (λ i. has (is_task i) tasks ≡ false) same unique.0,
              )),
        claimed-AllHeld id k now tasks t unique.1 later,
      )
]
