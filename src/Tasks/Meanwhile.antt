-- ===== src/Tasks/Meanwhile.antt =====
-- src/features/gateway/server/image-tasks.ts: what others write while a row is leased.
use apipool_v.Base.{
  ◌≤◌, ◌+◌, Option, false, ℕ, String, List, [], ◌∷◌, if◌then◌else◌, All, ◌≡◌, sym, inl, inr, arith,
  Bool-cases,
}
use mathlib.Core.Path.{subst}
use apipool_v.Tasks.Defs.{Task, TaskStatus, is_active_task, is_due, is_task, claim_row, retry_task}
use apipool_v.Tasks.Retries.{least_delay_ms, retry_task-AllHeld, retry_task-HasUniqueIds}
use apipool_v.Tasks.Leases.{
  HasUniqueIds, IsHeld, AllHeld, claim_row-AllHeld, claim_row-HasUniqueIds,
}

-- The rows under an id.
unfoldable pub rows_of : String → List Task → List Task
rows_of id [] = []
rows_of id (t ∷ tasks) = if is_task id t then t ∷ rows_of id tasks else rows_of id tasks

-- How the table may change around the rows under `id`: any worker tries to claim any row;
-- a task, this one or another, is retried at most the least delay before `until`; these rows
-- are written to with a status that is not active, as completion and failure do; or something is
-- written that leaves them as they are.
pub data Meanwhile (id : String) (until : ℕ) (tasks : List Task) : List Task → Type 0 where
  quiet : Meanwhile id until tasks tasks
  claims :
      {us : List Task} (holder j : String) (at : ℕ)
      → Meanwhile id until tasks us
      → Meanwhile id until tasks (claim_row holder at j us).1
  retries :
      {us : List Task} (task : Task) (error : Option String) (status : TaskStatus) (at : ℕ)
      → until ≤ at + least_delay_ms
      → Meanwhile id until tasks us
      → Meanwhile id until tasks (retry_task at task error status us)
  ends :
      {us : List Task} (vs : List Task)
      → All (λ t. is_active_task t.status ≡ false) (rows_of id vs)
      → HasUniqueIds vs
      → Meanwhile id until tasks us
      → Meanwhile id until tasks vs
  elsewhere :
      {us : List Task} (vs : List Task)
      → rows_of id vs ≡ rows_of id us
      → HasUniqueIds vs
      → Meanwhile id until tasks us
      → Meanwhile id until tasks vs

pub Meanwhile-HasUniqueIds :
    {id : String} {until : ℕ} {tasks us : List Task}
    → Meanwhile id until tasks us
    → HasUniqueIds tasks
    → HasUniqueIds us
Meanwhile-HasUniqueIds quiet unique = unique
Meanwhile-HasUniqueIds (claims {us} holder j at m) unique =
    claim_row-HasUniqueIds j holder at us (Meanwhile-HasUniqueIds m unique)
Meanwhile-HasUniqueIds (retries {us} task error status at late m) unique =
    retry_task-HasUniqueIds at task error status us (Meanwhile-HasUniqueIds m unique)
Meanwhile-HasUniqueIds (ends vs over unique' m) unique = unique'
Meanwhile-HasUniqueIds (elsewhere vs same unique' m) unique = unique'

rows_of-IsHeld :
    (id : String) (until : ℕ) (tasks : List Task)
    → AllHeld id until tasks
    → All (IsHeld id until) (rows_of id tasks)
unfolding rows_of
rows_of-IsHeld id until [] held = tt
rows_of-IsHeld id until (t ∷ tasks) held = elim (Bool-cases (is_task id t)) [
  | inl hit ↦ rw hit (held.0, rows_of-IsHeld id until tasks held.1)
  | inr miss ↦ rw miss (rows_of-IsHeld id until tasks held.1)
]

rows_of-AllHeld :
    (id : String) (until : ℕ) (tasks : List Task)
    → All (IsHeld id until) (rows_of id tasks)
    → AllHeld id until tasks
unfolding rows_of
rows_of-AllHeld id until [] held = tt
rows_of-AllHeld id until (t ∷ tasks) held = elim (Bool-cases (is_task id t)) [
  | inl hit ↦
      let both : IsHeld id until t × All (IsHeld id until) (rows_of id tasks) = rw hit at held in
      (both.0, rows_of-AllHeld id until tasks both.1)
  | inr miss ↦
      let rest : All (IsHeld id until) (rows_of id tasks) = rw miss at held in
      ((λ hit. absurd (ground (arith, hit, miss))), rows_of-AllHeld id until tasks rest)
]

ended-IsHeld :
    (id : String) (until : ℕ) (tasks : List Task)
    → All (λ t. is_active_task t.status ≡ false) tasks
    → All (IsHeld id until) tasks
unfolding is_due
ended-IsHeld id until [] over = tt
ended-IsHeld id until (t ∷ tasks) over =
    ((λ hit now soon. ground (arith, over.0)), ended-IsHeld id until tasks over.1)

pub Meanwhile-AllHeld :
    {id : String} {until : ℕ} {tasks us : List Task}
    → Meanwhile id until tasks us
    → AllHeld id until tasks
    → AllHeld id until us
Meanwhile-AllHeld quiet held = held
Meanwhile-AllHeld {id} {until} (claims {us} holder j at m) held =
    claim_row-AllHeld id j holder until at us (Meanwhile-AllHeld m held)
Meanwhile-AllHeld {id} {until} (retries {us} task error status at late m) held =
    retry_task-AllHeld at task error status id until us late (Meanwhile-AllHeld m held)
Meanwhile-AllHeld {id} {until} (ends vs over unique m) held =
    rows_of-AllHeld id until vs (ended-IsHeld id until (rows_of id vs) over)
Meanwhile-AllHeld {id} {until} (elsewhere {us} vs same unique m) held =
    rows_of-AllHeld id until vs (
      subst (λ rows. All (IsHeld id until) rows) (sym same)
        (rows_of-IsHeld id until us (Meanwhile-AllHeld m held)))
