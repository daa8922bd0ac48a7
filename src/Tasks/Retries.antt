-- ===== src/Tasks/Retries.antt =====
-- src/features/gateway/server/image-tasks.ts: a task that is retried is put off.
use apipool_v.Base.{
  ℕ, zero, suc, ◌+◌, ◌≤◌, ◌<◌, String, false, Option, some, List, [], ◌∷◌, update_where, has, ◌≡◌,
  refl, ◌∙◌, inl, inr, arith, Bool-cases,
}
use apipool_v.Tasks.Defs.{
  Task, TaskStatus, submission_unknown, submitted, processing, meter_pending, completed,
  task_failed, is_due, is_reached, is_task, is_live_task, poll_delay, next_poll_date, retried,
  retry_task,
}
use apipool_v.Tasks.Leases.{HasUniqueIds, AllHeld}

-- The first retry waits 5 seconds, and no later one waits less.
abbrev pub least_delay_ms : ℕ
least_delay_ms = 5000

poll_delay-least : (n : ℕ) → 0 < n → least_delay_ms ≤ poll_delay n
unfolding poll_delay
poll_delay-least zero h = elim h [ ]
poll_delay-least (suc zero) h = omega arith
poll_delay-least (suc (suc zero)) h = omega arith
poll_delay-least (suc (suc (suc zero))) h = omega arith
poll_delay-least (suc (suc (suc (suc n)))) h = omega arith

next_poll_date-least :
    (now n : ℕ) (status : TaskStatus) → now + least_delay_ms ≤ next_poll_date now (n + 1) status
unfolding next_poll_date
next_poll_date-least now n meter_pending = omega arith
next_poll_date-least now n submission_unknown =
    omega (arith, poll_delay-least (n + 1) (omega arith))
next_poll_date-least now n submitted = omega (arith, poll_delay-least (n + 1) (omega arith))
next_poll_date-least now n processing = omega (arith, poll_delay-least (n + 1) (omega arith))
next_poll_date-least now n completed = omega (arith, poll_delay-least (n + 1) (omega arith))
next_poll_date-least now n task_failed = omega (arith, poll_delay-least (n + 1) (omega arith))

module _ (at : ℕ) (task : Task) (error : Option String) (status : TaskStatus) where
  retried_not_due :
      (now until : ℕ) (t : Task)
      → until ≤ at + least_delay_ms
      → now < until
      → is_due now (retried at (task.poll_attempts + 1) error status t) ≡ false
  unfolding is_due retried
  retried_not_due now until t late soon =
      let p = next_poll_date at (task.poll_attempts + 1) status in
      let far : now < p =
        omega (arith, next_poll_date-least at task.poll_attempts status, late, soon) in
      let waits : is_reached now (some p) ≡ false = ground (arith, far) in ground (arith, waits)

  pub retry_task-AllHeld :
      (id : String) (until : ℕ) (tasks : List Task)
      → until ≤ at + least_delay_ms
      → AllHeld id until tasks
      → AllHeld id until (retry_task at task error status tasks)
  unfolding retry_task update_where
  retry_task-AllHeld id until [] late held = tt
  retry_task-AllHeld id until (t ∷ tasks) late held = elim (Bool-cases (is_live_task task.id t)) [
    | inl hit ↦ rw hit (
      λ same now soon. retried_not_due now until t late soon,
      retry_task-AllHeld id until tasks late held.1,
    )
    | inr miss ↦ rw miss (held.0, retry_task-AllHeld id until tasks late held.1)
  ]

  has-retry_task :
      (i : String) (tasks : List Task)
      → has (is_task i) (retry_task at task error status tasks) ≡ has (is_task i) tasks
  unfolding retry_task has update_where retried
  has-retry_task i [] = refl
  has-retry_task i (t ∷ tasks) = ground (arith, has-retry_task i tasks)

  pub retry_task-HasUniqueIds :
      (tasks : List Task)
      → HasUniqueIds tasks
      → HasUniqueIds (retry_task at task error status tasks)
  unfolding retry_task has update_where retried
  retry_task-HasUniqueIds [] unique = tt
  retry_task-HasUniqueIds (t ∷ tasks) unique = elim (Bool-cases (is_live_task task.id t)) [
    | inl hit ↦
        rw hit (has-retry_task t.id tasks ∙ unique.0, retry_task-HasUniqueIds tasks unique.1)
    | inr miss ↦
        rw miss (has-retry_task t.id tasks ∙ unique.0, retry_task-HasUniqueIds tasks unique.1)
  ]
