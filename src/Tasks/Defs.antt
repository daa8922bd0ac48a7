-- ===== src/Tasks/Defs.antt =====
-- src/features/gateway/server/image-tasks.ts: the rows of `gateway_task` and `claimDueTasks`.
use apipool_v.Base.{
  ℕ, zero, suc, ◌+◌, String, Bool, true, false, ◌&&◌, Option, none, some, List, [], ◌∷◌, ◌++◌,
  if◌then◌else◌, str_eq, leb, find_by, update_where,
}

pub data TaskStatus : Type 0 where
  submission_unknown submitted processing meter_pending completed task_failed : TaskStatus

-- A row; the provider's id, the cached result and the timestamps are left out.
pub record Task : Type 0 where
  pub id : String
  pub request_ledger_id : String
  pub user_id : String
  pub status : TaskStatus
  pub newapi_task_id : Option String
  pub next_poll_at : Option ℕ
  pub poll_attempts : ℕ
  pub last_error : Option String
  pub lease_owner : Option String
  pub lease_expires_at : Option ℕ

abbrev pub task_lease_ms : ℕ
task_lease_ms = 30000

abbrev pub task_batch_size : ℕ
task_batch_size = 10

-- `ACTIVE_STATUSES`
abbrev pub is_active_task : TaskStatus → Bool
is_active_task submitted = true
is_active_task processing = true
is_active_task meter_pending = true
is_active_task _ = false

-- `IS NULL OR <= now`
abbrev pub is_reached : ℕ → Option ℕ → Bool
is_reached now none = true
is_reached now (some t) = leb t now

unfoldable pub is_due : ℕ → Task → Bool
is_due now t =
    is_active_task t.status && is_reached now t.next_poll_at && is_reached now t.lease_expires_at

abbrev pub is_task : String → Task → Bool
is_task id t = str_eq t.id id

abbrev pub is_claimable : String → ℕ → Task → Bool
is_claimable id now t = is_task id t && is_due now t

unfoldable pub lease : String → ℕ → Task → Task
lease holder now t = record t {
  lease_owner = some holder;
  lease_expires_at = some (now + task_lease_ms);
}

-- The candidates.
unfoldable pub first_due : ℕ → ℕ → List Task → List Task
unfolding is_due
first_due zero now tasks = []
first_due (suc n) now [] = []
first_due (suc n) now (t ∷ tasks) =
    if is_due now t then t ∷ first_due n now tasks else first_due (suc n) now tasks

abbrev pub leased_row : String → ℕ → Option Task → Option Task
leased_row holder now none = none
leased_row holder now (some t) = some (lease holder now t)

-- The guarded update of one candidate, with the row it returns.
unfoldable pub claim_row : String → ℕ → String → List Task → Option Task × List Task
unfolding is_due lease
claim_row holder now id tasks = (
  leased_row holder now (find_by (is_claimable id now) tasks),
  update_where (is_claimable id now) (lease holder now) tasks,
)

abbrev pub with_claimed : Option Task → List Task → List Task
with_claimed none claimed = claimed
with_claimed (some t) claimed = claimed ++ t ∷ []

-- The loop over the candidates. Between its statements others write to the table: before the
-- update of candidate number `n`, what stands in it is `others n` of what stood there.
unfoldable pub claim_rows :
    String
    → (ℕ → List Task → List Task)
    → ℕ
    → ℕ
    → List Task
    → List Task
    → List Task
    → List Task × List Task
unfolding claim_row
claim_rows holder others n now [] claimed tasks = (claimed, tasks)
claim_rows holder others n now (c ∷ candidates) claimed tasks =
    let (row, updated) = claim_row holder now c.id (others n tasks) in
    claim_rows holder others (suc n) now candidates (with_claimed row claimed) updated

-- `claimDueTasks`: what was claimed, and the table.
unfoldable pub claim_due_tasks :
    String → (ℕ → List Task → List Task) → ℕ → List Task → List Task × List Task
unfolding claim_rows first_due
claim_due_tasks holder others now tasks =
    claim_rows holder others 0 now (first_due task_batch_size now tasks) [] tasks

-- `delays[Math.min(attempt, delays.length - 1)]`
unfoldable pub poll_delay : ℕ → ℕ
poll_delay zero = 2000
poll_delay (suc zero) = 5000
poll_delay (suc (suc zero)) = 10000
poll_delay (suc (suc (suc zero))) = 30000
poll_delay (suc (suc (suc (suc n)))) = 60000

-- `nextPollDate`
unfoldable pub next_poll_date : ℕ → ℕ → TaskStatus → ℕ
unfolding poll_delay
next_poll_date now attempt meter_pending = now + 300000
next_poll_date now attempt _ = now + poll_delay attempt

unfoldable pub retried : ℕ → ℕ → Option String → TaskStatus → Task → Task
unfolding next_poll_date
retried now attempt error status t = record t {
  status = status;
  poll_attempts = attempt;
  next_poll_at = some (next_poll_date now attempt status);
  last_error = error;
  lease_owner = none;
  lease_expires_at = none;
}

abbrev pub is_live_task : String → Task → Bool
is_live_task id t = is_task id t && is_active_task t.status

-- `retryTask`, for the row as it was claimed.
unfoldable pub retry_task : ℕ → Task → Option String → TaskStatus → List Task → List Task
unfolding retried
retry_task now task error status tasks =
    update_where (is_live_task task.id) (retried now (task.poll_attempts + 1) error status) tasks
