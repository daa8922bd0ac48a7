-- ===== src/Tasks/Tests.antt =====
-- src/features/gateway/server/image-tasks.ts on a small table.
use apipool_v.Base.{
  ℕ, true, String, false, none, some, List, [], ◌∷◌, has, find_by, update_where, ◌≡◌, refl, arith,
}
use apipool_v.Tasks.Defs.{
  Task, TaskStatus, submitted, processing, completed, retry_task, retried, next_poll_date,
  poll_delay, is_task, is_due, lease, first_due, claim_row, claim_rows, claim_due_tasks,
}
use apipool_v.Tasks.Leases.{HasUniqueIds}
use apipool_v.Tasks.Meanwhile.{quiet, claims, retries}
use apipool_v.Tasks.Claims.{claim_due_tasks-apart}

abbrev a_task : String → TaskStatus → Task
a_task id status = record {
  id = id;
  request_ledger_id = id;
  user_id = "ann";
  status = status;
  newapi_task_id = some id;
  next_poll_at = some 50;
  poll_attempts = 0;
  last_error = none;
  lease_owner = none;
  lease_expires_at = none;
}

abbrev two_tasks : List Task
two_tasks = a_task "t1" submitted ∷ a_task "t2" completed ∷ []

-- Nobody else writes.
abbrev alone : ℕ → List Task → List Task
alone n tasks = tasks

one_claimed : (claim_due_tasks "w" alone 60 two_tasks).0 ≡ lease "w" 60 (a_task "t1" submitted) ∷ []
unfolding claim_due_tasks claim_rows claim_row first_due is_due lease find_by update_where
one_claimed = refl

claimed_after :
    (claim_due_tasks "v" alone 30060 (claim_due_tasks "w" alone 60 two_tasks).1).0
    ≡ lease "v" 30060 (lease "w" 60 (a_task "t1" submitted)) ∷ []
unfolding claim_due_tasks claim_rows claim_row first_due is_due lease find_by update_where
claimed_after = refl

two_tasks-HasUniqueIds : HasUniqueIds two_tasks
unfolding has
two_tasks-HasUniqueIds = (refl, (refl, tt))

-- Another worker tries to claim the second row before each update.
abbrev beside : ℕ → List Task → List Task
beside n tasks = (claim_row "x" 100 "t2" tasks).1

abbrev claimed_table : List Task
claimed_table = (claim_due_tasks "w" beside 60 two_tasks).1

-- The first row is retried after 3 seconds, and then somebody tries to claim it.
abbrev retried_table : List Task
retried_table = retry_task 3000 (a_task "t1" submitted) none processing claimed_table

abbrev tried_table : List Task
tried_table = (claim_row "x" 4000 "t1" retried_table).1

first_claimed : has (is_task "t1") (claim_due_tasks "w" beside 60 two_tasks).0 ≡ true
unfolding claim_due_tasks claim_rows claim_row first_due is_due lease find_by update_where has
first_claimed = refl

claim_due_tasks-apart_example :
    has (is_task "t1") (claim_due_tasks "v" beside 7999 tried_table).0 ≡ false
claim_due_tasks-apart_example =
    claim_due_tasks-apart "t1" "w" "v" beside beside 60 7999 8000 two_tasks tried_table
      two_tasks-HasUniqueIds (omega arith) (λ n ts. claims "x" "t2" 100 quiet)
      (λ n ts. claims "x" "t2" 100 quiet) first_claimed
      (claims "x" "t1" 4000
        (retries (a_task "t1" submitted) none processing 3000 (omega arith) quiet))
      (omega arith)

-- From 8 seconds on, 5 after the retry, it is claimed again.
claimed_again : has (is_task "t1") (claim_due_tasks "v" alone 8000 tried_table).0 ≡ true
unfolding claim_due_tasks claim_rows claim_row first_due is_due lease find_by update_where has
    retry_task retried next_poll_date poll_delay
claimed_again = refl
