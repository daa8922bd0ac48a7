-- ===== src/Jobs/Tests.antt =====
-- src/features/gateway/server/jobs.ts and backfill.ts on small worlds.
use apipool_v.Base.{
  inl, ℕ, String, Bool, true, false, none, some, [], ◌∷◌, All, has, update_where, ◌≡◌, refl, arith,
}
use apipool_v.Gateway.Endpoints.{chat_completions}
use apipool_v.Gateway.Requests.{AdmissionInput, Store, pending_backfill, is_live_row}
use apipool_v.Gateway.Admission.{new_request, mark_failed_unbilled, fail_request}
use apipool_v.Jobs.Lock.{
  default_stale_ms, keepalive_throttle_ms, can_acquire, acquire_job_lock, set_has_lock,
  is_throttled,
}
use apipool_v.Jobs.Processes.{
  start_tick, Asked, World, ask, answer, run_question, after_answer, Reach, here, next, asks,
  answers, goes_on,
}
use apipool_v.Jobs.Lease.{Reach-goes_on}
use apipool_v.Jobs.Recovery.{takes_over}
use apipool_v.Jobs.Sweep.{
  run_usage_worker_once, pending_rows, stale_rows, retire_pending, first_rows, sweep,
}
use apipool_v.Jobs.Swept.{run_usage_worker_once-IsGone}

abbrev patience_ms : ℕ
patience_ms = 60000

abbrev morning : World
morning = record {
  now = 100;
  lock = record { holder_id = none; heartbeat_at = none; acquired_at = none };
  process =
      λ h. record { controller = record { owns_lock = false; last_beat_at = 0 }; waiting = none };
}

abbrev first_answer : Asked
first_answer = record { question = start_tick; asked_at = 100; granted = true }

abbrev taken : World
taken =
    answer default_stale_ms keepalive_throttle_ms patience_ms first_answer "a"
      (ask default_stale_ms keepalive_throttle_ms patience_ms start_tick "a" morning)

morning_taken : Reach default_stale_ms keepalive_throttle_ms patience_ms morning taken
unfolding ask answer run_question acquire_job_lock can_acquire
morning_taken =
    next (next here (asks start_tick "a" refl refl)) (answers first_answer "a" refl (omega arith))

a_goes_on : goes_on default_stale_ms keepalive_throttle_ms patience_ms taken "a" ≡ true
unfolding ask answer after_answer set_has_lock is_throttled
a_goes_on = refl

Reach-goes_on_example : Path String "a" "a"
Reach-goes_on_example =
    Reach-goes_on default_stale_ms keepalive_throttle_ms patience_ms morning taken "a" "a"
      (omega arith) (λ h. (refl, refl)) morning_taken a_goes_on a_goes_on

takes_over_example :
    (u : World) × Reach default_stale_ms keepalive_throttle_ms patience_ms taken u
    × (u.now ≡ 300101)
    × (u.lock.holder_id ≡ some "b")
    × (goes_on default_stale_ms keepalive_throttle_ms patience_ms u "b" ≡ true)
    × ((k : String)
        → goes_on default_stale_ms keepalive_throttle_ms patience_ms u k ≡ true
        → k ≡ "b")
unfolding ask answer
takes_over_example =
    takes_over default_stale_ms keepalive_throttle_ms patience_ms morning taken "b" (omega arith)
      (omega arith) (λ h. (refl, refl)) (inl refl) morning_taken refl refl

abbrev call : AdmissionInput
call = record {
  id = "r1";
  user_id = "u";
  portal_key_id = "key";
  portal_group_id = "group";
  portal_model_id = "model";
  newapi_group = "g";
  newapi_model_id = "m";
  credential_id = "c";
  route_version = 1;
  price_version_id = "p";
  endpoint = chat_completions;
  is_stream = false;
  sku_key = none;
}

-- A row that waits for backfill, and one that is still open.
abbrev left_over : Store
left_over = record {
  wallet = record { accounts = []; ledger = []; audit = [] };
  requests =
      record (new_request 3 call) { status = pending_backfill }
      ∷ new_request 5 (record call { id = "r2" })
      ∷ [];
  prices = [];
}

abbrev always : ℕ → Bool
always i = true

abbrev no_one : ℕ → Store → Store
no_one i s = s

abbrev a_clock : ℕ → ℕ
a_clock i = 5000000

both_swept : (run_usage_worker_once always a_clock no_one 3600000 5000000 left_over).swept ≡ 2
unfolding run_usage_worker_once sweep first_rows mark_failed_unbilled new_request fail_request has
    update_where
both_swept = refl

run_usage_worker_once-IsGone_example :
    All
      (λ r.
        has
          (is_live_row r.admitted.id)
          (run_usage_worker_once always a_clock no_one 3600000 5000000 left_over).store.requests
        ≡ false)
      (pending_rows always a_clock no_one left_over)
    × All
        (λ r.
          has
            (is_live_row r.admitted.id)
            (run_usage_worker_once always a_clock no_one 3600000 5000000 left_over).store.requests
          ≡ false)
        (stale_rows always a_clock no_one 3600000 5000000
          (retire_pending always a_clock no_one left_over).store)
run_usage_worker_once-IsGone_example =
    run_usage_worker_once-IsGone always a_clock no_one (λ i. refl) (λ i s. refl) 3600000 5000000
      left_over
