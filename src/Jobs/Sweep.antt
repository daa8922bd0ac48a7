-- ===== src/Jobs/Sweep.antt =====
-- src/features/gateway/server/backfill.ts: `runUsageWorkerOnce`, which ends the rows that nothing
-- else will end, without a charge.
use apipool_v.Base.{
  ℕ, zero, suc, ◌+◌, String, Bool, true, false, ◌&&◌, none, some, List, [], ◌∷◌, if◌then◌else◌, ltb,
}
use apipool_v.Billing.Usage.{usage_missing_waived}
use apipool_v.Gateway.Requests.{Status, pending_backfill, is_opened, Request, Store}
use apipool_v.Gateway.Admission.{FailurePatch, mark_failed_unbilled}

abbrev pub batch : ℕ
batch = 20

abbrev pub is_pending : Status → Bool
is_pending pending_backfill = true
is_pending _ = false

-- `select … where … limit 20`
unfoldable pub first_rows : ℕ → (Request → Bool) → List Request → List Request
first_rows zero p rows = []
first_rows (suc n) p [] = []
first_rows (suc n) p (r ∷ rows) = if p r then r ∷ first_rows n p rows else first_rows (suc n) p rows

abbrev pub reason_only : String → FailurePatch
reason_only code = record {
  http_status = none;
  error_code = some code;
  stream_aborted = none;
  billing_scheme = none;
  billing_flags = [];
  raw_usage = none;
  usage_source = none;
}

abbrev pub pending_patch : FailurePatch
pending_patch = record (reason_only "legacy_pending_retired") {
  billing_flags = usage_missing_waived ∷ [];
}

abbrev pub stale_patch : FailurePatch
stale_patch = reason_only "open_timeout"

-- The store, the rows swept, the calls made, and whether the lock was still there at every one.
pub record Swept : Type 0 where
  pub store : Store
  pub swept : ℕ
  pub calls : ℕ
  pub goes_on : Bool

-- The answers of `keepAlive`, the clock, and what others write while a call waits, by the number of
-- the call.
module _ (keep_alive : ℕ → Bool) (clock : ℕ → ℕ) (others : ℕ → Store → Store) where
  abbrev pub mark_row : FailurePatch → Request → Swept → Swept
  mark_row patch r st =
      counted (mark_failed_unbilled (clock st.calls) r.admitted.id patch (others st.calls st.store))
    where
      counted : Bool × Store → Swept
      counted (hit, s) = record {
        store = s;
        swept = if hit then st.swept + 1 else st.swept;
        calls = suc st.calls;
        goes_on = true;
      }

  unfoldable pub sweep : FailurePatch → List Request → Swept → Swept
  unfolding mark_failed_unbilled
  sweep patch [] st = st
  sweep patch (r ∷ rows) st = elim (keep_alive st.calls) [
    | true ↦ sweep patch rows (mark_row patch r st)
    | false ↦ record st { goes_on = false }
  ]

  -- The cutoff is the hard timeout and ten minutes ago.
  abbrev pub is_stale_open : ℕ → ℕ → Request → Bool
  is_stale_open hard_timeout_ms now r =
      is_opened r.status && ltb (r.created_at + hard_timeout_ms + 600000) now

  abbrev pub pending_rows : Store → List Request
  pending_rows s = first_rows batch (λ r. is_pending r.status) s.requests

  abbrev pub stale_rows : ℕ → ℕ → Store → List Request
  stale_rows hard_timeout_ms now s = first_rows batch (is_stale_open hard_timeout_ms now) s.requests

  -- The first loop, and the second where it has not lost the lock.
  unfoldable pub retire_pending : Store → Swept
  unfolding sweep first_rows
  retire_pending s =
      sweep pending_patch (pending_rows s)
        (record { store = s; swept = 0; calls = 0; goes_on = true })

  unfoldable pub close_stale : ℕ → ℕ → Swept → Swept
  unfolding sweep first_rows
  close_stale hard_timeout_ms now st =
      if st.goes_on then sweep stale_patch (stale_rows hard_timeout_ms now st.store) st else st

  unfoldable pub run_usage_worker_once : ℕ → ℕ → Store → Swept
  unfolding retire_pending close_stale
  run_usage_worker_once hard_timeout_ms now s = close_stale hard_timeout_ms now (retire_pending s)
