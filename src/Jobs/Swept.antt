-- ===== src/Jobs/Swept.antt =====
-- src/features/gateway/server/backfill.ts: a run of the usage worker is a run of the life of the
-- requests, and it ends what it picks.
use apipool_v.Base.{
  ℕ, String, Bool, true, false, List, [], ◌∷◌, if◌then◌else◌, has, update_where, has-update_where,
  All, ◌≡◌, refl, sym, inl, inr, arith, Bool-cases,
}
use mathlib.Core.Path.{subst}
use apipool_v.Gateway.Requests.{Request, Store, is_live_row}
use apipool_v.Gateway.Admission.{FailurePatch, mark_failed_unbilled, fail_request}
use apipool_v.Gateway.Lifecycle.{failed, Reach, here, next}
use apipool_v.Jobs.Sweep.{
  pending_patch, stale_patch, Swept, mark_row, sweep, pending_rows, stale_rows, retire_pending,
  close_stale, run_usage_worker_once,
}

Reach-trans : {s t u : Store} → Reach s t → Reach t u → Reach s u
Reach-trans p here = p
Reach-trans p (next q e) = next (Reach-trans p q) e

either-Reach :
    {s : Store} (b : Bool) (x y : Swept)
    → Reach s x.store
    → Reach s y.store
    → Reach s (if b then x else y).store
either-Reach true x y p q = p
either-Reach false x y p q = q

module _ (keep_alive : ℕ → Bool) (clock : ℕ → ℕ) (others : ℕ → Store → Store) where
  mark_row-Reach :
      ((i : ℕ) (s : Store) → Reach s (others i s))
      → (patch : FailurePatch) (r : Request) (st : Swept)
      → Reach st.store (mark_row keep_alive clock others patch r st).store
  unfolding mark_failed_unbilled
  mark_row-Reach steps patch r st =
      next (steps st.calls st.store) (failed (clock st.calls) r.admitted.id patch)

  sweep-Reach :
      ((i : ℕ) (s : Store) → Reach s (others i s))
      → (patch : FailurePatch) (rows : List Request) (st : Swept)
      → Reach st.store (sweep keep_alive clock others patch rows st).store
  unfolding sweep
  sweep-Reach steps patch [] st = here
  sweep-Reach steps patch (r ∷ rows) st = elim (Bool-cases (keep_alive st.calls)) [
    | inl on ↦
        rw (on, sweep)
          (Reach-trans (mark_row-Reach steps patch r st)
            (sweep-Reach steps patch rows (mark_row keep_alive clock others patch r st)))
    | inr off ↦ rw (off, sweep) here
  ]

  close_stale-Reach :
      ((i : ℕ) (s : Store) → Reach s (others i s))
      → (hard_timeout_ms now : ℕ) (st : Swept)
      → Reach st.store (close_stale keep_alive clock others hard_timeout_ms now st).store
  unfolding close_stale
  close_stale-Reach steps hard_timeout_ms now st =
      either-Reach st.goes_on _ st (sweep-Reach steps stale_patch _ st) here

  -- Whatever others do in the meantime and wherever the worker loses the lock: its run is a run of
  -- the life of the requests, as long as what others do is.
  pub run_usage_worker_once-Reach :
      (hard_timeout_ms now : ℕ) (s : Store)
      → ((i : ℕ) (t : Store) → Reach t (others i t))
      → Reach s (run_usage_worker_once keep_alive clock others hard_timeout_ms now s).store
  unfolding run_usage_worker_once retire_pending
  run_usage_worker_once-Reach hard_timeout_ms now s steps =
      Reach-trans (sweep-Reach steps pending_patch _ _)
        (close_stale-Reach steps hard_timeout_ms now (retire_pending keep_alive clock others s))

  module _ (kept : (i : ℕ) → keep_alive i ≡ true)
      (quiet : (i : ℕ) (s : Store) → others i s ≡ s) where
    abbrev IsGone : String → Store → Type 0
    IsGone id s = has (is_live_row id) s.requests ≡ false

    fail-gone :
        (id j : String) (t : ℕ) (patch : FailurePatch) (rows : List Request)
        → has (is_live_row id) rows ≡ false
        → has (is_live_row id) (update_where (is_live_row j) (fail_request t patch) rows) ≡ false
    unfolding has update_where fail_request
    fail-gone id j t patch [] gone = refl
    fail-gone id j t patch (r ∷ rows) gone = ground (arith, fail-gone id j t patch rows)

    mark_row-IsGone :
        (id : String) (patch : FailurePatch) (r : Request) (st : Swept)
        → IsGone id st.store
        → IsGone id (mark_row keep_alive clock others patch r st).store
    unfolding mark_failed_unbilled
    mark_row-IsGone id patch r st gone =
        fail-gone id r.admitted.id (clock st.calls) patch (others st.calls st.store).requests
          (subst (IsGone id) (sym (quiet st.calls st.store)) gone)

    marked-IsGone :
        (patch : FailurePatch) (r : Request) (st : Swept)
        → IsGone r.admitted.id (mark_row keep_alive clock others patch r st).store
    unfolding mark_failed_unbilled fail_request
    marked-IsGone patch r st =
        has-update_where (is_live_row r.admitted.id) (fail_request (clock st.calls) patch)
          (others st.calls st.store).requests (λ y. ground arith)

    sweep-IsGone :
        (id : String) (patch : FailurePatch) (rows : List Request) (st : Swept)
        → IsGone id st.store
        → IsGone id (sweep keep_alive clock others patch rows st).store
    unfolding sweep
    sweep-IsGone id patch [] st gone = gone
    sweep-IsGone id patch (r ∷ rows) st gone =
        rw (kept st.calls, sweep)
          (sweep-IsGone id patch rows (mark_row keep_alive clock others patch r st)
            (mark_row-IsGone id patch r st gone))

    sweep_on :
        (patch : FailurePatch) (r : Request) (rows : List Request) (st : Swept)
        → sweep keep_alive clock others patch rows (mark_row keep_alive clock others patch r st)
          ≡ sweep keep_alive clock others patch (r ∷ rows) st
    unfolding sweep
    sweep_on patch r rows st = rw (kept st.calls, sweep) refl

    sweep-goes_on :
        (patch : FailurePatch) (rows : List Request) (st : Swept)
        → st.goes_on ≡ true
        → (sweep keep_alive clock others patch rows st).goes_on ≡ true
    unfolding sweep
    sweep-goes_on patch [] st on = on
    sweep-goes_on patch (r ∷ rows) st on =
        subst (λ z. z.goes_on ≡ true) (sweep_on patch r rows st)
          (sweep-goes_on patch rows (mark_row keep_alive clock others patch r st) refl)

    sweep-All :
        (patch : FailurePatch) (rows : List Request) (st : Swept)
        → All (λ r. IsGone r.admitted.id (sweep keep_alive clock others patch rows st).store) rows
    unfolding sweep
    sweep-All patch [] st = tt
    sweep-All patch (r ∷ rows) st =
        subst (λ z. All (λ x. IsGone x.admitted.id z.store) (r ∷ rows)) (sweep_on patch r rows st)
          (
            sweep-IsGone r.admitted.id patch rows (mark_row keep_alive clock others patch r st)
                (marked-IsGone patch r st),
            sweep-All patch rows (mark_row keep_alive clock others patch r st),
          )

    still-All :
        (patch : FailurePatch) (rows picked : List Request) (st : Swept)
        → All (λ r. IsGone r.admitted.id st.store) picked
        → All (λ r. IsGone r.admitted.id (sweep keep_alive clock others patch rows st).store) picked
    still-All patch rows [] st gone = tt
    still-All patch rows (r ∷ picked) st gone =
        (sweep-IsGone r.admitted.id patch rows st gone.0, still-All patch rows picked st gone.1)

    retired-goes_on : (s : Store) → (retire_pending keep_alive clock others s).goes_on ≡ true
    unfolding retire_pending
    retired-goes_on s = sweep-goes_on pending_patch (pending_rows keep_alive clock others s) _ refl

    run_is_both :
        (hard_timeout_ms now : ℕ) (s : Store)
        → sweep keep_alive clock others stale_patch
            (stale_rows keep_alive clock others hard_timeout_ms now
              (retire_pending keep_alive clock others s).store)
            (retire_pending keep_alive clock others s)
          ≡ run_usage_worker_once keep_alive clock others hard_timeout_ms now s
    unfolding run_usage_worker_once close_stale
    run_is_both hard_timeout_ms now s =
        sym (chosen (retire_pending keep_alive clock others s).goes_on _ _ (retired-goes_on s))
      where
        chosen : (b : Bool) (x y : Swept) → b ≡ true → (if b then x else y) ≡ x
        chosen true x y e = refl
        chosen false x y e = absurd (cc)

    -- A run that keeps the lock and meets no one leaves none of the rows it picks live: neither the
    -- first 20 that wait for backfill nor the first 20 that have been open for too long.
    pub run_usage_worker_once-IsGone :
        (hard_timeout_ms now : ℕ) (s : Store)
        → All
            (λ r.
              IsGone r.admitted.id
                (run_usage_worker_once keep_alive clock others hard_timeout_ms now s).store)
            (pending_rows keep_alive clock others s)
          × All
              (λ r.
                IsGone r.admitted.id
                  (run_usage_worker_once keep_alive clock others hard_timeout_ms now s).store)
              (stale_rows keep_alive clock others hard_timeout_ms now
                (retire_pending keep_alive clock others s).store)
    unfolding retire_pending
    run_usage_worker_once-IsGone hard_timeout_ms now s =
        subst
          (λ z.
            All (λ r. IsGone r.admitted.id z.store) (pending_rows keep_alive clock others s)
            × All (λ r. IsGone r.admitted.id z.store)
                (stale_rows keep_alive clock others hard_timeout_ms now
                  (retire_pending keep_alive clock others s).store))
          (run_is_both hard_timeout_ms now s)
          (still-All stale_patch _ _ _ (sweep-All pending_patch _ _), sweep-All stale_patch _ _)
