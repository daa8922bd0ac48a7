-- ===== src/Jobs/Recovery.antt =====
-- src/features/gateway/server/jobs.ts: a lock whose holder is gone is taken over.
use apipool_v.Base.{
  ℕ, ◌+◌, ◌-◌, ◌≤◌, ◌<◌, String, Bool, true, false, none, some, str_eq, ltb, eq_refl, ◌≡◌, refl,
  ◌⊎◌, inl, inr, arith, Bool-cases,
}
use apipool_v.Jobs.Lock.{
  JobLock, is_held_by, can_acquire, acquire_job_lock, heartbeat_job_lock, set_has_lock,
  is_throttled,
}
use apipool_v.Jobs.Processes.{
  Question, start_tick, renew, keep, Asked, World, run_question, after_answer, ask, answer, give_up,
  Step, pass, asks, answers, fails, Reach, here, next, IsStart, goes_on,
}
use apipool_v.Jobs.Lease.{Reach-goes_on}

-- A lock that is held has a heartbeat, and it lies in the past.
abbrev pub Beats : ℕ → JobLock → Type 0
Beats now lock = (lock.holder_id ≡ none) ⊎ ((t : ℕ) × (lock.heartbeat_at ≡ some t) × (t ≤ now))

Beats-heartbeat :
    (h : String) (now : ℕ) (lock : JobLock)
    → Beats now lock
    → Beats now (heartbeat_job_lock h now lock).0
unfolding heartbeat_job_lock
Beats-heartbeat h now lock b = elim (Bool-cases (is_held_by h lock.holder_id)) [
  | inl mine ↦ rw mine (inr (now, refl, omega arith))
  | inr other ↦ rw other b
]

module _ (stale_ms throttle_ms patience : ℕ) where
  Beats-acquire :
      (h : String) (now : ℕ) (lock : JobLock)
      → Beats now lock
      → Beats now (acquire_job_lock stale_ms h now lock).0
  unfolding acquire_job_lock
  Beats-acquire h now lock b = elim (Bool-cases (can_acquire stale_ms h now lock)) [
    | inl taken ↦ rw taken (inr (now, refl, omega arith))
    | inr refused ↦ rw refused b
  ]

  run_question-Beats :
      (q : Question) (h : String) (owns : Bool) (now : ℕ) (lock : JobLock)
      → Beats now lock
      → Beats now (run_question stale_ms q h owns now lock).0
  unfolding run_question
  run_question-Beats start_tick h true now lock b = Beats-heartbeat h now lock b
  run_question-Beats start_tick h false now lock b = Beats-acquire h now lock b
  run_question-Beats renew h owns now lock b = Beats-heartbeat h now lock b
  run_question-Beats keep h owns now lock b = Beats-heartbeat h now lock b

  Beats-later : (now later : ℕ) (lock : JobLock) → now ≤ later → Beats now lock → Beats later lock
  Beats-later now later lock e (inl free) = inl free
  Beats-later now later lock e (inr (t, beat, past)) = inr (t, beat, omega (arith, e, past))

  Step-Beats :
      {w v : World}
      → Step stale_ms throttle_ms patience w v
      → Beats w.now w.lock
      → Beats v.now v.lock
  unfolding ask answer give_up
  Step-Beats {w} (pass later e) b = Beats-later w.now later w.lock e b
  Step-Beats {w} (asks q h idle may) b =
      run_question-Beats q h (w.process h).controller.owns_lock w.now w.lock b
  Step-Beats (answers a h waits soon) b = b
  Step-Beats (fails h) b = b

  Reach-Beats :
      {w v : World}
      → Reach stale_ms throttle_ms patience w v
      → Beats w.now w.lock
      → Beats v.now v.lock
  Reach-Beats here b = b
  Reach-Beats (next r s) b = Step-Beats s (Reach-Beats r b)

  -- Just past the time after which a heartbeat is stale, everybody may acquire the lock.
  overdue :
      (h : String) (now : ℕ) (lock : JobLock)
      → Beats now lock
      → can_acquire stale_ms h (now + stale_ms + 1) lock ≡ true
  unfolding can_acquire
  overdue h now lock (inl free) = rw free refl
  overdue h now lock (inr (t, beat, past)) =
      let late : ltb (t + stale_ms) (now + stale_ms + 1) ≡ true = ground (arith, past) in
      rw beat (ground (arith, late))

  -- At any point of a run, a process that does not think it has the lock and waits for nothing can
  -- take it over, whoever holds it: there is a continuation, in which the time grows by one
  -- millisecond more than makes a heartbeat stale, after which this process stands in the row and
  -- goes on with its work, and no other process does. The run starts with a lock that is free or has
  -- a heartbeat in the past; throttle and patience fit into the stale time.
  pub takes_over :
      (w v : World) (h : String)
      → 0 < throttle_ms
      → throttle_ms + patience ≤ stale_ms
      → IsStart stale_ms throttle_ms patience w
      → Beats w.now w.lock
      → Reach stale_ms throttle_ms patience w v
      → (v.process h).controller.owns_lock ≡ false
      → (v.process h).waiting ≡ none
      → (u : World) × Reach stale_ms throttle_ms patience v u
        × (u.now ≡ v.now + stale_ms + 1)
        × (u.lock.holder_id ≡ some h)
        × (goes_on stale_ms throttle_ms patience u h ≡ true)
        × ((k : String) → goes_on stale_ms throttle_ms patience u k ≡ true → k ≡ h)
  unfolding ask answer run_question acquire_job_lock after_answer set_has_lock is_throttled
  takes_over w v h positive slack start beats r off idle =
      let later = v.now + stale_ms + 1 in
      let free = overdue h v.now v.lock (Reach-Beats r beats) in
      let late : World = record v { now = later } in
      let a : Asked = record { question = start_tick; asked_at = later; granted = true } in
      let self : str_eq h h ≡ true = eq_refl h in
      let fresh : ltb (later - later) throttle_ms ≡ true = ground arith in
      let waited : Step stale_ms throttle_ms patience v late = pass later (omega arith) in
      let asking : Step stale_ms throttle_ms patience late
          (ask stale_ms throttle_ms patience start_tick h late) =
        asks start_tick h idle refl in
      let done : Step stale_ms throttle_ms patience
          (ask stale_ms throttle_ms patience start_tick h late)
          (answer stale_ms throttle_ms patience a h
            (ask stale_ms throttle_ms patience start_tick h late)) =
        answers a h (rw (self, off, free) refl) (omega arith) in
      let on : goes_on stale_ms throttle_ms patience
            (answer stale_ms throttle_ms patience a h
              (ask stale_ms throttle_ms patience start_tick h late))
            h
          ≡ true =
        rw (self, fresh) refl in
      (
        answer stale_ms throttle_ms patience a h
            (ask stale_ms throttle_ms patience start_tick h late),
        next (next (next here waited) asking) done,
        refl,
        rw (off, free) refl,
        on,
        λ k other.
            Reach-goes_on stale_ms throttle_ms patience w _ k h slack start
              (next (next (next r waited) asking) done) other on,
      )
