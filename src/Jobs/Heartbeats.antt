-- ===== src/Jobs/Heartbeats.antt =====
-- src/features/gateway/server/jobs.ts: what a statement on the lock does to the heartbeat of a
-- process.
use apipool_v.Base.{
  ℕ, ◌+◌, ◌≤◌, ◌<◌, String, Bool, true, false, Option, none, some, str_eq, eq_iff, ◌≡◌, refl, sym,
  ap, ◌∙◌, ◌⊎◌, inl, inr, arith, Bool-cases,
}
use apipool_v.Jobs.Lock.{
  JobLock, is_stale, is_held_by, can_acquire, acquire_job_lock, heartbeat_job_lock,
}
use apipool_v.Jobs.Processes.{Question, start_tick, renew, keep, run_question}

module _ (stale_ms : ℕ) where
  -- A heartbeat of `h` at `b` is still in the row, or it has been stale.
  abbrev pub Backed : String → ℕ → ℕ → JobLock → Type 0
  Backed h b now lock =
      (b ≤ now)
      × (((lock.holder_id ≡ some h) × ((t : ℕ) × (lock.heartbeat_at ≡ some t) × (b ≤ t)))
          ⊎ (b + stale_ms < now))

  pub Backed-later :
      (h : String) (b now later : ℕ) (lock : JobLock)
      → now ≤ later
      → Backed h b now lock
      → Backed h b later lock
  Backed-later h b now later lock e (low, inl held) = (omega (arith, e, low), inl held)
  Backed-later h b now later lock e (low, inr old) =
      (omega (arith, e, low), inr (omega (arith, e, old)))

  Backed-heartbeat :
      (h k : String) (b now : ℕ) (lock : JobLock)
      → Backed h b now lock
      → Backed h b now (heartbeat_job_lock k now lock).0
  unfolding heartbeat_job_lock
  Backed-heartbeat h k b now lock (low, inr old) = (low, inr old)
  Backed-heartbeat h k b now lock (low, inl (held, (t, beat, after))) =
      elim (Bool-cases (is_held_by k lock.holder_id)) [
        | inl mine ↦ rw mine (low, inl (held, (now, refl, low)))
        | inr other ↦ rw other (low, inl (held, (t, beat, after)))
      ]

  -- Someone else takes a lock only when its heartbeat is stale.
  taken_over :
      (h k : String) (now : ℕ) (lock : JobLock) (t b : ℕ)
      → lock.holder_id ≡ some h
      → lock.heartbeat_at ≡ some t
      → b ≤ t
      → can_acquire stale_ms k now lock ≡ true
      → str_eq h k ≡ false
      → b + stale_ms < now
  unfolding can_acquire
  taken_over h k now lock t b held beat after taken other =
      let stale : is_stale stale_ms now (some t) ≡ true =
        sym (rw (held, beat, other, can_acquire) refl) ∙ taken in
      ground (arith, stale, after)

  Backed-acquire :
      (h k : String) (b now : ℕ) (lock : JobLock)
      → Backed h b now lock
      → Backed h b now (acquire_job_lock stale_ms k now lock).0
  unfolding acquire_job_lock can_acquire
  Backed-acquire h k b now lock (low, inr old) = (low, inr old)
  Backed-acquire h k b now lock (low, inl (held, (t, beat, after))) =
      elim (Bool-cases (can_acquire stale_ms k now lock)) [
        | inr refused ↦ rw refused (low, inl (held, (t, beat, after)))
        | inl taken ↦ elim (Bool-cases (str_eq h k)) [
          | inl same ↦
              let e : h ≡ k = (eq_iff h k).0 same in
              rw taken (low, inl (ap some (sym e), (now, refl, low)))
          | inr other ↦
              rw taken (low, inr (taken_over h k now lock t b held beat after taken other))
        ]
      ]

  held_by : (h : String) (o : Option String) → is_held_by h o ≡ true → o ≡ some h
  held_by h none e = absurd (cc)
  held_by h (some k) e = ap some ((eq_iff k h).0 e)

  own_heartbeat :
      (h : String) (now : ℕ) (lock : JobLock)
      → (heartbeat_job_lock h now lock).1 ≡ true
      → Backed h now now (heartbeat_job_lock h now lock).0
  unfolding heartbeat_job_lock
  own_heartbeat h now lock granted = elim (Bool-cases (is_held_by h lock.holder_id)) [
    | inl mine ↦
        rw mine (omega arith, inl (held_by h lock.holder_id mine, (now, refl, omega arith)))
    | inr other ↦ absurd (ground arith)
  ]

  own_acquire :
      (h : String) (now : ℕ) (lock : JobLock)
      → (acquire_job_lock stale_ms h now lock).1 ≡ true
      → Backed h now now (acquire_job_lock stale_ms h now lock).0
  unfolding acquire_job_lock
  own_acquire h now lock granted = elim (Bool-cases (can_acquire stale_ms h now lock)) [
    | inl taken ↦ rw taken (omega arith, inl (refl, (now, refl, omega arith)))
    | inr refused ↦ absurd (ground arith)
  ]

  pub own_answer :
      (q : Question) (h : String) (owns : Bool) (now : ℕ) (lock : JobLock)
      → (run_question stale_ms q h owns now lock).1 ≡ true
      → Backed h now now (run_question stale_ms q h owns now lock).0
  unfolding run_question
  own_answer start_tick h true now lock granted = own_heartbeat h now lock granted
  own_answer start_tick h false now lock granted = own_acquire h now lock granted
  own_answer renew h owns now lock granted = own_heartbeat h now lock granted
  own_answer keep h owns now lock granted = own_heartbeat h now lock granted

  pub run_question-Backed :
      (h : String) (b now : ℕ) (q : Question) (k : String) (owns : Bool) (lock : JobLock)
      → Backed h b now lock
      → Backed h b now (run_question stale_ms q k owns now lock).0
  unfolding run_question
  run_question-Backed h b now start_tick k true lock f = Backed-heartbeat h k b now lock f
  run_question-Backed h b now start_tick k false lock f = Backed-acquire h k b now lock f
  run_question-Backed h b now renew k owns lock f = Backed-heartbeat h k b now lock f
  run_question-Backed h b now keep k owns lock f = Backed-heartbeat h k b now lock f
