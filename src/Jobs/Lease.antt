-- ===== src/Jobs/Lease.antt =====
-- src/features/gateway/server/jobs.ts: who holds the lock while several processes run.
use apipool_v.Base.{
  ℕ, ◌+◌, ◌-◌, ◌≤◌, ◌<◌, String, Bool, true, false, ◌&&◌, Option, none, some, str_eq, eq_iff, ◌≡◌,
  refl, sym, ◌∙◌, inl, inr, arith, Bool-cases,
}
use mathlib.Core.Path.{subst}
use apipool_v.Jobs.Lock.{JobLock, Controller, set_has_lock, renewed, is_throttled}
use apipool_v.Jobs.Processes.{
  Question, start_tick, renew, keep, Asked, World, run_question, before_answer, after_answer,
  is_idle, ask, answer, give_up, Step, pass, asks, answers, fails, Reach, here, next, IsStart,
  goes_on,
}
use apipool_v.Jobs.Heartbeats.{Backed, Backed-later, own_answer, run_question-Backed}

module _ (stale_ms throttle_ms patience : ℕ) where
  abbrev IsFine : String → ℕ → JobLock → Controller → Option Asked → Type 0
  IsFine h now lock c none =
      c.owns_lock ≡ true → (b : ℕ) × (c.last_beat_at ≤ b + patience) × Backed stale_ms h b now lock
  IsFine h now lock c (some a) =
      (a.granted ≡ true → Backed stale_ms h a.asked_at now lock)
      × (a.question ≡ keep → c.last_beat_at ≡ a.asked_at)

  abbrev IsLeased : World → Type 0
  IsLeased w = (h : String) → IsFine h w.now w.lock (w.process h).controller (w.process h).waiting

  -- A change of time and lock that keeps heartbeats keeps a process fine.
  IsFine-later :
      (h : String) (now now' : ℕ) (lock lock' : JobLock) (c : Controller) (o : Option Asked)
      → ((b : ℕ) → Backed stale_ms h b now lock → Backed stale_ms h b now' lock')
      → IsFine h now lock c o
      → IsFine h now' lock' c o
  IsFine-later h now now' lock lock' c none keeps f =
      λ owns. let (b, low, backed) = f owns in (b, low, keeps b backed)
  IsFine-later h now now' lock lock' c (some a) keeps f = (λ g. keeps a.asked_at (f.0 g), f.1)

  ask-IsFine :
      (q : Question) (h : String) (now : ℕ) (c : Controller) (lock : JobLock)
      → IsFine h now (run_question stale_ms q h c.owns_lock now lock).0 (before_answer q now c) (
          some (record {
            question = q;
            asked_at = now;
            granted = (run_question stale_ms q h c.owns_lock now lock).1;
          }))
  unfolding before_answer
  ask-IsFine q h now c lock = (own_answer stale_ms q h c.owns_lock now lock, noted q)
    where
      noted : (q : Question) → q ≡ keep → (before_answer q now c).last_beat_at ≡ now
      noted keep e = refl
      noted start_tick e = absurd (cc)
      noted renew e = absurd (cc)

  abbrev asked : Question → ℕ → Bool → Asked
  asked q since granted = record { question = q; asked_at = since; granted = granted }

  answered-IsFine :
      (q : Question) (since : ℕ) (granted : Bool) (h : String) (now : ℕ) (c : Controller)
      (lock : JobLock)
      → now ≤ since + patience
      → IsFine h now lock c (some (asked q since granted))
      → IsFine h now lock (after_answer (asked q since granted) now c) none
  unfolding after_answer set_has_lock renewed
  answered-IsFine start_tick since true h now c lock soon f = λ owns. (since, soon, f.0 refl)
  answered-IsFine start_tick since false h now c lock soon f = λ owns. absurd (cc)
  answered-IsFine renew since true h now c lock soon f = λ owns. (since, soon, f.0 refl)
  answered-IsFine renew since false h now c lock soon f = λ owns. absurd (cc)
  answered-IsFine keep since granted h now c lock soon f =
      λ owns. (since, omega (arith, f.1 refl), f.0 owns)

  answer-IsFine :
      (a : Asked) (h : String) (now : ℕ) (c : Controller) (lock : JobLock)
      → now ≤ a.asked_at + patience
      → IsFine h now lock c (some a)
      → IsFine h now lock (after_answer a now c) none
  answer-IsFine a h now c lock soon f =
      answered-IsFine a.question a.asked_at a.granted h now c lock soon f

  Step-IsLeased : {w v : World} → Step stale_ms throttle_ms patience w v → IsLeased w → IsLeased v
  unfolding ask answer give_up set_has_lock
  Step-IsLeased {w} (pass later e) f = λ h.
      IsFine-later h w.now later w.lock w.lock (w.process h).controller (w.process h).waiting
        (λ b. Backed-later stale_ms h b w.now later w.lock e) (f h)
  Step-IsLeased {w} (asks q k idle may) f = λ h. elim (Bool-cases (str_eq h k)) [
    | inl same ↦ rw same (
        subst
          (λ x.
            IsFine x w.now (ask stale_ms throttle_ms patience q k w).lock
              (before_answer q w.now (w.process k).controller)
              (some (
                asked q w.now
                  (run_question stale_ms q k (w.process k).controller.owns_lock w.now w.lock).1)))
          (sym ((eq_iff h k).0 same)) (ask-IsFine q k w.now (w.process k).controller w.lock))
    | inr other ↦ rw other (
        IsFine-later h w.now w.now w.lock (ask stale_ms throttle_ms patience q k w).lock
          (w.process h).controller (w.process h).waiting
          (λ b.
            run_question-Backed stale_ms h b w.now q k (w.process k).controller.owns_lock w.lock)
          (f h))
  ]
  Step-IsLeased {w} (answers a k waits soon) f = λ h. elim (Bool-cases (str_eq h k)) [
    | inl same ↦ rw same (
        subst (λ x. IsFine x w.now w.lock (after_answer a w.now (w.process k).controller) none)
          (sym ((eq_iff h k).0 same))
          (answer-IsFine a k w.now (w.process k).controller w.lock soon
            (subst (λ o. IsFine k w.now w.lock (w.process k).controller o) waits (f k))))
    | inr other ↦ rw other (f h)
  ]
  Step-IsLeased {w} (fails k) f = λ h. elim (Bool-cases (str_eq h k)) [
    | inl same ↦ rw same (λ owns. absurd (cc))
    | inr other ↦ rw other (f h)
  ]

  IsStart-IsLeased : (w : World) → IsStart stale_ms throttle_ms patience w → IsLeased w
  IsStart-IsLeased w start h = let (off, idle) = start h in rw idle (λ owns. absurd (ground arith))

  Reach-IsLeased : {w v : World} → Reach stale_ms throttle_ms patience w v → IsLeased w → IsLeased v
  Reach-IsLeased here f = f
  Reach-IsLeased (next r s) f = Step-IsLeased s (Reach-IsLeased r f)

  throttled-holder :
      (h : String) (now : ℕ) (lock : JobLock) (c : Controller) (o : Option Asked)
      → throttle_ms + patience ≤ stale_ms
      → IsFine h now lock c o
      → (is_idle o && is_throttled throttle_ms now c) ≡ true
      → lock.holder_id ≡ some h
  unfolding is_throttled
  throttled-holder h now lock c (some a) slack f on = absurd (cc)
  throttled-holder h now lock c none slack f on =
      let owns : c.owns_lock ≡ true = ground arith in
      let recent : now - c.last_beat_at < throttle_ms = ground arith in
      let (b, low, backed) = f owns in
      elim backed.1 [
        | inl (held, t) ↦ held
        | inr old ↦ absurd (omega (arith, recent, low, old, slack))
      ]

  -- A process that goes on still stands in the row.
  goes_on-holder :
      (w : World) (h : String)
      → throttle_ms + patience ≤ stale_ms
      → IsLeased w
      → goes_on stale_ms throttle_ms patience w h ≡ true
      → w.lock.holder_id ≡ some h
  goes_on-holder w h slack f on =
      throttled-holder h w.now w.lock (w.process h).controller (w.process h).waiting slack (f h) on

  -- In every run in which an answer takes at most `patience`, two processes that go on with their
  -- work without asking are the same, where throttle and patience fit into the time after which a
  -- heartbeat is stale.
  pub Reach-goes_on :
      (w v : World) (h k : String)
      → throttle_ms + patience ≤ stale_ms
      → IsStart stale_ms throttle_ms patience w
      → Reach stale_ms throttle_ms patience w v
      → goes_on stale_ms throttle_ms patience v h ≡ true
      → goes_on stale_ms throttle_ms patience v k ≡ true
      → h ≡ k
  Reach-goes_on w v h k slack start r on on' =
      let f : IsLeased v = Reach-IsLeased r (IsStart-IsLeased w start) in
      let same : Path (Option String) (some h) (some k) =
        sym (goes_on-holder v h slack f on) ∙ goes_on-holder v k slack f on' in
      ground arith
