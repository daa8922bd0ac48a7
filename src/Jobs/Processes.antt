-- ===== src/Jobs/Processes.antt =====
-- src/features/gateway/server/jobs.ts: several processes that share the lock. A process waits for
-- each answer of the database; meanwhile time passes and others act.
use apipool_v.Base.{
  ℕ, ◌+◌, ◌≤◌, String, Bool, true, false, ◌&&◌, Option, none, some, if◌then◌else◌, str_eq, ◌≡◌,
}
use apipool_v.Jobs.Lock.{
  JobLock, acquire_job_lock, heartbeat_job_lock, Controller, set_has_lock, renewed, is_throttled,
  must_ask,
}

-- What a process may ask: the start of `tick`, `renewNow`, and `keepAlive` past its throttle.
pub data Question : Type 0 where
  start_tick renew keep : Question

pub record Asked : Type 0 where
  pub question : Question
  pub asked_at : ℕ
  pub granted : Bool

pub record Process : Type 0 where
  pub controller : Controller
  pub waiting : Option Asked

pub record World : Type 0 where
  pub now : ℕ
  pub lock : JobLock
  pub process : String → Process

abbrev pub set_process : String → Process → (String → Process) → String → Process
set_process h p processes x = if str_eq x h then p else processes x

-- The statement that the database runs, by the controller before it.
unfoldable pub run_question : ℕ → Question → String → Bool → ℕ → JobLock → JobLock × Bool
unfolding acquire_job_lock heartbeat_job_lock
run_question stale_ms start_tick h owns now lock =
    if owns then heartbeat_job_lock h now lock else acquire_job_lock stale_ms h now lock
run_question stale_ms renew h owns now lock = heartbeat_job_lock h now lock
run_question stale_ms keep h owns now lock = heartbeat_job_lock h now lock

-- `keepAlive` notes the time before it asks.
unfoldable pub before_answer : Question → ℕ → Controller → Controller
before_answer keep now c = record c { last_beat_at = now }
before_answer q now c = c

unfoldable pub after_answer : Asked → ℕ → Controller → Controller
unfolding set_has_lock renewed
after_answer a now c = by_question a.question
  where
    by_question : Question → Controller
    by_question start_tick = set_has_lock a.granted now c
    by_question renew = renewed a.granted now c
    by_question keep = record c { owns_lock = a.granted }

abbrev pub is_idle : Option Asked → Bool
is_idle none = true
is_idle (some a) = false

abbrev pub may_ask : ℕ → Question → ℕ → Controller → Bool
may_ask throttle_ms keep now c = must_ask throttle_ms now c
may_ask throttle_ms q now c = true

module _ (stale_ms throttle_ms patience : ℕ) where
  unfoldable pub ask : Question → String → World → World
  unfolding run_question before_answer
  ask q h w = record w {
    lock = (run_question stale_ms q h (w.process h).controller.owns_lock w.now w.lock).0;
    process =
        set_process h
          (record {
            controller = before_answer q w.now (w.process h).controller;
            waiting = some (record {
              question = q;
              asked_at = w.now;
              granted =
                  (run_question stale_ms q h (w.process h).controller.owns_lock w.now w.lock).1;
            });
          })
          w.process;
  }

  unfoldable pub answer : Asked → String → World → World
  unfolding after_answer
  answer a h w = record w {
    process =
        set_process h
          (record { controller = after_answer a w.now (w.process h).controller; waiting = none })
          w.process;
  }

  -- A tick that throws gives the lock up.
  unfoldable pub give_up : String → World → World
  unfolding set_has_lock
  give_up h w = record w {
    process =
        set_process h
          (record {
            controller = set_has_lock false w.now (w.process h).controller;
            waiting = none;
          })
          w.process;
  }

  -- An answer takes at most `patience`.
  pub data Step (w : World) : World → Type 0 where
    pass : (later : ℕ) → w.now ≤ later → Step w (record w { now = later })
    asks :
        (q : Question) (h : String)
        → (w.process h).waiting ≡ none
        → may_ask throttle_ms q w.now (w.process h).controller ≡ true
        → Step w (ask q h w)
    answers :
        (a : Asked) (h : String)
        → (w.process h).waiting ≡ some a
        → w.now ≤ a.asked_at + patience
        → Step w (answer a h w)
    fails : (h : String) → Step w (give_up h w)

  pub data Reach (w : World) : World → Type 0 where
    here : Reach w w
    next : {v u : World} → Reach w v → Step v u → Reach w u

  -- No process has the lock or waits for it; the row may name any holder.
  abbrev pub IsStart : World → Type 0
  IsStart w =
      (h : String) → ((w.process h).controller.owns_lock ≡ false) × ((w.process h).waiting ≡ none)

  -- `keepAlive` would say yes at once.
  abbrev pub goes_on : World → String → Bool
  goes_on w h =
      is_idle (w.process h).waiting && is_throttled throttle_ms w.now (w.process h).controller
