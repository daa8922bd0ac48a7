-- ===== src/Jobs/Lock.antt =====
-- src/features/gateway/server/jobs.ts: the lock that lets one process run the jobs, and the
-- controller by which a process knows whether it holds it. The clock is an argument; the column of
-- the reconciliation is left out.
use apipool_v.Base.{
  ℕ, ◌+◌, ◌-◌, String, Bool, true, false, ◌&&◌, ◌||◌, not, Option, none, some, if◌then◌else◌,
  str_eq, ltb,
}

-- The row `singleton` of `gateway_job_lock`.
pub record JobLock : Type 0 where
  pub holder_id : Option String
  pub heartbeat_at : Option ℕ
  pub acquired_at : Option ℕ

abbrev pub default_stale_ms : ℕ
default_stale_ms = 300000

abbrev pub keepalive_throttle_ms : ℕ
keepalive_throttle_ms = 10000

-- `heartbeatAt < now - staleMs`, which a row without a heartbeat is not.
abbrev pub is_stale : ℕ → ℕ → Option ℕ → Bool
is_stale stale_ms now none = false
is_stale stale_ms now (some beat) = ltb (beat + stale_ms) now

abbrev pub is_held_by : String → Option String → Bool
is_held_by holder none = false
is_held_by holder (some other) = str_eq other holder

abbrev pub is_free : Option String → Bool
is_free none = true
is_free (some other) = false

unfoldable pub can_acquire : ℕ → String → ℕ → JobLock → Bool
can_acquire stale_ms holder now lock =
    is_free lock.holder_id
    || is_held_by holder lock.holder_id
    || is_stale stale_ms now lock.heartbeat_at

-- `acquireJobLock`: the row as it is left, and whether it was updated.
unfoldable pub acquire_job_lock : ℕ → String → ℕ → JobLock → JobLock × Bool
unfolding can_acquire
acquire_job_lock stale_ms holder now lock =
    if can_acquire stale_ms holder now lock
    then (record { holder_id = some holder; heartbeat_at = some now; acquired_at = some now }, true)
    else (lock, false)

-- `heartbeatJobLock`
unfoldable pub heartbeat_job_lock : String → ℕ → JobLock → JobLock × Bool
heartbeat_job_lock holder now lock =
    if is_held_by holder lock.holder_id
    then (record lock { heartbeat_at = some now }, true)
    else (lock, false)

-- The variables of `createKeepAliveController`.
pub record Controller : Type 0 where
  pub owns_lock : Bool
  pub last_beat_at : ℕ

unfoldable pub set_has_lock : Bool → ℕ → Controller → Controller
set_has_lock value beat_at c = record {
  owns_lock = value;
  last_beat_at = if value then beat_at else c.last_beat_at;
}

-- `renewNow` when the heartbeat has answered.
unfoldable pub renewed : Bool → ℕ → Controller → Controller
renewed beat now c = record {
  owns_lock = beat;
  last_beat_at = if beat then now else c.last_beat_at;
}

-- Whether `keepAlive` answers yes without asking the database.
unfoldable pub is_throttled : ℕ → ℕ → Controller → Bool
is_throttled throttle_ms now c = c.owns_lock && ltb (now - c.last_beat_at) throttle_ms

-- Whether it asks.
unfoldable pub must_ask : ℕ → ℕ → Controller → Bool
must_ask throttle_ms now c = c.owns_lock && not (ltb (now - c.last_beat_at) throttle_ms)
