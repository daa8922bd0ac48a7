-- ===== src/Tasks.antt =====
-- The asynchronous image tasks of the gateway (src/features/gateway/server/image-tasks.ts): how a
-- worker claims the tasks that are due, and how long a claimed task is left alone.
pub mod Defs
pub mod Leases
pub mod Retries
pub mod Meanwhile
pub mod Claims
mod Tests
