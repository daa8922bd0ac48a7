-- ===== src/Jobs.antt =====
-- The background jobs of the gateway (src/features/gateway/server/jobs.ts and backfill.ts).
pub mod Lock
pub mod Processes
pub mod Heartbeats
pub mod Lease
pub mod Recovery
pub mod Sweep
pub mod Swept
mod Tests
