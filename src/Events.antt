-- ===== src/Events.antt =====
-- The usage that a stream of server-sent events reports (src/features/gateway/lib/sse-parser.ts).
pub mod Line
pub mod Extractor
pub mod Drains
pub mod Chunks
mod Tests
