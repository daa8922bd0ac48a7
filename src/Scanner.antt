-- ===== src/Scanner.antt =====
-- The byte scanner that reads a few members of a request's body without parsing it
-- (src/features/gateway/lib/sse-parser.ts). A position in the body is the list of the bytes from
-- there on.
pub mod Text
pub mod Chars
pub mod Matching
pub mod Extract
pub mod Print
pub mod Bounded
pub mod Spelling
pub mod Runs
pub mod Values
pub mod Deep
pub mod Objects
pub mod Models
pub mod Streams
pub mod Counts
pub mod Facts
mod Tests
