-- ===== src/Credits.antt =====
-- Credits: grants with an expiry that are used up in order of expiry (src/shared/models/credit.ts).
-- The file's children hold the operations and what they keep true.
pub mod Defs
pub mod Rows
pub mod Purse
pub mod Paying
pub mod Kept
pub mod Rounds
pub mod Consume
pub mod Promises
pub mod Outcomes
pub mod Grants
mod Tests
