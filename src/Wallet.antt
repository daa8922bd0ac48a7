-- ===== src/Wallet.antt =====
-- The wallet tables of src/config/db/schema.sqlite.ts: accounts, their append-only ledger and the
-- operators' audit log. The file's children hold the operations and what they keep true.
mod Defs
unfoldable pub use Defs.*
pub mod Ledger
pub mod Adjust
pub mod Freeze
pub mod Amount
pub mod Balance
pub mod Commit
pub mod Idempotency
pub mod Retry
pub mod Reversal
pub mod Frozen
pub mod AmountLaws
mod Tests
