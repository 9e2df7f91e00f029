-- ===== src/Store.antt =====
-- internal/adapter/postgres: the durable store of attempts, budgets and evidence.
pub mod Table
pub mod Schema
pub mod Reserve
pub mod Attempt
pub mod Recovery
pub mod OwnerOutcome
pub mod Compensation
pub mod Ledger
pub mod DebtCache
pub mod CursorTables
pub mod Cursors
