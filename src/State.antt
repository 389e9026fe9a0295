-- ===== src/State.antt =====
-- crates/dnfast-state: the durable transaction journal, its log, and the reasons and groups that
-- outlive a transaction.
pub mod Error
pub mod Io
pub mod Fs
pub mod Journal
pub mod Names
pub mod Reason
pub mod Group
mod Tests
