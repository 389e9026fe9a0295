-- ===== src/Core.antt =====
-- crates/dnfast-core: the canonical domain types and their checks.
pub mod Value
pub mod Canonical
pub mod Policy
pub mod Integrity
pub mod PackageAction
pub mod Intent
pub mod Plan
pub mod Inventory
pub mod Trust
pub mod Journal
pub mod Samples
mod Tests
