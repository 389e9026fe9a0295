-- ===== src/Solver.antt =====
-- crates/dnfast-solver: what libsolv answered is checked before it becomes a plan.
pub mod Error
pub mod Model
pub mod Preflight
mod Tests
