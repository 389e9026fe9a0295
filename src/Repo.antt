-- ===== src/Repo.antt =====
-- crates/dnfast-repo: the configuration of repositories.
pub mod Error
pub mod Model
pub mod Parser
pub mod Variables
pub mod RefreshPolicy
pub mod MainConfig
mod Tests
