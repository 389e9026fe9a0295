-- ===== src/State/Tests.antt =====
-- Runs of the state directory's code on a small file system.
mod Files
mod Journals
mod Reasons
mod Groups
