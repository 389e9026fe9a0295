-- ===== src/Core/Tests.antt =====
-- Runs of the core at concrete inputs, and its theorems applied to them.
mod Versions
mod Plans
mod Documents
mod Inventories
mod Keys
mod Records
