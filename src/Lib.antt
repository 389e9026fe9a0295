-- ===== src/Lib.antt =====
-- dnfast: a package manager's transactions, from the user's request to the record on disk.
--
-- The program turns a request (an intent) into a plan, a list of package actions bound to the
-- digests of all that it was made from; a policy and a second check decide whether the plan may be
-- executed; the execution leaves records in a state directory.
--
-- Core, the crate crates/dnfast-core:
--   Core/Value        src/value.rs: `Sha256Digest::parse` is `parse_digest`, `Evra::validate` is
--                     `validate_evra`; `rpm_part_cmp` is the loop of the source, one round being
--                     `step`. The loop runs on fuel, one more than the length of the left side,
--                     and returns on any larger number of rounds.
--   Core/Canonical    src/canonical.rs: `inspect` is the scan over the bytes, `parse` and
--                     `serialize` stand over `serde_json`, which is a parameter.
--   Core/Policy       src/policy.rs: `SolverPolicy` and its checks, `CandidateAction`.
--   Core/Integrity    src/integrity.rs: `RepositoryBinding`, `PlanIntegrity`.
--   Core/Journal      src/journal.rs: `JournalRecord::new` is `new_journal`, `HistoryRecord::new` is
--                     `new_history`.
--   Core/Intent       src/intent.rs: `TransactionIntent::new` is `new_intent`.
--   Core/PackageAction  src/plan.rs, the part of `PackageAction` and `canonical_actions`; the
--                     constructor functions stand in Core/PackageAction/Build.
--   Core/Plan         src/plan.rs, the part of `PlanEnvelope`: `new_plan`, `validate_now` and
--                     `validate_executable`.
--   Core/Inventory    src/inventory.rs: `InstalledInventory::new` is `new_inventory`.
--   Core/Trust        src/trust.rs: `RepoTrustPolicy::new` is `new_trust`.
-- State, the crate crates/dnfast-state:
--   State/Fs          src/fs.rs over a record `Kernel` of the calls into rustix. The state that is
--                     passed on is the disk and the armed fault of src/fault.rs; a call that fails
--                     returns the changed disk as well. State/Fs/Laws says what the code relies on;
--                     State/Fs/Root opens the root directory and cleans a staging directory.
--   State/Journal     src/model.rs and src/store.rs: `transition` is `make_transition`, `publish`
--                     is `publish_entry`; State/Journal/Entry has the entries and their checks.
--   State/Journal/Recovery  src/recovery.rs.
--   State/Reason      src/reason.rs: `record_success` between reading and writing is
--                     `success_records`; State/Reason/Store has the store, whose root is passed on.
--   State/Group       src/group.rs: the changes of the groups; State/Group/Check is
--                     `validate_state`, State/Group/Store the store. Its pending changes are settled
--                     by the journals of State/Journal.
-- Solver, the crate crates/dnfast-solver:
--   Solver/Model      src/model.rs: the solver's actions and the explained ones.
--   Solver/Preflight  src/preflight.rs: `validate_reachable` is the loop `reach` on fuel, one more
--                     pass than there are actions; `validate_inputs` is in Solver/Preflight/Inputs;
--                     `execution_order` is in Solver/Preflight/Order, its loop on as many rounds as
--                     there are names and `cycle_member` on two more.
-- Repo, the crate crates/dnfast-repo:
--   Repo/Model        src/model.rs; Repo/Error is src/error.rs.
--   Repo/Parser       src/parser.rs: the body of the loop of `parse_repository_file` is `read_line`.
--   Repo/Variables    src/variables.rs: `expand` is one pass over the characters with a mode in
--                     place of the iterator and its inner loops.
--   Repo/RefreshPolicy  src/refresh_policy.rs over a function that reads a file.
--   Repo/MainConfig   src/main_config.rs: the body of the loop of `parse_main_config` is `main_line`.
-- Base holds results, orders, sorting, maps, lists and text; Core/Samples and the Tests modules hold the
-- data of the runs.
--
-- Text is a list of Unicode scalars; where the source compares strings by bytes the order is the
-- same, since UTF-8 keeps it. Numbers are natural numbers; no operation that is modelled adds to a
-- number near its width, but for the counters that a limit on the input bounds. Hash sets are lists
-- with a membership test. The derived serde visitors, the SHA-256 of a plan, the event log
-- and the crates that call the network, librpm, libsolv and the terminal are not
-- modelled.
mod Base
pub mod Core
pub mod State
pub mod Solver
pub mod Repo
