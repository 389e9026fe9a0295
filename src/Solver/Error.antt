-- ===== src/Solver/Error.antt =====
-- `PlanError` of crates/dnfast-solver/src/validation.rs; the derived messages are left out.
use dnfast.Base.{String, Text}

pub data PlanError : Type 0 where
  no_changes intent_coverage dependency_cycle disconnected_graph re_solve_mismatch : PlanError
  unrelated_action conflicting_action duplicate_action unresolved : Text → PlanError
  duplicate_candidate ambiguous_candidate missing_parent : Text → PlanError
  invalid : String → PlanError
  excluded modular non_preferred repository_not_selected : Text → PlanError
  installed_missing ambiguous_installed unpaired_native_old unsafe canonical : Text → PlanError
