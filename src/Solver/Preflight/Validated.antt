-- ===== src/Solver/Preflight/Validated.antt =====
-- What a list of actions that passes `validate_inputs` in crates/dnfast-solver/src/preflight.rs is.
use dnfast.Base.{
  ℕ, ◌+◌, ◌^◌, ◌≤◌, ◌≡◌, arith, text, Bool-cases, false, not, inl, inr, List, [], ◌∷◌, map,
  nat_order, list_order, filter_map, is_empty, length, All, All-map, ltb, ◌==◌, ok, reject-eq-ok,
  err-ne-ok, >>=-eq-ok, >>-eq-ok,
}
use dnfast.Core.Intent.{PackageSpec}
use dnfast.Core.PackageAction.{max_plan_actions}
use dnfast.Solver.Error.{no_changes, invalid, duplicate_action}
use dnfast.Solver.Model.{CandidatePackage, ResolvedAction, PlanBuilder}
use dnfast.Solver.Preflight.Connected.{Connected}
use dnfast.Solver.Preflight.Exact.{validate_reachable-Connected}
use dnfast.Solver.Preflight.Inputs.{
  sum_sizes, validate_repository_selection, validate_candidates, cover_satisfied, check_all,
  check_coverage, requested_set, action_names, validate_inputs, max_plan_artifact_bytes,
}
use dnfast.Solver.Preflight.Coverage.{
  IsChecked, occurrences, occurrences-append, answered, met, cover_satisfied-count, check_all-parts,
  check_coverage-once,
}

-- The sizes of the artifacts, added without a limit.
abbrev pub total_size : List CandidatePackage → ℕ
total_size [] = 0
total_size (c ∷ candidates) = c.package_size + total_size candidates

sum_sizes-exact :
    (total : ℕ) (candidates : List CandidatePackage) {bytes : ℕ}
    → sum_sizes total candidates ≡ ok bytes
    → bytes ≡ total + total_size candidates
unfolding sum_sizes
sum_sizes-exact total [] h = ground (arith, h)
sum_sizes-exact total (c ∷ candidates) h =
    elim (Bool-cases (ltb (total + c.package_size) (2 ^ 64))) [
      | inl fits ↦ omega (arith, sum_sizes-exact (total + c.package_size) candidates (rw fits at h))
      | inr over ↦ absurd (err-ne-ok (rw over at h))
    ]

-- What the checks are for.
pub record IsCoherent (builder : PlanBuilder) (satisfied : List PackageSpec)
    (actions : List ResolvedAction) : Type 0 where
  pub some_action : is_empty actions ≡ false
  pub few : length actions ≤ max_plan_actions
  pub bounded : total_size (filter_map (λ a. a.candidate) actions) ≤ max_plan_artifact_bytes
  pub distinct : length (action_names actions) ≡ length actions
  pub once : All (λ n. occurrences n (met satisfied actions) ≡ 1) (requested_set builder)
  pub checked : All (IsChecked builder.intent.action (action_names actions)) actions
  pub connected : All (λ a. Connected actions a.name) actions

module _ (builder : PlanBuilder) (actions : List ResolvedAction)
    (satisfied : List PackageSpec) where
  -- A list of actions that passes the check is not empty and within both limits; its names are
  -- distinct; every selector of the request is met once, by an installed package or by an action;
  -- every action fits the request's kind, has no dependency left over and names only other actions
  -- of the list as its parents, and a chain of them ties it to a requested action.
  pub validate_inputs-IsCoherent :
      validate_inputs builder actions satisfied ≡ ok tt → IsCoherent builder satisfied actions
  unfolding validate_inputs
  validate_inputs-IsCoherent h =
      let names = action_names actions in
      let requested = requested_set builder in
      let (there, h1) = reject-eq-ok (is_empty actions) no_changes _ h in
      let (small, h2) =
        reject-eq-ok (ltb max_plan_actions (length actions)) (invalid "action limit exceeded") _
          h1 in
      let (_, h3) = >>-eq-ok (validate_repository_selection builder) _ h2 in
      let (_, h4) = >>-eq-ok (validate_candidates builder.candidates) _ h3 in
      let (bytes, summed, h5) =
        >>=-eq-ok (sum_sizes 0 (filter_map (λ a. a.candidate) actions)) _ h4 in
      let (light, h6) =
        reject-eq-ok (ltb max_plan_artifact_bytes bytes) (invalid "artifact size limit exceeded") _
          h5 in
      let (separate, h7) =
        reject-eq-ok (not (length names == length actions)) (duplicate_action (text "name")) _ h6 in
      let (start, satisfied_once, h8) = >>=-eq-ok (cover_satisfied requested [] satisfied) _ h7 in
      let (seen, run, h9) =
        >>=-eq-ok
          (check_all builder.intent.action requested names actions
            (record { identities = []; covered = start }) actions)
          _ h8 in
      let (covered, reachable) = >>-eq-ok (check_coverage requested seen.covered) _ h9 in
      record {
        some_action = there;
        few = ground (arith, small);
        bounded =
            ground (arith, light, sum_sizes-exact 0 (filter_map (λ a. a.candidate) actions) summed);
        distinct = ground (arith, separate);
        once =
            All-map
              (λ n one. omega (
                arith,
                one,
                (check_all-parts builder.intent.action requested names actions n
                    (record { identities = []; covered = start }) actions run).0,
                cover_satisfied-count n requested [] satisfied satisfied_once,
                occurrences-append n (map (λ (s : PackageSpec). s.name) satisfied)
                    (filter_map answered actions),
              ))
              requested (check_coverage-once requested seen.covered covered);
        checked =
            (check_all-parts builder.intent.action requested names actions []
              (record { identities = []; covered = start }) actions run).1;
        connected = validate_reachable-Connected actions reachable;
      }
