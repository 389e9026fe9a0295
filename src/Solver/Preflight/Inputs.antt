-- ===== src/Solver/Preflight/Inputs.antt =====
-- `validate_inputs` of crates/dnfast-solver/src/preflight.rs, and the checks that it calls.
use dnfast.Base.{
  ℕ, suc, ◌+◌, ◌*◌, ◌^◌, Text, text, Bool, true, false, not, ◌&&◌, ◌||◌, xor, Option, none, some,
  is_some, is_none, List, [], ◌∷◌, map, nat_order, list_order, option_order, pair_order, same,
  contains, any, get, insert, filter_map, is_empty, length, ltb, ◌==◌, if◌then◌else◌, Result, ok,
  err, reject, for_each, ◌>>=◌, ◌>>◌,
}
use dnfast.Core.Value.{Evra, Evra_order}
use dnfast.Core.Policy.{to_set}
use dnfast.Core.Intent.{Action, PackageSpec}
use dnfast.Core.PackageAction.{max_plan_actions}
use dnfast.Solver.Error.{
  PlanError, no_changes, invalid, duplicate_action, unresolved, unrelated_action, dependency_cycle,
  missing_parent, conflicting_action, intent_coverage, repository_not_selected, duplicate_candidate,
  ambiguous_candidate,
}
use dnfast.Solver.Model.{
  CandidatePackage, ResolvedOperation, ResolvedOperation_order, DependencyEdge, ActionProvenance,
  obsoleted_by, ResolvedAction, PlanBuilder, action_identity,
}
use dnfast.Solver.Preflight.{validate_reachable}

-- 16 TiB.
abbrev pub max_plan_artifact_bytes : ℕ
max_plan_artifact_bytes = 16 * 1024 * 1024 * 1024 * 1024

-- `try_fold` with `checked_add` on u64.
unfoldable pub sum_sizes : ℕ → List CandidatePackage → Result PlanError ℕ
sum_sizes total [] = ok total
sum_sizes total (c ∷ candidates) =
    let rest = sum_sizes (total + c.package_size) candidates in
    if ltb (total + c.package_size) (2 ^ 64) then rest else err (invalid "artifact size overflow")

unfoldable pub validate_repository_selection : PlanBuilder → Result PlanError (Unit {0})
validate_repository_selection builder =
    for_each
      (λ c.
        reject (not (any (λ r. same r.id c.repo_id) builder.snapshots.selected_repositories))
          (repository_not_selected c.repo_id))
      builder.candidates

abbrev pub ExactKey : Type 0
ExactKey = Text × (Evra × (Text × (ℕ × (ℕ × (Text × (Text × Text))))))

abbrev pub exact_key : CandidatePackage → ExactKey
exact_key c = (
  c.name,
  (c.evra, (c.repo_id, (c.priority, (c.cost, (c.vendor, (c.checksum_sha256, c.location)))))),
)

abbrev pub PolicyKey : Type 0
PolicyKey = Text × (Evra × (Text × (ℕ × ℕ)))

abbrev pub policy_key : CandidatePackage → PolicyKey
policy_key c = (c.name, (c.evra, (c.repo_id, (c.priority, c.cost))))

abbrev pub ArtifactIdentity : Type 0
ArtifactIdentity = Text × (Text × (Text × (ℕ × ℕ)))

abbrev pub artifact_identity : CandidatePackage → ArtifactIdentity
artifact_identity c =
    (c.vendor, (c.checksum_sha256, (c.location, (c.package_size, c.installed_size))))

-- `is_some_and(|previous| previous != identity)`.
abbrev pub differs : Option ArtifactIdentity → ArtifactIdentity → Bool
differs none identity = false
differs (some previous) identity = not (same previous identity)

unfoldable pub check_candidates :
    List ExactKey
    → List (PolicyKey × ArtifactIdentity)
    → List CandidatePackage
    → Result PlanError (Unit {0})
check_candidates exact policy [] = ok tt
check_candidates exact policy (c ∷ candidates) =
    reject (contains exact (exact_key c)) (duplicate_candidate c.name) >>= λ _.
    reject (differs (get policy (policy_key c)) (artifact_identity c)) (ambiguous_candidate c.name)
    >>= λ _.
        check_candidates (exact_key c ∷ exact) (insert (policy_key c) (artifact_identity c) policy)
          candidates

unfoldable pub validate_candidates : List CandidatePackage → Result PlanError (Unit {0})
unfolding check_candidates
validate_candidates candidates = check_candidates [] [] candidates

abbrev pub Covered : Type 0
Covered = List (Text × ℕ)

abbrev pub count_of : Option ℕ → ℕ
count_of none = 0
count_of (some n) = n

-- `*covered.entry(name).or_default() += 1`; a count is at most the number of selectors.
unfoldable pub cover : Text → Covered → Covered
cover name covered = insert name (suc (count_of (get covered name))) covered

unfoldable pub cover_satisfied : List Text → Covered → List PackageSpec → Result PlanError Covered
cover_satisfied requested covered [] = ok covered
cover_satisfied requested covered (s ∷ specs) =
    reject (not (contains requested s.name))
      (invalid "satisfied selector is not in requested intent")
    >>= λ _. cover_satisfied requested (cover s.name covered) specs

abbrev pub ActionIdentity : Type 0
ActionIdentity = ResolvedOperation × (Text × (Option ℕ × Option (Evra × Text)))

abbrev candidate_place : Option CandidatePackage → Option (Evra × Text)
candidate_place none = none
candidate_place (some c) = some (c.evra, c.repo_id)

abbrev pub resolved_identity : ResolvedAction → ActionIdentity
resolved_identity a = (a.operation, (a.name, (a.installed_instance, candidate_place a.candidate)))

-- `matches!(action, Upgrade | DistroSync)`.
abbrev pub is_sweeping : Action → Bool
is_sweeping Action.upgrade = true
is_sweeping Action.distro_sync = true
is_sweeping _ = false

abbrev is_replacing : ResolvedOperation → Bool
is_replacing ResolvedOperation.upgrade = true
is_replacing ResolvedOperation.downgrade = true
is_replacing ResolvedOperation.reinstall = true
is_replacing _ = false

abbrev pub all_replacement_root : Action → List Text → ResolvedAction → Bool
all_replacement_root action requested a =
    a.requested
    && (is_none a.requested_spec
        && (is_sweeping action && (is_empty requested && is_replacing a.operation)))

-- The match on the selector of a requested action.
abbrev pub cover_spec :
    Action → List Text → Covered → Text → Option PackageSpec → Result PlanError Covered
cover_spec action requested covered name none =
    if is_sweeping action && is_empty requested
    then ok covered
    else err (invalid "requested action lacks selector provenance")
cover_spec action requested covered name (some s) =
    if contains requested s.name then ok (cover s.name covered) else err (unrelated_action name)

abbrev pub cover_requested :
    Action → List Text → Covered → ResolvedAction → Result PlanError Covered
cover_requested action requested covered a =
    if a.requested then cover_spec action requested covered a.name a.requested_spec else ok covered

abbrev pub check_edge : List Text → Text → DependencyEdge → Result PlanError (Unit {0})
check_edge names name e =
    if same e.parent name
    then err dependency_cycle
    else if contains names e.parent
    then ok tt
    else err (missing_parent e.parent)

abbrev pub check_provenance :
    List ResolvedAction → ResolvedOperation → Option ActionProvenance → Result PlanError (Unit {0})
check_provenance actions operation none = ok tt
check_provenance actions operation (some (obsoleted_by id)) =
    reject
      (not (same operation ResolvedOperation.remove)
        || not (any (λ p. same (action_identity p) (some id)) actions))
      (missing_parent id)

abbrev pub is_removing : Action → Bool
is_removing Action.remove = true
is_removing _ = false

-- Which operation an action of the user asks for.
abbrev pub kind_fits : Action → ResolvedOperation → Option ActionProvenance → Bool
kind_fits Action.install operation provenance =
    same operation ResolvedOperation.install || same operation ResolvedOperation.upgrade
kind_fits Action.remove operation provenance =
    same operation ResolvedOperation.remove && is_none provenance
kind_fits Action.upgrade operation provenance = same operation ResolvedOperation.upgrade
kind_fits Action.downgrade operation provenance = same operation ResolvedOperation.downgrade
kind_fits Action.reinstall operation provenance = same operation ResolvedOperation.reinstall
kind_fits Action.distro_sync operation provenance = is_replacing operation
kind_fits Action.autoremove operation provenance =
    same operation ResolvedOperation.remove && is_none provenance

unfoldable pub validate_kind : Action → ResolvedAction → Result PlanError (Unit {0})
validate_kind action a =
    let obsoletion_side_effect =
      is_some a.provenance
      && (same a.operation ResolvedOperation.remove && not (is_removing action)) in
    let dependency_install =
      is_sweeping action
      && (same a.operation ResolvedOperation.install
          && (not a.requested
              && (is_none a.requested_spec && not (is_empty a.dependency_edges)))) in
    if obsoletion_side_effect || (dependency_install || kind_fits action a.operation a.provenance)
    then ok tt
    else err (conflicting_action a.name)

-- What the loop over the actions carries.
pub record Seen : Type 0 where
  pub identities : List ActionIdentity
  pub covered : Covered

-- The body of the loop.
unfoldable pub check_action :
    Action
    → List Text
    → List Text
    → List ResolvedAction
    → Seen
    → ResolvedAction
    → Result PlanError Seen
check_action action requested names actions seen a = do
  reject (is_empty a.name || not (is_empty a.unresolved_dependencies)) (unresolved a.name)
  reject (contains seen.identities (resolved_identity a)) (duplicate_action a.name)
  reject
      (xor a.requested (is_some a.requested_spec) && not (all_replacement_root action requested a))
      (invalid "requested action provenance differs")
  reject (a.requested_relation && not a.requested) (invalid "relation selector is not requested")
  covered ← cover_requested action requested seen.covered a
  for_each (check_edge names a.name) a.dependency_edges
  check_provenance actions a.operation a.provenance
  validate_kind action a
  ok (record { identities = resolved_identity a ∷ seen.identities; covered = covered })

unfoldable pub check_all :
    Action
    → List Text
    → List Text
    → List ResolvedAction
    → Seen
    → List ResolvedAction
    → Result PlanError Seen
unfolding check_action
check_all action requested names actions seen [] = ok seen
check_all action requested names actions seen (a ∷ items) =
    check_action action requested names actions seen a >>= λ next.
    check_all action requested names actions next items

abbrev pub requested_set : PlanBuilder → List Text
requested_set builder = to_set (map (λ p. p.name) builder.intent.packages)

abbrev pub action_names : List ResolvedAction → List Text
action_names actions = to_set (map (λ a. a.name) actions)

-- The checks after the loop.
unfoldable pub check_coverage : List Text → Covered → Result PlanError (Unit {0})
check_coverage requested covered =
    reject
      (any (λ name. not (same (get covered name) (some 1))) requested
        || any (λ e. not (e.1 == 1)) covered)
      intent_coverage

unfoldable pub validate_inputs :
    PlanBuilder → List ResolvedAction → List PackageSpec → Result PlanError (Unit {0})
unfolding sum_sizes cover_satisfied check_all
validate_inputs builder actions satisfied_specs = do
  reject (is_empty actions) no_changes
  reject (ltb max_plan_actions (length actions)) (invalid "action limit exceeded")
  validate_repository_selection builder
  validate_candidates builder.candidates
  bytes ← sum_sizes 0 (filter_map (λ a. a.candidate) actions)
  reject (ltb max_plan_artifact_bytes bytes) (invalid "artifact size limit exceeded")
  reject (not (length (action_names actions) == length actions)) (duplicate_action (text "name"))
  covered ← cover_satisfied (requested_set builder) [] satisfied_specs
  seen ←
      check_all builder.intent.action (requested_set builder) (action_names actions) actions
        (record { identities = []; covered = covered }) actions
  check_coverage (requested_set builder) seen.covered
  validate_reachable actions
