-- ===== src/Core/Plan.antt =====
-- crates/dnfast-core/src/plan.rs: the plan envelope, its check at a moment, and the check that
-- must pass before it is executed.
pub mod Envelope
pub mod Executable
use dnfast.Base.{
  ℕ, String, Text, text, Bool, true, false, ◌&&◌, ◌||◌, not, Option, none, some, List, [], ◌∷◌, ◌≡◌,
  refl, Order, nat_order, list_order, same, contains, is_some, any, length, out_of_order, ltb, ◌==◌,
  if◌then◌else◌, Result, ok, err, reject, for_each, map_err, ◌>>=◌, ◌>>◌,
}
use dnfast.Core.Value.{
  DomainError, schema_version, invalid_plan, unsafe_action, non_canonical, DecodeError, rejected,
  Sha256Digest, Evra,
}
use dnfast.Core.Policy.{
  SolverPolicy, PackageReason, is_autoremove_candidate, validate_policy, validate_removal,
  CandidateAction, candidate_upgrade, candidate_downgrade, candidate_reinstall, validate_upgrade,
  validate_downgrade, validate_reinstall,
}
use dnfast.Core.Integrity.{RepositoryBinding, PlanIntegrity, validate_integrity}
use dnfast.Core.Intent.{Action, TransactionIntent}
use dnfast.Core.PackageAction.{
  PackageOperation, ActionProvenance, obsoleted_by, PackageAction, PackageAction_order,
  action_identity, validate_package_action, canonical_actions, max_plan_actions,
}

pub record PlanEnvelope : Type 0 where
  pub schema : ℕ  -- schema_version: u32
  pub install_root : Text
  pub intent : TransactionIntent
  pub policy_sha256 : Sha256Digest
  pub trust_sha256 : Sha256Digest
  pub inventory_sha256 : Sha256Digest
  pub metadata_sha256 : Sha256Digest
  pub planning_snapshot_sha256 : Sha256Digest
  pub selected_repositories : List RepositoryBinding
  pub expires_at_unix : ℕ  -- u64
  pub actions : List PackageAction

-- The record that `PlanEnvelope::new` builds, with the parts of `PlanIntegrity::into_parts`.
pub envelope : TransactionIntent → PlanIntegrity → ℕ → List PackageAction → PlanEnvelope
envelope intent integrity expires_at_unix actions = record {
  schema = 2;
  install_root = text "/";
  intent = intent;
  policy_sha256 = integrity.policy_sha256;
  trust_sha256 = integrity.trust_sha256;
  inventory_sha256 = integrity.inventory_sha256;
  metadata_sha256 = integrity.metadata_sha256;
  planning_snapshot_sha256 = integrity.planning_snapshot_sha256;
  selected_repositories = integrity.selected_repositories;
  expires_at_unix = expires_at_unix;
  actions = actions;
}

-- `PlanEnvelope::new`.
unfoldable pub new_plan :
    TransactionIntent → PlanIntegrity → ℕ → List PackageAction → Result DomainError PlanEnvelope
unfolding envelope
new_plan intent integrity expires_at_unix actions = do
  validate_integrity integrity
  canonical ← canonical_actions actions
  ok (envelope intent integrity expires_at_unix canonical)

-- `PlanEnvelope::integrity`, by `PlanIntegrity::from_parts`.
unfoldable pub plan_integrity : PlanEnvelope → PlanIntegrity
plan_integrity p = record {
  policy_sha256 = p.policy_sha256;
  trust_sha256 = p.trust_sha256;
  inventory_sha256 = p.inventory_sha256;
  metadata_sha256 = p.metadata_sha256;
  planning_snapshot_sha256 = p.planning_snapshot_sha256;
  selected_repositories = p.selected_repositories;
}

pub unselected : List RepositoryBinding → Option Text → Bool
unselected selected none = false
unselected selected (some repository) = not (any (λ b. same b.id repository) selected)

-- The body of the loop of `validate_now`.
check_selected : List RepositoryBinding → PackageAction → Result DomainError (Unit {0})
unfolding unselected
check_selected selected a = do
  validate_package_action a
  reject (unselected selected a.repo_id) (invalid_plan "action repository is not selected")
  ok tt

-- `PlanEnvelope::validate_now`.
unfoldable pub validate_now : PlanEnvelope → ℕ → Result DomainError (Unit {0})
unfolding check_selected plan_integrity
validate_now p now_unix = do
  reject (not (p.schema == 2)) (schema_version 2 p.schema)
  reject (not (same p.install_root (text "/"))) (invalid_plan "install root must be /")
  validate_integrity (plan_integrity p)
  reject (ltb p.expires_at_unix now_unix) (invalid_plan "plan expired")
  reject (ltb max_plan_actions (length p.actions) || out_of_order p.actions) non_canonical
  for_each (check_selected p.selected_repositories) p.actions

unfoldable pub decode_plan : PlanEnvelope → Result DecodeError PlanEnvelope
unfolding validate_now
decode_plan raw = do map_err rejected (validate_now raw 0); ok raw

-- `actions.iter().filter_map(PackageAction::action_identity)`.
pub parent_identities : List PackageAction → List Text
parent_identities [] = []
parent_identities (a ∷ actions) = elim (action_identity a) [
  | none ↦ parent_identities actions
  | some identity ↦ identity ∷ parent_identities actions
]

may_add_dependencies : Action → Bool
may_add_dependencies Action.upgrade = true
may_add_dependencies Action.distro_sync = true
may_add_dependencies _ = false

is_install : PackageOperation → Bool
is_install PackageOperation.install = true
is_install _ = false

dependency_install : Action → PackageAction → Bool
unfolding may_add_dependencies is_install
dependency_install intent a =
    may_add_dependencies intent && (is_install a.operation && is_autoremove_candidate a.reason)

-- The `matches!` on the pair of intent and operation.
operation_fits : Action → PackageOperation → Bool
operation_fits Action.install PackageOperation.install = true
operation_fits Action.install PackageOperation.upgrade = true
operation_fits Action.upgrade PackageOperation.upgrade = true
operation_fits Action.remove PackageOperation.remove = true
operation_fits Action.downgrade PackageOperation.downgrade = true
operation_fits Action.reinstall PackageOperation.reinstall = true
operation_fits Action.distro_sync PackageOperation.upgrade = true
operation_fits Action.distro_sync PackageOperation.downgrade = true
operation_fits Action.distro_sync PackageOperation.reinstall = true
operation_fits Action.autoremove PackageOperation.remove = true
operation_fits _ _ = false

ordinary : Action → PackageAction → Bool
unfolding dependency_install operation_fits
ordinary intent a = operation_fits intent a.operation || dependency_install intent a

is_remove : Action → Bool
is_remove Action.remove = true
is_remove _ = false

is_autoremove : Action → Bool
is_autoremove Action.autoremove = true
is_autoremove _ = false

obsoleted : Action → List Text → Option ActionProvenance → PackageOperation → PackageReason → Bool
unfolding is_remove
obsoleted intent parents (some (obsoleted_by parent)) PackageOperation.remove reason =
    not (is_remove intent) && (contains parents parent && is_autoremove_candidate reason)
obsoleted _ _ _ _ _ = false

side_effect : Action → List Text → PackageAction → Bool
unfolding obsoleted
side_effect intent parents a = obsoleted intent parents a.provenance a.operation a.reason

-- `option.clone().ok_or(error)?`.
ok_or {ℓ} : {A : Type ℓ} → Option A → String → Result DomainError A
ok_or none message = err (invalid_plan message)
ok_or (some a) message = ok a

-- The candidate of a replacement, built by the constructor of its operation.
replacement_of :
    (Evra → Evra → Text → Text → CandidateAction)
    → PackageAction
    → Result DomainError CandidateAction
unfolding ok_or
replacement_of make a = do
  installed ← ok_or a.installed_evra "missing installed EVRA"
  installed_vendor ← ok_or a.installed_vendor "missing installed vendor"
  candidate_vendor ← ok_or a.candidate_vendor "missing candidate vendor"
  ok (make installed a.target_evra installed_vendor candidate_vendor)

-- The last `match` of the loop of `validate_executable`.
check_policy : SolverPolicy → PackageOperation → PackageAction → Result DomainError (Unit {0})
unfolding replacement_of
check_policy policy PackageOperation.remove a = validate_removal policy a.name a.reason
check_policy policy PackageOperation.upgrade a =
    replacement_of candidate_upgrade a >>= λ candidate. validate_upgrade candidate
check_policy policy PackageOperation.downgrade a =
    replacement_of candidate_downgrade a >>= λ candidate. validate_downgrade candidate
check_policy policy PackageOperation.reinstall a =
    replacement_of candidate_reinstall a >>= λ candidate. validate_reinstall candidate
check_policy policy PackageOperation.install a = ok tt

-- The body of the loop of `validate_executable`.
check_executable : SolverPolicy → Action → List Text → PackageAction → Result DomainError (Unit {0})
unfolding ordinary side_effect is_autoremove check_policy
check_executable policy intent parents a = do
  reject (not (ordinary intent a) && not (side_effect intent parents a))
      (invalid_plan "intent and package operation differ")
  reject (ordinary intent a && is_some a.provenance) (invalid_plan "unexpected action provenance")
  reject (is_autoremove intent && not (is_autoremove_candidate a.reason))
      (unsafe_action "autoremove requires dependency reason")
  check_policy policy a.operation a

-- `PlanEnvelope::validate_executable`.
unfoldable pub validate_executable : PlanEnvelope → SolverPolicy → ℕ → Result DomainError (Unit {0})
unfolding parent_identities check_executable
validate_executable p policy now_unix = do
  validate_now p now_unix
  validate_policy policy
  for_each (check_executable policy p.intent.action (parent_identities p.actions)) p.actions
