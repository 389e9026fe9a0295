-- ===== src/Solver/Model.antt =====
-- crates/dnfast-solver/src/model.rs: candidates, the solver's actions and the explained ones.
use dnfast.Base.{
  ℕ, zero, suc, Text, Bool, Option, none, some, List, ◌≡◌, refl, Order, order_by, nat_order, text,
  ◌++◌, decimal,
}
use dnfast.Core.Value.{Evra, as_rpm_arch}
use dnfast.Core.Policy.{PackageReason, user, dependency, weak_dependency, SolverPolicy}
use dnfast.Core.Intent.{PackageSpec, TransactionIntent}
use dnfast.Core.Integrity.{PlanIntegrity}
use dnfast.Core.Inventory.{InstalledInventory}

pub record CandidatePackage : Type 0 where
  pub name : Text
  pub evra : Evra
  pub vendor : Text
  pub repo_id : Text
  pub priority : ℕ  -- u32
  pub cost : ℕ  -- u32
  pub package_size : ℕ  -- u64
  pub installed_size : ℕ  -- u64
  pub checksum_sha256 : Text
  pub location : Text
  pub excluded : Bool
  pub modular : Bool

pub data ResolvedOperation : Type 0 where
  install upgrade downgrade reinstall remove : ResolvedOperation

abbrev pub operation_index : ResolvedOperation → ℕ
operation_index install = 0
operation_index upgrade = 1
operation_index downgrade = 2
operation_index reinstall = 3
operation_index remove = 4

abbrev pub index_operation : ℕ → ResolvedOperation
index_operation zero = install
index_operation (suc zero) = upgrade
index_operation (suc (suc zero)) = downgrade
index_operation (suc (suc (suc zero))) = reinstall
index_operation (suc (suc (suc (suc n)))) = remove

pub index_operation-operation_index :
    (o : ResolvedOperation) → index_operation (operation_index o) ≡ o
index_operation-operation_index install = refl
index_operation-operation_index upgrade = refl
index_operation-operation_index downgrade = refl
index_operation-operation_index reinstall = refl
index_operation-operation_index remove = refl

instance abbrev pub ResolvedOperation_order : Order ResolvedOperation
ResolvedOperation_order =
    order_by nat_order operation_index index_operation index_operation-operation_index

pub data DependencyKind : Type 0 where
  strong weak : DependencyKind

pub record DependencyEdge : Type 0 where
  pub parent : Text
  pub kind : DependencyKind

pub data ActionProvenance : Type 0 where
  obsoleted_by : Text → ActionProvenance

pub record ResolvedAction : Type 0 where
  pub operation : ResolvedOperation
  pub name : Text
  pub requested : Bool
  pub requested_spec : Option PackageSpec
  pub requested_relation : Bool
  pub candidate : Option CandidatePackage
  pub installed_instance : Option ℕ  -- u64
  pub installed_header_sha256 : Option Text
  pub installed_vendor : Option Text
  pub dependency_edges : List DependencyEdge
  pub provenance : Option ActionProvenance
  pub required_by_remaining : List Text
  pub unresolved_dependencies : List Text
  pub introduced_by_requested : Bool
  pub solver_rule : Text

pub record ArtifactRecord : Type 0 where
  pub checksum_sha256 : Text
  pub location : Text
  pub package_size : ℕ  -- u64

pub data RequestedRelation : Type 0 where
  by_request by_dependency by_weak_dependency : RequestedRelation

-- `RequestedRelation::reason`.
unfoldable pub reason_of : RequestedRelation → PackageReason
reason_of by_request = user
reason_of by_dependency = dependency
reason_of by_weak_dependency = weak_dependency

pub record PlanProtection : Type 0 where
  pub installonly : Bool
  pub protected : Bool
  pub running_kernel : Bool

pub record ExplainedAction : Type 0 where
  pub operation : Text
  pub name : Text
  pub target_evra : Evra
  pub installed_evra : Option Evra
  pub installed_instance : Option ℕ  -- u64
  pub installed_header_sha256 : Option Text
  pub installed_vendor : Option Text
  pub vendor : Option Text
  pub repo_id : Option Text
  pub reason : PackageReason
  pub relation : RequestedRelation
  pub requested_by : Option Text
  pub dependency_edges : List DependencyEdge
  pub provenance : Option ActionProvenance
  pub package_size : ℕ  -- u64
  pub installed_size : ℕ  -- u64
  pub artifact : Option ArtifactRecord
  pub protection : PlanProtection
  pub explanation : Text

-- What a plan is built from, `PlanBuilder` of crates/dnfast-solver/src/plan.rs.
pub record PlanBuilder : Type 0 where
  pub intent : TransactionIntent
  pub snapshots : PlanIntegrity
  pub inventory : InstalledInventory
  pub policy : SolverPolicy
  pub candidates : List CandidatePackage
  pub expires_at_unix : ℕ  -- u64

identity_of_candidate : CandidatePackage → Text
identity_of_candidate c =
    c.repo_id
    ++ (text ":"
        ++ (c.name
            ++ (text "-"
                ++ (decimal c.evra.epoch
                    ++ (text ":"
                        ++ (c.evra.version
                            ++ (text "-"
                                ++ (c.evra.release ++ (text "." ++ as_rpm_arch c.evra.arch)))))))))

identity_of_option : Option CandidatePackage → Option Text
identity_of_option none = none
identity_of_option (some c) = some (identity_of_candidate c)

-- `action_identity` of crates/dnfast-solver/src/preflight.rs.
unfoldable pub action_identity : ResolvedAction → Option Text
unfolding identity_of_option identity_of_candidate
action_identity a = identity_of_option a.candidate
