-- ===== src/State/Reason.antt =====
-- crates/dnfast-state/src/reason.rs: why each installed package is there, after a transaction.
pub mod Store
pub mod Lasting
pub mod Located
pub mod Known
pub mod Replaced
pub mod Success
pub mod Autoremove
use dnfast.Base.{
  ℕ, Text, text, Bool, true, false, not, ◌&&◌, ◌||◌, Option, none, some, List, [], ◌∷◌, map, refl,
  Order, order_by, nat_order, list_order, option_order, pair_order, same, sort, filter, contains,
  get, collect_map, remove, filter_map, if◌then◌else◌, Result, ok, err, collect, ◌>>=◌,
}
use dnfast.Core.Value.{Evra, Evra_order, Sha256Digest}
use dnfast.Core.Policy.{
  PackageReason, PackageReason_order, user, dependency, weak_dependency, external, unknown,
  SolverPolicy, is_protected, is_installonly, is_running_kernel, is_autoremove_candidate,
}
use dnfast.Core.Inventory.{InstalledPackage, InstalledInventory}
use dnfast.Core.PackageAction.{PackageAction, PackageOperation, PackageOperation_order, install}
use dnfast.State.Error.{StateError, corrupt}

pub data ReasonDecision : Type 0 where
  record_reason : PackageReason → ReasonDecision
  keep : PackageReason → ReasonDecision

abbrev pub decided : ReasonDecision → PackageReason
decided (record_reason reason) = reason
decided (keep reason) = reason

-- `InstalledIdentity`, and the tuple of the same fields that the maps and sets have as key.
pub record InstalledIdentity : Type 0 where
  pub db_instance : ℕ
  pub header_sha256 : Text

abbrev pub Exact : Type 0
Exact = ℕ × Text

abbrev pub exact_of : InstalledPackage → Exact
exact_of p = (p.db_instance, p.immutable_header_sha256.hex)

pub record PlannedIdentity : Type 0 where
  pub package_name : Text
  pub target_evra : Evra

instance abbrev pub PlannedIdentity_order : Order PlannedIdentity
PlannedIdentity_order =
    order_by (pair_order {A = Text} {B = Evra}) (λ p. (p.package_name, p.target_evra))
      (λ t. record { package_name = t.0; target_evra = t.1 }) (λ p. refl)

pub record ReconciledReason : Type 0 where
  pub identity : InstalledIdentity
  pub package_name : Text
  pub decision : ReasonDecision

abbrev pub target_of_action : PackageAction → PlannedIdentity
target_of_action a = record { package_name = a.name; target_evra = a.target_evra }

abbrev is_removal : PackageAction → Bool
is_removal a = same a.operation PackageOperation.remove

unfoldable pub proposals_from_plan : List PackageAction → List (PlannedIdentity × PackageReason)
proposals_from_plan actions =
    collect_map
      (map (λ a. (target_of_action a, a.reason)) (filter (λ a. not (is_removal a)) actions))

-- The decision on a package that is neither protected nor install-only, by its proposal.
abbrev pub decide : Option PackageReason → ReasonDecision
decide none = keep external
decide (some external) = keep external
decide (some unknown) = keep unknown
decide (some user) = record_reason user
decide (some dependency) = record_reason dependency
decide (some weak_dependency) = record_reason weak_dependency

abbrev pub planned_of : InstalledPackage → PlannedIdentity
planned_of p = record { package_name = p.name; target_evra = p.evra }

-- The closure over `remaining`: a proposal is taken only for a new package, and only once.
pub reconcile_from :
    List Exact
    → List Text
    → List Text
    → List (PlannedIdentity × PackageReason)
    → List InstalledPackage
    → List ReconciledReason
reconcile_from before_ids protected installonly remaining [] = []
reconcile_from before_ids protected installonly remaining (p ∷ packages) =
    let fixed = contains protected p.name || contains installonly p.name in
    let takes = not fixed && not (contains before_ids (exact_of p)) in
    let proposal = if takes then get remaining (planned_of p) else none in
    record {
      identity = record {
        db_instance = p.db_instance;
        header_sha256 = p.immutable_header_sha256.hex;
      };
      package_name = p.name;
      decision = if fixed then keep user else decide proposal;
    }
    ∷ reconcile_from before_ids protected installonly
        (if takes then remove (planned_of p) remaining else remaining) packages

unfoldable pub reconcile_reasons :
    InstalledInventory
    → InstalledInventory
    → List (PlannedIdentity × PackageReason)
    → List Text
    → List Text
    → List ReconciledReason
unfolding reconcile_from
reconcile_reasons before after proposed protected installonly =
    reconcile_from (map exact_of before.packages) protected installonly proposed after.packages

pub record ReasonRecord : Type 0 where
  pub db_instance : ℕ
  pub header_sha256 : Text
  pub package_name : Text
  pub reason : PackageReason

abbrev pub record_tuple : ReasonRecord → ℕ × (Text × (Text × PackageReason))
record_tuple r = (r.db_instance, (r.header_sha256, (r.package_name, r.reason)))

abbrev pub tuple_record : ℕ × (Text × (Text × PackageReason)) → ReasonRecord
tuple_record (i, (h, (n, r))) = record {
  db_instance = i;
  header_sha256 = h;
  package_name = n;
  reason = r;
}

instance abbrev pub ReasonRecord_order : Order ReasonRecord
ReasonRecord_order = order_by pair_order record_tuple tuple_record (λ r. refl)

abbrev pub exact_of_record : ReasonRecord → Exact
exact_of_record r = (r.db_instance, r.header_sha256)

abbrev pub existing_of : List ReasonRecord → List (Exact × ReasonRecord)
existing_of records = collect_map (map (λ r. (exact_of_record r, r)) records)

abbrev pub is_fixed : SolverPolicy → Text → Bool
is_fixed policy name =
    is_protected policy name || (is_installonly policy name || is_running_kernel policy name)

abbrev pub handed_on :
    PackageAction → Option ReasonRecord → Option (PlannedIdentity × PackageReason)
handed_on a none = none
handed_on a (some previous) = some (target_of_action a, previous.reason)

-- The closure of `replacement_reasons`, by the three lookups that it may give up at.
abbrev pub replacement_with :
    List (Exact × ReasonRecord)
    → PackageAction
    → Option ℕ
    → Option Sha256Digest
    → Option (PlannedIdentity × PackageReason)
replacement_with existing a none header = none
replacement_with existing a (some instance_id) none = none
replacement_with existing a (some instance_id) (some header) =
    handed_on a (get existing (instance_id, header.hex))

abbrev pub is_install : PackageAction → Bool
is_install a = same a.operation install

unfoldable pub replacement_reasons :
    List (Exact × ReasonRecord) → List PackageAction → List (PlannedIdentity × PackageReason)
replacement_reasons existing actions = collect_map (
    filter_map (λ a. replacement_with existing a a.installed_instance a.installed_header_sha256)
      (filter (λ a. not (is_install a)) actions))

abbrev pub first_of {ℓ} : {A : Type ℓ} → Option A → A → A
first_of none a = a
first_of (some b) a = b

abbrev reason_of_record : Option ReasonRecord → PackageReason → PackageReason
reason_of_record none reason = reason
reason_of_record (some r) reason = r.reason

-- The reason that is recorded for one item of the reconciliation.
abbrev pub next_reason :
    SolverPolicy
    → List (PlannedIdentity × PackageReason)
    → List (Exact × ReasonRecord)
    → PlannedIdentity
    → Exact
    → Text
    → ReasonDecision
    → PackageReason
next_reason policy replacements existing target exact name decision =
    if is_fixed policy name
    then user
    else first_of (get replacements target)
        (reason_of_record (get existing exact) (decided decision))

-- The record of an item, given the installed package at its identity.
abbrev pub record_found :
    SolverPolicy
    → List (PlannedIdentity × PackageReason)
    → List (Exact × ReasonRecord)
    → ReconciledReason
    → Option InstalledPackage
    → Result StateError ReasonRecord
record_found policy replacements existing item none =
    err (corrupt (text "reconciled package disappeared"))
record_found policy replacements existing item (some p) = ok (record {
  db_instance = item.identity.db_instance;
  header_sha256 = item.identity.header_sha256;
  package_name = item.package_name;
  reason =
      next_reason policy replacements existing
        (record { package_name = item.package_name; target_evra = p.evra })
        (item.identity.db_instance, item.identity.header_sha256) item.package_name item.decision;
})

abbrev pub next_record :
    SolverPolicy
    → List (PlannedIdentity × PackageReason)
    → List (Exact × ReasonRecord)
    → List (Exact × InstalledPackage)
    → ReconciledReason
    → Result StateError ReasonRecord
next_record policy replacements existing after_by_identity item =
    record_found policy replacements existing item
      (get after_by_identity (item.identity.db_instance, item.identity.header_sha256))

-- The body of `record_success` between reading the state and writing it.
unfoldable pub success_records :
    InstalledInventory
    → InstalledInventory
    → List PackageAction
    → SolverPolicy
    → List ReasonRecord
    → Result StateError (List ReasonRecord)
unfolding reconcile_reasons
success_records before after actions policy records =
    let existing = existing_of records in
    let protected = map (λ p. p.name) (filter (λ p. is_protected policy p.name) after.packages) in
    let installonly =
      map (λ p. p.name)
        (filter (λ p. is_installonly policy p.name || is_running_kernel policy p.name)
          after.packages) in
    let reconciled =
      reconcile_reasons before after (proposals_from_plan actions) protected installonly in
    let after_by_identity = collect_map (map (λ p. (exact_of p, p)) after.packages) in
    collect (next_record policy (replacement_reasons existing actions) existing after_by_identity)
      reconciled
    >>= λ next. ok (sort next)
