-- ===== src/Core/PackageAction.antt =====
-- crates/dnfast-core/src/plan.rs: one action of a plan, its check, and the canonical list of
-- actions. Its constructor functions are in the child `Build`.
pub mod Build
pub mod Canonical
pub mod Shape
use dnfast.Base.{
  ℕ, zero, suc, String, Text, text, decimal, Bool, true, false, ◌&&◌, ◌||◌, not, Option, none, some,
  List, [], ◌∷◌, ◌++◌, ◌≡◌, refl, Order, nat_order, list_order, option_order, pair_order, order_by,
  same, contains, is_empty, is_some, is_none, sort, length, ltb, if◌then◌else◌, Result, ok, err,
  reject, map_err, ◌>>=◌, ◌>>◌,
}
use dnfast.Core.Value.{
  DomainError, empty, invalid_plan, unsafe_action, duplicate, DecodeError, rejected, Sha256Digest,
  Sha256Digest_order, Evra, Evra_order, validate_evra, as_rpm_arch,
}
use dnfast.Core.Policy.{
  PackageReason, user, dependency, weak_dependency, external, unknown, PackageReason_order,
}

pub data PackageOperation : Type 0 where
  install upgrade downgrade reinstall remove : PackageOperation

abbrev pub operation_index : PackageOperation → ℕ
operation_index install = 0
operation_index upgrade = 1
operation_index downgrade = 2
operation_index reinstall = 3
operation_index remove = 4

abbrev pub index_operation : ℕ → PackageOperation
index_operation zero = install
index_operation (suc zero) = upgrade
index_operation (suc (suc zero)) = downgrade
index_operation (suc (suc (suc zero))) = reinstall
index_operation (suc (suc (suc (suc n)))) = remove

pub index_operation-operation_index :
    (o : PackageOperation) → index_operation (operation_index o) ≡ o
index_operation-operation_index install = refl
index_operation-operation_index upgrade = refl
index_operation-operation_index downgrade = refl
index_operation-operation_index reinstall = refl
index_operation-operation_index remove = refl

instance abbrev pub PackageOperation_order : Order PackageOperation
PackageOperation_order =
    order_by nat_order operation_index index_operation index_operation-operation_index

pub data ActionProvenance : Type 0 where
  obsoleted_by : Text → ActionProvenance

abbrev pub parent_action_identity : ActionProvenance → Text
parent_action_identity (obsoleted_by parent) = parent

pub obsoleted_by-parent : (p : ActionProvenance) → obsoleted_by (parent_action_identity p) ≡ p
obsoleted_by-parent (obsoleted_by parent) = refl

instance abbrev pub ActionProvenance_order : Order ActionProvenance
ActionProvenance_order = order_by list_order parent_action_identity obsoleted_by obsoleted_by-parent

pub record PackageAction : Type 0 where
  pub operation : PackageOperation
  pub name : Text
  pub target_evra : Evra
  pub installed_evra : Option Evra
  pub installed_instance : Option ℕ  -- u64
  pub installed_header_sha256 : Option Sha256Digest
  pub installed_vendor : Option Text
  pub candidate_vendor : Option Text
  pub repo_id : Option Text
  pub reason : PackageReason
  pub provenance : Option ActionProvenance

abbrev pub ActionTuple : Type 0
ActionTuple =
    PackageOperation
    × (Text
        × (Evra
            × (Option Evra
                × (Option ℕ
                    × (Option Sha256Digest
                        × (Option Text
                            × (Option Text
                                × (Option Text × (PackageReason × Option ActionProvenance)))))))))

abbrev pub action_tuple : PackageAction → ActionTuple
action_tuple a = (
  a.operation,
  (
    a.name,
    (
      a.target_evra,
      (
        a.installed_evra,
        (
          a.installed_instance,
          (
            a.installed_header_sha256,
            (a.installed_vendor, (a.candidate_vendor, (a.repo_id, (a.reason, a.provenance)))),
          ),
        ),
      ),
    ),
  ),
)

abbrev pub tuple_action : ActionTuple → PackageAction
tuple_action (o, (n, (t, (e, (i, (h, (v, (c, (r, (w, p)))))))))) = record {
  operation = o;
  name = n;
  target_evra = t;
  installed_evra = e;
  installed_instance = i;
  installed_header_sha256 = h;
  installed_vendor = v;
  candidate_vendor = c;
  repo_id = r;
  reason = w;
  provenance = p;
}

instance abbrev pub PackageAction_order : Order PackageAction
PackageAction_order = order_by pair_order action_tuple tuple_action (λ a. refl)

-- `PackageAction::action_identity`, "{repo}:{name}-{epoch}:{version}-{release}.{arch}".
identity_in : PackageAction → Text → Text
identity_in a repo =
    repo
    ++ (text ":"
        ++ (a.name
            ++ (text "-"
                ++ (decimal a.target_evra.epoch
                    ++ (text ":"
                        ++ (a.target_evra.version
                            ++ (text "-"
                                ++ (a.target_evra.release
                                    ++ (text "." ++ as_rpm_arch a.target_evra.arch)))))))))

identity_with : PackageAction → Option Text → Option Text
unfolding identity_in
identity_with a none = none
identity_with a (some repo) = some (identity_in a repo)

unfoldable pub action_identity : PackageAction → Option Text
unfolding identity_with
action_identity a = identity_with a a.repo_id

-- `as_deref().is_none_or(str::is_empty)`.
abbrev pub none_or_empty : Option Text → Bool
none_or_empty none = true
none_or_empty (some s) = is_empty s

abbrev pub requires_keep : PackageReason → Bool
requires_keep external = true
requires_keep unknown = true
requires_keep _ = false

-- The arms of the `match` of `PackageAction::validate` that concern the replacements.
validate_replacement : PackageAction → Result DomainError (Unit {0})
validate_replacement a = do
  reject (none_or_empty a.repo_id) (invalid_plan "install/replacement action requires repo")
  reject
      (is_none a.installed_evra
        || (is_none a.installed_vendor
            || (none_or_empty a.candidate_vendor
                || (is_none a.installed_instance || is_none a.installed_header_sha256))))
      (invalid_plan "replacement requires installed and candidate identity")
  reject (is_some a.provenance)
      (invalid_plan "install/replacement cannot carry side-effect provenance")
  ok tt

-- The arms of the `match`, by operation, in their order.
validate_operation : PackageOperation → PackageAction → Result DomainError (Unit {0})
unfolding validate_replacement
validate_operation install a = do
  reject (none_or_empty a.repo_id) (invalid_plan "install/replacement action requires repo")
  reject
      (is_some a.installed_evra
        || (is_some a.installed_instance
            || (is_some a.installed_header_sha256 || is_some a.installed_vendor)))
      (invalid_plan "install cannot carry installed package")
  reject (none_or_empty a.candidate_vendor) (invalid_plan "install requires candidate vendor")
  reject (is_some a.provenance)
      (invalid_plan "install/replacement cannot carry side-effect provenance")
  ok tt
validate_operation upgrade a = validate_replacement a
validate_operation downgrade a = validate_replacement a
validate_operation reinstall a = validate_replacement a
validate_operation remove a = do
  reject (is_some a.repo_id) (invalid_plan "remove action cannot have repo")
  reject (requires_keep a.reason) (unsafe_action "package reason requires keep")
  reject
      (not (same a.installed_evra (some a.target_evra))
        || (is_none a.installed_vendor
            || (is_none a.installed_instance || is_none a.installed_header_sha256)))
      (invalid_plan "remove requires exact installed identity")
  reject (is_some a.candidate_vendor) (invalid_plan "remove cannot carry candidate vendor")
  ok tt

-- `PackageAction::validate`.
unfoldable pub validate_package_action : PackageAction → Result DomainError (Unit {0})
unfolding validate_operation
validate_package_action a = do
  reject (is_empty a.name) (empty "action_name")
  validate_evra a.target_evra
  validate_operation a.operation a

unfoldable pub decode_package_action : PackageAction → Result DecodeError PackageAction
unfolding validate_package_action
decode_package_action raw = do map_err rejected (validate_package_action raw); ok raw

abbrev pub max_plan_actions : ℕ
max_plan_actions = 100000

abbrev pub Identity : Type 0
Identity = PackageOperation × (Text × Evra)

abbrev pub identity : PackageAction → Identity
identity a = (a.operation, (a.name, a.target_evra))

-- The loop of `canonical_actions`, with the identities that it has seen.
check_actions : List Identity → List PackageAction → Result DomainError (Unit {0})
check_actions seen [] = ok tt
check_actions seen (a ∷ actions) = validate_package_action a >>= λ _.
    reject (contains seen (identity a)) (duplicate a.name) >>= λ _.
    check_actions (identity a ∷ seen) actions

unfoldable pub canonical_actions : List PackageAction → Result DomainError (List PackageAction)
unfolding check_actions
canonical_actions actions = do
  reject (ltb max_plan_actions (length actions)) (invalid_plan "action limit exceeded")
  check_actions [] (sort actions)
  ok (sort actions)
