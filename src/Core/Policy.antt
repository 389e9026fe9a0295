-- ===== src/Core/Policy.antt =====
-- crates/dnfast-core/src/policy.rs: package reasons, candidate replacements and the solver policy.
-- A `BTreeSet` is its strictly ascending list of members.
pub mod Safety
use dnfast.Base.{
  ℕ, zero, suc, String, Text, Bool, true, false, ◌&&◌, ◌||◌, not, Option, none, some, List, [], ◌∷◌,
  ◌++◌, ◌≡◌, refl, Order, nat_order, list_order, option_order, pair_order, order_by, same, contains,
  is_empty, any, sort, dedup, length, out_of_order, ◌==◌, if◌then◌else◌, Result, ok, err, reject,
  map_err, ◌>>=◌, ◌>>◌,
}
use dnfast.Core.Value.{
  DomainError, empty, schema_version, architecture, unsafe_action, non_canonical, DecodeError,
  custom, rejected, Architecture, aarch64, x86_64, noarch, Architecture_order, Evra, Evra_order,
  validate_evra, is_strictly_newer_than,
}

pub data PackageReason : Type 0 where
  user dependency weak_dependency external unknown : PackageReason

abbrev pub reason_index : PackageReason → ℕ
reason_index user = 0
reason_index dependency = 1
reason_index weak_dependency = 2
reason_index external = 3
reason_index unknown = 4

abbrev pub index_reason : ℕ → PackageReason
index_reason zero = user
index_reason (suc zero) = dependency
index_reason (suc (suc zero)) = weak_dependency
index_reason (suc (suc (suc zero))) = external
index_reason (suc (suc (suc (suc n)))) = unknown

pub index_reason-reason_index : (r : PackageReason) → index_reason (reason_index r) ≡ r
index_reason-reason_index user = refl
index_reason-reason_index dependency = refl
index_reason-reason_index weak_dependency = refl
index_reason-reason_index external = refl
index_reason-reason_index unknown = refl

instance abbrev pub PackageReason_order : Order PackageReason
PackageReason_order = order_by nat_order reason_index index_reason index_reason-reason_index

abbrev pub is_autoremove_candidate : PackageReason → Bool
is_autoremove_candidate dependency = true
is_autoremove_candidate weak_dependency = true
is_autoremove_candidate _ = false

pub data ReplacementOperation : Type 0 where
  upgrade downgrade reinstall : ReplacementOperation

pub record Replacement : Type 0 where
  pub operation : ReplacementOperation
  pub installed : Evra
  pub candidate : Evra
  pub installed_vendor : Text
  pub candidate_vendor : Text

-- `CandidateAction`; the fields of its variant `Replace` are the record above.
pub data CandidateAction : Type 0 where
  replace : Replacement → CandidateAction
  deferred : String → CandidateAction

unfoldable pub candidate_upgrade : Evra → Evra → Text → Text → CandidateAction
candidate_upgrade installed candidate installed_vendor candidate_vendor = replace (record {
  operation = upgrade;
  installed = installed;
  candidate = candidate;
  installed_vendor = installed_vendor;
  candidate_vendor = candidate_vendor;
})

unfoldable pub candidate_downgrade : Evra → Evra → Text → Text → CandidateAction
candidate_downgrade installed candidate installed_vendor candidate_vendor = replace (record {
  operation = downgrade;
  installed = installed;
  candidate = candidate;
  installed_vendor = installed_vendor;
  candidate_vendor = candidate_vendor;
})

unfoldable pub candidate_reinstall : Evra → Evra → Text → Text → CandidateAction
candidate_reinstall installed candidate installed_vendor candidate_vendor = replace (record {
  operation = reinstall;
  installed = installed;
  candidate = candidate;
  installed_vendor = installed_vendor;
  candidate_vendor = candidate_vendor;
})

unfoldable pub distro_sync : CandidateAction
distro_sync = deferred "distro-sync"

unfoldable pub vendor_switch : CandidateAction
vendor_switch = deferred "vendor switch"

unfoldable pub arch_switch : CandidateAction
arch_switch = deferred "architecture switch"

pub record RepoPreference : Type 0 where
  pub priority : ℕ  -- u32
  pub cost : ℕ  -- u32
  pub repo_id : Text

abbrev pub preference_tuple : RepoPreference → ℕ × (ℕ × Text)
preference_tuple r = (r.priority, (r.cost, r.repo_id))

abbrev pub tuple_preference : ℕ × (ℕ × Text) → RepoPreference
tuple_preference (p, (c, i)) = record { priority = p; cost = c; repo_id = i }

instance abbrev pub RepoPreference_order : Order RepoPreference
RepoPreference_order = order_by pair_order preference_tuple tuple_preference (λ r. refl)

-- `RepoPreference::new`.
unfoldable pub new_preference : Text → ℕ → ℕ → Result DomainError RepoPreference
new_preference repo_id priority cost = do
  reject (is_empty repo_id) (empty "repo_id")
  ok (record { priority = priority; cost = cost; repo_id = repo_id })

unfoldable pub decode_preference : RepoPreference → Result DecodeError RepoPreference
unfolding new_preference
decode_preference raw = map_err rejected (new_preference raw.repo_id raw.priority raw.cost)

pub record SolverPolicy : Type 0 where
  pub schema : ℕ  -- schema_version: u32
  pub install_weak_deps : Bool
  pub best : Bool
  pub base_arch : Architecture
  pub allowed_arches : List Architecture
  pub allow_multilib : Bool
  pub allow_vendor_change : Bool
  pub upgrade_only : Bool
  pub repo_preferences : List RepoPreference
  pub protected_packages : List Text
  pub installonly_packages : List Text
  pub running_kernel_name : Option Text
  pub excludes : List Text

-- `collect::<BTreeSet<_>>()`.
abbrev pub to_set {ℓ} : {A : Type ℓ} ⦃o : Order A⦄ → List A → List A
to_set xs = dedup (sort xs)

unfoldable pub fedora44 : Architecture → List Text → List Text → SolverPolicy
fedora44 base_arch protected installonly = record {
  schema = 1;
  install_weak_deps = true;
  best = false;
  base_arch = base_arch;
  allowed_arches = to_set (base_arch ∷ noarch ∷ []);
  allow_multilib = false;
  allow_vendor_change = false;
  upgrade_only = true;
  repo_preferences = [];
  protected_packages = to_set protected;
  installonly_packages = to_set installonly;
  running_kernel_name = none;
  excludes = [];
}

unfoldable pub fedora44_aarch64 : List Text → List Text → SolverPolicy
unfolding fedora44
fedora44_aarch64 protected installonly = fedora44 aarch64 protected installonly

unfoldable pub fedora44_x86_64 : List Text → List Text → SolverPolicy
unfolding fedora44
fedora44_x86_64 protected installonly = fedora44 x86_64 protected installonly

unfoldable pub with_repositories : SolverPolicy → List RepoPreference → SolverPolicy
with_repositories policy repositories = record policy { repo_preferences = sort repositories }

unfoldable pub with_excludes : SolverPolicy → List Text → SolverPolicy
with_excludes policy excluded = record policy { excludes = to_set excluded }

unfoldable pub with_running_kernel_name : SolverPolicy → Text → SolverPolicy
with_running_kernel_name policy name = record policy { running_kernel_name = some name }

unfoldable pub validate_action : CandidateAction → Result DomainError (Unit {0})
validate_action (replace r) = ok tt
validate_action (deferred name) = err (unsafe_action name)

abbrev pub is_excluded : SolverPolicy → Text → Bool
is_excluded policy name = contains policy.excludes name

abbrev pub is_protected : SolverPolicy → Text → Bool
is_protected policy name = contains policy.protected_packages name

abbrev pub is_installonly : SolverPolicy → Text → Bool
is_installonly policy name = contains policy.installonly_packages name

abbrev pub is_running_kernel : SolverPolicy → Text → Bool
is_running_kernel policy name = same policy.running_kernel_name (some name)

-- `validate_replacement_identity`.
unfoldable pub validate_replacement_identity : Replacement → Result DomainError (Unit {0})
validate_replacement_identity r = do
  validate_evra r.installed
  validate_evra r.candidate
  reject (not (same r.installed.arch r.candidate.arch)) (unsafe_action "architecture switch")
  reject (not (same r.installed_vendor r.candidate_vendor)) (unsafe_action "vendor switch")
  ok tt

upgrade_replacement : ReplacementOperation → Replacement → Result DomainError (Unit {0})
upgrade_replacement upgrade r = do
  validate_evra r.installed
  validate_evra r.candidate
  reject (not (same r.installed.arch r.candidate.arch)) (unsafe_action "architecture switch")
  reject (not (same r.installed_vendor r.candidate_vendor)) (unsafe_action "vendor switch")
  reject (not (is_strictly_newer_than r.candidate r.installed))
      (unsafe_action "candidate is not newer")
  ok tt
upgrade_replacement _ r = validate_action (replace r)

unfoldable pub validate_upgrade : CandidateAction → Result DomainError (Unit {0})
unfolding upgrade_replacement validate_action
validate_upgrade (replace r) = upgrade_replacement r.operation r
validate_upgrade (deferred name) = validate_action (deferred name)

downgrade_replacement : ReplacementOperation → Replacement → Result DomainError (Unit {0})
downgrade_replacement downgrade r = do
  validate_replacement_identity r
  reject (not (is_strictly_newer_than r.installed r.candidate))
      (unsafe_action "candidate is not older")
  ok tt
downgrade_replacement _ r = validate_action (replace r)

unfoldable pub validate_downgrade : CandidateAction → Result DomainError (Unit {0})
unfolding downgrade_replacement validate_action
validate_downgrade (replace r) = downgrade_replacement r.operation r
validate_downgrade (deferred name) = validate_action (deferred name)

reinstall_replacement : ReplacementOperation → Replacement → Result DomainError (Unit {0})
reinstall_replacement reinstall r = do
  validate_replacement_identity r
  reject (not (same r.installed r.candidate)) (unsafe_action "reinstall candidate differs")
  ok tt
reinstall_replacement _ r = validate_action (replace r)

unfoldable pub validate_reinstall : CandidateAction → Result DomainError (Unit {0})
unfolding reinstall_replacement validate_action
validate_reinstall (replace r) = reinstall_replacement r.operation r
validate_reinstall (deferred name) = validate_action (deferred name)

keep_reason : PackageReason → Result DomainError (Unit {0})
keep_reason user = ok tt
keep_reason dependency = ok tt
keep_reason weak_dependency = ok tt
keep_reason external = err (unsafe_action "package reason requires keep")
keep_reason unknown = err (unsafe_action "package reason requires keep")

unfoldable pub validate_removal :
    SolverPolicy → Text → PackageReason → Result DomainError (Unit {0})
unfolding keep_reason
validate_removal policy name reason = do
  reject (is_protected policy name) (unsafe_action "protected package removal")
  reject (is_installonly policy name) (unsafe_action "installonly package removal")
  reject (is_running_kernel policy name) (unsafe_action "running kernel removal")
  keep_reason reason

expected_arches : Architecture → Result DomainError (List Architecture)
expected_arches aarch64 = ok (aarch64 ∷ noarch ∷ [])
expected_arches x86_64 = ok (x86_64 ∷ noarch ∷ [])
expected_arches noarch = err architecture

abbrev names_itself_empty : Option Text → Bool
names_itself_empty none = false
names_itself_empty (some name) = is_empty name

-- `SolverPolicy::validate`, which `ensure_supported` calls too.
unfoldable pub validate_policy : SolverPolicy → Result DomainError (Unit {0})
unfolding expected_arches
validate_policy p = do
  reject (not (p.schema == 1)) (schema_version 1 p.schema)
  arches ← expected_arches p.base_arch
  reject (not (same p.allowed_arches arches)) architecture
  reject
      (not p.install_weak_deps
        || (p.best || (p.allow_multilib || (p.allow_vendor_change || not p.upgrade_only))))
      (unsafe_action "unsafe solver policy")
  reject (out_of_order p.repo_preferences) non_canonical
  reject (any (λ r. is_empty r.repo_id) p.repo_preferences) (empty "repo_id")
  reject
      (any is_empty (p.protected_packages ++ (p.installonly_packages ++ p.excludes))
        || names_itself_empty p.running_kernel_name)
      (empty "solver package name")
  ok tt

-- The `Deserialize` impl: the raw struct has plain lists where the policy has sets.
unfoldable pub decode_policy : SolverPolicy → Result DecodeError SolverPolicy
decode_policy raw =
    let value : SolverPolicy = record raw {
      allowed_arches = to_set raw.allowed_arches;
      protected_packages = to_set raw.protected_packages;
      installonly_packages = to_set raw.installonly_packages;
      excludes = to_set raw.excludes;
    } in
    do
      reject
          (not (length value.allowed_arches == length raw.allowed_arches)
            || (not (length value.protected_packages == length raw.protected_packages)
                || (not (length value.installonly_packages == length raw.installonly_packages)
                    || not (length value.excludes == length raw.excludes))))
          (custom "duplicate solver policy entry")
      map_err rejected (validate_policy value)
      ok value
