-- ===== src/Core/Samples.antt =====
-- Concrete values for the tests of the core.
use dnfast.Base.{Text, text, some, [], ◌∷◌, true, false, none}
use dnfast.Core.Value.{Evra, x86_64, noarch, Sha256Digest}
use dnfast.Core.Policy.{SolverPolicy, dependency, user}
use dnfast.Core.Integrity.{RepositoryBinding, PlanIntegrity}
use dnfast.Core.Intent.{Action, PackageSpec, TransactionIntent}
use dnfast.Core.PackageAction.{PackageOperation, PackageAction}
use dnfast.Core.Plan.{PlanEnvelope}

abbrev pub hash : Text
hash = text "e3b0c44298fc1c149afbf4c8996fb92427ae41e4649b934ca495991b7852b855"

abbrev pub digest : Sha256Digest
digest = record { hex = hash }

abbrev pub old_version : Evra
old_version = record { epoch = 0; version = text "5.2.15"; release = text "1.fc44"; arch = x86_64 }

abbrev pub new_version : Evra
new_version = record { epoch = 0; version = text "5.2.26"; release = text "1.fc44"; arch = x86_64 }

abbrev pub fedora : RepositoryBinding
fedora = record {
  id = text "fedora";
  generation_sha256 = digest;
  origin_sha256 = digest;
  trust_sha256 = digest;
}

abbrev pub integrity : PlanIntegrity
integrity = record {
  policy_sha256 = digest;
  trust_sha256 = digest;
  inventory_sha256 = digest;
  metadata_sha256 = digest;
  planning_snapshot_sha256 = digest;
  selected_repositories = fedora ∷ [];
}

abbrev pub bash : PackageSpec
bash = record { name = text "bash" }

abbrev pub curl : PackageSpec
curl = record { name = text "curl" }

abbrev pub upgrade_bash : TransactionIntent
upgrade_bash = record { schema = 1; action = Action.upgrade; packages = bash ∷ [] }

abbrev pub bash_upgrade : PackageAction
bash_upgrade = record {
  operation = PackageOperation.upgrade;
  name = text "bash";
  target_evra = new_version;
  installed_evra = some old_version;
  installed_instance = some 17;
  installed_header_sha256 = some digest;
  installed_vendor = some (text "Fedora Project");
  candidate_vendor = some (text "Fedora Project");
  repo_id = some (text "fedora");
  reason = user;
  provenance = none;
}

abbrev pub libs_install : PackageAction
libs_install = record {
  operation = PackageOperation.install;
  name = text "bash-libs";
  target_evra = new_version;
  installed_evra = none;
  installed_instance = none;
  installed_header_sha256 = none;
  installed_vendor = none;
  candidate_vendor = some (text "Fedora Project");
  repo_id = some (text "fedora");
  reason = dependency;
  provenance = none;
}

abbrev pub plan : PlanEnvelope
plan = record {
  schema = 2;
  install_root = text "/";
  intent = upgrade_bash;
  policy_sha256 = digest;
  trust_sha256 = digest;
  inventory_sha256 = digest;
  metadata_sha256 = digest;
  planning_snapshot_sha256 = digest;
  selected_repositories = fedora ∷ [];
  expires_at_unix = 1000;
  actions = libs_install ∷ bash_upgrade ∷ [];
}

abbrev pub policy : SolverPolicy
policy = record {
  schema = 1;
  install_weak_deps = true;
  best = false;
  base_arch = x86_64;
  allowed_arches = x86_64 ∷ noarch ∷ [];
  allow_multilib = false;
  allow_vendor_change = false;
  upgrade_only = true;
  repo_preferences = [];
  protected_packages = text "dnf5" ∷ text "systemd" ∷ [];
  installonly_packages = text "kernel" ∷ [];
  running_kernel_name = some (text "kernel-core");
  excludes = [];
}
