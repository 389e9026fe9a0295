-- ===== src/Core/PackageAction/Build.antt =====
-- The constructor functions of `PackageAction` in crates/dnfast-core/src/plan.rs.
use dnfast.Base.{ℕ, Text, text, none, some, Result, ok, ◌>>=◌}
use dnfast.Core.Value.{DomainError, Evra, parse_digest}
use dnfast.Core.Policy.{PackageReason}
use dnfast.Core.PackageAction.{
  install, upgrade, downgrade, reinstall, remove, obsoleted_by, PackageAction,
}

unfoldable pub install_action : Text → Evra → Text → PackageReason → PackageAction
install_action name evra repo_id reason = record {
  operation = install;
  name = name;
  target_evra = evra;
  installed_evra = none;
  installed_instance = none;
  installed_header_sha256 = none;
  installed_vendor = none;
  candidate_vendor = some (text "unknown");
  repo_id = some repo_id;
  reason = reason;
  provenance = none;
}

unfoldable pub install_with_vendor : Text → Evra → Text → Text → PackageReason → PackageAction
install_with_vendor name evra repo_id vendor reason = record {
  operation = install;
  name = name;
  target_evra = evra;
  installed_evra = none;
  installed_instance = none;
  installed_header_sha256 = none;
  installed_vendor = none;
  candidate_vendor = some vendor;
  repo_id = some repo_id;
  reason = reason;
  provenance = none;
}

unfoldable pub remove_action : Text → Evra → PackageReason → PackageAction
remove_action name evra reason = record {
  operation = remove;
  name = name;
  target_evra = evra;
  installed_evra = some evra;
  installed_instance = none;
  installed_header_sha256 = none;
  installed_vendor = some (text "unknown");
  candidate_vendor = none;
  repo_id = none;
  reason = reason;
  provenance = none;
}

unfoldable pub remove_with_vendor : Text → Evra → Text → PackageReason → PackageAction
remove_with_vendor name evra vendor reason = record {
  operation = remove;
  name = name;
  target_evra = evra;
  installed_evra = some evra;
  installed_instance = none;
  installed_header_sha256 = none;
  installed_vendor = some vendor;
  candidate_vendor = none;
  repo_id = none;
  reason = reason;
  provenance = none;
}

unfoldable pub upgrade_action :
    Text → Evra → Evra → Text → Text → Text → PackageReason → PackageAction
upgrade_action name installed_evra target_evra repo_id installed_vendor candidate_vendor reason =
    record {
      operation = upgrade;
      name = name;
      target_evra = target_evra;
      installed_evra = some installed_evra;
      installed_instance = none;
      installed_header_sha256 = none;
      installed_vendor = some installed_vendor;
      candidate_vendor = some candidate_vendor;
      repo_id = some repo_id;
      reason = reason;
      provenance = none;
    }

unfoldable pub downgrade_action :
    Text → Evra → Evra → Text → Text → Text → PackageReason → PackageAction
downgrade_action name installed_evra target_evra repo_id installed_vendor candidate_vendor reason =
    record {
      operation = downgrade;
      name = name;
      target_evra = target_evra;
      installed_evra = some installed_evra;
      installed_instance = none;
      installed_header_sha256 = none;
      installed_vendor = some installed_vendor;
      candidate_vendor = some candidate_vendor;
      repo_id = some repo_id;
      reason = reason;
      provenance = none;
    }

unfoldable pub reinstall_action :
    Text → Evra → Evra → Text → Text → Text → PackageReason → PackageAction
reinstall_action name installed_evra target_evra repo_id installed_vendor candidate_vendor reason =
    record {
      operation = reinstall;
      name = name;
      target_evra = target_evra;
      installed_evra = some installed_evra;
      installed_instance = none;
      installed_header_sha256 = none;
      installed_vendor = some installed_vendor;
      candidate_vendor = some candidate_vendor;
      repo_id = some repo_id;
      reason = reason;
      provenance = none;
    }

unfoldable pub remove_obsoleted : Text → Evra → Text → PackageReason → Text → PackageAction
remove_obsoleted name evra vendor reason parent = record {
  operation = remove;
  name = name;
  target_evra = evra;
  installed_evra = some evra;
  installed_instance = none;
  installed_header_sha256 = none;
  installed_vendor = some vendor;
  candidate_vendor = none;
  repo_id = none;
  reason = reason;
  provenance = some (obsoleted_by parent);
}

unfoldable pub remove_with_identity :
    Text → Evra → Text → PackageReason → ℕ → Text → Result DomainError PackageAction
remove_with_identity name evra vendor reason instance_id header_sha256 = do
  header ← parse_digest header_sha256 "installed_header_sha256"
  ok (record {
    operation = remove;
    name = name;
    target_evra = evra;
    installed_evra = some evra;
    installed_instance = some instance_id;
    installed_header_sha256 = some header;
    installed_vendor = some vendor;
    candidate_vendor = none;
    repo_id = none;
    reason = reason;
    provenance = none;
  })

unfoldable pub remove_obsoleted_with_identity :
    Text → Evra → Text → PackageReason → ℕ → Text → Text → Result DomainError PackageAction
remove_obsoleted_with_identity name evra vendor reason instance_id header_sha256 parent = do
  header ← parse_digest header_sha256 "installed_header_sha256"
  ok (record {
    operation = remove;
    name = name;
    target_evra = evra;
    installed_evra = some evra;
    installed_instance = some instance_id;
    installed_header_sha256 = some header;
    installed_vendor = some vendor;
    candidate_vendor = none;
    repo_id = none;
    reason = reason;
    provenance = some (obsoleted_by parent);
  })

unfoldable pub upgrade_with_identity :
    Text
    → Evra
    → Evra
    → Text
    → Text
    → Text
    → PackageReason
    → ℕ
    → Text
    → Result DomainError PackageAction
upgrade_with_identity name installed_evra target_evra repo_id installed_vendor candidate_vendor
      reason instance_id header_sha256 =
    do
      header ← parse_digest header_sha256 "installed_header_sha256"
      ok (record {
        operation = upgrade;
        name = name;
        target_evra = target_evra;
        installed_evra = some installed_evra;
        installed_instance = some instance_id;
        installed_header_sha256 = some header;
        installed_vendor = some installed_vendor;
        candidate_vendor = some candidate_vendor;
        repo_id = some repo_id;
        reason = reason;
        provenance = none;
      })

unfoldable pub downgrade_with_identity :
    Text
    → Evra
    → Evra
    → Text
    → Text
    → Text
    → PackageReason
    → ℕ
    → Text
    → Result DomainError PackageAction
downgrade_with_identity name installed_evra target_evra repo_id installed_vendor candidate_vendor
      reason instance_id header_sha256 =
    do
      header ← parse_digest header_sha256 "installed_header_sha256"
      ok (record {
        operation = downgrade;
        name = name;
        target_evra = target_evra;
        installed_evra = some installed_evra;
        installed_instance = some instance_id;
        installed_header_sha256 = some header;
        installed_vendor = some installed_vendor;
        candidate_vendor = some candidate_vendor;
        repo_id = some repo_id;
        reason = reason;
        provenance = none;
      })

unfoldable pub reinstall_with_identity :
    Text
    → Evra
    → Evra
    → Text
    → Text
    → Text
    → PackageReason
    → ℕ
    → Text
    → Result DomainError PackageAction
reinstall_with_identity name installed_evra target_evra repo_id installed_vendor candidate_vendor
      reason instance_id header_sha256 =
    do
      header ← parse_digest header_sha256 "installed_header_sha256"
      ok (record {
        operation = reinstall;
        name = name;
        target_evra = target_evra;
        installed_evra = some installed_evra;
        installed_instance = some instance_id;
        installed_header_sha256 = some header;
        installed_vendor = some installed_vendor;
        candidate_vendor = some candidate_vendor;
        repo_id = some repo_id;
        reason = reason;
        provenance = none;
      })
