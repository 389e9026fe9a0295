-- ===== src/Core/PackageAction/Shape.antt =====
-- Which actions the check of crates/dnfast-core/src/plan.rs admits, and which constructors make
-- them.
use dnfast.Base.{
  ◌>>=◌, ℕ, Text, true, false, none, some, ◌≡◌, refl, arith, is_empty, is_some, same_self, same→eq,
  ok, ◌↔◌, option_order, nat_order, list_order,
}
use dnfast.Core.Value.{Evra, Evra_order, validate_evra, parse_digest, Sha256Digest}
use dnfast.Core.Policy.{PackageReason}
use dnfast.Core.PackageAction.{
  PackageOperation, install, upgrade, downgrade, reinstall, remove, PackageAction,
  validate_package_action, none_or_empty, requires_keep,
}
use dnfast.Core.PackageAction.Build.{
  remove_with_vendor, upgrade_action, downgrade_action, reinstall_action, remove_with_identity,
  upgrade_with_identity, downgrade_with_identity, reinstall_with_identity,
}

-- An installation names a repository and a vendor and no installed package.
pub record IsInstallation (a : PackageAction) : Type 0 where
  pub from_repo : none_or_empty a.repo_id ≡ false
  pub from_vendor : none_or_empty a.candidate_vendor ≡ false
  pub fresh : a.installed_evra ≡ none
  pub no_instance : a.installed_instance ≡ none
  pub no_header : a.installed_header_sha256 ≡ none
  pub no_vendor : a.installed_vendor ≡ none
  pub no_cause : a.provenance ≡ none

-- A replacement names both sides: the repository and vendor of the candidate, and the version,
-- instance, header and vendor of the installed package.
pub record IsReplacement (a : PackageAction) : Type 0 where
  pub from_repo : none_or_empty a.repo_id ≡ false
  pub from_vendor : none_or_empty a.candidate_vendor ≡ false
  pub replaced : is_some a.installed_evra ≡ true
  pub replaced_vendor : is_some a.installed_vendor ≡ true
  pub replaced_instance : is_some a.installed_instance ≡ true
  pub replaced_header : is_some a.installed_header_sha256 ≡ true
  pub no_cause : a.provenance ≡ none

-- A removal names the exact installed package and neither repository nor candidate, and never a
-- package whose reason is external or unknown.
pub record IsRemoval (a : PackageAction) : Type 0 where
  pub no_repo : a.repo_id ≡ none
  pub no_candidate : a.candidate_vendor ≡ none
  pub removed : a.installed_evra ≡ some a.target_evra
  pub removed_vendor : is_some a.installed_vendor ≡ true
  pub removed_instance : is_some a.installed_instance ≡ true
  pub removed_header : is_some a.installed_header_sha256 ≡ true
  pub may_go : requires_keep a.reason ≡ false

abbrev pub HasShape : PackageOperation → PackageAction → Type 0
HasShape install a = IsInstallation a
HasShape upgrade a = IsReplacement a
HasShape downgrade a = IsReplacement a
HasShape reinstall a = IsReplacement a
HasShape remove a = IsRemoval a

valid_shape :
    (o : PackageOperation) (a : PackageAction)
    → a.operation ≡ o
    → validate_package_action a ≡ ok tt
    → HasShape o a
unfolding validate_package_action
valid_shape install a e h = ground arith
valid_shape upgrade a e h = ground arith
valid_shape downgrade a e h = ground arith
valid_shape reinstall a e h = ground arith
valid_shape remove a e h = ground (arith, same→eq a.installed_evra (some a.target_evra))

-- An action that passes its check has the shape of its operation.
pub validate_package_action-HasShape :
    (a : PackageAction) → validate_package_action a ≡ ok tt → HasShape a.operation a
validate_package_action-HasShape a h = valid_shape a.operation a refl h

shape_valid :
    (o : PackageOperation) (a : PackageAction)
    → a.operation ≡ o
    → is_empty a.name ≡ false
    → validate_evra a.target_evra ≡ ok tt
    → HasShape o a
    → validate_package_action a ≡ ok tt
unfolding validate_package_action
shape_valid install a e n v h = ground arith
shape_valid upgrade a e n v h = ground arith
shape_valid downgrade a e n v h = ground arith
shape_valid reinstall a e n v h = ground arith
shape_valid remove a e n v h = ground (arith, same_self (some a.target_evra))

valid_name :
    (a : PackageAction)
    → validate_package_action a ≡ ok tt
    → (is_empty a.name ≡ false) × (validate_evra a.target_evra ≡ ok tt)
unfolding validate_package_action
valid_name a h = ground arith

-- An action passes its check exactly when it has a name, a complete target version and the shape
-- of its operation.
pub validate_package_action-exact :
    (a : PackageAction)
    → validate_package_action a ≡ ok tt
      ↔ ((is_empty a.name ≡ false) × (validate_evra a.target_evra ≡ ok tt) × HasShape a.operation a)
validate_package_action-exact a = (
  λ h. ((valid_name a h).0, (valid_name a h).1, valid_shape a.operation a refl h),
  λ h. shape_valid a.operation a refl h.0 h.1 h.2,
)

module _ (name : Text) (i t : Evra) (repo iv cv : Text) (reason : PackageReason) where
  -- Replacements built without an installed identity never pass the check.
  pub replacement_needs_identity :
      ¬ (validate_package_action (upgrade_action name i t repo iv cv reason) ≡ ok tt)
      × ¬ (validate_package_action (downgrade_action name i t repo iv cv reason) ≡ ok tt)
      × ¬ (validate_package_action (reinstall_action name i t repo iv cv reason) ≡ ok tt)
      × ¬ (validate_package_action (remove_with_vendor name i iv reason) ≡ ok tt)
  unfolding validate_package_action upgrade_action downgrade_action reinstall_action
      remove_with_vendor
  replacement_needs_identity =
      (λ h. ground arith, λ h. ground arith, λ h. ground arith, λ h. ground arith)

  module _ (instance_id : ℕ) (header : Text) where
    -- A replacement built with an installed identity passes the check whenever the name, the
    -- versions, the repository and the candidate's vendor are not empty and the header digest is
    -- one, whatever the reason; a removal then passes exactly if its reason need not be kept.
    pub with_identity-valid :
        {digest : Sha256Digest}
        → is_empty name ≡ false
        → validate_evra i ≡ ok tt
        → validate_evra t ≡ ok tt
        → is_empty repo ≡ false
        → is_empty cv ≡ false
        → parse_digest header "installed_header_sha256" ≡ ok digest
        → ((upgrade_with_identity name i t repo iv cv reason instance_id header >>= λ a.
              validate_package_action a)
            ≡ ok tt)
          × ((downgrade_with_identity name i t repo iv cv reason instance_id header >>= λ a.
                validate_package_action a)
              ≡ ok tt)
          × ((reinstall_with_identity name i t repo iv cv reason instance_id header >>= λ a.
                validate_package_action a)
              ≡ ok tt)
          × ((remove_with_identity name i iv reason instance_id header >>= λ a.
                  validate_package_action a)
                ≡ ok tt
              ↔ (requires_keep reason ≡ false))
    unfolding validate_package_action upgrade_with_identity downgrade_with_identity
        reinstall_with_identity remove_with_identity
    with_identity-valid n vi vt r c d = (
      ground arith,
      ground arith,
      ground arith,
      (λ h. ground arith, λ k. ground (arith, same_self (some i))),
    )
