-- ===== src/Core/Policy/Safety.antt =====
-- What the checks of crates/dnfast-core/src/policy.rs admit.
use dnfast.Base.{
  Order, sort, dedup, ◌++◌, ◌↔◌, ◌≡◌, ◌∙◌, ap, refl, Text, true, false, List, [], arith, any,
  any-append, any-dedup-sort, sort-id, dedup-id, is_empty, out_of_order, same→eq, same_self,
  list_order, ok, nat_order,
}
use dnfast.Core.Value.{Evra, validate_evra, is_strictly_newer_than, Architecture_order, Evra_order}
use dnfast.Core.Value.VersionOrder.{is_strictly_newer_than-order}
use dnfast.Core.Policy.{
  SolverPolicy, candidate_upgrade, candidate_downgrade, candidate_reinstall, validate_upgrade,
  validate_downgrade, validate_reinstall, validate_replacement_identity, validate_policy,
  fedora44_aarch64, fedora44_x86_64, decode_policy, to_set, RepoPreference_order,
}

-- What an accepted upgrade is.
pub record IsUpgrade (installed candidate : Evra) (installed_vendor candidate_vendor : Text)
    : Type 0 where
  pub installed_valid : validate_evra installed ≡ ok tt
  pub candidate_valid : validate_evra candidate ≡ ok tt
  pub same_arch : installed.arch ≡ candidate.arch
  pub same_vendor : installed_vendor ≡ candidate_vendor
  pub newer : is_strictly_newer_than candidate installed ≡ true

-- What an accepted reinstallation is.
pub record IsReinstall (installed candidate : Evra) (installed_vendor candidate_vendor : Text)
    : Type 0 where
  pub installed_valid : validate_evra installed ≡ ok tt
  pub same_version : installed ≡ candidate
  pub same_vendor : installed_vendor ≡ candidate_vendor

any_names :
    (protected installonly : List Text)
    → any is_empty (protected ++ installonly) ≡ false
    → any is_empty (to_set protected ++ (to_set installonly ++ [])) ≡ false
any_names protected installonly h = ground (
  arith,
  any-append is_empty protected installonly,
  any-append is_empty (to_set protected) (to_set installonly ++ []),
  any-append is_empty (to_set installonly) [],
  any-dedup-sort is_empty protected,
  any-dedup-sort is_empty installonly,
)

module _ (i c : Evra) (iv cv : Text) where
  pub validate_upgrade-IsUpgrade :
      validate_upgrade (candidate_upgrade i c iv cv) ≡ ok tt → IsUpgrade i c iv cv
  unfolding validate_upgrade candidate_upgrade
  validate_upgrade-IsUpgrade h = ground (arith, same→eq i.arch c.arch, same→eq iv cv)

  pub IsUpgrade-validate_upgrade :
      IsUpgrade i c iv cv → validate_upgrade (candidate_upgrade i c iv cv) ≡ ok tt
  unfolding validate_upgrade candidate_upgrade
  IsUpgrade-validate_upgrade u = ground (arith, same_self i.arch, same_self iv)

  pub validate_downgrade-IsUpgrade :
      validate_downgrade (candidate_downgrade i c iv cv) ≡ ok tt → IsUpgrade c i cv iv
  unfolding validate_downgrade candidate_downgrade validate_replacement_identity
  validate_downgrade-IsUpgrade h = ground (arith, same→eq i.arch c.arch, same→eq iv cv)

  pub IsUpgrade-validate_downgrade :
      IsUpgrade c i cv iv → validate_downgrade (candidate_downgrade i c iv cv) ≡ ok tt
  unfolding validate_downgrade candidate_downgrade validate_replacement_identity
  IsUpgrade-validate_downgrade u = ground (arith, same_self i.arch, same_self iv)

  pub validate_reinstall-IsReinstall :
      validate_reinstall (candidate_reinstall i c iv cv) ≡ ok tt → IsReinstall i c iv cv
  unfolding validate_reinstall candidate_reinstall validate_replacement_identity
  validate_reinstall-IsReinstall h = ground (arith, same→eq i c, same→eq iv cv)

  validate_reinstall-eq : validate_reinstall (candidate_reinstall i c iv cv) ≡ ok tt → i ≡ c
  validate_reinstall-eq h = (validate_reinstall-IsReinstall h).same_version

module _ (i c : Evra) (iv cv : Text) where
  -- An upgrade is accepted exactly when both versions are complete, the architectures and the
  -- vendors agree and the candidate is strictly newer; a downgrade is accepted exactly when the
  -- reverse replacement would be accepted as an upgrade.
  pub validate_downgrade-reverse :
      (validate_upgrade (candidate_upgrade i c iv cv) ≡ ok tt ↔ IsUpgrade i c iv cv)
      × (validate_downgrade (candidate_downgrade i c iv cv) ≡ ok tt
          ↔ validate_upgrade (candidate_upgrade c i cv iv) ≡ ok tt)
  validate_downgrade-reverse = (
    (validate_upgrade-IsUpgrade i c iv cv, IsUpgrade-validate_upgrade i c iv cv),
    (
      λ h. IsUpgrade-validate_upgrade c i cv iv (validate_downgrade-IsUpgrade i c iv cv h),
      λ h. IsUpgrade-validate_downgrade i c iv cv (validate_upgrade-IsUpgrade c i cv iv h),
    ),
  )

  -- No replacement is accepted under two of the three operations.
  pub replacement_exclusive :
      (validate_upgrade (candidate_upgrade i c iv cv) ≡ ok tt
        → ¬ (validate_downgrade (candidate_downgrade i c iv cv) ≡ ok tt))
      × (validate_reinstall (candidate_reinstall i c iv cv) ≡ ok tt
          → ¬ (validate_upgrade (candidate_upgrade i c iv cv) ≡ ok tt)
            × ¬ (validate_downgrade (candidate_downgrade i c iv cv) ≡ ok tt))
  replacement_exclusive = (
    λ u d. ground (
      arith,
      validate_upgrade-IsUpgrade i c iv cv u,
      validate_downgrade-IsUpgrade i c iv cv d,
      is_strictly_newer_than-order i c,
    ),
    λ r. (
      λ u. ground (
        arith,
        validate_reinstall-eq i c iv cv r,
        validate_upgrade-IsUpgrade i c iv cv u,
        is_strictly_newer_than-order i c,
      ),
      λ d. ground (
        arith,
        validate_reinstall-eq i c iv cv r,
        validate_downgrade-IsUpgrade i c iv cv d,
        is_strictly_newer_than-order i c,
      ),
    ),
  )

-- The Fedora 44 policies pass their own check if no listed package name is empty.
pub validate_policy-fedora44 :
    (protected installonly : List Text)
    → any is_empty (protected ++ installonly) ≡ false
    → (validate_policy (fedora44_aarch64 protected installonly) ≡ ok tt)
      × (validate_policy (fedora44_x86_64 protected installonly) ≡ ok tt)
unfolding validate_policy fedora44_aarch64 fedora44_x86_64 dedup sort
validate_policy-fedora44 protected installonly h =
    let names = any_names protected installonly h in (rw names refl, rw names refl)

to_set-id {ℓ} : {A : Type ℓ} ⦃o : Order A⦄ (l : List A) → out_of_order l ≡ false → to_set l ≡ l
to_set-id l h = ap dedup (sort-id l h) ∙ dedup-id l h

-- Every `BTreeSet` of the policy lists its members in ascending order, without repetition.
pub record HasSets (p : SolverPolicy) : Type 0 where
  pub arches : out_of_order p.allowed_arches ≡ false
  pub protected : out_of_order p.protected_packages ≡ false
  pub installonly : out_of_order p.installonly_packages ≡ false
  pub excluded : out_of_order p.excludes ≡ false

-- A policy that passes its check is read back unchanged from its own fields.
pub decode_policy-valid :
    (p : SolverPolicy) → HasSets p → validate_policy p ≡ ok tt → decode_policy p ≡ ok p
unfolding decode_policy
decode_policy-valid p s h =
    rw
      (
        to_set-id p.allowed_arches s.arches,
        to_set-id p.protected_packages s.protected,
        to_set-id p.installonly_packages s.installonly,
        to_set-id p.excludes s.excluded,
      )
      (ground (arith, h))
