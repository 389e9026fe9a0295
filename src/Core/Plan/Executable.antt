-- ===== src/Core/Plan/Executable.antt =====
-- What an executable plan may do: `validate_executable` of crates/dnfast-core/src/plan.rs with the
-- policy checks of crates/dnfast-core/src/policy.rs.
use dnfast.Base.{
  Bool-cases, ℕ, Text, true, false, not, ◌&&◌, Option, none, some, List, ◌≡◌, ◌≢◌, refl, arith, All,
  All-map, contains, list_order, option_order, nat_order, ok, ap, ◌∙◌, ◌>>=◌, ok-injective,
  reject-eq-ok, for_each-All, >>-eq-ok, >>=-eq-ok, ◌⊎◌, inl, inr, is_some,
}
use dnfast.Core.Value.{Evra}
use dnfast.Core.Policy.{
  CandidateAction, SolverPolicy, is_protected, is_installonly, is_running_kernel,
  is_autoremove_candidate, validate_policy, validate_removal, validate_upgrade, validate_downgrade,
  validate_reinstall, candidate_upgrade, candidate_downgrade, candidate_reinstall,
}
use dnfast.Core.Policy.Safety.{
  IsUpgrade, validate_upgrade-IsUpgrade, validate_downgrade-IsUpgrade,
  validate_reinstall-IsReinstall,
}
use dnfast.Core.Intent.{Action}
use dnfast.Core.PackageAction.{
  PackageOperation, PackageAction, ActionProvenance, obsoleted_by, requires_keep,
}
use dnfast.Core.Plan.{
  is_autoremove, ok_or, PlanEnvelope, validate_now, validate_executable, parent_identities,
  check_executable, check_policy, replacement_of, ordinary, side_effect, obsoleted,
}

-- A removal that the policy allows.
pub record MayRemove (policy : SolverPolicy) (a : PackageAction) : Type 0 where
  pub unprotected : is_protected policy a.name ≡ false
  pub not_installonly : is_installonly policy a.name ≡ false
  pub not_running : is_running_kernel policy a.name ≡ false
  pub may_go : requires_keep a.reason ≡ false

-- A replacement of an installed version by a strictly newer one of the same architecture and
-- vendor.
pub record Upgrades (a : PackageAction) : Type 0 where
  pub installed : Evra
  pub installed_vendor : Text
  pub candidate_vendor : Text
  pub from_version : a.installed_evra ≡ some installed
  pub from_vendor : a.installed_vendor ≡ some installed_vendor
  pub to_vendor : a.candidate_vendor ≡ some candidate_vendor
  pub upgrade : IsUpgrade installed a.target_evra installed_vendor candidate_vendor

-- The reverse: the installed version is the strictly newer one.
pub record Downgrades (a : PackageAction) : Type 0 where
  pub installed : Evra
  pub installed_vendor : Text
  pub candidate_vendor : Text
  pub from_version : a.installed_evra ≡ some installed
  pub from_vendor : a.installed_vendor ≡ some installed_vendor
  pub to_vendor : a.candidate_vendor ≡ some candidate_vendor
  pub downgrade : IsUpgrade a.target_evra installed candidate_vendor installed_vendor

-- The installed version again, from the same vendor.
pub record Reinstalls (a : PackageAction) : Type 0 where
  pub installed_vendor : Text
  pub candidate_vendor : Text
  pub from_version : a.installed_evra ≡ some a.target_evra
  pub from_vendor : a.installed_vendor ≡ some installed_vendor
  pub to_vendor : a.candidate_vendor ≡ some candidate_vendor
  pub same_vendor : installed_vendor ≡ candidate_vendor

-- What the policy grants to each operation.
abbrev pub Allowed : SolverPolicy → PackageOperation → PackageAction → Type 0
Allowed policy PackageOperation.install a = Unit
Allowed policy PackageOperation.upgrade a = Upgrades a
Allowed policy PackageOperation.downgrade a = Downgrades a
Allowed policy PackageOperation.reinstall a = Reinstalls a
Allowed policy PackageOperation.remove a = MayRemove policy a

removal-MayRemove :
    (policy : SolverPolicy) (a : PackageAction)
    → validate_removal policy a.name a.reason ≡ ok tt
    → MayRemove policy a
unfolding validate_removal
removal-MayRemove policy a h = ground arith

-- The three parts that a replacement needs, and the candidate that is built of them.
record HasParts (make : Evra → Evra → Text → Text → CandidateAction) (a : PackageAction)
    (c : CandidateAction) : Type 0 where
  installed : Evra
  installed_vendor : Text
  candidate_vendor : Text
  from_version : a.installed_evra ≡ some installed
  from_vendor : a.installed_vendor ≡ some installed_vendor
  to_vendor : a.candidate_vendor ≡ some candidate_vendor
  made : make installed a.target_evra installed_vendor candidate_vendor ≡ c

replacement_of-HasParts :
    (make : Evra → Evra → Text → Text → CandidateAction) (a : PackageAction) {c : CandidateAction}
    → replacement_of make a ≡ ok c
    → HasParts make a c
unfolding replacement_of
replacement_of-HasParts make a h =
    let (i, hi, rest) = >>=-eq-ok (ok_or a.installed_evra _) _ h in
    let (iv, hiv, rest') = >>=-eq-ok (ok_or a.installed_vendor _) _ rest in
    let (cv, hcv, e) = >>=-eq-ok (ok_or a.candidate_vendor _) _ rest' in
    record {
      installed = i;
      installed_vendor = iv;
      candidate_vendor = cv;
      from_version = ground arith;
      from_vendor = ground arith;
      to_vendor = ground arith;
      made = ok-injective e;
    }

upgrade-Upgrades :
    (a : PackageAction)
    → (replacement_of candidate_upgrade a >>= λ c. validate_upgrade c) ≡ ok tt
    → Upgrades a
upgrade-Upgrades a h =
    let (c, hc, valid) = >>=-eq-ok (replacement_of candidate_upgrade a) _ h in
    let p = replacement_of-HasParts candidate_upgrade a hc in
    record {
      installed = p.installed;
      installed_vendor = p.installed_vendor;
      candidate_vendor = p.candidate_vendor;
      from_version = p.from_version;
      from_vendor = p.from_vendor;
      to_vendor = p.to_vendor;
      upgrade =
          validate_upgrade-IsUpgrade p.installed a.target_evra p.installed_vendor p.candidate_vendor
            (rw p.made valid);
    }

downgrade-Downgrades :
    (a : PackageAction)
    → (replacement_of candidate_downgrade a >>= λ c. validate_downgrade c) ≡ ok tt
    → Downgrades a
downgrade-Downgrades a h =
    let (c, hc, valid) = >>=-eq-ok (replacement_of candidate_downgrade a) _ h in
    let p = replacement_of-HasParts candidate_downgrade a hc in
    record {
      installed = p.installed;
      installed_vendor = p.installed_vendor;
      candidate_vendor = p.candidate_vendor;
      from_version = p.from_version;
      from_vendor = p.from_vendor;
      to_vendor = p.to_vendor;
      downgrade =
          validate_downgrade-IsUpgrade p.installed a.target_evra p.installed_vendor
            p.candidate_vendor (rw p.made valid);
    }

reinstall-Reinstalls :
    (a : PackageAction)
    → (replacement_of candidate_reinstall a >>= λ c. validate_reinstall c) ≡ ok tt
    → Reinstalls a
reinstall-Reinstalls a h =
    let (c, hc, valid) = >>=-eq-ok (replacement_of candidate_reinstall a) _ h in
    let p = replacement_of-HasParts candidate_reinstall a hc in
    let r =
      validate_reinstall-IsReinstall p.installed a.target_evra p.installed_vendor p.candidate_vendor
        (rw p.made valid) in
    record {
      installed_vendor = p.installed_vendor;
      candidate_vendor = p.candidate_vendor;
      from_version = p.from_version ∙ ap some r.same_version;
      from_vendor = p.from_vendor;
      to_vendor = p.to_vendor;
      same_vendor = r.same_vendor;
    }

check_policy-Allowed :
    (policy : SolverPolicy) (o : PackageOperation) (a : PackageAction)
    → check_policy policy o a ≡ ok tt
    → Allowed policy o a
unfolding check_policy
check_policy-Allowed policy PackageOperation.install a h = tt
check_policy-Allowed policy PackageOperation.upgrade a h = upgrade-Upgrades a h
check_policy-Allowed policy PackageOperation.downgrade a h = downgrade-Downgrades a h
check_policy-Allowed policy PackageOperation.reinstall a h = reinstall-Reinstalls a h
check_policy-Allowed policy PackageOperation.remove a h = removal-MayRemove policy a h

-- A removal that another action of the plan causes: it names that action as its parent, and the
-- package was installed as a dependency.
pub record IsObsoleted (parents : List Text) (a : PackageAction) : Type 0 where
  pub parent : Text
  pub caused : a.provenance ≡ some (obsoleted_by parent)
  pub parent_in_plan : contains parents parent ≡ true
  pub is_dependency : is_autoremove_candidate a.reason ≡ true

-- The operations that the user's request allows beside removals of what is obsoleted.
abbrev pub Requested : Action → PackageAction → Type 0
Requested Action.install a =
    (a.operation ≡ PackageOperation.install) ⊎ (a.operation ≡ PackageOperation.upgrade)
Requested Action.upgrade a =
    (a.operation ≡ PackageOperation.upgrade)
    ⊎ ((a.operation ≡ PackageOperation.install) × (is_autoremove_candidate a.reason ≡ true))
Requested Action.remove a = a.operation ≡ PackageOperation.remove
Requested Action.downgrade a = a.operation ≡ PackageOperation.downgrade
Requested Action.reinstall a = a.operation ≡ PackageOperation.reinstall
Requested Action.distro_sync a =
    (a.operation ≢ PackageOperation.remove)
    × (a.operation ≡ PackageOperation.install → is_autoremove_candidate a.reason ≡ true)
Requested Action.autoremove a =
    (a.operation ≡ PackageOperation.remove) × (is_autoremove_candidate a.reason ≡ true)

ordinary-Requested :
    (intent : Action) (a : PackageAction)
    → ordinary intent a ≡ true
    → (is_autoremove intent && not (is_autoremove_candidate a.reason)) ≡ false
    → Requested intent a
unfolding ordinary is_autoremove
ordinary-Requested Action.install a h n = ground arith
ordinary-Requested Action.upgrade a h n = ground arith
ordinary-Requested Action.remove a h n = ground arith
ordinary-Requested Action.downgrade a h n = ground arith
ordinary-Requested Action.reinstall a h n = ground arith
ordinary-Requested Action.distro_sync a h n = ground arith
ordinary-Requested Action.autoremove a h n = ground arith

side_effect-IsObsoleted :
    (intent : Action) (parents : List Text) (a : PackageAction)
    → side_effect intent parents a ≡ true
    → IsObsoleted parents a × (a.operation ≡ PackageOperation.remove) × (intent ≢ Action.remove)
unfolding side_effect
side_effect-IsObsoleted intent parents a h = go a.provenance a.operation refl refl h
  where
    go :
        (p : Option ActionProvenance) (o : PackageOperation)
        → a.provenance ≡ p
        → a.operation ≡ o
        → obsoleted intent parents p o a.reason ≡ true
        → IsObsoleted parents a × (a.operation ≡ PackageOperation.remove) × (intent ≢ Action.remove)
    go none o e f g = cc
    go (some (obsoleted_by parent)) PackageOperation.install e f g = cc
    go (some (obsoleted_by parent)) PackageOperation.upgrade e f g = cc
    go (some (obsoleted_by parent)) PackageOperation.downgrade e f g = cc
    go (some (obsoleted_by parent)) PackageOperation.reinstall e f g = cc
    go (some (obsoleted_by parent)) PackageOperation.remove e f g = (
      record {
        parent = parent;
        caused = e;
        parent_in_plan = ground arith;
        is_dependency = ground arith;
      },
      f,
      λ r. ground arith,
    )

-- Why an action is in a plan: the user's request, or a package that another action obsoletes,
-- which is never the reason in a plan for removals.
abbrev pub Purpose : Action → List Text → PackageAction → Type 0
Purpose intent parents a =
    (Requested intent a × (a.provenance ≡ none))
    ⊎ (IsObsoleted parents a × (a.operation ≡ PackageOperation.remove) × (intent ≢ Action.remove))

pub record IsLawful (policy : SolverPolicy) (intent : Action) (parents : List Text)
    (a : PackageAction) : Type 0 where
  pub purpose : Purpose intent parents a
  pub allowed : Allowed policy a.operation a

check_executable-IsLawful :
    (policy : SolverPolicy) (intent : Action) (parents : List Text) (a : PackageAction)
    → check_executable policy intent parents a ≡ ok tt
    → IsLawful policy intent parents a
unfolding check_executable
check_executable-IsLawful policy intent parents a h =
    let (related, h₁) =
      reject-eq-ok (not (ordinary intent a) && not (side_effect intent parents a)) _ _ h in
    let (uncaused, h₂) = reject-eq-ok (ordinary intent a && is_some a.provenance) _ _ h₁ in
    let (candidate, h₃) =
      reject-eq-ok (is_autoremove intent && not (is_autoremove_candidate a.reason)) _ _ h₂ in
    record {
      purpose = elim (Bool-cases (ordinary intent a)) [
        | inl o ↦ inl (ordinary-Requested intent a o candidate, ground arith)
        | inr o ↦ inr (side_effect-IsObsoleted intent parents a (ground arith))
      ];
      allowed = check_policy-Allowed policy a.operation a h₃;
    }

-- Every action of a plan that passes `validate_executable` is one that the user's request allows
-- or the removal of a dependency that another action of the plan obsoletes, and the policy grants
-- it: no removal of a protected, install-only or running kernel package or of one whose reason is
-- external or unknown, and no replacement across architectures or vendors or against the
-- direction that its operation names.
pub validate_executable-IsLawful :
    (p : PlanEnvelope) (policy : SolverPolicy) (now_unix : ℕ)
    → validate_executable p policy now_unix ≡ ok tt
    → All (IsLawful policy p.intent.action (parent_identities p.actions)) p.actions
unfolding validate_executable
validate_executable-IsLawful p policy now h =
    let (current, h₁) = >>-eq-ok (validate_now p now) _ h in
    let (sound, h₂) = >>-eq-ok (validate_policy policy) _ h₁ in
    All-map (check_executable-IsLawful policy p.intent.action (parent_identities p.actions))
      p.actions
      (for_each-All (check_executable policy p.intent.action (parent_identities p.actions))
        p.actions h₂)
