-- ===== src/Core/Tests/Plans.antt =====
-- Intents, actions and plans.
use dnfast.Base.{
  Bool, ℕ, ◌≤◌, ◌<◌, ◌↔◌, ◌≢◌, ◌∷◌, [], ◌≡◌, refl, text, false, ok, err, arith, sort, All, Permᴰ,
  ◌>>=◌,
}
use dnfast.Core.Value.{validate_evra, is_strictly_newer_than, rpm_part_cmp, parse_digest}
use dnfast.Core.Policy.{user, validate_policy, validate_upgrade, candidate_upgrade}
use dnfast.Core.Integrity.{validate_integrity}
use dnfast.Core.Intent.{Action, new_intent, validate_intent, parse_spec, duplicate_package}
use dnfast.Core.Intent.Canonical.{
  IsCanonical, new_intent-IsCanonical, new_intent-perm, validate_intent-ne-duplicate_package,
}
use dnfast.Core.PackageAction.{
  requires_keep, validate_package_action, canonical_actions, action_identity,
}
use dnfast.Core.PackageAction.Canonical
use dnfast.Core.PackageAction.Canonical.{canonical_actions-IsCanonical}
use dnfast.Core.PackageAction.Shape.{HasShape, validate_package_action-exact, with_identity-valid}
use dnfast.Core.PackageAction.Build.{
  upgrade_with_identity, downgrade_with_identity, reinstall_with_identity, remove_with_identity,
}
use dnfast.Core.Plan.{new_plan, validate_now, validate_executable, parent_identities}
use dnfast.Core.Plan.Envelope.{new_plan-perm, new_plan-validate_now, validate_now-until_expiry}
use dnfast.Core.Plan.Executable.{IsLawful, validate_executable-IsLawful}
use dnfast.Core.Samples.{
  hash, digest, new_version, integrity, bash, curl, upgrade_bash, bash_upgrade, libs_install, plan,
  policy,
}

intent_made : new_intent Action.upgrade (bash ∷ []) ≡ ok upgrade_bash
unfolding new_intent validate_intent parse_spec sort
intent_made = refl

new_intent-IsCanonical_example : IsCanonical Action.upgrade (bash ∷ []) upgrade_bash
new_intent-IsCanonical_example = new_intent-IsCanonical Action.upgrade (bash ∷ []) intent_made

order_forgotten :
    new_intent Action.install (curl ∷ bash ∷ []) ≡ new_intent Action.install (bash ∷ curl ∷ [])
order_forgotten = new_intent-perm Action.install (Permᴰ.swap refl refl)

validate_intent-ne-duplicate_package_example :
    (validate_intent (record { schema = 1; action = Action.install; packages = bash ∷ bash ∷ [] })
      ≢ ok tt)
    × (validate_intent (record { schema = 1; action = Action.install; packages = bash ∷ bash ∷ [] })
        ≢ err (duplicate_package (text "bash")))
validate_intent-ne-duplicate_package_example =
    validate_intent-ne-duplicate_package
      (record { schema = 1; action = Action.install; packages = bash ∷ bash ∷ [] }) (text "bash")
      refl

actions_made :
    canonical_actions (bash_upgrade ∷ libs_install ∷ []) ≡ ok (libs_install ∷ bash_upgrade ∷ [])
unfolding canonical_actions validate_package_action validate_evra sort
actions_made = refl

canonical_actions-IsCanonical_example :
    Canonical.IsCanonical (bash_upgrade ∷ libs_install ∷ []) (libs_install ∷ bash_upgrade ∷ [])
canonical_actions-IsCanonical_example =
    canonical_actions-IsCanonical (bash_upgrade ∷ libs_install ∷ []) actions_made

new_plan-perm_example :
    new_plan upgrade_bash integrity 1000 (bash_upgrade ∷ libs_install ∷ [])
    ≡ new_plan upgrade_bash integrity 1000 (libs_install ∷ bash_upgrade ∷ [])
new_plan-perm_example = new_plan-perm upgrade_bash integrity 1000 (Permᴰ.swap refl refl)

plan_made : new_plan upgrade_bash integrity 1000 (bash_upgrade ∷ libs_install ∷ []) ≡ ok plan
unfolding new_plan validate_integrity canonical_actions validate_package_action validate_evra sort
plan_made = refl

new_plan-validate_now_example : validate_now plan 999 ≡ ok tt
unfolding validate_now
new_plan-validate_now_example =
    new_plan-validate_now upgrade_bash integrity 1000 (bash_upgrade ∷ libs_install ∷ []) 999
      plan_made (refl, (refl, tt)) (omega arith)

held_before :
    ((t now_unix : ℕ)
      → t ≤ now_unix
      → validate_now plan now_unix ≡ ok tt
      → validate_now plan t ≡ ok tt)
    × ((now_unix : ℕ) → 1000 < now_unix → validate_now plan now_unix ≢ ok tt)
held_before = validate_now-until_expiry plan

plan_executable : validate_executable plan policy 1000 ≡ ok tt
unfolding validate_executable validate_now validate_integrity validate_package_action validate_evra
    validate_policy validate_upgrade candidate_upgrade is_strictly_newer_than rpm_part_cmp
    action_identity
plan_executable = refl

validate_executable-IsLawful_example :
    All
      (IsLawful policy Action.upgrade (parent_identities (libs_install ∷ bash_upgrade ∷ [])))
      (libs_install ∷ bash_upgrade ∷ [])
validate_executable-IsLawful_example = validate_executable-IsLawful plan policy 1000 plan_executable

validate_package_action-exact_example : validate_package_action bash_upgrade ≡ ok tt ↔ (
    (◌≡◌ {A = Bool} false false)
    × (validate_evra new_version ≡ ok tt)
    × HasShape bash_upgrade.operation bash_upgrade)
validate_package_action-exact_example = validate_package_action-exact bash_upgrade

version_valid : validate_evra new_version ≡ ok tt
unfolding validate_evra
version_valid = refl

hash_parsed : parse_digest hash "installed_header_sha256" ≡ ok digest
unfolding parse_digest
hash_parsed = refl

identities_valid :
    ((upgrade_with_identity
          (text "bash")
          new_version
          new_version
          (text "fedora")
          (text "v")
          (text "v")
          user
          17
          hash
        >>= λ a. validate_package_action a)
      ≡ ok tt)
    × ((downgrade_with_identity
            (text "bash")
            new_version
            new_version
            (text "fedora")
            (text "v")
            (text "v")
            user
            17
            hash
          >>= λ a. validate_package_action a)
        ≡ ok tt)
    × ((reinstall_with_identity
            (text "bash")
            new_version
            new_version
            (text "fedora")
            (text "v")
            (text "v")
            user
            17
            hash
          >>= λ a. validate_package_action a)
        ≡ ok tt)
    × ((remove_with_identity (text "bash") new_version (text "v") user 17 hash >>= λ a.
            validate_package_action a)
          ≡ ok tt
        ↔ (◌≡◌ {A = Bool} (requires_keep user) false))
identities_valid =
    with_identity-valid (text "bash") new_version new_version (text "fedora") (text "v") (text "v")
      user 17 hash refl version_valid version_valid refl refl hash_parsed
