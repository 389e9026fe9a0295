-- ===== src/Core/Tests/Versions.antt =====
-- Versions, policies and replacements.
use dnfast.Base.{
  ℕ, ◌↔◌, ◌∷◌, [], ◌≡◌, refl, text, Text, Ordering, flip, true, false, ◌||◌, some, ok, arith,
}
use dnfast.Core.Value.{rpm_part_cmp, rpm_part_cmp_loop, is_strictly_newer_than, validate_evra}
use dnfast.Core.Value.VersionOrder.{
  rpm_part_cmp-flip, rpm_part_cmp_loop_total, is_strictly_newer_than-order,
}
use dnfast.Core.Policy.{
  candidate_upgrade, candidate_downgrade, candidate_reinstall, validate_upgrade, validate_downgrade,
  validate_reinstall, validate_policy, fedora44_aarch64, fedora44_x86_64, decode_policy,
}
use dnfast.Core.Policy.Safety.{
  IsUpgrade, validate_downgrade-reverse, replacement_exclusive, validate_policy-fedora44,
  decode_policy-valid, HasSets,
}
use dnfast.Core.Samples.{old_version, new_version, policy}

numbers_by_value : rpm_part_cmp (text "1.10") (text "1.9") ≡ Ordering.gt
unfolding rpm_part_cmp
numbers_by_value = refl

tilde_first : rpm_part_cmp (text "1.0~rc1") (text "1.0") ≡ Ordering.lt
unfolding rpm_part_cmp
tilde_first = refl

caret_after : rpm_part_cmp (text "1.0^git1") (text "1.0") ≡ Ordering.gt
unfolding rpm_part_cmp
caret_after = refl

zeros_and_separators : rpm_part_cmp (text "2.010") (text "2_10") ≡ Ordering.eq
unfolding rpm_part_cmp
zeros_and_separators = refl

rpm_part_cmp-flip_example :
    rpm_part_cmp (text "1.0~rc1") (text "1.0") ≡ flip (rpm_part_cmp (text "1.0") (text "1.0~rc1"))
rpm_part_cmp-flip_example = rpm_part_cmp-flip (text "1.0") (text "1.0~rc1")

rpm_part_cmp_loop_total_example :
    rpm_part_cmp_loop 9 (text "1.2a") (text "1.2b")
    ≡ some (rpm_part_cmp (text "1.2a") (text "1.2b"))
rpm_part_cmp_loop_total_example =
    rpm_part_cmp_loop_total 9 (text "1.2a") (text "1.2b") (omega arith)

is_strictly_newer_than-order_example :
    (is_strictly_newer_than new_version old_version ≡ true
      → is_strictly_newer_than old_version new_version ≡ false)
    × ((is_strictly_newer_than new_version old_version
            || is_strictly_newer_than old_version new_version)
          ≡ false
        ↔ (◌≡◌ {A = ℕ} 0 0)
          × (rpm_part_cmp (text "5.2.26") (text "5.2.15") ≡ Ordering.eq)
          × (rpm_part_cmp (text "1.fc44") (text "1.fc44") ≡ Ordering.eq))
is_strictly_newer_than-order_example = is_strictly_newer_than-order new_version old_version

abbrev vendor : Text
vendor = text "Fedora Project"

accepted_upgrade :
    validate_upgrade (candidate_upgrade old_version new_version vendor vendor) ≡ ok tt
unfolding validate_upgrade candidate_upgrade validate_evra is_strictly_newer_than rpm_part_cmp
accepted_upgrade = refl

validate_downgrade-reverse_example :
    (validate_upgrade (candidate_upgrade old_version new_version vendor vendor) ≡ ok tt
      ↔ IsUpgrade old_version new_version vendor vendor)
    × (validate_downgrade (candidate_downgrade old_version new_version vendor vendor) ≡ ok tt
        ↔ validate_upgrade (candidate_upgrade new_version old_version vendor vendor) ≡ ok tt)
validate_downgrade-reverse_example =
    validate_downgrade-reverse old_version new_version vendor vendor

only_one_replacement :
    (validate_upgrade (candidate_upgrade old_version new_version vendor vendor) ≡ ok tt
      → ¬ (validate_downgrade (candidate_downgrade old_version new_version vendor vendor) ≡ ok tt))
    × (validate_reinstall (candidate_reinstall old_version new_version vendor vendor) ≡ ok tt
        → ¬ (validate_upgrade (candidate_upgrade old_version new_version vendor vendor) ≡ ok tt)
          × ¬ (
              validate_downgrade (candidate_downgrade old_version new_version vendor vendor)
              ≡ ok tt))
only_one_replacement = replacement_exclusive old_version new_version vendor vendor

policies_hold :
    (validate_policy (fedora44_aarch64 (text "systemd" ∷ []) (text "kernel" ∷ [])) ≡ ok tt)
    × (validate_policy (fedora44_x86_64 (text "systemd" ∷ []) (text "kernel" ∷ [])) ≡ ok tt)
policies_hold = validate_policy-fedora44 (text "systemd" ∷ []) (text "kernel" ∷ []) refl

policy_valid : validate_policy policy ≡ ok tt
unfolding validate_policy
policy_valid = refl

policy_sets : HasSets policy
policy_sets = record { arches = refl; protected = refl; installonly = refl; excluded = refl }

policy_read_back : decode_policy policy ≡ ok policy
policy_read_back = decode_policy-valid policy policy_sets policy_valid
