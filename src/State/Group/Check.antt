-- ===== src/State/Group/Check.antt =====
-- `validate_state` of crates/dnfast-state/src/group.rs and the checks on identifiers.
use dnfast.Base.{
  ℕ, ◌+◌, Text, text, Bool, true, false, not, ◌&&◌, ◌||◌, List, [], ◌∷◌, nat_order, list_order,
  length, any, contains, is_empty, out_of_order, ltb, ◌==◌, Result, reject, for_each, ◌>>◌,
}
use dnfast.State.Error.{StateError, corrupt, limit}
use dnfast.State.Names.{is_identifier}
use dnfast.State.Journal.Entry.{validate_digest}
use dnfast.State.Group.{
  Groups, MutationKind, install_groups, remove_groups, PendingMutation, GroupState, packages_of,
}

abbrev pub max_groups : ℕ
max_groups = 4096

abbrev pub max_packages : ℕ
max_packages = 65536

abbrev pub max_pending : ℕ
max_pending = 128

unfoldable pub validate_id : Text → Result StateError (Unit {0})
validate_id value =
    reject (not (is_identifier value)) (corrupt (text "invalid group or package identifier"))

unfoldable pub validate_sorted_ids : List Text → Result StateError (Unit {0})
unfolding validate_id
validate_sorted_ids values = do
  reject (out_of_order values) (corrupt (text "identifiers are not canonical"))
  for_each validate_id values

abbrev sum_lengths : Groups → ℕ
sum_lengths [] = 0
sum_lengths ((id, packages) ∷ groups) = length packages + sum_lengths groups

abbrev pending_packages : List PendingMutation → ℕ
pending_packages [] = 0
pending_packages (m ∷ pending) =
    sum_lengths m.groups + length m.introduced_packages + pending_packages pending

unfoldable pub package_count : GroupState → ℕ
package_count s = sum_lengths s.groups + length s.introduced_packages + pending_packages s.pending

pub check_group : Text × List Text → Result StateError (Unit {0})
check_group (id, packages) = do validate_id id; validate_sorted_ids packages

abbrev pub is_remove_mutation : MutationKind → Bool
is_remove_mutation remove_groups = true
is_remove_mutation install_groups = false

-- The body of the loop over `pending`.
unfoldable pub check_mutation : PendingMutation → Result StateError (Unit {0})
unfolding check_group validate_sorted_ids
check_mutation m = do
  validate_digest m.plan_sha256
  reject (is_empty m.groups) (corrupt (text "empty pending group mutation"))
  for_each check_group m.groups
  validate_sorted_ids m.introduced_packages
  reject
      ((is_remove_mutation m.kind && not (is_empty m.introduced_packages))
        || any (λ p. not (contains (packages_of m.groups) p)) m.introduced_packages)
      (corrupt (text "invalid introduced packages in pending group mutation"))
  reject (out_of_order m.seen_transaction_ids)
      (corrupt (text "noncanonical pending transaction ids"))

unfoldable pub validate_groups : GroupState → Result StateError (Unit {0})
unfolding check_mutation check_group validate_sorted_ids package_count
validate_groups s = do
  reject
      (not (s.schema == 2)
        || (ltb max_groups (length s.groups) || ltb max_pending (length s.pending)))
      (corrupt (text "invalid group state bounds"))
  reject (ltb max_packages (package_count s)) (limit "group packages")
  for_each check_group s.groups
  validate_sorted_ids s.introduced_packages
  reject (any (λ p. not (contains (packages_of s.groups) p)) s.introduced_packages)
      (corrupt (text "introduced package has no installed group owner"))
  for_each check_mutation s.pending
