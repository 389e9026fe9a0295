-- ===== src/State/Group.antt =====
-- crates/dnfast-state/src/group.rs: the groups that are installed, the packages that each owns, and
-- the packages that came with a group; changes wait for the transaction that makes them.
pub mod Check
pub mod Store
pub mod Owned
pub mod Settled
pub mod Removal
use dnfast.Base.{
  ℕ, Text, text, Bool, true, false, not, ◌&&◌, ◌||◌, Option, none, some, List, [], ◌∷◌, ◌++◌, map,
  nat_order, list_order, same, sort, dedup, filter, contains, any, get, insert, collect_map, remove,
  keys, is_some, ◌==◌, if◌then◌else◌, Result, ok, err,
}
use dnfast.State.Error.{StateError, corrupt}
use dnfast.State.Names.{is_identifier}

pub record GroupRecord : Type 0 where
  pub id : Text
  pub owned_packages : List Text

pub data MutationKind : Type 0 where
  install_groups remove_groups : MutationKind

-- `BTreeMap<String, Vec<String>>`.
abbrev pub Groups : Type 0
Groups = List (Text × List Text)

pub record PendingMutation : Type 0 where
  pub plan_sha256 : Text
  pub kind : MutationKind
  pub groups : Groups
  pub introduced_packages : List Text
  pub seen_transaction_ids : List Text

pub record GroupState : Type 0 where
  pub schema : ℕ  -- schema_version: u32
  pub groups : Groups
  pub introduced_packages : List Text
  pub pending : List PendingMutation

abbrev pub default_state : GroupState
default_state = record { schema = 2; groups = []; introduced_packages = []; pending = [] }

-- `values().flatten()`.
abbrev pub packages_of : Groups → List Text
packages_of [] = []
packages_of ((id, packages) ∷ groups) = packages ++ packages_of groups

abbrev pub kept_groups : List Text → Groups → Groups
kept_groups removing groups = filter (λ g. not (contains removing g.0)) groups

abbrev pub removed_groups : List Text → Groups → Groups
removed_groups removing groups = filter (λ g. contains removing g.0) groups

-- The body of `packages_to_remove`; `binary_search` on the sorted list is a test for a member.
unfoldable pub removable : GroupState → List Text → List Text
removable state group_ids = dedup (
    sort (
      filter
        (λ p.
          not (contains (packages_of (kept_groups group_ids state.groups)) p)
          && contains state.introduced_packages p)
        (packages_of (removed_groups group_ids state.groups))))

abbrev owned_by : Option (List Text) → List Text
owned_by none = []
owned_by (some packages) = packages

-- `entry(id).or_default()`, extended.
unfoldable pub own : Groups → Groups → Groups
own installed [] = installed
own installed ((id, packages) ∷ groups) =
    own (insert id (dedup (sort (owned_by (get installed id) ++ packages))) installed) groups

unfoldable pub apply_install : GroupState → Groups → List Text → GroupState
unfolding own
apply_install state groups introduced = record state {
  groups = own state.groups groups;
  introduced_packages = dedup (sort (state.introduced_packages ++ introduced));
}

remove_all : List Text → Groups → Groups
remove_all [] groups = groups
remove_all (id ∷ ids) groups = remove_all ids (remove id groups)

unfoldable pub apply_remove : GroupState → List Text → GroupState
unfolding remove_all
apply_remove state group_ids =
    let retained = packages_of (kept_groups group_ids state.groups) in
    let released =
      filter (λ p. not (contains retained p))
        (packages_of (removed_groups group_ids state.groups)) in
    record state {
      groups = remove_all group_ids state.groups;
      introduced_packages = filter (λ p. not (contains released p)) state.introduced_packages;
    }

-- `values().flatten().collect::<BTreeSet<_>>()`, as a sorted vector.
abbrev all_packages : Groups → List Text
all_packages groups = dedup (sort (packages_of groups))

migrate_mutation : MutationKind → PendingMutation → PendingMutation
migrate_mutation install_groups m = record m { introduced_packages = all_packages m.groups }
migrate_mutation remove_groups m = m

unfoldable pub migrate : GroupState → Result StateError GroupState
unfolding migrate_mutation
migrate state =
    if state.schema == 1
    then ok (record state {
      schema = 2;
      introduced_packages = all_packages state.groups;
      pending = map (λ m. migrate_mutation m.kind m) state.pending;
    })
    else if state.schema == 2
    then ok state
    else err (corrupt (text "unsupported group state schema"))

add_record : Groups → GroupRecord → List Text → Result StateError Groups
add_record groups r packages =
    if any (λ p. not (is_identifier p)) packages || is_some (get groups r.id)
    then err (corrupt (text "invalid group record"))
    else ok (insert r.id packages groups)

canonical_from : Groups → List GroupRecord → Result StateError Groups
unfolding add_record
canonical_from groups [] = ok groups
canonical_from groups (r ∷ records) =
    if not (is_identifier r.id)
    then err (corrupt (text "invalid group or package identifier"))
    else elim (add_record groups r (dedup (sort r.owned_packages))) [
      | err e ↦ err e
      | ok more ↦ canonical_from more records
    ]

unfoldable pub canonical_records : List GroupRecord → Result StateError Groups
unfolding canonical_from
canonical_records records = canonical_from [] records
