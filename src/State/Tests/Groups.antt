-- ===== src/State/Tests/Groups.antt =====
-- Two groups that share a package, one of which is removed.
use dnfast.Base.{
  Text, text, ◌≡◌, refl, false, not, ◌&&◌, none, some, List, [], ◌∷◌, ok, err, same, contains, sort,
  dedup, nat_order, list_order, option_order, out_of_order, if◌then◌else◌,
}
use dnfast.Core.Canonical.{Serde, serialize, parse, inspect}
use dnfast.State.Error.{none_armed}
use dnfast.State.Fs.{Machine, read_optional_bounded}
use dnfast.State.Fs.Lock.{locked, once_locked}
use dnfast.State.Journal.Entry.{validate_digest}
use dnfast.State.Group.{packages_of, GroupState, remove_groups, removable, apply_remove, migrate}
use dnfast.State.Group.Check.{validate_groups, validate_sorted_ids}
use dnfast.State.Group.Owned.{is_orphaned, removable-released}
use dnfast.State.Group.Settled.{settle_all-owned}
use dnfast.State.Group.Removal.{IsCurrent, is_freed, packages_to_remove-is_freed}
use dnfast.State.Group.Store.{
  state_file, read_groups, groups_or_default, decode_groups, encode_groups, reconcile_locked,
  packages_to_remove, settle_one, settle_all, Settling,
}
use dnfast.State.Tests.Files.{disk_kernel}
use dnfast.State.Tests.Journals.{codec}

abbrev plan : Text
plan = text "0123456789abcdef0123456789abcdef0123456789abcdef0123456789abcdef"

-- `make` came with both groups, `gcc` with the first; `gdb` was there before.
abbrev state : GroupState
state = record {
  schema = 2;
  groups =
      (text "c-devel", text "gcc" ∷ text "gdb" ∷ text "make" ∷ [])
      ∷ (text "tools", text "make" ∷ [])
      ∷ [];
  introduced_packages = text "gcc" ∷ text "make" ∷ [];
  pending = [];
}

abbrev removing : List Text
removing = text "c-devel" ∷ []

removes_gcc : removable state removing ≡ text "gcc" ∷ []
unfolding removable sort dedup
removes_gcc = refl

removable-released_example :
    (out_of_order (removable state removing) ≡ false)
    × (contains (removable state removing) (text "gcc") ≡ (
        contains state.introduced_packages (text "gcc")
        && not (contains (apply_remove state removing).introduced_packages (text "gcc"))))
    × ((contains (removable state removing) (text "gcc")
          && contains (packages_of (apply_remove state removing).groups) (text "gcc"))
        ≡ false)
removable-released_example = removable-released state removing (text "gcc")

-- The removal waits for its transaction.
abbrev waiting : GroupState
waiting = record state {
  pending =
      record {
        plan_sha256 = plan;
        kind = remove_groups;
        groups = (text "c-devel", []) ∷ [];
        introduced_packages = [];
        seen_transaction_ids = [];
      }
      ∷ [];
}

waiting_valid : validate_groups waiting ≡ ok tt
unfolding validate_groups validate_digest
waiting_valid = refl

-- A codec of one document, the state that waits for nothing.
abbrev group_codec : Serde GroupState
group_codec = record {
  from_slice = λ bytes. if same bytes (b'g' ∷ []) then ok state else err (text "EOF");
  to_vec = λ s. ok (b'g' ∷ []);
}

abbrev machine : Machine (disk_kernel [])
machine = (λ name. if same name state_file then some (b'g' ∷ []) else none, none_armed)

abbrev start : Settling
start = record { state = record waiting { pending = [] }; retained = []; changed = false }

settles :
    (settle_all (disk_kernel []) group_codec codec tt [] start waiting.pending machine).0
    ≡ ok (record start { retained = waiting.pending })
unfolding settle_all settle_one
settles = refl

settle_all-owned_example : is_orphaned state ≡ false
settle_all-owned_example =
    settle_all-owned (disk_kernel []) group_codec codec tt [] waiting machine waiting_valid settles

lists :
    (packages_to_remove (disk_kernel []) group_codec codec tt [] removing machine).0
    ≡ ok (text "gcc" ∷ [])
unfolding packages_to_remove locked reconcile_locked read_groups read_optional_bounded
    groups_or_default decode_groups encode_groups migrate validate_groups validate_sorted_ids
    removable sort dedup serialize parse inspect
lists = refl

packages_to_remove-is_freed_example :
    (st : GroupState) × IsCurrent
      (disk_kernel [])
      group_codec
      codec
      tt
      []
      (once_locked (disk_kernel []) tt machine)
      st
    × (validate_sorted_ids removing ≡ ok tt)
    × (out_of_order (text "gcc" ∷ []) ≡ false)
    × ((p : Text) → contains (text "gcc" ∷ []) p ≡ is_freed st removing p)
packages_to_remove-is_freed_example =
    packages_to_remove-is_freed (disk_kernel []) group_codec codec tt [] removing machine lists
