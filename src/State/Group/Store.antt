-- ===== src/State/Group/Store.antt =====
-- `GroupStateStore` of crates/dnfast-state/src/group.rs: its file, read and written whole under a
-- lock, and the pending changes, which are settled by the journals of their transactions. Closing a
-- journal's descriptor, which frees its lock, is left out.
use dnfast.Base.{
  ℕ, ◌*◌, pos, negsuc, Text, text, Bool, true, false, not, ◌&&◌, Option, none, some, List, [], ◌∷◌,
  ◌++◌, map, nat_order, list_order, option_order, same, length, last, any, contains, is_empty,
  collect_map, keys, filter, ltb, leb, ◌==◌, Result, ok, map_err, if◌then◌else◌,
}
use dnfast.Core.Value.Display.{to_string}
use dnfast.Core.Canonical.{Bytes, Serde, serialize, parse}
use dnfast.State.Error.{StateError, corrupt, limit, unsafe_path}
use dnfast.State.Io.{◌>>=◌, ◌>>◌, pure, lift, fail_if}
use dnfast.State.Fs.{Kernel, Run, read_optional_bounded, write_atomic_replacing}
use dnfast.State.Fs.Root.{Component, root_dir, normal, open_or_create_root}
use dnfast.State.Fs.Lock.{locked}
use dnfast.State.Journal.Entry.{
  JournalEntry, JournalState, reconciled, rpm_result, TransactionId, NativeResult, ReconcileResult,
  validate_digest,
}
use dnfast.State.Journal.{load_entries, open_journal, open_store, transaction_ids}
use dnfast.State.Group.{
  Groups, GroupRecord, MutationKind, install_groups, remove_groups, PendingMutation, GroupState,
  default_state, removable, apply_install, apply_remove, migrate, canonical_records,
}
use dnfast.State.Group.Check.{max_pending, validate_groups, validate_sorted_ids}

abbrev pub state_file : Text
state_file = text "state.json"

abbrev pub max_group_bytes : ℕ
max_group_bytes = 8 * 1024 * 1024

abbrev is_reconciled : JournalState → Bool
is_reconciled reconciled = true
is_reconciled _ = false

abbrev is_rpm_result : JournalState → Bool
is_rpm_result rpm_result = true
is_rpm_result _ = false

abbrev returned_zero : Option NativeResult → Bool
returned_zero none = false
returned_zero (some result) = elim result.return_code [ pos n ↦ n == 0 | negsuc n ↦ false ]

abbrev reconciled_well : Option ReconcileResult → Bool
reconciled_well none = false
reconciled_well (some result) = result.success

first_plan : List JournalEntry → Option Text
first_plan [] = none
first_plan (entry ∷ entries) = some entry.plan_sha256

outcome_at : List JournalEntry → Option JournalEntry → Option Bool
outcome_at entries none = none
outcome_at entries (some entry) =
    if is_reconciled entry.state
    then some (
        any (λ e. is_rpm_result e.state && returned_zero e.native_result) entries
        && reconciled_well entry.reconciliation)
    else none

-- What the journal of one transaction says of the plan of a mutation; `none` is `continue`.
unfoldable pub outcome_in : Text → List JournalEntry → Option Bool
unfolding first_plan outcome_at
outcome_in plan_sha256 entries =
    if same (first_plan entries) (some plan_sha256) then outcome_at entries (last entries) else none

-- What the loop over the pending mutations carries.
pub record Settling : Type 0 where
  pub state : GroupState
  pub retained : List PendingMutation
  pub changed : Bool

unfoldable pub apply_mutation : MutationKind → PendingMutation → GroupState → GroupState
apply_mutation install_groups m state = apply_install state m.groups m.introduced_packages
apply_mutation remove_groups m state = apply_remove state (keys m.groups)

-- The match on `terminal`.
unfoldable pub settle_one : Settling → PendingMutation → Option Bool → Settling
unfolding apply_mutation
settle_one s m (some true) = record s { state = apply_mutation m.kind m s.state; changed = true }
settle_one s m (some false) = record s { changed = true }
settle_one s m none = record s { retained = s.retained ++ m ∷ [] }

abbrev pending_of : Text → MutationKind → Groups → List Text → List TransactionId → PendingMutation
pending_of plan_sha256 kind groups introduced ids = record {
  plan_sha256 = plan_sha256;
  kind = kind;
  groups = groups;
  introduced_packages = introduced;
  seen_transaction_ids = map (λ id. id.value) ids;
}

abbrev with_pending : GroupState → PendingMutation → GroupState
with_pending state m = record state { pending = state.pending ++ m ∷ [] }

module _ (k : Kernel) (serde : Serde GroupState) (journals : Serde JournalEntry) where
  open k use {Fd, euid}

  unfoldable pub encode_groups : GroupState → Result StateError Bytes
  encode_groups state = map_err (λ e. corrupt (to_string e)) (serialize serde state)

  unfoldable pub decode_groups : Bytes → Run k GroupState
  decode_groups bytes = do
    raw ← lift (map_err (λ e. corrupt (to_string e)) (parse serde bytes))
    again ← lift (encode_groups raw)
    fail_if (not (same again bytes)) (corrupt (text "group state is not canonical JSON"))
    state ← lift (migrate raw)
    lift (validate_groups state)
    pure state

  unfoldable pub groups_or_default : Option Bytes → Run k GroupState
  groups_or_default none = pure default_state
  groups_or_default (some bytes) = decode_groups bytes

  unfoldable pub read_groups : Fd → Run k GroupState
  read_groups root = do
    found ← read_optional_bounded k root state_file max_group_bytes
    groups_or_default found

  unfoldable pub write_groups : Fd → GroupState → Run k (Unit {0})
  write_groups root state = do
    lift (validate_groups state)
    bytes ← lift (encode_groups state)
    fail_if (ltb max_group_bytes (length bytes)) (limit "group state")
    write_atomic_replacing k root state_file bytes

  -- The loop over the transactions that the mutation has not seen.
  pub find_terminal : Fd → Text → List TransactionId → Run k (Option Bool)
  find_terminal journal_root plan_sha256 [] = pure none
  find_terminal journal_root plan_sha256 (id ∷ ids) = do
    directory ← open_journal k journals journal_root id
    entries ← load_entries k journals directory
    λ m. elim (outcome_in plan_sha256 entries) [
      | some outcome ↦ (ok (some outcome), m)
      | none ↦ find_terminal journal_root plan_sha256 ids m
    ]

  unfoldable pub settle_all :
      Fd → List TransactionId → Settling → List PendingMutation → Run k Settling
  unfolding find_terminal
  settle_all journal_root ids s [] = pure s
  settle_all journal_root ids s (m ∷ pending) = do
    terminal ←
        find_terminal journal_root m.plan_sha256
          (filter (λ id. not (contains m.seen_transaction_ids id.value)) ids)
    settle_all journal_root ids (settle_one s m terminal) pending

  pub write_if : Bool → Fd → GroupState → Run k (Unit {0})
  write_if true root state = write_groups root state
  write_if false root state = pure tt

  unfoldable pub settle_pending : Fd → List Component → GroupState → Run k GroupState
  unfolding settle_all write_if
  settle_pending root journal_path state = do
    journal_root ← open_store k journals journal_path
    ids ← transaction_ids k journals journal_root
    settled ←
        settle_all journal_root ids
          (record { state = record state { pending = [] }; retained = []; changed = false })
          state.pending
    lift (validate_groups (record settled.state { pending = settled.retained }))
    write_if settled.changed root (record settled.state { pending = settled.retained })
    pure (record settled.state { pending = settled.retained })

  unfoldable pub reconcile_locked : Fd → List Component → Run k GroupState
  reconcile_locked root journal_path = do
    state ← read_groups root
    λ m. elim (is_empty state.pending) [
      | true ↦ (ok state, m)
      | false ↦ settle_pending root journal_path state m
    ]

  unfoldable pub installed_group_ids : Fd → List Component → Run k (List Text)
  installed_group_ids root journal_path =
      locked k root (do state ← reconcile_locked root journal_path; pure (keys state.groups))

  unfoldable pub packages_to_remove : Fd → List Component → List Text → Run k (List Text)
  packages_to_remove root journal_path group_ids = do
    lift (validate_sorted_ids group_ids)
    locked k root (do state ← reconcile_locked root journal_path; pure (removable state group_ids))

  unfoldable pub apply_install_now :
      Fd → List Component → List GroupRecord → List Text → Run k (Unit {0})
  apply_install_now root journal_path records introduced = do
    lift (validate_sorted_ids introduced)
    locked k root (do
      state ← reconcile_locked root journal_path
      groups ← lift (canonical_records records)
      write_groups root (apply_install state groups introduced))

  unfoldable pub apply_remove_now : Fd → List Component → List Text → Run k (Unit {0})
  apply_remove_now root journal_path group_ids = do
    lift (validate_sorted_ids group_ids)
    locked k root (do
      state ← reconcile_locked root journal_path
      write_groups root (apply_remove state group_ids))

  unfoldable pub record_pending :
      Fd → List Component → Text → MutationKind → Groups → List Text → Run k (Unit {0})
  record_pending root journal_path plan_sha256 kind groups introduced = do
    lift (validate_digest plan_sha256)
    locked k root (do
      state ← reconcile_locked root journal_path
      fail_if (leb max_pending (length state.pending)) (limit "pending group mutations")
      journal_root ← open_store k journals journal_path
      ids ← transaction_ids k journals journal_root
      lift
          (validate_groups (with_pending state (pending_of plan_sha256 kind groups introduced ids)))
      write_groups root (with_pending state (pending_of plan_sha256 kind groups introduced ids)))

  unfoldable pub record_pending_install :
      Fd → List Component → Text → List GroupRecord → List Text → Run k (Unit {0})
  record_pending_install root journal_path plan_sha256 records introduced = do
    lift (validate_sorted_ids introduced)
    groups ← lift (canonical_records records)
    record_pending root journal_path plan_sha256 install_groups groups introduced

  unfoldable pub record_pending_remove : Fd → List Component → Text → List Text → Run k (Unit {0})
  record_pending_remove root journal_path plan_sha256 group_ids = do
    lift (validate_sorted_ids group_ids)
    record_pending root journal_path plan_sha256 remove_groups
        (collect_map (map (λ id. (id, [])) group_ids)) []

  unfoldable pub open_groups : List Component → Run k Fd
  open_groups path = open_or_create_root k path

  unfoldable pub open_system_groups : Run k Fd
  open_system_groups = do
    fail_if (not (euid == 0)) (unsafe_path (text "system group state requires root"))
    open_groups (
        root_dir
        ∷ normal (text "var")
        ∷ normal (text "lib")
        ∷ normal (text "dnfast")
        ∷ normal (text "groups")
        ∷ [])
