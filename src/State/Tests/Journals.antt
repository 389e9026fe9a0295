-- ===== src/State/Tests/Journals.antt =====
-- Journals on the small file system; a codec of one-byte documents stands for `serde_json`.
use dnfast.Base.{
  arith, ℕ, negsuc, Text, text, ◌≡◌, refl, Option, none, some, List, [], ◌∷◌, ◌++◌, Result, ok, err,
  same, nat_order, list_order, ◌==◌, if◌then◌else◌, decimal, decimal_padded, sort, sort_by_key,
}
use dnfast.Core.Canonical.{Bytes, Serde, serialize, parse, inspect}
use dnfast.State.Error.{none_armed, check_fault, transition}
use dnfast.State.Fs.{Machine, child_names, read_bounded, write_record, record_name, temporary_name}
use dnfast.State.Journal.Entry.{
  JournalState, prepared, started, rpm_result, reconciled, NativeResult, JournalEntry,
  RecoveryAction, reconcile_only, validate_entry, check_history,
}
use dnfast.State.Journal.{
  record_rpm_result, load_entries, make_transition, canonical_bytes, decode_entry, publish_entry,
  advance,
}
use dnfast.State.Journal.History.{IsHistory, check_history-append}
use dnfast.State.Journal.Loading.{load_entries-IsHistory}
use dnfast.State.Journal.Transition.{make_transition-illegal, make_transition-Published, Published}
use dnfast.State.Journal.Recovery.{recover, no_callbacks}
use dnfast.State.Journal.Recovery.Decision.{Decides, recover-Decides, recover-started}
use dnfast.State.Tests.Files.{Disk, disk_kernel, disk_laws, update}

abbrev id : Text
id = text "01890a5d-ac96-774b-bcce-b302099a8057"

abbrev plan : Text
plan = text "0123456789abcdef0123456789abcdef0123456789abcdef0123456789abcdef"

abbrev stopped : NativeResult
stopped = record { return_code = negsuc 0; callbacks = no_callbacks; problems = [] }

abbrev entry : JournalState → ℕ → Option NativeResult → JournalEntry
entry state sequence native = record {
  schema_version = 1;
  transaction_id = id;
  plan_sha256 = plan;
  sequence = sequence;
  state = state;
  native_result = native;
  reconciliation = none;
}

abbrev state_byte : JournalState → ℕ
state_byte prepared = b'0'
state_byte started = b'1'
state_byte rpm_result = b'2'
state_byte reconciled = b'3'

abbrev read_entry : Bytes → Result Text JournalEntry
read_entry [] = err (text "EOF")
read_entry (c ∷ d ∷ r) = err (text "trailing characters")
read_entry (c ∷ []) =
    if c == b'0'
    then ok (entry prepared 0 none)
    else if c == b'1'
    then ok (entry started 1 none)
    else if c == b'2'
    then ok (entry rpm_result 2 (some stopped))
    else err (text "unknown state")

abbrev pub codec : Serde JournalEntry
codec = record { from_slice = read_entry; to_vec = λ e. ok (state_byte e.state ∷ []) }

abbrev names : List Text
names = record_name 1 ∷ record_name 0 ∷ []

abbrev two_records : Disk
two_records name =
    if same name (record_name 0)
    then some (b'0' ∷ [])
    else if same name (record_name 1)
    then some (b'1' ∷ [])
    else none

abbrev machine : Machine (disk_kernel names)
machine = (two_records, none_armed)

abbrev entries : List JournalEntry
entries = entry prepared 0 none ∷ entry started 1 none ∷ []

loads : (load_entries (disk_kernel names) codec tt machine).0 ≡ ok entries
unfolding load_entries child_names read_bounded decode_entry canonical_bytes validate_entry
    check_history serialize parse inspect record_name decimal_padded sort sort_by_key
loads = refl

load_entries-IsHistory_example : (check_history entries ≡ ok tt) × IsHistory entries
load_entries-IsHistory_example = load_entries-IsHistory (disk_kernel names) codec tt machine loads

make_transition-illegal_example :
    make_transition (disk_kernel names) codec tt reconciled none none machine
    ≡ (err (transition (text "Started -> Reconciled")), machine)
make_transition-illegal_example =
    make_transition-illegal (disk_kernel names) codec tt reconciled none none machine entries
      (entry started 1 none) loads refl (λ e. ground arith)

moves :
    (make_transition (disk_kernel names) codec tt rpm_result (some stopped) none machine).0 ≡ ok tt
unfolding make_transition advance publish_entry load_entries child_names read_bounded decode_entry
    canonical_bytes validate_entry check_history serialize parse inspect record_name decimal_padded
    sort sort_by_key write_record temporary_name decimal check_fault update
moves = refl

make_transition-Published_example :
    Published
      (disk_kernel names)
      codec
      tt
      (disk_laws names)
      rpm_result
      (some stopped)
      none
      machine
      (make_transition (disk_kernel names) codec tt rpm_result (some stopped) none machine).1
make_transition-Published_example =
    make_transition-Published (disk_kernel names) codec tt (disk_laws names) rpm_result
      (some stopped) none machine moves

recovers : (recover (disk_kernel names) codec tt machine).0 ≡ ok reconcile_only
unfolding recover record_rpm_result make_transition advance publish_entry load_entries child_names
    read_bounded decode_entry canonical_bytes validate_entry check_history serialize parse inspect
    record_name decimal_padded sort sort_by_key write_record temporary_name decimal check_fault
    update
recovers = refl

recover-started_example :
    (reconcile_only ≡ reconcile_only)
    × Published
        (disk_kernel names)
        codec
        tt
        (disk_laws names)
        rpm_result
        (some stopped)
        none
        machine
        (recover (disk_kernel names) codec tt machine).1
recover-started_example =
    recover-started (disk_kernel names) codec tt (disk_laws names) machine entries
      (entry started 1 none) reconcile_only loads refl refl recovers

abbrev one_name : List Text
one_name = record_name 0 ∷ []

abbrev prepared_machine : Machine (disk_kernel one_name)
prepared_machine = (two_records, none_armed)

loads_one :
    (load_entries (disk_kernel one_name) codec tt prepared_machine).0
    ≡ ok (entry prepared 0 none ∷ [])
unfolding load_entries child_names read_bounded decode_entry canonical_bytes validate_entry
    check_history serialize parse inspect record_name decimal_padded sort sort_by_key
loads_one = refl

recover-Decides_example :
    (action : RecoveryAction) × (recover (disk_kernel one_name) codec tt prepared_machine
      ≡ (ok action, prepared_machine))
    × Decides prepared none action
recover-Decides_example =
    recover-Decides (disk_kernel one_name) codec tt prepared_machine (entry prepared 0 none ∷ [])
      (entry prepared 0 none) loads_one refl (λ e. cc)

history_grows : check_history (entries ++ entry rpm_result 2 (some stopped) ∷ []) ≡ ok tt
unfolding check_history
history_grows =
    check_history-append entries (entry started 1 none) (entry rpm_result 2 (some stopped)) refl
      refl refl refl refl refl

-- A journal whose first record is not `Prepared` passes the checks of a load.
starts_anywhere : check_history (entry rpm_result 0 (some stopped) ∷ []) ≡ ok tt
unfolding check_history
starts_anywhere = refl
