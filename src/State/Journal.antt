-- ===== src/State/Journal.antt =====
-- crates/dnfast-state/src/store.rs: the journal of one transaction, a file for each entry. A
-- `JournalStore` is its root's descriptor, a `TransactionJournal` its directory's, which `lock`
-- locks; `serde_json` and the system calls are parameters.
pub mod Entry
pub mod History
pub mod Loading
pub mod Transition
pub mod Recovery
use dnfast.Base.{
  ◌==◌, ℕ, ◌+◌, ℤ, Text, text, ◌++◌, Bool, not, ◌||◌, Option, none, some, List, [], ◌∷◌, nat_order,
  list_order, same, contains, filter, length, sort_by_key, ends_with, ltb, Result, ok, err, map_err,
  if◌then◌else◌,
}
use dnfast.Core.Value.Display.{to_string}
use dnfast.Core.Canonical.{Bytes, Serde, serialize, parse}
use dnfast.State.Error.{StateError, io, unsafe_path, corrupt, limit, transition, busy}
use dnfast.State.Io.{Io, continue, ◌>>=◌, ◌>>◌, pure, fail, lift, fail_if}
use dnfast.State.Fs.{
  Kernel, Run, Machine, create_transaction, open_transaction, child_names, read_bounded,
  write_record, record_name, remove_failed_transaction,
}
use dnfast.State.Fs.Root.{Component, root_dir, normal, open_or_create_root}
use dnfast.State.Journal.Entry.{
  max_record_bytes, TransactionId, JournalState, prepared, started, rpm_result, reconciled,
  state_name, CallbackSummary, NativeResult, ReconcileResult, JournalEntry, legal, parse_id,
  validate_digest, validate_entry, check_history, last_entry, next_sequence, following, first_entry,
}

abbrev pub is_record_file : Text → Bool
is_record_file name = ends_with name (text ".json")

module _ (k : Kernel) (serde : Serde JournalEntry) where
  open k use {Fd, Errno, describe, is_wouldblock, flock_exclusive, euid}

  unfoldable pub canonical_bytes : JournalEntry → Result StateError Bytes
  canonical_bytes entry = map_err (λ e. corrupt (to_string e)) (serialize serde entry)

  unfoldable pub decode_entry : Bytes → Result StateError JournalEntry
  decode_entry bytes = map_err (λ e. corrupt (to_string e)) (parse serde bytes)

  -- One turn of the loop of `load_entries`; `seen` is the set `sequences`.
  unfoldable pub load_record : Fd → List ℕ → Text → Run k JournalEntry
  load_record directory seen name = do
    bytes ← read_bounded k directory name max_record_bytes
    entry ← lift (decode_entry bytes)
    canonical ← lift (canonical_bytes entry)
    fail_if (not (same canonical bytes)) (corrupt (text "record is not canonical JSON"))
    lift (validate_entry entry)
    fail_if (not (same name (record_name entry.sequence)) || contains seen entry.sequence)
        (corrupt (text "duplicate or mismatched sequence"))
    pure entry

  unfoldable pub load_records : Fd → List ℕ → List Text → Run k (List JournalEntry)
  load_records directory seen [] = pure []
  load_records directory seen (name ∷ names) = load_record directory seen name >>= λ entry.
      load_records directory (entry.sequence ∷ seen) names >>= λ rest. pure (entry ∷ rest)

  unfoldable pub load_entries : Fd → Run k (List JournalEntry)
  unfolding load_records load_record
  load_entries directory = do
    names ← child_names k directory
    records ← load_records directory [] (filter is_record_file names)
    lift (check_history (sort_by_key (λ entry. entry.sequence) records))
    pure (sort_by_key (λ entry. entry.sequence) records)

  unfoldable pub publish_entry : Fd → JournalEntry → Run k (Unit {0})
  publish_entry directory entry = do
    lift (validate_entry entry)
    bytes ← lift (canonical_bytes entry)
    fail_if (ltb max_record_bytes (length bytes)) (limit "record")
    write_record k directory entry.sequence bytes

  -- `transition`, once the entries are loaded.
  unfoldable pub advance :
      Fd
      → JournalState
      → Option NativeResult
      → Option ReconcileResult
      → List JournalEntry
      → Run k (Unit {0})
  advance directory next native reconciliation entries = do
    previous ← lift (last_entry entries)
    fail_if (not (legal previous.state next))
        (transition (state_name previous.state ++ (text " -> " ++ state_name next)))
    sequence ← lift (next_sequence previous.sequence)
    publish_entry directory (following previous sequence next native reconciliation)

  unfoldable pub make_transition :
      Fd → JournalState → Option NativeResult → Option ReconcileResult → Run k (Unit {0})
  unfolding advance
  make_transition directory next native reconciliation = do
    entries ← load_entries directory
    advance directory next native reconciliation entries

  unfoldable pub mark_started : Fd → Run k (Unit {0})
  mark_started directory = make_transition directory started none none

  unfoldable pub record_rpm_result_with_problems :
      Fd → ℤ → CallbackSummary → List Text → Run k (Unit {0})
  record_rpm_result_with_problems directory return_code callbacks problems =
      make_transition directory rpm_result
        (some (record { return_code = return_code; callbacks = callbacks; problems = problems }))
        none

  unfoldable pub record_rpm_result : Fd → ℤ → CallbackSummary → Run k (Unit {0})
  unfolding record_rpm_result_with_problems
  record_rpm_result directory return_code callbacks =
      record_rpm_result_with_problems directory return_code callbacks []

  unfoldable pub reconcile : Fd → ReconcileResult → Run k (Unit {0})
  reconcile directory result = do
    lift (validate_digest result.inventory_sha256)
    make_transition directory reconciled none (some result)

  -- `previous.sequence + 1` stays far below 2 ^ 64: a loaded journal has at most four entries.
  unfoldable pub rpm_result_encoded_len : Fd → ℤ → CallbackSummary → List Text → Run k ℕ
  rpm_result_encoded_len directory return_code callbacks problems = do
    entries ← load_entries directory
    previous ← lift (last_entry entries)
    bytes ← lift (
        canonical_bytes (
          following previous (previous.sequence + 1) rpm_result
            (some
              (record { return_code = return_code; callbacks = callbacks; problems = problems }))
            none))
    pure (length bytes)

  lock_error : Errno → StateError
  lock_error e = if is_wouldblock e then busy else io (describe e)

  unfoldable pub lock : Fd → Run k (Unit {0})
  unfolding lock_error
  lock directory (w, armed) =
      (map_err lock_error (flock_exclusive directory w).0, ((flock_exclusive directory w).1, armed))

  -- What `create` does with the result of publishing the first entry.
  keep_or_remove : Fd → Text → Result StateError (Unit {0}) → Run k (Unit {0})
  keep_or_remove root child (ok u) = pure tt
  keep_or_remove root child (err e) = remove_failed_transaction k root child >>= λ _. fail e

  publish_first : Fd → Fd → Text → Text → Run k (Unit {0})
  unfolding keep_or_remove
  publish_first root directory id plan_sha256 m =
      let (published, m') = publish_entry directory (first_entry id plan_sha256) m in
      keep_or_remove root id published m'

  -- `JournalStore::create`, which returns the journal's directory.
  unfoldable pub create_journal : Fd → TransactionId → Text → Run k Fd
  unfolding publish_first lock
  create_journal root id plan_sha256 = do
    lift (validate_digest plan_sha256)
    directory ← create_transaction k root id.value
    lock directory
    publish_first root directory id.value plan_sha256
    pure directory

  unfoldable pub open_journal : Fd → TransactionId → Run k Fd
  unfolding lock
  open_journal root id = do
    directory ← open_transaction k root id.value
    lock directory
    pure directory

  parse_ids : List Text → Result StateError (List TransactionId)
  parse_ids [] = ok []
  parse_ids (name ∷ names) = elim (parse_id name) [
    | err e ↦ err e
    | ok id ↦ elim (parse_ids names) [ err e ↦ err e | ok ids ↦ ok (id ∷ ids) ]
  ]

  unfoldable pub transaction_ids : Fd → Run k (List TransactionId)
  unfolding parse_ids
  transaction_ids root = do names ← child_names k root; lift (parse_ids names)

  -- `JournalStore::with_faults`; `open` arms no fault.
  unfoldable pub open_store : List Component → Run k Fd
  open_store path = open_or_create_root k path

  -- `JournalStore::open_system`.
  unfoldable pub open_system : Run k Fd
  open_system =
      fail_if (not (euid == 0)) (unsafe_path (text "system journal requires root")) >>= λ _.
      open_store (
        root_dir
        ∷ normal (text "var")
        ∷ normal (text "lib")
        ∷ normal (text "dnfast")
        ∷ normal (text "transactions")
        ∷ [])
