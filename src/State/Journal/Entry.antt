-- ===== src/State/Journal/Entry.antt =====
-- crates/dnfast-state/src/model.rs, and the checks of crates/dnfast-state/src/store.rs on one entry
-- and on two neighbours. `JournalState` is from crates/dnfast-core/src/journal.rs.
use dnfast.Base.{
  ◌*◌, ◌+◌, ◌^◌, is_empty, last, ℕ, suc, ℤ, Text, text, len, Bool, true, false, ◌&&◌, ◌||◌, not,
  Option, none, some, List, [], ◌∷◌, length, get_elem?, any, all, same, nat_order, list_order,
  option_order, is_some, is_lower_hexdigit, ltb, ◌==◌, if◌then◌else◌, Result, ok, err, reject,
  ◌>>=◌, ◌>>◌,
}
use dnfast.Core.Canonical.{max_string_bytes}
pub use dnfast.Core.Journal.{JournalState, prepared, started, rpm_result, reconciled}
use dnfast.State.Error.{StateError, corrupt, limit}

abbrev pub max_record_bytes : ℕ
max_record_bytes = 8 * 1024 * 1024

pub record TransactionId : Type 0 where
  pub value : Text

abbrev is_hyphen : ℕ → Bool
is_hyphen index = index == 8 || (index == 13 || (index == 18 || index == 23))

-- The closure of `TransactionId::parse`, on the rest of the characters from an index on.
shape_from : ℕ → Text → Bool
shape_from index [] = true
shape_from index (byte ∷ bytes) =
    (if is_hyphen index then byte == b'-' else is_lower_hexdigit byte)
    && shape_from (suc index) bytes

abbrev has_variant : Option ℕ → Bool
has_variant none = false
has_variant (some byte) = byte == b'8' || (byte == b'9' || (byte == b'a' || byte == b'b'))

unfoldable pub parse_id : Text → Result StateError TransactionId
unfolding shape_from
parse_id value = do
  reject
      (not (len value == 36 && shape_from 0 value)
        || (not (same (get_elem? value 14) (some b'7')) || not (has_variant (get_elem? value 19))))
      (corrupt (text "transaction id is not canonical UUIDv7"))
  ok (record { value = value })

-- `{:?}`.
abbrev pub state_name : JournalState → Text
state_name prepared = text "Prepared"
state_name started = text "Started"
state_name rpm_result = text "RpmResult"
state_name reconciled = text "Reconciled"

pub record CallbackSummary : Type 0 where
  pub pretrans : ℕ
  pub pre : ℕ
  pub post : ℕ
  pub triggers : ℕ
  pub payload : ℕ
  pub database : ℕ
  pub script_log_truncated : Bool

pub record NativeResult : Type 0 where
  pub return_code : ℤ
  pub callbacks : CallbackSummary
  pub problems : List Text

pub record ReconcileResult : Type 0 where
  pub inventory_sha256 : Text
  pub success : Bool
  pub changed_packages : ℕ

pub record JournalEntry : Type 0 where
  pub schema_version : ℕ
  pub transaction_id : Text
  pub plan_sha256 : Text
  pub sequence : ℕ
  pub state : JournalState
  pub native_result : Option NativeResult
  pub reconciliation : Option ReconcileResult

pub data RecoveryAction : Type 0 where
  cleanup_revalidate_and_reapprove reconcile_only : RecoveryAction
  terminal : ReconcileResult → RecoveryAction

-- The three steps of a transaction.
abbrev pub legal : JournalState → JournalState → Bool
legal prepared started = true
legal started rpm_result = true
legal rpm_result reconciled = true
legal _ _ = false

unfoldable pub validate_digest : Text → Result StateError (Unit {0})
validate_digest value =
    if len value == 64 && all is_lower_hexdigit value
    then ok tt
    else err (corrupt (text "invalid SHA-256"))

-- Which results an entry of each state carries.
abbrev pub payload_fits : JournalState → Bool → Bool → Bool
payload_fits prepared native reconciliation = not native && not reconciliation
payload_fits started native reconciliation = not native && not reconciliation
payload_fits rpm_result native reconciliation = native && not reconciliation
payload_fits reconciled native reconciliation = not native && reconciliation

abbrev too_many_problems : Option NativeResult → Bool
too_many_problems none = false
too_many_problems (some result) =
    ltb 16 (length result.problems)
    || any (λ problem. ltb max_string_bytes (len problem)) result.problems

unfoldable pub validate_entry : JournalEntry → Result StateError (Unit {0})
unfolding parse_id validate_digest
validate_entry entry = do
  reject (not (entry.schema_version == 1)) (corrupt (text "unsupported schema"))
  id ← parse_id entry.transaction_id
  validate_digest entry.plan_sha256
  reject
      (not (payload_fits entry.state (is_some entry.native_result) (is_some entry.reconciliation)))
      (corrupt (text "state payload mismatch"))
  reject (too_many_problems entry.native_result) (limit "native problems")

unfoldable pub validate_pair : JournalEntry → JournalEntry → Result StateError (Unit {0})
validate_pair previous next =
    reject
      (not (
          same previous.transaction_id next.transaction_id
          && same previous.plan_sha256 next.plan_sha256)
        || not (legal previous.state next.state))
      (corrupt (text "invalid persisted transition"))

-- `for pair in records.windows(2)`.
unfoldable pub validate_pairs : JournalEntry → List JournalEntry → Result StateError (Unit {0})
validate_pairs previous [] = ok tt
validate_pairs previous (next ∷ rest) =
    validate_pair previous next >>= λ _. validate_pairs next rest

unfoldable pub validate_windows : List JournalEntry → Result StateError (Unit {0})
unfolding validate_pairs validate_pair
validate_windows [] = ok tt
validate_windows (first ∷ rest) = validate_pairs first rest

-- `records.iter().enumerate().any(|(index, entry)| entry.sequence != index as u64)`.
abbrev pub out_of_sequence : ℕ → List JournalEntry → Bool
out_of_sequence index [] = false
out_of_sequence index (entry ∷ rest) =
    not (entry.sequence == index) || out_of_sequence (suc index) rest

-- The last part of `load_entries`, on the sorted records.
unfoldable pub check_history : List JournalEntry → Result StateError (Unit {0})
unfolding validate_windows
check_history records = do
  reject (is_empty records || out_of_sequence 0 records)
      (corrupt (text "torn or missing journal sequence"))
  validate_windows records

-- `ok_or_else`.
abbrev pub or_empty_journal : Option JournalEntry → Result StateError JournalEntry
or_empty_journal none = err (corrupt (text "journal is empty"))
or_empty_journal (some entry) = ok entry

abbrev pub last_entry : List JournalEntry → Result StateError JournalEntry
last_entry entries = or_empty_journal (last entries)

-- `checked_add(1)` on a `u64`.
abbrev pub next_sequence : ℕ → Result StateError ℕ
next_sequence sequence =
    if ltb (sequence + 1) (2 ^ 64)
    then ok (sequence + 1)
    else err (corrupt (text "sequence overflow"))

-- The entry that follows `previous`.
abbrev pub following :
    JournalEntry → ℕ → JournalState → Option NativeResult → Option ReconcileResult → JournalEntry
following previous sequence state native reconciliation = record {
  schema_version = 1;
  transaction_id = previous.transaction_id;
  plan_sha256 = previous.plan_sha256;
  sequence = sequence;
  state = state;
  native_result = native;
  reconciliation = reconciliation;
}

abbrev pub first_entry : Text → Text → JournalEntry
first_entry id plan_sha256 = record {
  schema_version = 1;
  transaction_id = id;
  plan_sha256 = plan_sha256;
  sequence = 0;
  state = prepared;
  native_result = none;
  reconciliation = none;
}
