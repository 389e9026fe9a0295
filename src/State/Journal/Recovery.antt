-- ===== src/State/Journal/Recovery.antt =====
-- crates/dnfast-state/src/recovery.rs: what is left to do after an interruption, by the last entry.
pub mod Decision
use dnfast.Base.{
  ℤ, negsuc, Text, text, Bool, true, false, none, some, Option, List, contains_text, Result, ok,
  err, if◌then◌else◌,
}
use dnfast.Core.Canonical.{Serde}
use dnfast.State.Error.{StateError, io, corrupt}
use dnfast.State.Io.{Io, continue, ◌>>=◌, ◌>>◌, pure, fail, lift, fail_if}
use dnfast.State.Fs.{Kernel, Run}
use dnfast.State.Fs.Root.{Component, cleanup_private_child}
use dnfast.State.Journal.Entry.{
  TransactionId, JournalState, prepared, started, rpm_result, reconciled, CallbackSummary,
  ReconcileResult, JournalEntry, RecoveryAction, cleanup_revalidate_and_reapprove, reconcile_only,
  terminal, last_entry,
}
use dnfast.State.Journal.{load_entries, record_rpm_result}

abbrev pub no_callbacks : CallbackSummary
no_callbacks = record {
  pretrans = 0;
  pre = 0;
  post = 0;
  triggers = 0;
  payload = 0;
  database = 0;
  script_log_truncated = false;
}

abbrev pub terminal_result : Option ReconcileResult → Result StateError RecoveryAction
terminal_result none = err (corrupt (text "terminal result missing"))
terminal_result (some result) = ok (terminal result)

module _ (k : Kernel) (serde : Serde JournalEntry) where
  -- The match on the state of the last entry.
  pub recover_from : k.Fd → JournalEntry → JournalState → Run k RecoveryAction
  recover_from directory entry prepared = pure cleanup_revalidate_and_reapprove
  recover_from directory entry started =
      record_rpm_result k serde directory (negsuc 0) no_callbacks >>= λ _. pure reconcile_only
  recover_from directory entry rpm_result = pure reconcile_only
  recover_from directory entry reconciled = lift (terminal_result entry.reconciliation)

  unfoldable pub recover : k.Fd → Run k RecoveryAction
  unfolding recover_from
  recover directory = do
    entries ← load_entries k serde directory
    entry ← lift (last_entry entries)
    recover_from directory entry entry.state

  -- The errors of the cleaning that `recover_with_staging` takes for a missing directory.
  unless_missing : Result StateError (Unit {0}) → Result StateError (Unit {0})
  unless_missing (ok u) = ok tt
  unless_missing (err (io message)) =
      if contains_text message (text "No such file") then ok tt else err (io message)
  unless_missing (err e) = err e

  clean_staging : List Component → TransactionId → RecoveryAction → Run k (Unit {0})
  unfolding unless_missing
  clean_staging staging_root id cleanup_revalidate_and_reapprove m =
      let (cleaned, m') = cleanup_private_child k staging_root id.value m in
      (unless_missing cleaned, m')
  clean_staging staging_root id reconcile_only m = (ok tt, m)
  clean_staging staging_root id (terminal result) m = (ok tt, m)

  unfoldable pub recover_with_staging : k.Fd → List Component → TransactionId → Run k RecoveryAction
  unfolding clean_staging
  recover_with_staging directory staging_root id = do
    action ← recover directory
    clean_staging staging_root id action
    pure action
