-- ===== src/Core/Tests/Records.antt =====
-- Runs of the records of crates/dnfast-core/src/journal.rs.
use dnfast.Base.{[], text, ◌≡◌, refl, err}
use dnfast.Core.Value.{empty, invalid_digest, custom, parse_digest}
use dnfast.Core.Policy.{user, dependency}
use dnfast.Core.Journal.{HistoryRecord, new_journal, new_history, decode_history, started, prepared}

nameless_history : new_history [] user started ≡ err (empty "package_name")
unfolding new_history
nameless_history = refl

short_digest : new_journal (text "ab") 3 prepared ≡ err (invalid_digest "plan_sha256")
unfolding new_journal parse_digest
short_digest = refl

abbrev foreign_history : HistoryRecord
foreign_history = record {
  schema = 2;
  package_name = text "zsh";
  reason = dependency;
  state = started;
}

foreign_history_refused : decode_history foreign_history ≡ err (custom "invalid history record")
unfolding decode_history
foreign_history_refused = refl
