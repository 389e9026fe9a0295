-- ===== src/State/Journal/Loading.antt =====
-- What a journal is known to be once `load_entries` of crates/dnfast-state/src/store.rs has read it.
use dnfast.Base.{
  ℕ, Text, ◌≡◌, List, [], ◌∷◌, All, All-sort_by_key, filter, sort_by_key, ok, same, contains, not,
  ◌||◌, nat_order, list_order,
}
use dnfast.Core.Canonical.{Serde}
use dnfast.State.Io.{Returns, Returns-bind, Returns-any, Returns-lift, Returns-pure, lift, fail_if}
use dnfast.State.Fs.{Kernel, Machine, child_names, read_bounded, record_name}
use dnfast.State.Journal.Entry.{JournalEntry, validate_entry, check_history, max_record_bytes}
use dnfast.State.Journal.{
  load_record, load_records, load_entries, is_record_file, decode_entry, canonical_bytes,
}
use dnfast.State.Journal.History.{IsHistory, check_history-IsHistory}

module _ (k : Kernel) (serde : Serde JournalEntry) where
  abbrev IsValid : JournalEntry → Type 0
  IsValid e = validate_entry e ≡ ok tt

  load_record-IsValid :
      (d : k.Fd) (seen : List ℕ) (name : Text) → Returns IsValid (load_record k serde d seen name)
  unfolding load_record
  load_record-IsValid d seen name =
      Returns-bind _ _ (Returns-any (read_bounded k d name max_record_bytes)) λ bytes _.
        Returns-bind _ _ (Returns-any (lift (decode_entry k serde bytes))) λ entry _.
          Returns-bind _ _ (Returns-any (lift (canonical_bytes k serde entry))) λ canonical _.
            Returns-bind _ _ (Returns-any (fail_if (not (same canonical bytes)) _)) λ _ _.
              Returns-bind _ _ (Returns-lift (validate_entry entry)) λ _ valid.
                Returns-bind _ _
                  (Returns-any (
                    fail_if
                      (not (same name (record_name entry.sequence)) || contains seen entry.sequence)
                      _))
                  λ _ _. Returns-pure IsValid entry valid

  load_records-IsValid :
      (d : k.Fd) (seen : List ℕ) (names : List Text)
      → Returns (All IsValid) (load_records k serde d seen names)
  unfolding load_records
  load_records-IsValid d seen [] = Returns-pure (All IsValid) [] tt
  load_records-IsValid d seen (name ∷ names) =
      Returns-bind _ _ (load_record-IsValid d seen name) λ entry one.
        Returns-bind _ _ (load_records-IsValid d (entry.sequence ∷ seen) names)
          λ rest more. Returns-pure (All IsValid) (entry ∷ rest) (one, more)

  load_entries-Returns :
      (d : k.Fd)
      → Returns (λ es. (check_history es ≡ ok tt) × IsHistory es) (load_entries k serde d)
  unfolding load_entries
  load_entries-Returns d = Returns-bind _ _ (Returns-any (child_names k d)) λ names _.
      Returns-bind _ _ (load_records-IsValid d [] (filter is_record_file names)) λ records valid.
        let sorted : List JournalEntry = sort_by_key (λ e. e.sequence) records in
        Returns-bind _ _ (Returns-lift (check_history sorted)) λ _ checked. Returns-pure _ sorted (
          checked,
          check_history-IsHistory sorted checked
              (All-sort_by_key IsValid (λ e. e.sequence) records valid),
        )

  -- The entries that `load_entries` returns are a history: one transaction and one plan, numbered
  -- from 0 without a gap, each one step further than the one before it, every one valid, so that
  -- there are at most four.
  pub load_entries-IsHistory :
      (directory : k.Fd) (s : Machine k) {entries : List JournalEntry}
      → (load_entries k serde directory s).0 ≡ ok entries
      → (check_history entries ≡ ok tt) × IsHistory entries
  load_entries-IsHistory directory s {entries} h =
      (load_entries-Returns directory).returned s entries h
