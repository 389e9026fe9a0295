-- ===== src/State/Journal/Transition.antt =====
-- What a transition does to the disk: `transition` of crates/dnfast-state/src/store.rs.
use dnfast.Base.{
  sort, decimal_padded, length-append, Bool-cases, inl, inr, err-ne-ok, ℕ, suc, ◌+◌, Text, ◌++◌,
  text, ◌≡◌, ◌≢◌, ◌∙◌, sym, ap, refl, true, false, Option, none, some, List, [], ◌∷◌, arith, filter,
  sort_by_key, last, length, ltb, Result, ok, err, ok-injective, subst, same, contains, not, ◌||◌,
  nat_order, list_order,
}
use dnfast.Core.Canonical.{Serde, Bytes}
use dnfast.State.Error.{transition}
use dnfast.State.Io.{continue, continue-eq-ok, Keeps, Keeps-bind, Keeps-lift, Keeps-fail_if, ◌>>=◌}
use dnfast.State.Fs.{
  Kernel, Run, Machine, ask, child_names, entry_names, read_bounded, read_open, record_name,
  temporary_name, write_record,
}
use dnfast.State.Fs.Laws.{FileLaws}
use dnfast.State.Fs.Atomic.{write_record-atomic}
use dnfast.State.Journal.Entry.{
  JournalEntry, JournalState, NativeResult, ReconcileResult, state_name, legal, validate_entry,
  check_history, max_record_bytes, last_entry, next_sequence, following, or_empty_journal,
}
use dnfast.State.Journal.{
  load_record, load_records, load_entries, is_record_file, decode_entry, canonical_bytes,
  publish_entry, advance, make_transition,
}
use dnfast.State.Journal.History.{check_history-append, rank, legal-rank}
use dnfast.State.Journal.Loading.{load_entries-IsHistory}

module _ (k : Kernel) where
  Keeps-ask {ℓ} : {A : Type ℓ} (f : k.World → Result k.Errno A) → Keeps (ask k f)
  Keeps-ask f = record { same_state = λ s. refl }

  child_names-Keeps : (d : k.Fd) → Keeps (child_names k d)
  unfolding child_names
  child_names-Keeps d = Keeps-bind (Keeps-ask (λ w. k.read_dir w d)) λ entries.
      Keeps-bind (Keeps-lift (entry_names k entries)) λ names. Keeps-lift (ok (sort names))

  read_bounded-Keeps :
      (d : k.Fd) (name : Text) (maximum : ℕ) → Keeps (read_bounded k d name maximum)
  unfolding read_bounded
  read_bounded-Keeps d name maximum =
      Keeps-bind (Keeps-ask (λ w. k.open_file w d name))
        λ file. Keeps-lift (read_open k file maximum)

module _ (k : Kernel) (serde : Serde JournalEntry) where
  load_record-Keeps :
      (d : k.Fd) (seen : List ℕ) (name : Text) → Keeps (load_record k serde d seen name)
  unfolding load_record
  load_record-Keeps d seen name = Keeps-bind (read_bounded-Keeps k d name max_record_bytes) λ bytes.
      Keeps-bind (Keeps-lift (decode_entry k serde bytes)) λ entry.
        Keeps-bind (Keeps-lift (canonical_bytes k serde entry)) λ canonical.
          Keeps-bind (Keeps-fail_if (not (same canonical bytes)) _) λ _.
            Keeps-bind (Keeps-lift (validate_entry entry)) λ _.
              Keeps-bind
                (Keeps-fail_if
                  (not (same name (record_name entry.sequence)) || contains seen entry.sequence) _)
                λ _. Keeps-lift (ok entry)

  load_records-Keeps :
      (d : k.Fd) (seen : List ℕ) (names : List Text) → Keeps (load_records k serde d seen names)
  unfolding load_records
  load_records-Keeps d seen [] = Keeps-lift (ok [])
  load_records-Keeps d seen (name ∷ names) = Keeps-bind (load_record-Keeps d seen name) λ entry.
      Keeps-bind (load_records-Keeps d (entry.sequence ∷ seen) names)
        λ rest. Keeps-lift (ok (entry ∷ rest))

  pub load_entries-Keeps : (d : k.Fd) → Keeps (load_entries k serde d)
  unfolding load_entries
  load_entries-Keeps d = Keeps-bind (child_names-Keeps k d) λ names.
      Keeps-bind (load_records-Keeps d [] (filter is_record_file names)) λ records.
        let sorted : List JournalEntry = sort_by_key (λ e. e.sequence) records in
        Keeps-bind (Keeps-lift (check_history sorted)) λ _. Keeps-lift (ok sorted)

  -- Loading again, or anything after loading, starts from the same disk.
  pub after_loading {ℓ} :
      {B : Type ℓ} (d : k.Fd) (f : List JournalEntry → Run k B) (s : Machine k)
      {entries : List JournalEntry}
      → (load_entries k serde d s).0 ≡ ok entries
      → (load_entries k serde d >>= f) s ≡ f entries s
  after_loading d f s {entries} h =
      ap (λ r. continue r f (load_entries k serde d s).1) h
      ∙ ap (f entries) ((load_entries-Keeps d).same_state s)

  not_next : (a b : JournalState) → rank b ≢ suc (rank a) → legal a b ≡ false
  not_next a b far = elim (Bool-cases (legal a b)) [
    | inl h ↦ absurd (far (legal-rank a b h))
    | inr h ↦ h
  ]

  -- A transition to any state but the one right after the last entry's, in the order `Prepared`,
  -- `Started`, `RpmResult`, `Reconciled`, is refused with the two states, and the refusal changes
  -- nothing on the disk.
  pub make_transition-illegal :
      (directory : k.Fd) (next : JournalState) (native : Option NativeResult)
      (reconciliation : Option ReconcileResult) (s : Machine k) (entries : List JournalEntry)
      (previous : JournalEntry)
      → (load_entries k serde directory s).0 ≡ ok entries
      → last entries ≡ some previous
      → rank next ≢ suc (rank previous.state)
      → make_transition k serde directory next native reconciliation s
        ≡ (err (transition (state_name previous.state ++ (text " -> " ++ state_name next))), s)
  unfolding make_transition advance
  make_transition-illegal directory next native reconciliation s entries previous h l far =
      let illegal : legal previous.state next ≡ false = not_next previous.state next far in
      after_loading directory (advance k serde directory next native reconciliation) s h
      ∙ rw (l, illegal, advance) refl

-- What a transition that returned has done.
pub record Published (k : Kernel) (serde : Serde JournalEntry) (d : k.Fd) (laws : FileLaws k d)
    (next : JournalState) (native : Option NativeResult) (reconciliation : Option ReconcileResult)
    (s s' : Machine k) : Type 0 where
  pub entries : List JournalEntry
  pub previous : JournalEntry
  pub bytes : Bytes
  pub loaded : (load_entries k serde d s).0 ≡ ok entries
  pub last_one : last entries ≡ some previous
  pub step : legal previous.state next ≡ true
  pub entry_valid :
      validate_entry (following previous (previous.sequence + 1) next native reconciliation) ≡ ok tt
  pub encoded :
      canonical_bytes k serde
        (following previous (previous.sequence + 1) next native reconciliation)
      ≡ ok bytes
  pub written : laws.content s'.0 (record_name (previous.sequence + 1)) ≡ some bytes
  pub loadable :
      check_history
        (entries ++ following previous (previous.sequence + 1) next native reconciliation ∷ [])
      ≡ ok tt

no_name : (k : Kernel) (n : ℕ) → ([] ≢ temporary_name k n) × ([] ≢ record_name n)
unfolding temporary_name record_name
no_name k n = (
  λ e. omega (arith, ap length e),
  λ e. omega (arith, ap length e, length-append (decimal_padded n) (text ".json")),
)

module _ (k : Kernel) (serde : Serde JournalEntry) where
  record IsPublished (d : k.Fd) (entry : JournalEntry) (s : Machine k) : Type 0 where
    bytes : Bytes
    valid : validate_entry entry ≡ ok tt
    encoded : canonical_bytes k serde entry ≡ ok bytes
    run : publish_entry k serde d entry s ≡ write_record k d entry.sequence bytes s

  publish_entry-IsPublished :
      (d : k.Fd) (entry : JournalEntry) (s : Machine k)
      → (publish_entry k serde d entry s).0 ≡ ok tt
      → IsPublished d entry s
  unfolding publish_entry
  publish_entry-IsPublished d entry s h =
      let (_, valid, h₁, e₁) = continue-eq-ok (validate_entry entry) _ s h in
      let (bytes, encoded, h₂, e₂) = continue-eq-ok (canonical_bytes k serde entry) _ s h₁ in
      elim (Bool-cases (ltb max_record_bytes (length bytes))) [
        | inl big ↦ absurd (err-ne-ok (rw big at h₂))
        | inr small ↦ record {
          bytes = bytes;
          valid = valid;
          encoded = encoded;
          run = e₁ ∙ e₂ ∙ rw small refl;
        }
      ]

  record IsAdvanced (d : k.Fd) (next : JournalState) (native : Option NativeResult)
      (reconciliation : Option ReconcileResult) (entries : List JournalEntry) (s : Machine k)
      : Type 0 where
    previous : JournalEntry
    last_one : last entries ≡ some previous
    step : legal previous.state next ≡ true
    run :
        advance k serde d next native reconciliation entries s
        ≡ publish_entry k serde d
            (following previous (previous.sequence + 1) next native reconciliation)
            s

  or_empty_journal-eq-ok :
      (o : Option JournalEntry) {p : JournalEntry} → or_empty_journal o ≡ ok p → o ≡ some p
  or_empty_journal-eq-ok none h = cc
  or_empty_journal-eq-ok (some q) h = ap some (ok-injective h)

  next_sequence-eq-ok : (n : ℕ) {m : ℕ} → next_sequence n ≡ ok m → m ≡ n + 1
  next_sequence-eq-ok n h = ground arith

  advance-IsAdvanced :
      (d : k.Fd) (next : JournalState) (native : Option NativeResult)
      (reconciliation : Option ReconcileResult) (entries : List JournalEntry) (s : Machine k)
      → (advance k serde d next native reconciliation entries s).0 ≡ ok tt
      → IsAdvanced d next native reconciliation entries s
  unfolding advance
  advance-IsAdvanced d next native reconciliation entries s h =
      let (previous, l, h₁, e₁) = continue-eq-ok (last_entry entries) _ s h in
      elim (Bool-cases (legal previous.state next)) [
        | inr illegal ↦ absurd (err-ne-ok (rw illegal at h₁))
        | inl step ↦
            (let h₂ = rw step at h₁ in
              let (sequence, n, h₃, e₃) = continue-eq-ok (next_sequence previous.sequence) _ s h₂ in
              record {
                previous = previous;
                last_one = or_empty_journal-eq-ok (last entries) l;
                step = step;
                run =
                    e₁
                    ∙ rw step (
                        e₃
                        ∙ ap
                            (λ q.
                              publish_entry k serde d
                                (following previous q next native reconciliation) s)
                            (next_sequence-eq-ok previous.sequence n));
              })
      ]

  -- A transition that returned was the next of the three after the journal's last entry; the entry
  -- of the next number is valid and stands on the disk whole, in its canonical bytes; and the
  -- entries with it added pass the check of numbers, plan and order that loading makes of a journal.
  pub make_transition-Published :
      (directory : k.Fd) (laws : FileLaws k directory) (next : JournalState)
      (native : Option NativeResult) (reconciliation : Option ReconcileResult) (s : Machine k)
      → (make_transition k serde directory next native reconciliation s).0 ≡ ok tt
      → Published k serde directory laws next native reconciliation s
          (make_transition k serde directory next native reconciliation s).1
  unfolding make_transition
  make_transition-Published directory laws next native reconciliation s h =
      let (entries, loaded, _, _) = continue-eq-ok (load_entries k serde directory s).0 _ _ h in
      let same_run =
        after_loading k serde directory (advance k serde directory next native reconciliation) s
          loaded in
      let adv =
        advance-IsAdvanced directory next native reconciliation entries s
          (ap (λ r. r.0) (sym same_run) ∙ h) in
      let entry = following adv.previous (adv.previous.sequence + 1) next native reconciliation in
      let pub_run = sym adv.run ∙ sym same_run in
      let out = publish_entry-IsPublished directory entry s (ap (λ r. r.0) pub_run ∙ h) in
      let write_run = sym out.run ∙ pub_run in
      let whole =
        (write_record-atomic k directory laws entry.sequence out.bytes s []
          (no_name k entry.sequence).0 (no_name k entry.sequence).1).0 in
      record {
        entries = entries;
        previous = adv.previous;
        bytes = out.bytes;
        loaded = loaded;
        last_one = adv.last_one;
        step = adv.step;
        entry_valid = out.valid;
        encoded = out.encoded;
        written =
            subst
              (λ r. laws.content r.1.0 (record_name (adv.previous.sequence + 1)) ≡ some out.bytes)
              write_run (whole (ap (λ r. r.0) write_run ∙ h));
        loadable =
            check_history-append entries adv.previous entry
              (load_entries-IsHistory k serde directory s loaded).0 adv.last_one adv.step refl refl
              refl;
      }
