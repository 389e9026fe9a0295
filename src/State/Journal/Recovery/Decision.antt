-- ===== src/State/Journal/Recovery/Decision.antt =====
-- What `recover` of crates/dnfast-state/src/recovery.rs decides, by the last entry of the journal.
use dnfast.Base.{
  ◌==◌, Option-cases, negsuc, ◌≡◌, ◌≢◌, ◌∙◌, sym, ap, refl, arith, true, not, Option, none, some,
  List, [], ◌∷◌, last, is_some, inl, inr, ok, ok-injective, >>-eq-ok, >>=-eq-ok, reject-eq-ok, All,
  subst,
}
use dnfast.Core.Canonical.{Serde}
use dnfast.State.Io.{continue-eq-ok}
use dnfast.State.Fs.{Kernel, Machine}
use dnfast.State.Fs.Laws.{FileLaws}
use dnfast.State.Journal.Entry.{
  JournalState, prepared, started, rpm_result, reconciled, ReconcileResult, JournalEntry,
  validate_entry, parse_id, validate_digest, RecoveryAction, cleanup_revalidate_and_reapprove,
  reconcile_only, terminal, payload_fits,
}
use dnfast.State.Journal.{
  load_entries, record_rpm_result, record_rpm_result_with_problems, make_transition,
}
use dnfast.State.Journal.Loading.{load_entries-IsHistory}
use dnfast.State.Journal.Transition.{after_loading, make_transition-Published, Published}
use dnfast.State.Journal.Recovery.{recover, recover_from, no_callbacks, terminal_result}

-- The decision for a last entry in the given state with the given terminal result.
abbrev pub Decides : JournalState → Option ReconcileResult → RecoveryAction → Type 0
Decides prepared r action = action ≡ cleanup_revalidate_and_reapprove
Decides started r action = action ≡ reconcile_only
Decides rpm_result r action = action ≡ reconcile_only
Decides reconciled r action =
    (result : ReconcileResult) × (r ≡ some result) × (action ≡ terminal result)

abbrev Holding {ℓ κ} : {A : Type ℓ} → (A → Type κ) → Option A → Type κ
Holding P none = Unit
Holding P (some x) = P x

last-All {ℓ κ} :
    {A : Type ℓ} (P : A → Type κ) (xs : List A) {x : A} → All P xs → last xs ≡ some x → P x
last-All P [] all h = cc
last-All P (x ∷ []) {x = y} all h = subst (λ o. Holding P o) h all.0
last-All P (x ∷ y ∷ r) all h = last-All P (y ∷ r) all.1 h

valid_payload :
    (e : JournalEntry)
    → validate_entry e ≡ ok tt
    → payload_fits e.state (is_some e.native_result) (is_some e.reconciliation) ≡ true
unfolding validate_entry
valid_payload e h =
    let (_, h₁) = reject-eq-ok (not (e.schema_version == 1)) _ _ h in
    let (id, _, h₂) = >>=-eq-ok (parse_id e.transaction_id) _ h₁ in
    let (_, h₃) = >>-eq-ok (validate_digest e.plan_sha256) _ h₂ in ground arith

reconciled_result :
    (e : JournalEntry)
    → payload_fits e.state (is_some e.native_result) (is_some e.reconciliation) ≡ true
    → e.state ≡ reconciled
    → (result : ReconcileResult) × (e.reconciliation ≡ some result)
reconciled_result e h s = elim (Option-cases e.reconciliation) [
  | inl absent ↦ absurd (ground arith)
  | inr found ↦ found
]

module _ (k : Kernel) (serde : Serde JournalEntry) where
  recover-from :
      (d : k.Fd) (s : Machine k) {entries : List JournalEntry} {e : JournalEntry}
      → (load_entries k serde d s).0 ≡ ok entries
      → last entries ≡ some e
      → recover k serde d s ≡ recover_from k serde d e e.state s
  unfolding recover
  recover-from d s {e} h l = after_loading k serde d _ s h ∙ rw l refl

  decided :
      (d : k.Fd) (s : Machine k) (e : JournalEntry) (state : JournalState)
      → state ≢ started
      → (state ≡ reconciled → (result : ReconcileResult) × (e.reconciliation ≡ some result))
      → (action : RecoveryAction) × (recover_from k serde d e state s ≡ (ok action, s))
        × Decides state e.reconciliation action
  unfolding recover_from
  decided d s e prepared ne r = (cleanup_revalidate_and_reapprove, refl, refl)
  decided d s e started ne r = absurd (ne refl)
  decided d s e rpm_result ne r = (reconcile_only, refl, refl)
  decided d s e reconciled ne r =
      let (result, found) = r refl in
      (terminal result, ap (λ o. (terminal_result o, s)) found, (result, found, refl))

  -- Recovery of a journal that loads, and whose last entry is not `Started`, always returns the
  -- decision for that entry and changes nothing on the disk; the error `terminal result missing`
  -- does not occur.
  pub recover-Decides :
      (directory : k.Fd) (s : Machine k) (entries : List JournalEntry) (e : JournalEntry)
      → (load_entries k serde directory s).0 ≡ ok entries
      → last entries ≡ some e
      → e.state ≢ started
      → (action : RecoveryAction) × (recover k serde directory s ≡ (ok action, s))
        × Decides e.state e.reconciliation action
  recover-Decides directory s entries e h l ne =
      let history = (load_entries-IsHistory k serde directory s h).1 in
      let payload = valid_payload e (last-All _ entries history.valid l) in
      let (action, run, decides) = decided directory s e e.state ne (reconciled_result e payload) in
      (action, recover-from directory s h l ∙ run, decides)

  -- Recovery after `Started` that returns has recorded a result with return code -1 and no callbacks
  -- as the next entry of the journal, and asks for reconciliation only.
  pub recover-started :
      (directory : k.Fd) (laws : FileLaws k directory) (s : Machine k) (entries : List JournalEntry)
      (e : JournalEntry) (action : RecoveryAction)
      → (load_entries k serde directory s).0 ≡ ok entries
      → last entries ≡ some e
      → e.state ≡ started
      → (recover k serde directory s).0 ≡ ok action
      → (action ≡ reconcile_only)
        × Published k serde directory laws rpm_result
            (some (record { return_code = negsuc 0; callbacks = no_callbacks; problems = [] }))
            none
            s
            (recover k serde directory s).1
  unfolding recover_from record_rpm_result record_rpm_result_with_problems
  recover-started directory laws s entries e action h l at h' =
      let run =
        recover-from directory s h l ∙ ap (λ st. recover_from k serde directory e st s) at in
      let result =
        some (record { return_code = negsuc 0; callbacks = no_callbacks; problems = [] }) in
      let (u, made, g, same_run) =
        continue-eq-ok (make_transition k serde directory rpm_result result none s).0 _ _
          (ap (λ r. r.0) (sym run) ∙ h') in
      (
        sym (ok-injective g),
        subst (λ r. Published k serde directory laws rpm_result result none s r.1)
            (sym (run ∙ same_run))
            (make_transition-Published k serde directory laws rpm_result result none s made),
      )
