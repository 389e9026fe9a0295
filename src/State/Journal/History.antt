-- ===== src/State/Journal/History.antt =====
-- What `load_entries` of crates/dnfast-state/src/store.rs accepts.
use dnfast.Base.{
  ℕ, suc, ◌+◌, ◌≤◌, ◌≡◌, refl, arith, true, false, some, List, [], ◌∷◌, ◌++◌, nat_order, list_order,
  same→eq, same_self, length, last, All, ok, >>-eq-ok, reject-eq-ok,
}
use dnfast.State.Journal.Entry.{
  JournalState, prepared, started, rpm_result, reconciled, JournalEntry, legal, validate_entry,
  validate_pair, validate_pairs, validate_windows, out_of_sequence, check_history,
}

-- How far a transaction has come.
abbrev pub rank : JournalState → ℕ
rank prepared = 0
rank started = 1
rank rpm_result = 2
rank reconciled = 3

pub legal-rank : (a b : JournalState) → legal a b ≡ true → rank b ≡ suc (rank a)
legal-rank prepared started h = refl
legal-rank started rpm_result h = refl
legal-rank rpm_result reconciled h = refl
legal-rank _ _ h = cc

-- An entry of the same transaction and plan, as many steps on as its number says.
pub record Continues (first e : JournalEntry) : Type 0 where
  pub same_transaction : e.transaction_id ≡ first.transaction_id
  pub same_plan : e.plan_sha256 ≡ first.plan_sha256
  pub in_step : rank e.state ≡ rank first.state + e.sequence

rank-bound : (s : JournalState) → rank s ≤ 3
rank-bound s = ground arith

record IsPair (p e : JournalEntry) : Type 0 where
  transactions : p.transaction_id ≡ e.transaction_id
  plans : p.plan_sha256 ≡ e.plan_sha256
  ranks : rank e.state ≡ suc (rank p.state)

validate_pair-IsPair : (p e : JournalEntry) → validate_pair p e ≡ ok tt → IsPair p e
unfolding validate_pair
validate_pair-IsPair p e h = ground (
  arith,
  same→eq p.transaction_id e.transaction_id,
  same→eq p.plan_sha256 e.plan_sha256,
  legal-rank p.state e.state,
)

validate_pairs-Continues :
    (first p : JournalEntry) (rest : List JournalEntry)
    → Continues first p
    → validate_pairs p rest ≡ ok tt
    → out_of_sequence (suc p.sequence) rest ≡ false
    → All (Continues first) rest × (length rest + rank p.state ≤ 3)
unfolding validate_pairs
validate_pairs-Continues first p [] c h o = (tt, omega (arith, rank-bound p.state))
validate_pairs-Continues first p (e ∷ rest) c h o =
    let (one, more) = >>-eq-ok (validate_pair p e) (validate_pairs e rest) h in
    let pair : IsPair p e = validate_pair-IsPair p e one in
    let numbered : e.sequence ≡ suc p.sequence = ground arith in
    let next : Continues first e = ground (arith, c, pair) in
    let (all, bound) =
      validate_pairs-Continues first e rest next more (rw numbered (ground arith)) in
    ((next, all), omega (arith, bound, pair.ranks))

-- The records of a journal: one transaction and one plan, numbered without a gap, one step further
-- with every number, and every one of them valid.
pub record IsHistory (entries : List JournalEntry) : Type 0 where
  pub first : JournalEntry
  pub continues : All (Continues first) entries
  pub numbered : out_of_sequence 0 entries ≡ false
  pub short : length entries + rank first.state ≤ 4
  pub valid : All (λ e. validate_entry e ≡ ok tt) entries

Continues-self : (e : JournalEntry) → e.sequence ≡ 0 → Continues e e
Continues-self e z = record {
  same_transaction = refl;
  same_plan = refl;
  in_step = omega (arith, z);
}

pub check_history-IsHistory :
    (entries : List JournalEntry)
    → check_history entries ≡ ok tt
    → All (λ e. validate_entry e ≡ ok tt) entries
    → IsHistory entries
unfolding check_history validate_windows
check_history-IsHistory [] h v = cc
check_history-IsHistory (e ∷ rest) h v =
    let (ordered, pairs) =
      reject-eq-ok (out_of_sequence 0 (e ∷ rest)) _ (validate_pairs e rest) h in
    let zeroth : e.sequence ≡ 0 = ground arith in
    let self : Continues e e = Continues-self e zeroth in
    let (all, bound) = validate_pairs-Continues e e rest self pairs (rw zeroth (ground arith)) in
    record {
      first = e;
      continues = (self, all);
      numbered = ordered;
      short = omega (arith, bound);
      valid = v;
    }

validate_pairs-append :
    (p : JournalEntry) (rest : List JournalEntry) (e last_of : JournalEntry)
    → last (p ∷ rest) ≡ some last_of
    → validate_pairs p rest ≡ ok tt
    → validate_pair last_of e ≡ ok tt
    → validate_pairs p (rest ++ e ∷ []) ≡ ok tt
unfolding validate_pairs
validate_pairs-append p [] e l h v w = ground arith
validate_pairs-append p (q ∷ rest) e l h v w =
    let (one, more) = >>-eq-ok (validate_pair p q) (validate_pairs q rest) v in
    rw one (validate_pairs-append q rest e l h more w)

validate_pair-ok :
    (p e : JournalEntry)
    → legal p.state e.state ≡ true
    → p.transaction_id ≡ e.transaction_id
    → p.plan_sha256 ≡ e.plan_sha256
    → validate_pair p e ≡ ok tt
unfolding validate_pair
validate_pair-ok p e step id plan =
    rw (id, plan, same_self e.transaction_id, same_self e.plan_sha256, step) refl

out_of_sequence-append :
    (n : ℕ) (entries : List JournalEntry) (e : JournalEntry)
    → out_of_sequence n entries ≡ false
    → e.sequence ≡ n + length entries
    → out_of_sequence n (entries ++ e ∷ []) ≡ false
out_of_sequence-append n [] e h z = ground arith
out_of_sequence-append n (x ∷ xs) e h z = ground (arith, out_of_sequence-append (suc n) xs e)

last-sequence :
    (n : ℕ) (entries : List JournalEntry) (e : JournalEntry)
    → out_of_sequence n entries ≡ false
    → last entries ≡ some e
    → suc e.sequence ≡ n + length entries
last-sequence n [] e h l = cc
last-sequence n (x ∷ []) e h l = ground arith
last-sequence n (x ∷ y ∷ r) e h l = omega (arith, last-sequence (suc n) (y ∷ r) e (ground arith) l)

-- The entry after the last one keeps the journal loadable: entries that pass the checks of a load
-- still pass them with an entry of the same transaction and plan, the next number and the next
-- state added.
pub check_history-append :
    (entries : List JournalEntry) (p e : JournalEntry)
    → check_history entries ≡ ok tt
    → last entries ≡ some p
    → legal p.state e.state ≡ true
    → e.sequence ≡ p.sequence + 1
    → p.transaction_id ≡ e.transaction_id
    → p.plan_sha256 ≡ e.plan_sha256
    → check_history (entries ++ e ∷ []) ≡ ok tt
unfolding check_history validate_windows
check_history-append [] p e h l step number id plan = cc
check_history-append (x ∷ xs) p e h l step number id plan =
    let (ordered, pairs) = reject-eq-ok (out_of_sequence 0 (x ∷ xs)) _ (validate_pairs x xs) h in
    let again : out_of_sequence 0 ((x ∷ xs) ++ e ∷ []) ≡ false =
      out_of_sequence-append 0 (x ∷ xs) e ordered
        (omega (arith, number, last-sequence 0 (x ∷ xs) p ordered l)) in
    rw again (validate_pairs-append x xs e p l pairs (validate_pair-ok p e step id plan))
