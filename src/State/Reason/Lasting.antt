-- ===== src/State/Reason/Lasting.antt =====
-- What `record_success` of crates/dnfast-state/src/reason.rs records.
use dnfast.Base.{
  All, contains_self, subst, Text, ◌≡◌, sym, ap, refl, arith, Bool-cases, true, not, ◌&&◌, ◌||◌,
  inl, inr, Option, none, some, is_some, List, [], ◌∷◌, nat_order, list_order, pair_order, same,
  same→eq, get, remove, if◌then◌else◌, length, contains, ok, collect,
}
use dnfast.Core.Value.{Evra}
use dnfast.Core.Policy.{SolverPolicy, PackageReason, user}
use dnfast.Core.Inventory.{InstalledPackage_order, InstalledPackage}
use dnfast.State.Reason.{
  Exact, exact_of, PlannedIdentity, PlannedIdentity_order, planned_of, ReconciledReason,
  ReasonRecord, ReasonRecord_order, ReasonDecision, keep, decide, reconcile_from, next_record,
  record_found, next_reason,
}

module _ (policy : SolverPolicy) (replacements : List (PlannedIdentity × PackageReason))
    (existing : List (Exact × ReasonRecord)) where
  -- The record of a package with a decision.
  abbrev pub recorded : InstalledPackage → ReasonDecision → ReasonRecord
  recorded p decision = record {
    db_instance = p.db_instance;
    header_sha256 = p.immutable_header_sha256.hex;
    package_name = p.name;
    reason = next_reason policy replacements existing (planned_of p) (exact_of p) p.name decision;
  }

  abbrev item_of : InstalledPackage → ReasonDecision → ReconciledReason
  item_of p decision = record {
    identity = record {
      db_instance = p.db_instance;
      header_sha256 = p.immutable_header_sha256.hex;
    };
    package_name = p.name;
    decision = decision;
  }

  record_found-recorded :
      (p : InstalledPackage) (d : ReasonDecision) (o : Option InstalledPackage)
      → is_some o ≡ true
      → (r : ReasonRecord) × (record_found policy replacements existing (item_of p d) o ≡ ok r)
        × (((q : InstalledPackage) → o ≡ some q → q.evra ≡ p.evra) → r ≡ recorded p d)
  record_found-recorded p d none h = cc
  record_found-recorded p d (some q) h =
      (recorded_at q.evra, refl, λ same_evra. ap recorded_at (same_evra q refl))
    where
      recorded_at : Evra → ReasonRecord
      recorded_at e = record {
        db_instance = p.db_instance;
        header_sha256 = p.immutable_header_sha256.hex;
        package_name = p.name;
        reason =
            next_reason policy replacements existing
              (record { package_name = p.name; target_evra = e }) (exact_of p) p.name d;
      }

  -- Every package of the list has its record, in the same order.
  module _ (found : List (Exact × InstalledPackage)) where
    abbrev pub IsRecorded : List ReasonRecord → InstalledPackage → Type 0
    IsRecorded out p =
        ((q : InstalledPackage) → get found (exact_of p) ≡ some q → q.evra ≡ p.evra)
        → (d : ReasonDecision) × (contains out (recorded p d) ≡ true)

    pub reconcile_from_lem :
        (before_ids : List Exact) (protected installonly : List Text)
        (remaining : List (PlannedIdentity × PackageReason)) (ps : List InstalledPackage)
        → All (λ p. is_some (get found (exact_of p)) ≡ true) ps
        → (out : List ReasonRecord) × (collect
              (next_record policy replacements existing found)
              (reconcile_from before_ids protected installonly remaining ps)
            ≡ ok out)
          × (length out ≡ length ps)
          × ((p : InstalledPackage) → contains ps p ≡ true → IsRecorded out p)
    unfolding reconcile_from
    reconcile_from_lem b pr io remaining [] h = ([], refl, refl, λ p c. cc)
    reconcile_from_lem b pr io remaining (x ∷ ps) h =
        let fixed = contains pr x.name || contains io x.name in
        let takes = not fixed && not (contains b (exact_of x)) in
        let d : ReasonDecision =
          if fixed
          then keep user
          else decide (if takes then get remaining (planned_of x) else none) in
        let (r, first, is_r) = record_found-recorded x d (get found (exact_of x)) h.0 in
        let (out, rest, count, each) =
          reconcile_from_lem b pr io (if takes then remove (planned_of x) remaining else remaining)
            ps h.1 in
        (
          r ∷ out,
          rw (first, rest) refl,
          omega (arith, count),
          λ p c same_evra. elim (Bool-cases (same x p)) [
            | inl at ↦
                (let is_p : x ≡ p = same→eq x p at in
                  let evra_x =
                    subst
                      (λ y.
                        (q : InstalledPackage) → get found (exact_of y) ≡ some q → q.evra ≡ y.evra)
                      (sym is_p) same_evra in
                  (
                    d,
                    subst (λ y. contains (r ∷ out) (recorded y d) ≡ true) is_p
                        (subst (λ z. contains (r ∷ out) z ≡ true) (is_r evra_x)
                          (contains_self r out)),
                  ))
            | inr off ↦
                (let (d', there) = each p (rw off at c) same_evra in (d', ground (arith, there)))
          ],
        )
