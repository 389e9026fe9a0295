-- ===== src/State/Reason/Success.antt =====
-- What a recorded success leaves: `record_success` of crates/dnfast-state/src/reason.rs.
use dnfast.Base.{
  All, All-map, All-contained, Option, [], ◌≡◌, ◌∙◌, sym, ap, refl, true, false, none, some, List,
  nat_order, list_order, pair_order, get, length, length-sort, sort, contains, contains-sort, map,
  filter, ◌||◌, ok, ◌>>=◌, ok-injective, subst,
}
use dnfast.Core.Policy.{
  SolverPolicy, PackageReason, is_protected, is_installonly, is_running_kernel,
}
use dnfast.Core.Inventory.{
  InstalledPackage, InstalledPackage_order, InstalledInventory, validate_inventory,
}
use dnfast.Core.PackageAction.{PackageAction}
use dnfast.State.Reason.Store.{check_records}
use dnfast.State.Reason.Known.{existing_of-found, some_of}
use dnfast.State.Reason.Replaced.{Replaces, replacement_reasons-HandsOn, replacement_reasons-found}
use dnfast.State.Reason.{
  exact_of_record, exact_of, PlannedIdentity_order, planned_of, ReasonRecord, ReasonRecord_order,
  ReasonDecision, reconcile_reasons, existing_of, replacement_reasons, is_fixed, success_records,
  proposals_from_plan, next_reason,
}
use dnfast.State.Reason.Lasting.{reconcile_from_lem, recorded}
use dnfast.State.Reason.Located.{after_map, after_map-found, after_map-Located, same_package}

module _ (before after : InstalledInventory) (actions : List PackageAction) (policy : SolverPolicy)
    (records : List ReasonRecord) where
  -- The packages are recorded one by one, whatever was recorded before.
  recorded_all :
      (next : List ReasonRecord) × (success_records before after actions policy records ≡ ok next)
      × (length next ≡ length after.packages)
      × ((p : InstalledPackage)
          → validate_inventory after ≡ ok tt
          → contains after.packages p ≡ true
          → (d : ReasonDecision) × (contains next (
                recorded policy
                  (replacement_reasons (existing_of records) actions)
                  (existing_of records)
                  p
                  d)
              ≡ true))
  unfolding success_records reconcile_reasons
  recorded_all =
      let existing = existing_of records in
      let replacements = replacement_reasons existing actions in
      let protected =
        map (λ (p : InstalledPackage). p.name)
          (filter (λ p. is_protected policy p.name) after.packages) in
      let installonly =
        map (λ (p : InstalledPackage). p.name)
          (filter (λ p. is_installonly policy p.name || is_running_kernel policy p.name)
            after.packages) in
      let (out, run, count, each) =
        reconcile_from_lem policy replacements existing (after_map after)
          (map exact_of before.packages) protected installonly (proposals_from_plan actions)
          after.packages (after_map-found after) in
      (
        sort out,
        ap (λ r. r >>= λ next. ok (sort next)) run,
        length-sort out ∙ count,
        λ p valid there.
            let (d, recorded_there) = each p there (λ q h.
              let place = after_map-Located after (exact_of p) q h in
              ap (λ (y : InstalledPackage). y.evra)
                (same_package after p q valid there place.0 place.1)) in
            (d, contains-sort out _ ∙ recorded_there),
      )

-- The record of a package with a reason.
abbrev pub with_reason : InstalledPackage → PackageReason → ReasonRecord
with_reason p reason = record {
  db_instance = p.db_instance;
  header_sha256 = p.immutable_header_sha256.hex;
  package_name = p.name;
  reason = reason;
}

module _ (before after : InstalledInventory) (actions : List PackageAction) (policy : SolverPolicy)
    (records : List ReasonRecord) where
  recorded_as :
      {next : List ReasonRecord} (p : InstalledPackage) (reason : PackageReason)
      → success_records before after actions policy records ≡ ok next
      → validate_inventory after ≡ ok tt
      → contains after.packages p ≡ true
      → ((d : ReasonDecision)
          → next_reason policy
              (replacement_reasons (existing_of records) actions)
              (existing_of records)
              (planned_of p)
              (exact_of p)
              p.name
              d
            ≡ reason)
      → contains next (with_reason p reason) ≡ true
  recorded_as {next} p reason run valid there same_reason =
      let (out, made, _, each) = recorded_all before after actions policy records in
      let (d, found) = each p valid there in
      subst (λ l. contains l (with_reason p reason) ≡ true) (ok-injective (sym made ∙ run))
        (subst (λ r. contains out (with_reason p r) ≡ true) (same_reason d) found)

  -- Recording a success in a valid inventory never fails for want of a package, and gives every
  -- installed package one record, with its instance, header and name: the error `reconciled package
  -- disappeared` does not occur.
  pub success_records-total :
      validate_inventory after ≡ ok tt
      → (next : List ReasonRecord) × (success_records before after actions policy records ≡ ok next)
        × (length next ≡ length after.packages)
        × All (λ p. (r : PackageReason) × (contains next (with_reason p r) ≡ true)) after.packages
  success_records-total valid =
      let (next, run, count, each) = recorded_all before after actions policy records in
      (
        next,
        run,
        count,
        All-map
            (λ p there.
              let (d, found) = each p valid there in
              (
                next_reason policy (replacement_reasons (existing_of records) actions)
                    (existing_of records) (planned_of p) (exact_of p) p.name d,
                found,
              ))
            after.packages (All-contained after.packages),
      )

  -- An installed package with a record keeps its reason through a successful transaction, where the
  -- records are valid, unless the policy fixes it as the user's or an action of the plan replaces a
  -- package with a record by it.
  pub success_records-lasting :
      {next : List ReasonRecord} (p : InstalledPackage) (old : ReasonRecord)
      → success_records before after actions policy records ≡ ok next
      → validate_inventory after ≡ ok tt
      → check_records [] records ≡ ok tt
      → contains after.packages p ≡ true
      → is_fixed policy p.name ≡ false
      → ¬ Replaces records actions (planned_of p)
      → contains records old ≡ true
      → exact_of_record old ≡ exact_of p
      → contains next (with_reason p old.reason) ≡ true
  success_records-lasting p old run valid distinct there free fresh known identity =
      let found : get (existing_of records) (exact_of p) ≡ some old =
        subst (λ k. get (existing_of records) k ≡ some old) identity
          (existing_of-found records old distinct known) in
      recorded_as p old.reason run valid there (λ d.
        rw
          (
            free,
            unreplaced (get (replacement_reasons (existing_of records) actions) (planned_of p))
                refl,
            found,
          )
          refl)
    where
      unreplaced :
          (o : Option PackageReason)
          → get (replacement_reasons (existing_of records) actions) (planned_of p) ≡ o
          → get (replacement_reasons (existing_of records) actions) (planned_of p) ≡ none
      unreplaced none e = e
      unreplaced (some reason) e =
          absurd (fresh (replacement_reasons-HandsOn records actions (planned_of p) reason e).0)

  -- A package that replaces one with a record takes over the reason of a record that an action of
  -- the plan replaces by it, where the records are valid, unless the policy fixes it as the user's.
  pub success_records-inherited :
      {next : List ReasonRecord} (p : InstalledPackage)
      → success_records before after actions policy records ≡ ok next
      → validate_inventory after ≡ ok tt
      → check_records [] records ≡ ok tt
      → contains after.packages p ≡ true
      → is_fixed policy p.name ≡ false
      → Replaces records actions (planned_of p)
      → (r : Replaces records actions (planned_of p)) × (contains next
            (with_reason p r.replaced.reason)
          ≡ true)
  success_records-inherited {next} p run valid distinct there free replaces =
      let (reason, found) =
        some_of (get (replacement_reasons (existing_of records) actions) (planned_of p))
          (replacement_reasons-found records actions distinct (planned_of p) replaces) in
      let (r, handed) = replacement_reasons-HandsOn records actions (planned_of p) reason found in
      (
        r,
        subst (λ x. contains next (with_reason p x) ≡ true) (sym handed)
            (recorded_as p reason run valid there (λ d. rw (free, found) refl)),
      )
