-- ===== src/State/Group/Settled.antt =====
-- The pending changes of crates/dnfast-state/src/group.rs are settled without orphans.
use dnfast.Base.{
  text, ◌≡◌, arith, Bool, true, false, not, ◌&&◌, ◌||◌, Option, none, some, List, [], ◌∷◌,
  nat_order, list_order, filter, contains, keys, is_empty, All, ok, reject-eq-ok, >>-eq-ok,
  for_each-All, for_each, length, ltb, ◌==◌,
}
use dnfast.Core.Canonical.{Serde}
use dnfast.State.Error.{corrupt, limit}
use dnfast.State.Fs.{Kernel, Machine}
use dnfast.State.Io.{Returns, Returns-bind, Returns-any, Returns-pure}
use dnfast.State.Journal.Entry.{JournalEntry, TransactionId, validate_digest}
use dnfast.State.Group.{MutationKind, install_groups, remove_groups, PendingMutation, GroupState}
use dnfast.State.Group.Check.{
  max_groups, max_pending, max_packages, package_count, is_remove_mutation, check_group,
  check_mutation, validate_groups, validate_sorted_ids,
}
use dnfast.State.Group.Owned.{is_orphaned, are_stray, apply_install-owned, apply_remove-owned}
use dnfast.State.Group.Store.{Settling, apply_mutation, settle_one, settle_all, find_terminal}

check_mutation-stray :
    (m : PendingMutation)
    → check_mutation m ≡ ok tt
    → are_stray m.groups m.introduced_packages ≡ false
unfolding check_mutation
check_mutation-stray m h =
    let (_, h1) = >>-eq-ok (validate_digest m.plan_sha256) _ h in
    let (_, h2) =
      reject-eq-ok (is_empty m.groups) (corrupt (text "empty pending group mutation")) _ h1 in
    let (_, h3) = >>-eq-ok (for_each check_group m.groups) _ h2 in
    let (_, h4) = >>-eq-ok (validate_sorted_ids m.introduced_packages) _ h3 in
    let (brought, _) =
      reject-eq-ok
        ((is_remove_mutation m.kind && not (is_empty m.introduced_packages))
          || are_stray m.groups m.introduced_packages)
        (corrupt (text "invalid introduced packages in pending group mutation")) _ h4 in
    ground (arith, brought)

validate_groups-parts :
    (s : GroupState)
    → validate_groups s ≡ ok tt
    → (is_orphaned s ≡ false) × (for_each check_mutation s.pending ≡ ok tt)
unfolding validate_groups
validate_groups-parts s h =
    let (_, h1) =
      reject-eq-ok
        (not (s.schema == 2)
          || (ltb max_groups (length s.groups) || ltb max_pending (length s.pending)))
        (corrupt (text "invalid group state bounds")) _ h in
    let (_, h2) = reject-eq-ok (ltb max_packages (package_count s)) (limit "group packages") _ h1 in
    let (_, h3) = >>-eq-ok (for_each check_group s.groups) _ h2 in
    let (_, h4) = >>-eq-ok (validate_sorted_ids s.introduced_packages) _ h3 in
    reject-eq-ok (is_orphaned s) (corrupt (text "introduced package has no installed group owner"))
      _ h4

apply_mutation-owned :
    (kind : MutationKind) (m : PendingMutation) (state : GroupState)
    → are_stray m.groups m.introduced_packages ≡ false
    → is_orphaned state ≡ false
    → is_orphaned (apply_mutation kind m state) ≡ false
unfolding apply_mutation
apply_mutation-owned install_groups m state brought owned =
    apply_install-owned state m.groups m.introduced_packages owned brought
apply_mutation-owned remove_groups m state brought owned =
    apply_remove-owned state (keys m.groups) owned

settle_one-owned :
    (s : Settling) (m : PendingMutation) (outcome : Option Bool)
    → check_mutation m ≡ ok tt
    → is_orphaned s.state ≡ false
    → is_orphaned (settle_one s m outcome).state ≡ false
unfolding settle_one
settle_one-owned s m none valid owned = owned
settle_one-owned s m (some false) valid owned = owned
settle_one-owned s m (some true) valid owned =
    apply_mutation-owned m.kind m s.state (check_mutation-stray m valid) owned

module _ (k : Kernel) (serde : Serde GroupState) (journals : Serde JournalEntry) where
  settle_all-Returns :
      (journal_root : k.Fd) (ids : List TransactionId) (s : Settling)
      (pending : List PendingMutation)
      → All (λ m. check_mutation m ≡ ok tt) pending
      → is_orphaned s.state ≡ false
      → Returns
          (λ out. is_orphaned out.state ≡ false)
          (settle_all k serde journals journal_root ids s pending)
  unfolding settle_all
  settle_all-Returns journal_root ids s [] valid owned =
      Returns-pure (λ out. is_orphaned out.state ≡ false) s owned
  settle_all-Returns journal_root ids s (m ∷ pending) valid owned =
      Returns-bind _ _
        (Returns-any (
          find_terminal k serde journals journal_root m.plan_sha256
            (filter (λ id. not (contains m.seen_transaction_ids id.value)) ids)))
        λ terminal _.
          settle_all-Returns journal_root ids (settle_one s m terminal) pending valid.1
            (settle_one-owned s m terminal valid.0 owned)

  -- The loop over the pending changes of a valid state, whatever the journals say of each, ends in
  -- a state where every package that came with a group is still owned by one.
  pub settle_all-owned :
      (journal_root : k.Fd) (ids : List TransactionId) (state : GroupState) (s : Machine k)
      {out : Settling}
      → validate_groups state ≡ ok tt
      → (settle_all k serde journals journal_root ids
          (record { state = record state { pending = [] }; retained = []; changed = false })
          state.pending
          s).0
        ≡ ok out
      → is_orphaned out.state ≡ false
  settle_all-owned journal_root ids state s {out} valid h =
      let (owned, each) = validate_groups-parts state valid in
      (settle_all-Returns journal_root ids
          (record { state = record state { pending = [] }; retained = []; changed = false })
          state.pending (for_each-All check_mutation state.pending each) owned).returned
        s out h
