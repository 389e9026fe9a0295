-- ===== src/State/Group/Removal.antt =====
-- What `packages_to_remove` of crates/dnfast-state/src/group.rs lists, of the state that its file
-- holds and that the pending changes lead to.
use dnfast.Base.{
  sym, subst, Result, filter, map_err-eq-ok, Text, ◌≡◌, refl, arith, Bool, true, false, not, ◌&&◌,
  ◌||◌, Option, none, some, List, [], ◌∷◌, nat_order, list_order, same, contains, contains-append,
  contains-filter, contains-dedup-sort, out_of_order, out_of_order-dedup-sort, is_empty, ok,
  map_err, ◌⊎◌, inl, inr, ok-injective,
}
use dnfast.Core.Value.Display.{to_string}
use dnfast.Core.Canonical.{Bytes, Serde, parse}
use dnfast.State.Error.{corrupt, StateError}
use dnfast.State.Fs.{Kernel, Machine, read_optional_bounded}
use dnfast.State.Fs.Root.{Component}
use dnfast.State.Fs.Lock.{once_locked, locked-once_locked}
use dnfast.State.Io.{
  lift, fail_if, continue-eq-ok, Returns, Returns-bind, Returns-any, Returns-lift, Returns-pure,
}
use dnfast.State.Journal.Entry.{JournalEntry, TransactionId}
use dnfast.State.Journal.{open_store, transaction_ids}
use dnfast.State.Group.{
  Groups, GroupState, default_state, packages_of, kept_groups, removed_groups, removable, migrate,
}
use dnfast.State.Group.Check.{validate_groups, validate_sorted_ids}
use dnfast.State.Group.Store.{
  Settling, settle_all, settle_pending, write_if, encode_groups, decode_groups, groups_or_default,
  read_groups, reconcile_locked, packages_to_remove, state_file, max_group_bytes,
}

-- A package is listed by a group of those that the test admits.
abbrev pub is_listed : (Text → Bool) → Groups → Text → Bool
is_listed admits [] p = false
is_listed admits ((id, packages) ∷ groups) p =
    (admits id && contains packages p) || is_listed admits groups p

packages_of-kept :
    (ids : List Text) (groups : Groups) (p : Text)
    → contains (packages_of (kept_groups ids groups)) p
      ≡ is_listed (λ id. not (contains ids id)) groups p
packages_of-kept ids [] p = refl
packages_of-kept ids ((id, packages) ∷ groups) p = ground (
  arith,
  contains-append packages (packages_of (kept_groups ids groups)) p,
  packages_of-kept ids groups p,
)

packages_of-removed :
    (ids : List Text) (groups : Groups) (p : Text)
    → contains (packages_of (removed_groups ids groups)) p ≡ is_listed (contains ids) groups p
packages_of-removed ids [] p = refl
packages_of-removed ids ((id, packages) ∷ groups) p = ground (
  arith,
  contains-append packages (packages_of (removed_groups ids groups)) p,
  packages_of-removed ids groups p,
)

-- The packages that came with a group, that a group to be removed lists and that no other does.
abbrev pub is_freed : GroupState → List Text → Text → Bool
is_freed state ids p =
    contains state.introduced_packages p
    && (is_listed (contains ids) state.groups p
        && not (is_listed (λ id. not (contains ids id)) state.groups p))

removable-is_freed :
    (state : GroupState) (ids : List Text) (p : Text)
    → contains (removable state ids) p ≡ is_freed state ids p
unfolding removable
removable-is_freed state ids p =
    let kept = packages_of (kept_groups ids state.groups) in
    let gone = packages_of (removed_groups ids state.groups) in
    let free : Text → Bool = λ p. not (contains kept p) && contains state.introduced_packages p in
    ground (
      arith,
      contains-dedup-sort (filter free gone) p,
      contains-filter free gone p,
      packages_of-kept ids state.groups p,
      packages_of-removed ids state.groups p,
    )

removable-ascending :
    (state : GroupState) (ids : List Text) → out_of_order (removable state ids) ≡ false
unfolding removable
removable-ascending state ids = out_of_order-dedup-sort _

-- What a file holds: no file is the state without groups, and a file of the old schema is migrated.
abbrev pub IsContent : Serde GroupState → Option Bytes → GroupState → Type 0
IsContent serde none st = st ≡ default_state
IsContent serde (some bytes) st =
    (raw : GroupState) × (parse serde bytes ≡ ok raw) × (migrate raw ≡ ok st)

no_pending {ℓ} : {A : Type ℓ} (l : List A) → is_empty l ≡ true → l ≡ []
no_pending [] e = refl
no_pending (x ∷ l) e = cc

module _ (k : Kernel) (serde : Serde GroupState) (journals : Serde JournalEntry) where
  decode_groups-Returns :
      (bytes : Bytes)
      → Returns
          (λ st. IsContent serde (some bytes) st × (validate_groups st ≡ ok tt))
          (decode_groups k serde journals bytes)
  unfolding decode_groups
  decode_groups-Returns bytes =
      Returns-bind _ _ (Returns-lift (map_err (λ e. corrupt (to_string e)) (parse serde bytes)))
        λ raw parsed.
          Returns-bind _ _ (Returns-any (lift (encode_groups k serde journals raw))) λ again _.
            Returns-bind _ _ (Returns-any (fail_if (not (same again bytes)) _)) λ _ _.
              Returns-bind _ _ (Returns-lift (migrate raw)) λ state migrated.
                Returns-bind _ _ (Returns-lift (validate_groups state)) λ _ valid.
                  Returns-pure
                    (λ st. IsContent serde (some bytes) st × (validate_groups st ≡ ok tt)) state
                    ((raw, map_err-eq-ok (parse serde bytes) _ parsed, migrated), valid)

  groups_or_default-Returns :
      (found : Option Bytes)
      → Returns
          (λ st. IsContent serde found st × (validate_groups st ≡ ok tt))
          (groups_or_default k serde journals found)
  unfolding groups_or_default validate_groups
  groups_or_default-Returns none =
      Returns-pure (λ st. IsContent serde none st × (validate_groups st ≡ ok tt)) _ (refl, refl)
  groups_or_default-Returns (some bytes) = decode_groups-Returns bytes

  -- The state that the file holds passes the checks.
  pub record IsStored (root : k.Fd) (s : Machine k) (st : GroupState) : Type 0 where
    pub found : Option Bytes
    pub read : (read_optional_bounded k root state_file max_group_bytes s).0 ≡ ok found
    pub content : IsContent serde found st
    pub valid : validate_groups st ≡ ok tt

  read_groups-IsStored :
      (root : k.Fd) (s : Machine k) {st : GroupState}
      → (read_groups k serde journals root s).0 ≡ ok st
      → IsStored root s st
  unfolding read_groups
  read_groups-IsStored root s {st} h =
      let (found, read, rest, _) =
        continue-eq-ok (read_optional_bounded k root state_file max_group_bytes s).0 _ _ h in
      let (content, valid) = (groups_or_default-Returns found).returned _ st rest in
      record { found = found; read = read; content = content; valid = valid }

  -- The loop over the pending changes of a state, with the transactions that the journals list, has
  -- led to the other state, which passes the checks.
  pub record IsSettled (path : List Component) (s : Machine k) (stored st : GroupState)
      : Type 0 where
    pub journal_root : k.Fd
    pub ids : List TransactionId
    pub settled : Settling
    pub opened : (open_store k journals path s).0 ≡ ok journal_root
    pub listed :
        (transaction_ids k journals journal_root (open_store k journals path s).1).0 ≡ ok ids
    pub done :
        (settle_all k serde journals journal_root ids
          (record { state = record stored { pending = [] }; retained = []; changed = false })
          stored.pending
          (transaction_ids k journals journal_root (open_store k journals path s).1).1).0
        ≡ ok settled
    pub result : st ≡ record settled.state { pending = settled.retained }
    pub valid : validate_groups st ≡ ok tt

  settle_pending-IsSettled :
      (root : k.Fd) (path : List Component) (stored : GroupState) (s : Machine k) {st : GroupState}
      → (settle_pending k serde journals root path stored s).0 ≡ ok st
      → IsSettled path s stored st
  unfolding settle_pending
  settle_pending-IsSettled root path stored s {st} h =
      let (journal_root, opened, h1, _) = continue-eq-ok (open_store k journals path s).0 _ _ h in
      let (ids, listed, h2, _) =
        continue-eq-ok (transaction_ids k journals journal_root (open_store k journals path s).1).0
          _ _ h1 in
      let (settled, done, h3, _) =
        continue-eq-ok
          (settle_all k serde journals journal_root ids
            (record { state = record stored { pending = [] }; retained = []; changed = false })
            stored.pending
            (transaction_ids k journals journal_root (open_store k journals path s).1).1).0
          _ _ h2 in
      let (_, valid, h4, _) =
        continue-eq-ok (validate_groups (record settled.state { pending = settled.retained })) _ _
          h3 in
      let (_, _, h5, _) =
        continue-eq-ok
          (write_if k serde journals settled.changed root
            (record settled.state { pending = settled.retained }) _).0
          _ _ h4 in
      let result = ok-injective h5 in
      record {
        journal_root = journal_root;
        ids = ids;
        settled = settled;
        opened = opened;
        listed = listed;
        done = done;
        result = sym result;
        valid = subst (λ x. validate_groups x ≡ ok tt) result valid;
      }

  -- The state that is current: what the file holds, if nothing is pending, and else what settling
  -- leads to.
  pub record IsCurrent (root : k.Fd) (path : List Component) (s : Machine k) (st : GroupState)
      : Type 0 where
    pub stored : GroupState
    pub is_stored : IsStored root s stored
    pub settled :
        ((stored.pending ≡ []) × (st ≡ stored))
        ⊎ IsSettled path (read_groups k serde journals root s).1 stored st

  reconcile_locked-IsCurrent :
      (root : k.Fd) (path : List Component) (s : Machine k) {st : GroupState}
      → (reconcile_locked k serde journals root path s).0 ≡ ok st
      → IsCurrent root path s st
  unfolding reconcile_locked
  reconcile_locked-IsCurrent root path s {st} h =
      let (stored, read, rest, _) = continue-eq-ok (read_groups k serde journals root s).0 _ _ h in
      record {
        stored = stored;
        is_stored = read_groups-IsStored root s read;
        settled =
            when_settled stored (read_groups k serde journals root s).1 (is_empty stored.pending)
              refl rest;
      }
    where
      when_settled :
          (stored : GroupState) (s' : Machine k) (none_left : Bool)
          → is_empty stored.pending ≡ none_left
          → (elim none_left as (λ _. Result StateError GroupState × Machine k) [
            | true ↦ (ok stored, s')
            | false ↦ settle_pending k serde journals root path stored s'
          ]).0
            ≡ ok st
          → ((stored.pending ≡ []) × (st ≡ stored)) ⊎ IsSettled path s' stored st
      when_settled stored s' true e g = inl (no_pending stored.pending e, sym (ok-injective g))
      when_settled stored s' false e g = inr (settle_pending-IsSettled root path stored s' g)

  -- What `packages_to_remove` returns, for a sorted list of groups, is in strictly ascending order:
  -- the packages that came with a group, that one of the given groups lists and that no other does,
  -- in the state that the file holds once the lock is taken or, if changes are pending there, in the
  -- one that settling them leads to.
  pub packages_to_remove-is_freed :
      (root : k.Fd) (path : List Component) (ids : List Text) (s : Machine k) {names : List Text}
      → (packages_to_remove k serde journals root path ids s).0 ≡ ok names
      → (st : GroupState) × IsCurrent root path (once_locked k root s) st
        × (validate_sorted_ids ids ≡ ok tt)
        × (out_of_order names ≡ false)
        × ((p : Text) → contains names p ≡ is_freed st ids p)
  unfolding packages_to_remove
  packages_to_remove-is_freed root path ids s {names} h =
      let (_, sorted, h1, _) = continue-eq-ok (validate_sorted_ids ids) _ s h in
      let (st, current, h2, _) =
        continue-eq-ok (reconcile_locked k serde journals root path (once_locked k root s)).0 _ _
          (locked-once_locked k root _ s h1) in
      let listed = ok-injective h2 in
      (
        st,
        reconcile_locked-IsCurrent root path (once_locked k root s) current,
        sorted,
        subst (λ l. out_of_order l ≡ false) listed (removable-ascending st ids),
        λ p. subst (λ l. contains l p ≡ is_freed st ids p) listed (removable-is_freed st ids p),
      )
