-- ===== src/State/Group/Owned.antt =====
-- Who owns the packages that came with groups, through the changes of crates/dnfast-state/src/group.rs.
use dnfast.Base.{
  Text, ◌≡◌, ◌∙◌, sym, ap, refl, arith, Bool, Bool-cases, true, false, not, ◌&&◌, ◌||◌, inl, inr,
  List, [], ◌∷◌, ◌++◌, nat_order, list_order, list_eq_of_cmp, list_cmp_flip, list_cmp_self, Order,
  same, same→eq, sort, dedup, filter, any, contains, contains_self, contains-append,
  contains-filter, contains-dedup-sort, out_of_order, out_of_order-dedup-sort, get, insert, remove,
}
use dnfast.State.Group.{
  Groups, GroupState, packages_of, kept_groups, removed_groups, removable, owned_by, own,
  apply_install, remove_all, apply_remove,
}

module _ {ℓ} {A : Type ℓ} ⦃o : Order A⦄ (q : A → Bool) where
  any-contained : (xs : List A) (a : A) → any q xs ≡ false → contains xs a ≡ true → q a ≡ false
  any-contained [] a h m = cc
  any-contained (x ∷ xs) a h m = ground (arith, same→eq x a, any-contained xs a)

  any-of : (xs : List A) → ((a : A) → contains xs a ≡ true → q a ≡ false) → any q xs ≡ false
  any-of [] h = refl
  any-of (x ∷ xs) h =
      let here = h x (contains_self x xs) in
      let later = any-of xs (λ a m. h a (ground arith)) in ground arith

-- Some package came with a group, and no group owns it: `validate_groups` refuses that.
abbrev pub is_orphaned : GroupState → Bool
is_orphaned state = any (λ p. not (contains (packages_of state.groups) p)) state.introduced_packages

-- The same of packages that are about to be added.
abbrev pub are_stray : Groups → List Text → Bool
are_stray groups introduced = any (λ p. not (contains (packages_of groups) p)) introduced

contains-packages_of-insert :
    (id : Text) (v : List Text) (m : Groups) (p : Text)
    → contains v p ≡ true
    → contains (packages_of (insert id v m)) p ≡ true
unfolding insert
contains-packages_of-insert id v [] p h = rw (contains-append v [] p, h) refl
contains-packages_of-insert id v ((j, w) ∷ m) p h = ground (
  arith,
  contains-append v ([] ++ w ++ packages_of m) p,
  contains-append v (packages_of m) p,
  contains-append w (packages_of (insert id v m)) p,
  contains-packages_of-insert id v m p h,
)

insert-keeps :
    (id : Text) (v : List Text) (m : Groups) (p : Text)
    → (contains (owned_by (get m id)) p ≡ true → contains v p ≡ true)
    → contains (packages_of m) p ≡ true
    → contains (packages_of (insert id v m)) p ≡ true
unfolding insert
insert-keeps id v [] p sub h = cc
insert-keeps id v ((j, w) ∷ m) p sub h = ground (
  arith,
  list_eq_of_cmp id j,
  list_cmp_flip id j,
  list_cmp_self id,
  contains-append v (w ++ packages_of m) p,
  contains-append v (packages_of m) p,
  contains-append w (packages_of m) p,
  contains-append w (packages_of (insert id v m)) p,
  insert-keeps id v m p,
)

packages_of-own-old :
    (installed adds : Groups) (p : Text)
    → contains (packages_of installed) p ≡ true
    → contains (packages_of (own installed adds)) p ≡ true
unfolding own
packages_of-own-old installed [] p h = h
packages_of-own-old installed ((id, w) ∷ adds) p h =
    let old = owned_by (get installed id) in
    packages_of-own-old (insert id (dedup (sort (old ++ w))) installed) adds p (
      insert-keeps id (dedup (sort (old ++ w))) installed p
        (λ e. ground (arith, contains-dedup-sort (old ++ w) p, contains-append old w p, e)) h)

packages_of-own-new :
    (installed adds : Groups) (p : Text)
    → contains (packages_of adds) p ≡ true
    → contains (packages_of (own installed adds)) p ≡ true
unfolding own
packages_of-own-new installed [] p h = cc
packages_of-own-new installed ((id, w) ∷ adds) p h =
    let old = owned_by (get installed id) in
    let v = dedup (sort (old ++ w)) in
    elim (Bool-cases (contains w p)) [
      | inl here ↦ packages_of-own-old (insert id v installed) adds p (
          contains-packages_of-insert id v installed p
            (ground (arith, contains-dedup-sort (old ++ w) p, contains-append old w p, here)))
      | inr there ↦
          packages_of-own-new (insert id v installed) adds p
            (ground (arith, contains-append w (packages_of adds) p, h, there))
    ]

-- An installation of groups leaves no orphan where there was none, as long as the packages that
-- come with it belong to its groups.
pub apply_install-owned :
    (state : GroupState) (groups : Groups) (introduced : List Text)
    → is_orphaned state ≡ false
    → are_stray groups introduced ≡ false
    → is_orphaned (apply_install state groups introduced) ≡ false
unfolding apply_install
apply_install-owned state groups introduced owned brought =
    any-of _ (dedup (sort (state.introduced_packages ++ introduced))) λ p there.
      elim (Bool-cases (contains state.introduced_packages p)) [
        | inl old ↦
            rw
              (packages_of-own-old state.groups groups p
                (ground (arith, any-contained _ state.introduced_packages p owned old)))
              refl
        | inr other ↦
            rw
              (packages_of-own-new state.groups groups p (
                ground (
                  arith,
                  any-contained (λ q. not (contains (packages_of groups) q)) introduced p brought,
                  contains-dedup-sort (state.introduced_packages ++ introduced) p,
                  contains-append state.introduced_packages introduced p,
                  there,
                  other,
                )))
              refl
      ]

same_comm : (a b : Text) → same a b ≡ same b a
same_comm a b = ground (arith, list_cmp_flip a b)

kept_groups-remove :
    (id : Text) (ids : List Text) (groups : Groups)
    → kept_groups ids (remove id groups) ≡ kept_groups (id ∷ ids) groups
kept_groups-remove id ids [] = refl
kept_groups-remove id ids ((j, w) ∷ groups) =
    ground (arith, same_comm id j, kept_groups-remove id ids groups)

kept_groups-none : (groups : Groups) → kept_groups [] groups ≡ groups
kept_groups-none [] = refl
kept_groups-none (g ∷ groups) = ap (◌∷◌ g) (kept_groups-none groups)

-- The loop that removes groups one by one keeps the others.
remove_all-kept :
    (ids : List Text) (groups : Groups) → remove_all ids groups ≡ kept_groups ids groups
unfolding remove_all
remove_all-kept [] groups = sym (kept_groups-none groups)
remove_all-kept (id ∷ ids) groups =
    remove_all-kept ids (remove id groups) ∙ kept_groups-remove id ids groups

packages_of-split :
    (ids : List Text) (groups : Groups) (p : Text)
    → contains (packages_of groups) p ≡ (
        contains (packages_of (kept_groups ids groups)) p
        || contains (packages_of (removed_groups ids groups)) p)
packages_of-split ids [] p = refl
packages_of-split ids ((j, w) ∷ groups) p = ground (
  arith,
  contains-append w (packages_of groups) p,
  contains-append w (packages_of (kept_groups ids groups)) p,
  contains-append w (packages_of (removed_groups ids groups)) p,
  packages_of-split ids groups p,
)

-- A removal of groups leaves no orphan where there was none.
pub apply_remove-owned :
    (state : GroupState) (ids : List Text)
    → is_orphaned state ≡ false
    → is_orphaned (apply_remove state ids) ≡ false
unfolding apply_remove
apply_remove-owned state ids owned =
    let kept = packages_of (kept_groups ids state.groups) in
    let gone = packages_of (removed_groups ids state.groups) in
    let released = filter (λ p. not (contains kept p)) gone in
    rw (remove_all-kept ids state.groups) (
      any-of (λ p. not (contains kept p))
        (filter (λ p. not (contains released p)) state.introduced_packages)
        λ p there. ground (
          arith,
          contains-filter (λ p. not (contains released p)) state.introduced_packages p,
          contains-filter (λ p. not (contains kept p)) gone p,
          any-contained (λ p. not (contains (packages_of state.groups) p)) state.introduced_packages
              p owned,
          packages_of-split ids state.groups p,
          there,
        ))

-- The packages that may go with some groups are exactly those that came with a group and that
-- `apply_remove` of the groups forgets; no group that stays owns one of them, and they are listed in
-- strictly ascending order.
pub removable-released :
    (state : GroupState) (ids : List Text) (p : Text)
    → (out_of_order (removable state ids) ≡ false)
      × (contains (removable state ids) p ≡ (
          contains state.introduced_packages p
          && not (contains (apply_remove state ids).introduced_packages p)))
      × ((contains (removable state ids) p
            && contains (packages_of (apply_remove state ids).groups) p)
          ≡ false)
unfolding removable apply_remove
removable-released state ids p =
    let kept = packages_of (kept_groups ids state.groups) in
    let gone = packages_of (removed_groups ids state.groups) in
    let released = filter (λ p. not (contains kept p)) gone in
    let free = filter (λ p. not (contains kept p) && contains state.introduced_packages p) gone in
    let listed = contains-dedup-sort free p in
    let chosen =
      contains-filter (λ p. not (contains kept p) && contains state.introduced_packages p) gone p in
    (
      out_of_order-dedup-sort free,
      ground (
        arith,
        listed,
        chosen,
        contains-filter (λ p. not (contains released p)) state.introduced_packages p,
        contains-filter (λ p. not (contains kept p)) gone p,
      ),
      rw (remove_all-kept ids state.groups) (ground (arith, listed, chosen)),
    )
