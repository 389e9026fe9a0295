-- ===== src/Core/PackageAction/Canonical.antt =====
-- The canonical list of actions: `canonical_actions` of crates/dnfast-core/src/plan.rs.
use dnfast.Base.{
  ◌≤◌, true, false, List, [], ◌∷◌, ◌≡◌, ◌∙◌, ap, refl, sym, subst, arith, Permᴰ, sort, sort-perm,
  length-sort, contains-sort, descends-sort, descends_from, descends, contains, out_of_order,
  out_of_order_from, cmp, same, same_self, Ordering, length, All, ok, ltb, >>-eq-ok, reject-eq-ok,
  ok-injective, nat_order, list_order, pair_order,
}
use dnfast.Core.Value.{Evra_order}
use dnfast.Core.PackageAction.{
  PackageAction, PackageAction_order, PackageOperation_order, Identity, identity,
  validate_package_action, check_actions, canonical_actions, max_plan_actions,
}

length-perm : {xs ys : List PackageAction} → Permᴰ xs ys → length xs ≡ length ys
length-perm {xs} {ys} p = sym (length-sort xs) ∙ ap length (sort-perm p) ∙ length-sort ys

-- The canonical list does not depend on the order in which the solver names its actions, and
-- neither does a refusal.
pub canonical_actions-perm :
    {xs ys : List PackageAction} → Permᴰ xs ys → canonical_actions xs ≡ canonical_actions ys
unfolding canonical_actions
canonical_actions-perm p = rw (sort-perm p, length-perm p)

-- What a reader of a canonical list can rely on.
pub record IsCanonical (source actions : List PackageAction) : Type 0 where
  pub ascending : out_of_order actions ≡ false
  pub valid : All (λ a. validate_package_action a ≡ ok tt) actions
  pub same_actions : (a : PackageAction) → contains actions a ≡ contains source a
  pub same_length : length actions ≡ length source
  pub bounded : length actions ≤ max_plan_actions

check_actions-valid :
    (seen : List Identity) (xs : List PackageAction)
    → check_actions seen xs ≡ ok tt
    → All (λ a. validate_package_action a ≡ ok tt) xs
unfolding check_actions
check_actions-valid seen [] h = tt
check_actions-valid seen (a ∷ xs) h =
    (ground arith, check_actions-valid (identity a ∷ seen) xs (ground arith))

same-identity :
    (x y : PackageAction) → cmp x y ≡ Ordering.eq → same (identity x) (identity y) ≡ true
same-identity x y e =
    subst (λ z. same (identity x) (identity z) ≡ true) (PackageAction_order.eq_of_cmp x y e)
      (same_self (identity x))

check_actions-ascending :
    (x : PackageAction) (seen : List Identity) (xs : List PackageAction)
    → check_actions (identity x ∷ seen) xs ≡ ok tt
    → descends_from x xs ≡ false
    → out_of_order_from x xs ≡ false
unfolding check_actions
check_actions-ascending x seen [] h d = refl
check_actions-ascending x seen (y ∷ xs) h d =
    ground (arith, same-identity x y, check_actions-ascending y (identity x ∷ seen) xs)

check_sorted-ascending :
    (xs : List PackageAction)
    → check_actions [] xs ≡ ok tt
    → descends xs ≡ false
    → out_of_order xs ≡ false
unfolding check_actions
check_sorted-ascending [] h d = refl
check_sorted-ascending (x ∷ xs) h d = check_actions-ascending x [] xs (ground arith) d

-- An accepted list is strictly ascending, as `validate_now` wants it, has only valid actions, and
-- has exactly the actions that were given, as many of them, at most `MAX_PLAN_ACTIONS`.
pub canonical_actions-IsCanonical :
    (source : List PackageAction) {actions : List PackageAction}
    → canonical_actions source ≡ ok actions
    → IsCanonical source actions
unfolding canonical_actions
canonical_actions-IsCanonical source h =
    let (small, rest) = reject-eq-ok (ltb max_plan_actions (length source)) _ _ h in
    let (checked, e) = >>-eq-ok (check_actions [] (sort source)) _ rest in
    subst (IsCanonical source) (ok-injective e) (record {
      ascending = check_sorted-ascending (sort source) checked (descends-sort source);
      valid = check_actions-valid [] (sort source) checked;
      same_actions = contains-sort source;
      same_length = length-sort source;
      bounded = ground (arith, length-sort source);
    })
