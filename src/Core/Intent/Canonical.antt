-- ===== src/Core/Intent/Canonical.antt =====
-- The canonical form of an intent: crates/dnfast-core/src/intent.rs, `new` and `validate`.
use dnfast.Base.{
  nat_order, subst, ok-injective, ascending-All, out_of_order-tail, Text, false, List, [], ◌∷◌, ◌≡◌,
  ◌≢◌, refl, arith, Permᴰ, sort, sort-perm, contains, contains-sort, out_of_order, cmp, Ordering,
  ok, err, >>-eq-ok, true, map, out_of_order_from, list_order, All,
}
use dnfast.Core.Intent.{
  Action, duplicate_package, PackageSpec, PackageSpec_order, parse_spec, TransactionIntent,
  check_specs, validate_intent, new_intent,
}

-- The intent does not depend on the order in which the packages are named; a refusal neither.
pub new_intent-perm :
    (action : Action) {ps qs : List PackageSpec}
    → Permᴰ ps qs
    → new_intent action ps ≡ new_intent action qs
unfolding new_intent
new_intent-perm action p = rw (sort-perm p)

-- The canonical form of a request.
pub record IsCanonical (action : Action) (ps : List PackageSpec) (i : TransactionIntent)
    : Type 0 where
  pub same_action : i.action ≡ action
  pub same_packages : (p : PackageSpec) → contains i.packages p ≡ contains ps p
  pub ascending : out_of_order i.packages ≡ false
  pub valid : validate_intent i ≡ ok tt

validate_intent-ascending :
    (i : TransactionIntent) → validate_intent i ≡ ok tt → out_of_order i.packages ≡ false
unfolding validate_intent
validate_intent-ascending i h = ground arith

-- An accepted intent carries the action and the packages that were asked for, in strictly
-- ascending order, and passes the check that every reader repeats.
pub new_intent-IsCanonical :
    (action : Action) (ps : List PackageSpec) {i : TransactionIntent}
    → new_intent action ps ≡ ok i
    → IsCanonical action ps i
unfolding new_intent
new_intent-IsCanonical action ps {i} h =
    let value : TransactionIntent = record { schema = 1; action = action; packages = sort ps } in
    let (valid, e) = >>-eq-ok (validate_intent value) (ok value) h in
    subst (IsCanonical action ps) (ok-injective e) (record {
      same_action = refl;
      same_packages = contains-sort ps;
      ascending = validate_intent-ascending value valid;
      valid = valid;
    })

-- The names still to be checked differ from those that were seen.
abbrev Fresh : List Text → List PackageSpec → Type 0
Fresh seen ps = All (λ p. contains seen p.name ≡ false) ps

Fresh-step :
    (seen : List Text) (p : PackageSpec) (ps : List PackageSpec)
    → All (λ q. cmp p q ≡ Ordering.lt) ps
    → Fresh seen ps
    → Fresh (p.name ∷ seen) ps
Fresh-step seen p [] h k = tt
Fresh-step seen p (q ∷ ps) h k = (ground (arith, h.0, k.0), Fresh-step seen p ps h.1 k.1)

check_specs-ne-duplicate_package :
    (seen : List Text) (ps : List PackageSpec) (name : Text)
    → Fresh seen ps
    → out_of_order ps ≡ false
    → check_specs seen ps ≢ err (duplicate_package name)
unfolding check_specs parse_spec
check_specs-ne-duplicate_package seen [] name f h e = cc
check_specs-ne-duplicate_package seen (p ∷ ps) name f h e = ground (
  arith,
  f.0,
  check_specs-ne-duplicate_package (p.name ∷ seen) ps name
      (Fresh-step seen p ps (ascending-All p ps h) f.1) (out_of_order-tail p ps h),
)

Fresh-none : (ps : List PackageSpec) → Fresh [] ps
Fresh-none [] = tt
Fresh-none (p ∷ ps) = (refl, Fresh-none ps)

names_ascending_from :
    (p : PackageSpec) (ps : List PackageSpec)
    → out_of_order_from p ps ≡ false
    → out_of_order_from p.name (map (λ (q : PackageSpec). q.name) ps) ≡ false
names_ascending_from p [] h = refl
names_ascending_from p (q ∷ ps) h = ground (arith, names_ascending_from q ps)

names_ascending :
    (ps : List PackageSpec)
    → out_of_order ps ≡ false
    → out_of_order (map (λ (q : PackageSpec). q.name) ps) ≡ false
names_ascending [] h = refl
names_ascending (p ∷ ps) h = names_ascending_from p ps h

-- An intent that names a package twice, or names packages out of order, is never accepted, and the
-- refusal is never `DuplicatePackage`.
pub validate_intent-ne-duplicate_package :
    (i : TransactionIntent) (name : Text)
    → out_of_order (map (λ (p : PackageSpec). p.name) i.packages) ≡ true
    → (validate_intent i ≢ ok tt) × (validate_intent i ≢ err (duplicate_package name))
unfolding validate_intent
validate_intent-ne-duplicate_package i name twice = (
  λ valid. ground (arith, names_ascending i.packages (validate_intent-ascending i valid)),
  λ e. ground (arith, check_specs-ne-duplicate_package [] i.packages name (Fresh-none i.packages)),
)
