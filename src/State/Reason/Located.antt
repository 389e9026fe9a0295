-- ===== src/State/Reason/Located.antt =====
-- The lookup of an installed package by its database instance and header digest.
use dnfast.Base.{
  get-collect_from, get-collect_from-Holds, All, All-map, All-contained, keys, contains_self, ◌≡◌,
  ◌∙◌, sym, ap, refl, arith, true, some, is_some, List, [], ◌∷◌, map, nat_order, list_order,
  pair_order, get, collect_map, contains, ok,
}
use dnfast.Core.Inventory.{
  InstalledPackage_order, InstalledPackage, InstalledInventory, validate_inventory, with_instance,
}
use dnfast.Core.Inventory.Erase.{match_found, valid_instances}
use dnfast.State.Reason.{Exact, exact_of, PlannedIdentity_order, ReasonRecord_order}

abbrev pub after_map : InstalledInventory → List (Exact × InstalledPackage)
after_map after = collect_map (map (λ p. (exact_of p, p)) after.packages)

contains-exacts :
    (xs : List InstalledPackage)
    → All (λ p. contains (keys (map (λ q. (exact_of q, q)) xs)) (exact_of p) ≡ true) xs
contains-exacts [] = tt
contains-exacts (x ∷ xs) =
    (contains_self (exact_of x) _, All-map (λ p h. ground (arith, h)) xs (contains-exacts xs))

head-eq : (a b : InstalledPackage) → a ∷ [] ≡ b ∷ [] → a ≡ b
head-eq a b h = cc

pub after_map-found :
    (after : InstalledInventory)
    → All (λ p. is_some (get (after_map after) (exact_of p)) ≡ true) after.packages
after_map-found after =
    All-map (λ p h. get-collect_from [] (map (λ q. (exact_of q, q)) after.packages) (exact_of p) h)
      after.packages (contains-exacts after.packages)

-- What is found in the map is a package of the inventory with the instance that was asked for.
abbrev pub Located : List InstalledPackage → Exact → InstalledPackage → Type 0
Located xs k q = (contains xs q ≡ true) × (q.db_instance ≡ k.0)

All-entries :
    (P : Exact → InstalledPackage → Type 0) (xs : List InstalledPackage)
    → All (λ p. P (exact_of p) p) xs
    → All (λ (e : Exact × InstalledPackage). P e.0 e.1) (map (λ p. (exact_of p, p)) xs)
All-entries P [] h = tt
All-entries P (x ∷ xs) h = (h.0, All-entries P xs h.1)

pub after_map-Located :
    (after : InstalledInventory) (k : Exact) (q : InstalledPackage)
    → get (after_map after) k ≡ some q
    → Located after.packages k q
after_map-Located after k q h =
    get-collect_from-Holds (Located after.packages) [] (map (λ p. (exact_of p, p)) after.packages)
      (λ k' v' e. cc)
      (All-entries (Located after.packages) after.packages
        (All-map (λ p c. (c, refl)) after.packages (All-contained after.packages)))
      k q h

-- In a valid inventory an instance names one package.
pub same_package :
    (after : InstalledInventory) (p q : InstalledPackage)
    → validate_inventory after ≡ ok tt
    → contains after.packages p ≡ true
    → contains after.packages q ≡ true
    → q.db_instance ≡ p.db_instance
    → q ≡ p
same_package after p q valid hp hq e =
    let one = match_found after.packages p (valid_instances after valid) hp in
    let other = match_found after.packages q (valid_instances after valid) hq in
    head-eq q p (sym other ∙ ap (λ d. with_instance d after.packages) e ∙ one)
