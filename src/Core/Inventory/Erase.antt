-- ===== src/Core/Inventory/Erase.antt =====
-- The exact package that is erased: `erase_target` of crates/dnfast-core/src/inventory.rs.
use dnfast.Base.{
  err-ne-ok, &&-eq-true, ◌>>◌, ℕ, ◌≤◌, Text, ◌≡◌, ◌≢◌, ◌↔◌, ◌∙◌, sym, ap, refl, arith, Bool-cases,
  true, false, ◌&&◌, inl, inr, List, [], ◌∷◌, nat_order, list_order, same, same→eq, same_self, sort,
  sort-perm, Permᴰ, contains, contains-filter, ◌==◌, ==_iff, length, ok, err, ok-injective,
  >>-eq-ok, reject-eq-ok,
}
use dnfast.Core.Inventory.{
  ambiguous, InstalledPackage, InstalledPackage_order, InstalledInventory, check_instances,
  validate_inventory, new_inventory, inventory_of, with_instance, only_match, erase_target,
}

true-ne-false : true ≢ false
true-ne-false e = cc

seen_twice :
    (d : ℕ) (seen : List ℕ) (xs : List InstalledPackage)
    → check_instances seen xs ≡ ok tt
    → contains seen d ≡ true
    → with_instance d xs ≡ []
unfolding check_instances
seen_twice d seen [] h c = refl
seen_twice d seen (x ∷ xs) h c =
    let (fresh, rest) = reject-eq-ok (contains seen x.db_instance) _ _ h in
    let more = seen_twice d (x.db_instance ∷ seen) xs rest (ground arith) in
    elim (Bool-cases (x.db_instance == d)) [
      | inl e ↦
          (let at : x.db_instance ≡ d = (==_iff x.db_instance d).0 e in
            absurd (true-ne-false (sym c ∙ ap (contains seen) (sym at) ∙ fresh)))
      | inr e ↦ rw e more
    ]

one_match :
    (d : ℕ) (seen : List ℕ) (xs : List InstalledPackage)
    → check_instances seen xs ≡ ok tt
    → length (with_instance d xs) ≤ 1
unfolding check_instances
one_match d seen [] h = omega arith
one_match d seen (x ∷ xs) h =
    let (fresh, rest) = reject-eq-ok (contains seen x.db_instance) _ _ h in
    elim (Bool-cases (x.db_instance == d)) [
      | inl e ↦
          (let at : x.db_instance ≡ d = (==_iff x.db_instance d).0 e in
            let none_left = seen_twice d (x.db_instance ∷ seen) xs rest (ground (arith, at)) in
            rw (e, none_left) (omega arith))
      | inr e ↦ rw e (one_match d (x.db_instance ∷ seen) xs rest)
    ]

single :
    (xs : List InstalledPackage) (p : InstalledPackage)
    → length xs ≤ 1
    → contains xs p ≡ true
    → xs ≡ p ∷ []
single [] p h c = cc
single (x ∷ []) p h c = ap (λ q. q ∷ []) (same→eq x p (ground arith))
single (x ∷ y ∷ r) p h c = absurd (omega (arith, h))

pub valid_instances :
    (i : InstalledInventory) → validate_inventory i ≡ ok tt → check_instances [] i.packages ≡ ok tt
unfolding validate_inventory
valid_instances i h = ground arith

pub match_found :
    (xs : List InstalledPackage) (p : InstalledPackage)
    → check_instances [] xs ≡ ok tt
    → contains xs p ≡ true
    → with_instance p.db_instance xs ≡ p ∷ []
match_found xs p h c = single (with_instance p.db_instance xs) p (one_match p.db_instance [] xs h) (
    contains-filter (λ q. q.db_instance == p.db_instance) xs p
    ∙ rw (c, (==_iff p.db_instance p.db_instance).1 refl) refl)

only_match-eq-ok :
    (xs : List InstalledPackage) (header : Text) {p : InstalledPackage}
    → only_match xs header ≡ ok p
    → (xs ≡ p ∷ []) × (p.immutable_header_sha256.hex ≡ header)
only_match-eq-ok [] header h = cc
only_match-eq-ok (x ∷ y ∷ r) header h = cc
only_match-eq-ok (x ∷ []) header {p} h =
    elim (Bool-cases (same x.immutable_header_sha256.hex header)) [
      | inr differs ↦ absurd (err-ne-ok (rw differs at h))
      | inl equal ↦
          (let found : x ≡ p = ok-injective (rw equal at h) in
            (
              ap (λ q. q ∷ []) found,
              ap (λ q. q.immutable_header_sha256.hex) (sym found)
                  ∙ same→eq x.immutable_header_sha256.hex header equal,
            ))
    ]

-- In a valid inventory the target of an erasure is exactly the installed package with the given
-- database instance and header digest: it is returned if and only if it is there.
pub erase_target-exact :
    (i : InstalledInventory) (db_instance : ℕ) (header_sha256 : Text) (p : InstalledPackage)
    → validate_inventory i ≡ ok tt
    → erase_target i db_instance header_sha256 ≡ ok p ↔ (
        (contains i.packages p ≡ true)
        × (p.db_instance ≡ db_instance)
        × (p.immutable_header_sha256.hex ≡ header_sha256))
unfolding erase_target
erase_target-exact i db header p valid = (
  λ h.
      let (one, digest) = only_match-eq-ok (with_instance db i.packages) header h in
      let inside : (contains i.packages p && (p.db_instance == db)) ≡ true =
        sym (contains-filter (λ q. q.db_instance == db) i.packages p)
        ∙ ap (λ l. contains l p) one
        ∙ rw (same_self p) refl in
      let (there, at) = &&-eq-true (contains i.packages p) (p.db_instance == db) inside in
      (there, (==_iff p.db_instance db).0 at, digest),
  λ (there, at, digest).
      ap (λ d. only_match (with_instance d i.packages) header) (sym at)
      ∙ ap (λ l. only_match l header) (match_found i.packages p (valid_instances i valid) there)
      ∙ rw (digest, same_self header) refl,
)

not_ambiguous :
    (xs : List InstalledPackage) (header : Text)
    → length xs ≤ 1
    → only_match xs header ≢ err ambiguous
not_ambiguous [] header h e = cc
not_ambiguous (x ∷ []) header h e = ground arith
not_ambiguous (x ∷ y ∷ r) header h e = absurd (omega (arith, h))

-- In a valid inventory no lookup is ambiguous.
pub erase_target-ne-ambiguous :
    (i : InstalledInventory) (db_instance : ℕ) (header_sha256 : Text)
    → validate_inventory i ≡ ok tt
    → erase_target i db_instance header_sha256 ≢ err ambiguous
unfolding erase_target
erase_target-ne-ambiguous i db header valid =
    not_ambiguous (with_instance db i.packages) header
      (one_match db [] i.packages (valid_instances i valid))

-- An accepted inventory passes the check of every reader, and it does not depend on the order in
-- which the packages are read from the database.
pub new_inventory-canonical :
    (backend rpm_version : Text) {xs ys : List InstalledPackage} {i : InstalledInventory}
    → Permᴰ xs ys
    → new_inventory backend rpm_version xs ≡ ok i
    → (validate_inventory i ≡ ok tt) × (new_inventory backend rpm_version ys ≡ ok i)
unfolding new_inventory
new_inventory-canonical backend rpm {xs} p h =
    let (_, h₁) = >>-eq-ok (check_instances [] (sort xs)) _ h in
    let (valid, e) = >>-eq-ok (validate_inventory (inventory_of backend rpm (sort xs))) _ h₁ in
    (
      ap validate_inventory (sym (ok-injective e)) ∙ valid,
      ap
            (λ l.
              check_instances [] l
              >> (validate_inventory (inventory_of backend rpm l)
                  >> ok (inventory_of backend rpm l)))
            (sym (sort-perm p))
          ∙ h,
    )
