-- ===== src/State/Reason/Known.antt =====
-- What `record_success` of crates/dnfast-state/src/reason.rs looks up: the record of a package that
-- was known, and the record of a package that an action of the plan replaces.
use dnfast.Base.{
  Bool, err-ne-ok, get-collect_from, get-collect_from-Holds, All, All-map, All-contains,
  All-contained, keys, contains_self, ◌≡◌, ◌≢◌, ◌∙◌, sym, ap, refl, arith, Bool-cases, true, false,
  not, ◌||◌, inl, inr, Option, none, some, is_some, List, [], ◌∷◌, map, nat_order, list_order,
  pair_order, get, contains, ok, same, same→eq, subst, option_order,
}
use dnfast.Core.PackageAction.{PackageAction_order, PackageOperation_order}
use dnfast.State.Reason.{
  Exact, exact_of_record, ReasonRecord, ReasonRecord_order, PlannedIdentity_order, existing_of,
}
use dnfast.State.Reason.Store.{check_records, is_reason_record}

check_records-parts :
    (ids : List Exact) (r : ReasonRecord) (rs : List ReasonRecord)
    → check_records ids (r ∷ rs) ≡ ok tt
    → (contains ids (exact_of_record r) ≡ false)
      × (check_records (exact_of_record r ∷ ids) rs ≡ ok tt)
unfolding check_records
check_records-parts ids r rs h =
    elim (Bool-cases (not (is_reason_record r) || contains ids (exact_of_record r))) [
      | inl bad ↦ absurd (err-ne-ok (rw bad at h))
      | inr good ↦ (or_false (not (is_reason_record r)) good, rw good at h)
    ]
  where
    or_false : (a : Bool) {b : Bool} → (a || b) ≡ false → b ≡ false
    or_false false h = h
    or_false true h = cc

check_records-fresh :
    (ids : List Exact) (rs : List ReasonRecord) (q : ReasonRecord)
    → check_records ids rs ≡ ok tt
    → contains rs q ≡ true
    → contains ids (exact_of_record q) ≡ false
check_records-fresh ids [] q h c = cc
check_records-fresh ids (r ∷ rs) q h c =
    let (new, rest) = check_records-parts ids r rs h in
    elim (Bool-cases (same r q)) [
      | inl at ↦ subst (λ x. contains ids (exact_of_record x) ≡ false) (same→eq r q at) new
      | inr off ↦
          contains-tail ids (exact_of_record r) (exact_of_record q)
            (check_records-fresh (exact_of_record r ∷ ids) rs q rest (rw off at c))
    ]
  where
    contains-tail :
        (ids : List Exact) (i j : Exact) → contains (i ∷ ids) j ≡ false → contains ids j ≡ false
    contains-tail ids i j h = elim (Bool-cases (same i j)) [
      | inl at ↦ (let c = rw at at h in cc)
      | inr off ↦ rw off at h
    ]

distinct :
    (ids : List Exact) (x r : ReasonRecord) (rs : List ReasonRecord)
    → check_records ids (x ∷ rs) ≡ ok tt
    → contains rs r ≡ true
    → exact_of_record x ≢ exact_of_record r
distinct ids x r rs h c e =
    let fresh =
      check_records-fresh (exact_of_record x ∷ ids) rs r (check_records-parts ids x rs h).1 c in
    let seen =
      subst (λ i. contains (i ∷ ids) (exact_of_record r) ≡ true) (sym e)
        (contains_self (exact_of_record r) ids) in
    (let clash : true ≡ false = sym seen ∙ fresh in cc)

-- In a valid state an identity has one record.
same_record :
    (ids : List Exact) (rs : List ReasonRecord) (q r : ReasonRecord)
    → check_records ids rs ≡ ok tt
    → contains rs q ≡ true
    → contains rs r ≡ true
    → exact_of_record q ≡ exact_of_record r
    → q ≡ r
same_record ids [] q r h c d e = cc
same_record ids (x ∷ rs) q r h c d e = elim (Bool-cases (same x q)) [
  | inl at ↦ elim (Bool-cases (same x r)) [
    | inl at' ↦ sym (same→eq x q at) ∙ same→eq x r at'
    | inr off ↦
        absurd (distinct ids x r rs h (rw off at d) (ap exact_of_record (same→eq x q at) ∙ e))
  ]
  | inr off ↦ elim (Bool-cases (same x r)) [
    | inl at' ↦
        absurd (distinct ids x q rs h (rw off at c) (ap exact_of_record (same→eq x r at') ∙ sym e))
    | inr off' ↦
        same_record (exact_of_record x ∷ ids) rs q r (check_records-parts ids x rs h).1
          (rw off at c) (rw off' at d) e
  ]
]

contains-identities :
    (rs : List ReasonRecord)
    → All
        (λ r. contains (keys (map (λ q. (exact_of_record q, q)) rs)) (exact_of_record r) ≡ true)
        rs
contains-identities [] = tt
contains-identities (x ∷ rs) = (
  contains_self (exact_of_record x) _,
  All-map (λ r h. ground (arith, h)) rs (contains-identities rs),
)

abbrev pub HasIdentity : List ReasonRecord → Exact → ReasonRecord → Type 0
HasIdentity records k r = (contains records r ≡ true) × (exact_of_record r ≡ k)

with_identities :
    (P : Exact → ReasonRecord → Type 0) (rs : List ReasonRecord)
    → All (λ r. P (exact_of_record r) r) rs
    → All (λ (e : Exact × ReasonRecord). P e.0 e.1) (map (λ r. (exact_of_record r, r)) rs)
with_identities P [] h = tt
with_identities P (x ∷ rs) h = (h.0, with_identities P rs h.1)

-- What is looked up is a record of that identity.
pub existing_of-HasIdentity :
    (records : List ReasonRecord) (k : Exact) (r : ReasonRecord)
    → get (existing_of records) k ≡ some r
    → HasIdentity records k r
existing_of-HasIdentity records k r h =
    get-collect_from-Holds (HasIdentity records) [] (map (λ r. (exact_of_record r, r)) records)
      (λ k' v' e. cc)
      (with_identities (HasIdentity records) records
        (All-map (λ r c. (c, refl)) records (All-contained records)))
      k r h

pub some_of {ℓ} : {A : Type ℓ} (o : Option A) → is_some o ≡ true → (a : A) × (o ≡ some a)
some_of none h = cc
some_of (some a) h = (a, refl)

-- A record of a valid state is found by its identity.
pub existing_of-found :
    (records : List ReasonRecord) (old : ReasonRecord)
    → check_records [] records ≡ ok tt
    → contains records old ≡ true
    → get (existing_of records) (exact_of_record old) ≡ some old
existing_of-found records old valid known =
    let (r, found) = some_of (get (existing_of records) (exact_of_record old)) (
      get-collect_from [] (map (λ q. (exact_of_record q, q)) records) (exact_of_record old) (
        All-contains
          (λ r.
            contains (keys (map (λ q. (exact_of_record q, q)) records)) (exact_of_record r) ≡ true)
          records old (contains-identities records) known)) in
    let (there, e) = existing_of-HasIdentity records (exact_of_record old) r found in
    found ∙ ap some (same_record [] records r old valid there known e)
