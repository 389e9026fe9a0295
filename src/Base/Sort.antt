-- ===== src/Base/Sort.antt =====
-- `sort`, `dedup`, the test on `windows(2)` for a strictly ascending list, and why the sorted list
-- does not depend on the order of its input.
use Prim.Native.Nat.{suc, Ordering}
use mathlib.Core.Path.{◌≡◌, refl, ap, ap₂, ◌∙◌}
use mathlib.Core.Bool.{Bool, false, ◌||◌}
use mathlib.Core.List.{List, [], ◌∷◌, Permᴰ}
use native.Mathlib.Omega.{arith}
use dnfast.Base.Ordered.{Order, same, is_ge, is_gt, same→eq, same_self}
use dnfast.Base.Tests.{if◌then◌else◌}
use dnfast.Base.Lists.{length, contains, any, All, All-map}

module _ {ℓ} {A : Type ℓ} ⦃o : Order A⦄ where
  pub insert_sorted : A → List A → List A
  insert_sorted x [] = x ∷ []
  insert_sorted x (y ∷ ys) = if is_gt (o.cmp x y) then y ∷ insert_sorted x ys else x ∷ y ∷ ys

  -- The standard library's stable `sort`.
  unfoldable pub sort : List A → List A
  unfolding insert_sorted
  sort [] = []
  sort (x ∷ xs) = insert_sorted x (sort xs)

  pub dedup_from : A → List A → List A
  dedup_from x [] = x ∷ []
  dedup_from x (y ∷ ys) = let rest = dedup_from y ys in if same x y then rest else x ∷ rest

  -- `Vec::dedup` drops all but one of a run of equal elements.
  unfoldable pub dedup : List A → List A
  unfolding dedup_from
  dedup [] = []
  dedup (x ∷ xs) = dedup_from x xs

  abbrev pub out_of_order_from : A → List A → Bool
  out_of_order_from x [] = false
  out_of_order_from x (y ∷ ys) = is_ge (o.cmp x y) || out_of_order_from y ys

  -- `windows(2).any(|pair| pair[0] >= pair[1])`.
  abbrev pub out_of_order : List A → Bool
  out_of_order [] = false
  out_of_order (x ∷ xs) = out_of_order_from x xs

  -- `windows(2).any(|pair| pair[0] > pair[1])`, which no sorted list satisfies.
  abbrev pub descends_from : A → List A → Bool
  descends_from x [] = false
  descends_from x (y ∷ ys) = is_gt (o.cmp x y) || descends_from y ys

  abbrev pub descends : List A → Bool
  descends [] = false
  descends (x ∷ xs) = descends_from x xs

  insert_sorted_comm :
      (x y : A) (l : List A)
      → insert_sorted x (insert_sorted y l) ≡ insert_sorted y (insert_sorted x l)
  unfolding insert_sorted
  insert_sorted_comm x y [] = ground (arith, o.cmp_flip x y, o.eq_of_cmp x y)
  insert_sorted_comm x y (z ∷ l) = ground (
    arith,
    o.cmp_flip x y,
    o.eq_of_cmp x y,
    o.cmp_flip x z,
    o.cmp_flip y z,
    o.eq_of_cmp x z,
    o.eq_of_cmp y z,
    o.cmp_trans x z y,
    o.cmp_trans y z x,
    insert_sorted_comm x y l,
  )

  -- Sorting a rearranged list gives the same list.
  pub sort-perm : {xs ys : List A} → Permᴰ xs ys → sort xs ≡ sort ys
  unfolding sort
  sort-perm Permᴰ.nil = refl
  sort-perm (Permᴰ.cons e p) = ap₂ insert_sorted e (sort-perm p)
  sort-perm (Permᴰ.swap {a} {b} {a'} {b'} {l} e f) =
      insert_sorted_comm a b (sort l) ∙ ap₂ (λ u v. insert_sorted u (insert_sorted v (sort l))) f e
  sort-perm (Permᴰ.trans p q) = sort-perm p ∙ sort-perm q

  contains-insert_sorted :
      (x : A) (l : List A) (a : A) → contains (insert_sorted x l) a ≡ contains (x ∷ l) a
  unfolding insert_sorted
  contains-insert_sorted x [] a = refl
  contains-insert_sorted x (y ∷ l) a = ground (arith, contains-insert_sorted x l a)

  pub contains-sort : (l : List A) (a : A) → contains (sort l) a ≡ contains l a
  unfolding sort
  contains-sort [] a = refl
  contains-sort (x ∷ l) a = ground (arith, contains-sort l a, contains-insert_sorted x (sort l) a)

  length-insert_sorted : (x : A) (l : List A) → length (insert_sorted x l) ≡ suc (length l)
  unfolding insert_sorted
  length-insert_sorted x [] = refl
  length-insert_sorted x (y ∷ l) = ground (arith, length-insert_sorted x l)

  pub length-sort : (l : List A) → length (sort l) ≡ length l
  unfolding sort
  length-sort [] = refl
  length-sort (x ∷ l) = omega (arith, length-sort l, length-insert_sorted x (sort l))

  descends_from-insert_sorted :
      (z x : A) (l : List A)
      → is_gt (o.cmp z x) ≡ false
      → descends_from z l ≡ false
      → descends_from z (insert_sorted x l) ≡ false
  unfolding insert_sorted
  descends_from-insert_sorted z x [] h k = ground arith
  descends_from-insert_sorted z x (y ∷ l) h k =
      ground (arith, o.cmp_flip x y, descends_from-insert_sorted y x l)

  descends-insert_sorted :
      (x : A) (l : List A) → descends l ≡ false → descends (insert_sorted x l) ≡ false
  unfolding insert_sorted
  descends-insert_sorted x [] h = refl
  descends-insert_sorted x (y ∷ l) h =
      ground (arith, o.cmp_flip x y, descends_from-insert_sorted y x l)

  pub descends-sort : (l : List A) → descends (sort l) ≡ false
  unfolding sort
  descends-sort [] = refl
  descends-sort (x ∷ l) = descends-insert_sorted x (sort l) (descends-sort l)

  insert_sorted-id :
      (x : A) (l : List A) → out_of_order_from x l ≡ false → insert_sorted x l ≡ x ∷ l
  unfolding insert_sorted
  insert_sorted-id x [] h = refl
  insert_sorted-id x (y ∷ l) h = ground arith

  pub out_of_order-tail :
      (x : A) (l : List A) → out_of_order_from x l ≡ false → out_of_order l ≡ false
  out_of_order-tail x [] h = refl
  out_of_order-tail x (y ∷ l) h = ground arith

  -- A strictly ascending list is its own sorted form.
  pub sort-id : (l : List A) → out_of_order l ≡ false → sort l ≡ l
  unfolding sort
  sort-id [] h = refl
  sort-id (x ∷ l) h =
      ap (insert_sorted x) (sort-id l (out_of_order-tail x l h)) ∙ insert_sorted-id x l h

  contains-dedup_from :
      (x : A) (l : List A) (a : A) → contains (dedup_from x l) a ≡ contains (x ∷ l) a
  unfolding dedup_from
  contains-dedup_from x [] a = refl
  contains-dedup_from x (y ∷ l) a =
      ground (arith, contains-dedup_from y l a, same→eq x y, same_self x)

  pub contains-dedup : (l : List A) (a : A) → contains (dedup l) a ≡ contains l a
  unfolding dedup
  contains-dedup [] a = refl
  contains-dedup (x ∷ l) a = contains-dedup_from x l a

  out_of_order_from-dedup_from :
      (z x : A) (l : List A)
      → o.cmp z x ≡ Ordering.lt
      → descends_from x l ≡ false
      → out_of_order_from z (dedup_from x l) ≡ false
  unfolding dedup_from
  out_of_order_from-dedup_from z x [] h k = ground arith
  out_of_order_from-dedup_from z x (y ∷ l) h k = ground (
    arith,
    o.eq_of_cmp x y,
    out_of_order_from-dedup_from z y l,
    out_of_order_from-dedup_from x y l,
  )

  out_of_order-dedup_from :
      (x : A) (l : List A) → descends_from x l ≡ false → out_of_order (dedup_from x l) ≡ false
  unfolding dedup_from
  out_of_order-dedup_from x [] h = refl
  out_of_order-dedup_from x (y ∷ l) h =
      ground (arith, out_of_order-dedup_from y l, out_of_order_from-dedup_from x y l)

  out_of_order-dedup : (l : List A) → descends l ≡ false → out_of_order (dedup l) ≡ false
  unfolding dedup
  out_of_order-dedup [] h = refl
  out_of_order-dedup (x ∷ l) h = out_of_order-dedup_from x l h

  -- `sort` then `dedup` leaves a strictly ascending list, the order of a `BTreeSet`.
  pub out_of_order-dedup-sort : (l : List A) → out_of_order (dedup (sort l)) ≡ false
  out_of_order-dedup-sort l = out_of_order-dedup (sort l) (descends-sort l)

  pub contains-dedup-sort : (l : List A) (a : A) → contains (dedup (sort l)) a ≡ contains l a
  contains-dedup-sort l a = contains-dedup (sort l) a ∙ contains-sort l a

  dedup_from-id : (x : A) (l : List A) → out_of_order_from x l ≡ false → dedup_from x l ≡ x ∷ l
  unfolding dedup_from
  dedup_from-id x [] h = refl
  dedup_from-id x (y ∷ l) h = ground (arith, dedup_from-id y l)

  pub dedup-id : (l : List A) → out_of_order l ≡ false → dedup l ≡ l
  unfolding dedup
  dedup-id [] h = refl
  dedup-id (x ∷ l) h = dedup_from-id x l h

module _ {ℓ} {A : Type ℓ} ⦃o : Order A⦄ (p : A → Bool) where
  any-insert_sorted : (x : A) (l : List A) → any p (insert_sorted x l) ≡ any p (x ∷ l)
  unfolding insert_sorted
  any-insert_sorted x [] = refl
  any-insert_sorted x (y ∷ l) = ground (arith, any-insert_sorted x l)

  pub any-sort : (l : List A) → any p (sort l) ≡ any p l
  unfolding sort
  any-sort [] = refl
  any-sort (x ∷ l) = ground (arith, any-sort l, any-insert_sorted x (sort l))

  any-dedup_from : (x : A) (l : List A) → any p (dedup_from x l) ≡ any p (x ∷ l)
  unfolding dedup_from
  any-dedup_from x [] = refl
  any-dedup_from x (y ∷ l) = ground (arith, any-dedup_from y l, same→eq x y)

  any-dedup : (l : List A) → any p (dedup l) ≡ any p l
  unfolding dedup
  any-dedup [] = refl
  any-dedup (x ∷ l) = any-dedup_from x l

  pub any-dedup-sort : (l : List A) → any p (dedup (sort l)) ≡ any p l
  any-dedup-sort l = any-dedup (sort l) ∙ any-sort l

module _ {ℓ} {A : Type ℓ} ⦃o : Order A⦄ where
  -- The head of a strictly ascending list is below all others.
  pub ascending-All :
      (x : A) (l : List A) → out_of_order_from x l ≡ false → All (λ y. o.cmp x y ≡ Ordering.lt) l
  ascending-All x [] h = tt
  ascending-All x (y ∷ l) h =
      let below : o.cmp x y ≡ Ordering.lt = ground arith in
      (below, All-map (λ z lt. o.cmp_trans x y z below lt) l (ascending-All y l (ground arith)))
