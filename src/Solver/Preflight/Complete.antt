-- ===== src/Solver/Preflight/Complete.antt =====
-- `execution_order` of crates/dnfast-solver/src/preflight.rs loses no action and repeats none.
use dnfast.Base.{
  All-append_one, ℕ, zero, suc, ◌≡◌, ◌∙◌, sym, ap, refl, subst, arith, Text, Bool, Bool-cases, true,
  false, not, inl, inr, Option, none, some, List, [], ◌∷◌, ◌++◌, map, Permᴰ, nat_order, list_order,
  pair_order, Order, Ordering, same, same→eq, contains, filter, length, out_of_order,
  out_of_order_from, out_of_order-tail, ascending-All, get, remove, get-remove, keys, keys-remove,
  All, if◌then◌else◌, ok, >>=-eq-ok, ok-injective,
}
use mathlib.Core.List.Permᴰ as PermD
use dnfast.Solver.Model.{ExplainedAction}
use dnfast.Solver.Preflight.Order.{Remaining, Running, lowered, release}

module _ {ℓ} {A : Type ℓ} ⦃o : Order A⦄ where
  out_of_order_from-skip :
      (x y : A) (xs : List A)
      → o.cmp x y ≡ Ordering.lt
      → out_of_order_from y xs ≡ false
      → out_of_order_from x xs ≡ false
  out_of_order_from-skip x y [] h g = refl
  out_of_order_from-skip x y (z ∷ xs) h g = ground (arith, o.cmp_trans x y z)

  out_of_order_from-filter :
      (p : A → Bool) (x : A) (xs : List A)
      → out_of_order_from x xs ≡ false
      → out_of_order_from x (filter p xs) ≡ false
  out_of_order_from-filter p x [] h = refl
  out_of_order_from-filter p x (y ∷ xs) h = ground (
    arith,
    out_of_order_from-filter p y xs,
    out_of_order_from-filter p x xs,
    out_of_order_from-skip x y xs,
  )

  out_of_order-filter :
      (p : A → Bool) (xs : List A) → out_of_order xs ≡ false → out_of_order (filter p xs) ≡ false
  out_of_order-filter p [] h = refl
  out_of_order-filter p (x ∷ xs) h =
      ground
        (arith, out_of_order_from-filter p x xs, out_of_order-filter p xs, out_of_order-tail x xs)

  filter_others :
      (n : A) (xs : List A)
      → All (λ y. o.cmp n y ≡ Ordering.lt) xs
      → filter (λ m. not (same m n)) xs ≡ xs
  filter_others n [] h = refl
  filter_others n (x ∷ xs) h =
      ground (arith, h.0, o.eq_of_cmp x n, o.cmp_self n, filter_others n xs h.1)

  -- Taking an element out of a strictly ascending list takes it out once.
  Permᴰ-take_out :
      (n : A) (xs : List A)
      → out_of_order xs ≡ false
      → contains xs n ≡ true
      → Permᴰ (n ∷ filter (λ m. not (same m n)) xs) xs
  Permᴰ-take_out n [] h c = cc
  Permᴰ-take_out n (x ∷ xs) h c = elim (Bool-cases (same x n)) [
    | inl here ↦ rw here (
        Permᴰ.cons (sym (same→eq x n here)) (
          subst (λ l. Permᴰ l xs)
            (sym (
              filter_others n xs (
                subst (λ y. All (λ z. o.cmp y z ≡ Ordering.lt) xs) (same→eq x n here)
                  (ascending-All x xs h))))
            (PermD.refl xs)))
    | inr other ↦ rw other (
        Permᴰ.trans (Permᴰ.swap refl refl) (
          Permᴰ.cons refl
            (Permᴰ-take_out n xs (out_of_order-tail x xs h) (ground (arith, c, other)))))
  ]

length-Permᴰ {ℓ} : {A : Type ℓ} {xs ys : List A} → Permᴰ xs ys → length xs ≡ length ys
length-Permᴰ Permᴰ.nil = refl
length-Permᴰ (Permᴰ.cons e p) = ap suc (length-Permᴰ p)
length-Permᴰ (Permᴰ.swap e f) = refl
length-Permᴰ (Permᴰ.trans p q) = length-Permᴰ p ∙ length-Permᴰ q

-- What the loop keeps, where the names that are left and those that are out make up the map.
pub record Holds (initial : Remaining) (active : List Text) (remaining : Remaining)
    (ordered : List ExplainedAction) : Type 0 where
  pub keyed : keys remaining ≡ active
  pub ascending : out_of_order active ≡ false
  pub kept : (n : Text) (a : ExplainedAction) → get remaining n ≡ some a → get initial n ≡ some a
  pub whole : Permᴰ (map (λ a. a.name) ordered ++ active) (keys initial)
  pub known : All (λ a. get initial a.name ≡ some a) ordered

pub release-same :
    (s : Running) (targets : List Text) {out : Running}
    → release s targets ≡ ok out
    → (s.active ≡ out.active) × (s.remaining ≡ out.remaining) × (s.ordered ≡ out.ordered)
unfolding release
release-same s [] h =
    let e : s ≡ _ = ok-injective h in
    (
      ap (λ (x : Running). x.active) e,
      ap (λ (x : Running). x.remaining) e,
      ap (λ (x : Running). x.ordered) e,
    )
release-same s (t ∷ targets) {out} h =
    let (next, first, rest) =
      >>=-eq-ok (lowered s t (get s.indegree t)) (λ n. release n targets) h in
    let (a, r, o) = release-same next targets rest in
    let (a', r', o') = lowered-same (get s.indegree t) next first in (a' ∙ a, r' ∙ r, o' ∙ o)
  where
    lowered-same :
        (count : Option ℕ) (next : Running)
        → lowered s t count ≡ ok next
        → (s.active ≡ next.active) × (s.remaining ≡ next.remaining) × (s.ordered ≡ next.ordered)
    lowered-same none next e = cc
    lowered-same (some zero) next e = cc
    lowered-same (some (suc n)) next e = (
      ap (λ (x : Running). x.active) (ok-injective e),
      ap (λ (x : Running). x.remaining) (ok-injective e),
      ap (λ (x : Running). x.ordered) (ok-injective e),
    )

get-known :
    (n : Text) (m : Remaining) (a : ExplainedAction) → get m n ≡ some a → contains (keys m) n ≡ true
get-known n [] a h = cc
get-known n ((j, w) ∷ m) a h = ground (arith, h, get-known n m a)

map-append_one {ℓ κ} :
    {A : Type ℓ} {B : Type κ} (f : A → B) (xs : List A) (x : A) (ys : List B)
    → map f (xs ++ x ∷ []) ++ ys ≡ map f xs ++ f x ∷ ys
map-append_one f [] x ys = refl
map-append_one f (z ∷ xs) x ys = ap (◌∷◌ (f z)) (map-append_one f xs x ys)

module _ (initial : Remaining)
    (own_name : (n : Text) (a : ExplainedAction) → get initial n ≡ some a → a.name ≡ n) where
  pub Holds-take_out :
      (s : Running) (next : Text) (a : ExplainedAction)
      → Holds initial s.active s.remaining s.ordered
      → get s.remaining next ≡ some a
      → (Holds initial
          (filter (λ n. not (same n next)) s.active)
          (remove next s.remaining)
          (s.ordered ++ a ∷ []))
        × (suc (length (filter (λ n. not (same n next)) s.active)) ≡ length s.active)
  Holds-take_out s next a h at =
      let there : contains s.active next ≡ true =
        subst (λ l. contains l next ≡ true) h.keyed (get-known next s.remaining a at) in
      let perm = Permᴰ-take_out next s.active h.ascending there in
      let name : a.name ≡ next = own_name next a (h.kept next a at) in
      (
        record {
          keyed = keys-remove next s.remaining ∙ ap (filter (λ n. not (same n next))) h.keyed;
          ascending = out_of_order-filter (λ n. not (same n next)) s.active h.ascending;
          kept = λ n b g. h.kept n b (still_there n b g);
          whole =
              Permᴰ.trans
                (subst (λ l. Permᴰ l (map (λ (a : ExplainedAction). a.name) s.ordered ++ s.active))
                  (sym (map-append_one (λ (a : ExplainedAction). a.name) s.ordered a _))
                  (PermD.append_left (map (λ (a : ExplainedAction). a.name) s.ordered)
                    (Permᴰ.trans (Permᴰ.cons name (PermD.refl _)) perm)))
                h.whole;
          known =
              All-append_one (λ (a : ExplainedAction). get initial a.name ≡ some a) s.ordered a
                h.known (subst (λ n. get initial n ≡ some a) (sym name) (h.kept next a at));
        },
        length-Permᴰ perm,
      )
    where
      still_there :
          (n : Text) (b : ExplainedAction)
          → get (remove next s.remaining) n ≡ some b
          → get s.remaining n ≡ some b
      still_there n b g = elim (Bool-cases (same next n)) [
        | inl gone ↦
            (let lost : none ≡ some b =
                sym (
                  get-remove next n s.remaining
                  ∙ ap (λ t. if t then none else get s.remaining n) gone)
                ∙ g in
              cc)
        | inr other ↦
            sym (
              get-remove next n s.remaining ∙ ap (λ t. if t then none else get s.remaining n) other)
            ∙ g
      ]
