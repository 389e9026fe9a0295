-- ===== src/Base/Ordered.antt =====
-- Rust's `Ord` with the laws that the standard library asks of it, and the derived orders:
-- numbers, pairs and lists compared from the left, `Option` with `None` first, and a type ordered
-- through an encoding that has a left inverse (a struct as the tuple of its fields).
use Prim.Native.Nat.{ℕ, compare, Ordering}
use mathlib.Core.Path.{◌≡◌, refl, sym, ◌∙◌, ap}
use mathlib.Core.Bool.{Bool, true, false}
use mathlib.Core.Option.{Option, none, some}
use mathlib.Core.List.{List, [], ◌∷◌}
use native.Mathlib.Omega.{arith}

-- `Ordering::reverse`.
abbrev pub flip : Ordering → Ordering
flip Ordering.lt = Ordering.gt
flip Ordering.eq = Ordering.eq
flip Ordering.gt = Ordering.lt

-- `Ordering::then_with`.
abbrev pub then_with : Ordering → Ordering → Ordering
then_with Ordering.lt o = Ordering.lt
then_with Ordering.eq o = o
then_with Ordering.gt o = Ordering.gt

abbrev pub is_gt : Ordering → Bool
is_gt Ordering.gt = true
is_gt _ = false

abbrev pub is_eq : Ordering → Bool
is_eq Ordering.eq = true
is_eq _ = false

abbrev pub is_ge : Ordering → Bool
is_ge Ordering.lt = false
is_ge _ = true

pub record Order {ℓ} (A : Type ℓ) : Type ℓ where
  pub cmp : A → A → Ordering
  pub cmp_self : (a : A) → cmp a a ≡ Ordering.eq
  pub eq_of_cmp : (a b : A) → cmp a b ≡ Ordering.eq → a ≡ b
  pub cmp_flip : (a b : A) → cmp b a ≡ flip (cmp a b)
  pub cmp_trans :
      (a b c : A) → cmp a b ≡ Ordering.lt → cmp b c ≡ Ordering.lt → cmp a c ≡ Ordering.lt

abbrev pub cmp {ℓ} : {A : Type ℓ} ⦃o : Order A⦄ → A → A → Ordering
cmp ⦃o⦄ = o.cmp

-- `==` of a type whose `Eq` agrees with its `Ord`.
abbrev pub same {ℓ} : {A : Type ℓ} ⦃o : Order A⦄ → A → A → Bool
same ⦃o⦄ a b = is_eq (o.cmp a b)

module _ {ℓ} {A : Type ℓ} ⦃o : Order A⦄ where
  pub same_self : (a : A) → same a a ≡ true
  same_self a = ap is_eq (o.cmp_self a)

  pub same→eq : (a b : A) → same a b ≡ true → a ≡ b
  same→eq a b h = o.eq_of_cmp a b (ground arith)

pub nat_cmp_self : (a : ℕ) → compare a a ≡ Ordering.eq
nat_cmp_self a = ground arith

pub nat_eq_of_cmp : (a b : ℕ) → compare a b ≡ Ordering.eq → a ≡ b
nat_eq_of_cmp a b h = ground arith

pub nat_cmp_flip : (a b : ℕ) → compare b a ≡ flip (compare a b)
nat_cmp_flip a b = ground arith

pub nat_cmp_trans :
    (a b c : ℕ) → compare a b ≡ Ordering.lt → compare b c ≡ Ordering.lt → compare a c ≡ Ordering.lt
nat_cmp_trans a b c h k = ground arith

instance abbrev pub nat_order : Order ℕ
nat_order = record {
  cmp = compare;
  cmp_self = nat_cmp_self;
  eq_of_cmp = nat_eq_of_cmp;
  cmp_flip = nat_cmp_flip;
  cmp_trans = nat_cmp_trans;
}

module _ {ℓ} {A : Type ℓ} ⦃o : Order A⦄ where
  abbrev pub cmp_list : List A → List A → Ordering
  cmp_list [] [] = Ordering.eq
  cmp_list [] (y ∷ ys) = Ordering.lt
  cmp_list (x ∷ xs) [] = Ordering.gt
  cmp_list (x ∷ xs) (y ∷ ys) = then_with (o.cmp x y) (cmp_list xs ys)

  pub list_cmp_self : (a : List A) → cmp_list a a ≡ Ordering.eq
  list_cmp_self [] = refl
  list_cmp_self (x ∷ xs) = ground (arith, o.cmp_self x, list_cmp_self xs)

  pub list_eq_of_cmp : (a b : List A) → cmp_list a b ≡ Ordering.eq → a ≡ b
  list_eq_of_cmp [] [] h = refl
  list_eq_of_cmp [] (y ∷ ys) h = cc
  list_eq_of_cmp (x ∷ xs) [] h = cc
  list_eq_of_cmp (x ∷ xs) (y ∷ ys) h = ground (arith, o.eq_of_cmp x y, list_eq_of_cmp xs ys)

  pub list_cmp_flip : (a b : List A) → cmp_list b a ≡ flip (cmp_list a b)
  list_cmp_flip [] [] = refl
  list_cmp_flip [] (y ∷ ys) = refl
  list_cmp_flip (x ∷ xs) [] = refl
  list_cmp_flip (x ∷ xs) (y ∷ ys) = ground (arith, o.cmp_flip x y, list_cmp_flip xs ys)

  pub list_cmp_trans :
      (a b c : List A)
      → cmp_list a b ≡ Ordering.lt
      → cmp_list b c ≡ Ordering.lt
      → cmp_list a c ≡ Ordering.lt
  list_cmp_trans [] [] c h k = cc
  list_cmp_trans [] (y ∷ ys) [] h k = cc
  list_cmp_trans [] (y ∷ ys) (z ∷ zs) h k = refl
  list_cmp_trans (x ∷ xs) [] c h k = cc
  list_cmp_trans (x ∷ xs) (y ∷ ys) [] h k = cc
  list_cmp_trans (x ∷ xs) (y ∷ ys) (z ∷ zs) h k = ground (
    arith,
    o.cmp_trans x y z,
    o.eq_of_cmp x y,
    o.eq_of_cmp y z,
    o.cmp_self x,
    list_cmp_trans xs ys zs,
  )

  instance abbrev pub list_order : Order (List A)
  list_order = record {
    cmp = cmp_list;
    cmp_self = list_cmp_self;
    eq_of_cmp = list_eq_of_cmp;
    cmp_flip = list_cmp_flip;
    cmp_trans = list_cmp_trans;
  }

  abbrev pub cmp_option : Option A → Option A → Ordering
  cmp_option none none = Ordering.eq
  cmp_option none (some b) = Ordering.lt
  cmp_option (some a) none = Ordering.gt
  cmp_option (some a) (some b) = o.cmp a b

  pub option_cmp_self : (a : Option A) → cmp_option a a ≡ Ordering.eq
  option_cmp_self none = refl
  option_cmp_self (some a) = o.cmp_self a

  pub option_eq_of_cmp : (a b : Option A) → cmp_option a b ≡ Ordering.eq → a ≡ b
  option_eq_of_cmp none none h = refl
  option_eq_of_cmp none (some b) h = cc
  option_eq_of_cmp (some a) none h = cc
  option_eq_of_cmp (some a) (some b) h = ap some (o.eq_of_cmp a b h)

  pub option_cmp_flip : (a b : Option A) → cmp_option b a ≡ flip (cmp_option a b)
  option_cmp_flip none none = refl
  option_cmp_flip none (some b) = refl
  option_cmp_flip (some a) none = refl
  option_cmp_flip (some a) (some b) = o.cmp_flip a b

  pub option_cmp_trans :
      (a b c : Option A)
      → cmp_option a b ≡ Ordering.lt
      → cmp_option b c ≡ Ordering.lt
      → cmp_option a c ≡ Ordering.lt
  option_cmp_trans none none c h k = cc
  option_cmp_trans none (some b) none h k = cc
  option_cmp_trans none (some b) (some c) h k = refl
  option_cmp_trans (some a) none c h k = cc
  option_cmp_trans (some a) (some b) none h k = cc
  option_cmp_trans (some a) (some b) (some c) h k = o.cmp_trans a b c h k

  instance abbrev pub option_order : Order (Option A)
  option_order = record {
    cmp = cmp_option;
    cmp_self = option_cmp_self;
    eq_of_cmp = option_eq_of_cmp;
    cmp_flip = option_cmp_flip;
    cmp_trans = option_cmp_trans;
  }

module _ {ℓ κ} {A : Type ℓ} {B : Type κ} ⦃o : Order A⦄ ⦃p : Order B⦄ where
  abbrev pub cmp_pair : A × B → A × B → Ordering
  cmp_pair (a, b) (c, d) = then_with (o.cmp a c) (p.cmp b d)

  pub pair_cmp_self : (x : A × B) → cmp_pair x x ≡ Ordering.eq
  pair_cmp_self (a, b) = ground (arith, o.cmp_self a, p.cmp_self b)

  pub pair_eq_of_cmp : (x y : A × B) → cmp_pair x y ≡ Ordering.eq → x ≡ y
  pair_eq_of_cmp (a, b) (c, d) h = ground (arith, o.eq_of_cmp a c, p.eq_of_cmp b d)

  pub pair_cmp_flip : (x y : A × B) → cmp_pair y x ≡ flip (cmp_pair x y)
  pair_cmp_flip (a, b) (c, d) = ground (arith, o.cmp_flip a c, p.cmp_flip b d)

  pub pair_cmp_trans :
      (x y z : A × B)
      → cmp_pair x y ≡ Ordering.lt
      → cmp_pair y z ≡ Ordering.lt
      → cmp_pair x z ≡ Ordering.lt
  pair_cmp_trans (a, b) (c, d) (e, f) h k =
      ground (
        arith,
        o.cmp_trans a c e,
        o.eq_of_cmp a c,
        o.eq_of_cmp c e,
        o.cmp_self a,
        p.cmp_trans b d f,
      )

  instance abbrev pub pair_order : Order (A × B)
  pair_order = record {
    cmp = cmp_pair;
    cmp_self = pair_cmp_self;
    eq_of_cmp = pair_eq_of_cmp;
    cmp_flip = pair_cmp_flip;
    cmp_trans = pair_cmp_trans;
  }

module _ {ℓ κ} {A : Type ℓ} {B : Type κ} (o : Order B) (f : A → B) (g : B → A)
    (left_inverse : (a : A) → g (f a) ≡ a) where
  pub order_by_eq : (a b : A) → o.cmp (f a) (f b) ≡ Ordering.eq → a ≡ b
  order_by_eq a b h = sym (left_inverse a) ∙ ap g (o.eq_of_cmp (f a) (f b) h) ∙ left_inverse b

  -- The order of `A` read off the encoding `f`.
  abbrev pub order_by : Order A
  order_by = record {
    cmp = λ a b. o.cmp (f a) (f b);
    cmp_self = λ a. o.cmp_self (f a);
    eq_of_cmp = order_by_eq;
    cmp_flip = λ a b. o.cmp_flip (f a) (f b);
    cmp_trans = λ a b c. o.cmp_trans (f a) (f b) (f c);
  }
