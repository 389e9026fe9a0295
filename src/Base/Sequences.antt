-- ===== src/Base/Sequences.antt =====
-- Reading a sequence by index, texts within texts, a sort by a number, and signed numbers.
use Prim.Native.Nat.{ℕ, zero, suc}
use mathlib.Core.Bool.{Bool, true, false, ◌&&◌, ◌||◌}
use mathlib.Core.Option.{Option, none, some}
use mathlib.Core.List.{List, [], ◌∷◌}
use native.Mathlib.Omega.{arith}
use dnfast.Base.Tests.{ltb, ◌==◌, if◌then◌else◌}
use dnfast.Base.Lists.{All}
use dnfast.Base.Strings.{Text}

-- A machine integer with a sign.
pub data ℤ : Type 0 where
  pos : ℕ → ℤ
  negsuc : ℕ → ℤ

module _ {ℓ} {A : Type ℓ} where
  -- `slice::get`.
  abbrev pub get_elem? : List A → ℕ → Option A
  get_elem? [] i = none
  get_elem? (x ∷ xs) zero = some x
  get_elem? (x ∷ xs) (suc i) = get_elem? xs i

  insert_by_key : (A → ℕ) → A → List A → List A
  insert_by_key key x [] = x ∷ []
  insert_by_key key x (y ∷ ys) =
      if ltb (key y) (key x) then y ∷ insert_by_key key x ys else x ∷ y ∷ ys

  -- `sort_by_key`, which is stable.
  unfoldable pub sort_by_key : (A → ℕ) → List A → List A
  unfolding insert_by_key
  sort_by_key key [] = []
  sort_by_key key (x ∷ xs) = insert_by_key key x (sort_by_key key xs)

  All-insert_by_key {κ} :
      (P : A → Type κ) (key : A → ℕ) (x : A) (xs : List A)
      → P x
      → All P xs
      → All P (insert_by_key key x xs)
  unfolding insert_by_key
  All-insert_by_key P key x [] p h = (p, tt)
  All-insert_by_key P key x (y ∷ ys) p h = ground (arith, All-insert_by_key P key x ys p h.1)

  pub All-sort_by_key {κ} :
      (P : A → Type κ) (key : A → ℕ) (xs : List A) → All P xs → All P (sort_by_key key xs)
  unfolding sort_by_key
  All-sort_by_key P key [] h = tt
  All-sort_by_key P key (x ∷ xs) h =
      All-insert_by_key P key x (sort_by_key key xs) h.0 (All-sort_by_key P key xs h.1)

-- `str::starts_with`.
abbrev pub starts_with : Text → Text → Bool
starts_with value [] = true
starts_with [] (p ∷ prefix) = false
starts_with (c ∷ value) (p ∷ prefix) = c == p && starts_with value prefix

-- `str::contains` and `str::ends_with`.
abbrev pub contains_text : Text → Text → Bool
contains_text [] part = starts_with [] part
contains_text (c ∷ value) part = starts_with (c ∷ value) part || contains_text value part

abbrev pub equal_texts : Text → Text → Bool
equal_texts [] [] = true
equal_texts [] (d ∷ b) = false
equal_texts (c ∷ a) [] = false
equal_texts (c ∷ a) (d ∷ b) = c == d && equal_texts a b

abbrev pub ends_with : Text → Text → Bool
ends_with [] suffix = equal_texts [] suffix
ends_with (c ∷ value) suffix = equal_texts (c ∷ value) suffix || ends_with value suffix

abbrev pub or_skip {ℓ} : {A : Type ℓ} → Option A → List A → List A
or_skip none xs = xs
or_skip (some x) xs = x ∷ xs

-- `iter().filter_map().collect()`.
abbrev pub filter_map {ℓ κ} : {A : Type ℓ} {B : Type κ} → (A → Option B) → List A → List B
filter_map f [] = []
filter_map f (x ∷ xs) = or_skip (f x) (filter_map f xs)
