-- ===== src/Base/Maps.antt =====
-- `BTreeMap` as a list of entries in the order of their keys, and a set as a list without
-- repetition.
use mathlib.Core.Path.{◌≡◌, ◌∙◌, sym, ap, subst, refl}
use mathlib.Core.Logic.{inl, inr}
use mathlib.Core.Bool.{true, false, not, ◌||◌}
use mathlib.Core.Option.{Option, none, some}
use mathlib.Core.List.{List, [], ◌∷◌, map}
use native.Mathlib.Omega.{arith}
use Prim.Native.Nat.{Ordering}
use dnfast.Base.Ordered.{Order, same, same→eq}
use dnfast.Base.Sort.{out_of_order, out_of_order_from}
use dnfast.Base.Lists.{filter, contains, All}
use dnfast.Base.Tests.{if◌then◌else◌, is_some, Bool-cases}

module _ {ℓ κ} {K : Type ℓ} {V : Type κ} ⦃o : Order K⦄ where
  abbrev pub get : List (K × V) → K → Option V
  get [] k = none
  get ((j, v) ∷ m) k = if same j k then some v else get m k

  -- `insert`, which keeps the keys ascending and replaces the value of a key that is there.
  unfoldable pub insert : K → V → List (K × V) → List (K × V)
  insert k v [] = (k, v) ∷ []
  insert k v ((j, w) ∷ m) = elim (o.cmp k j) [
    | Ordering.lt ↦ (k, v) ∷ (j, w) ∷ m
    | Ordering.eq ↦ (k, v) ∷ m
    | Ordering.gt ↦ (j, w) ∷ insert k v m
  ]

  -- `into_iter().collect()`, where a later entry of a key replaces an earlier one.
  unfoldable pub collect_from : List (K × V) → List (K × V) → List (K × V)
  unfolding insert
  collect_from m [] = m
  collect_from m ((k, v) ∷ entries) = collect_from (insert k v m) entries

  abbrev pub collect_map : List (K × V) → List (K × V)
  collect_map entries = collect_from [] entries

  abbrev pub remove : K → List (K × V) → List (K × V)
  remove k m = filter (λ e. not (same e.0 k)) m

  abbrev pub keys : List (K × V) → List K
  keys m = map (λ e. e.0) m

  pub get-insert :
      (k j : K) (v : V) (m : List (K × V))
      → get (insert k v m) j ≡ (if same k j then some v else get m j)
  unfolding insert
  get-insert k j v [] = refl
  get-insert k j v ((i, w) ∷ m) = ground (
    arith,
    o.eq_of_cmp k i,
    o.eq_of_cmp k j,
    o.eq_of_cmp i j,
    o.cmp_flip k i,
    o.cmp_self i,
    o.cmp_self k,
    o.cmp_flip i k,
    get-insert k j v m,
  )

  pub get-remove :
      (k j : K) (m : List (K × V)) → get (remove k m) j ≡ (if same k j then none else get m j)
  get-remove k j [] = ground arith
  get-remove k j ((i, w) ∷ m) = ground (
    arith,
    o.eq_of_cmp i k,
    o.eq_of_cmp k j,
    o.eq_of_cmp i j,
    o.cmp_self i,
    o.cmp_self k,
    get-remove k j m,
  )

-- A key that is among the entries, or was in the map before, is in the map.
pub get-collect_from {ℓ κ} :
    {K : Type ℓ} {V : Type κ} ⦃o : Order K⦄ (m entries : List (K × V)) (k : K)
    → (is_some (get m k) || contains (keys entries) k) ≡ true
    → is_some (get (collect_from m entries) k) ≡ true
unfolding collect_from
get-collect_from m [] k h = ground arith
get-collect_from m ((j, v) ∷ entries) k h =
    get-collect_from (insert j v m) entries k (ground (arith, get-insert j k v m))

pub some_injective {ℓ} : {A : Type ℓ} {a b : A} → ◌≡◌ {A = Option A} (some a) (some b) → a ≡ b
some_injective h = cc

-- What holds of every entry holds of what is looked up.
pub get-collect_from-Holds {ℓ κ μ} :
    {K : Type ℓ} {V : Type κ} ⦃o : Order K⦄ (P : K → V → Type μ) (m entries : List (K × V))
    → ((k : K) (v : V) → get m k ≡ some v → P k v)
    → All (λ e. P e.0 e.1) entries
    → (k : K) (v : V) → get (collect_from m entries) k ≡ some v
    → P k v
unfolding collect_from
get-collect_from-Holds P m [] before all k v h = before k v h
get-collect_from-Holds P m ((j, w) ∷ entries) before all k v h =
    get-collect_from-Holds P (insert j w m) entries
      (λ k' v' g. elim (Bool-cases (same j k')) [
        | inl at ↦
            (let found : some w ≡ some v' =
                sym (get-insert j k' w m ∙ ap (λ b. if b then some w else get m k') at) ∙ g in
              rw (← same→eq j k' at) (subst (P j) (some_injective found) all.0))
        | inr off ↦
            before k' v'
              (sym (get-insert j k' w m ∙ ap (λ b. if b then some w else get m k') off) ∙ g)
      ])
      all.1 k v h

module _ {ℓ κ} {K : Type ℓ} {V : Type κ} ⦃o : Order K⦄ where
  out_of_order_from-keys-insert :
      (z k : K) (v : V) (m : List (K × V))
      → o.cmp z k ≡ Ordering.lt
      → out_of_order_from z (keys m) ≡ false
      → out_of_order_from z (keys (insert k v m)) ≡ false
  unfolding insert
  out_of_order_from-keys-insert z k v [] h g = ground arith
  out_of_order_from-keys-insert z k v ((j, w) ∷ m) h g =
      ground (arith, o.cmp_flip k j, o.eq_of_cmp k j, out_of_order_from-keys-insert j k v m)

  out_of_order-keys-insert :
      (k : K) (v : V) (m : List (K × V))
      → out_of_order (keys m) ≡ false
      → out_of_order (keys (insert k v m)) ≡ false
  unfolding insert
  out_of_order-keys-insert k v [] g = refl
  out_of_order-keys-insert k v ((j, w) ∷ m) g =
      ground (arith, o.cmp_flip k j, o.eq_of_cmp k j, out_of_order_from-keys-insert j k v m)

  -- The keys of a map are strictly ascending.
  pub out_of_order-keys-collect_from :
      (m entries : List (K × V))
      → out_of_order (keys m) ≡ false
      → out_of_order (keys (collect_from m entries)) ≡ false
  unfolding collect_from
  out_of_order-keys-collect_from m [] g = g
  out_of_order-keys-collect_from m ((k, v) ∷ entries) g =
      out_of_order-keys-collect_from (insert k v m) entries (out_of_order-keys-insert k v m g)

  pub keys-remove :
      (k : K) (m : List (K × V)) → keys (remove k m) ≡ filter (λ n. not (same n k)) (keys m)
  keys-remove k [] = refl
  keys-remove k ((j, w) ∷ m) = ground (arith, keys-remove k m)
