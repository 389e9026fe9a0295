-- ===== src/Solver/Preflight/Reachable.antt =====
-- The loop of `validate_reachable` in crates/dnfast-solver/src/preflight.rs ends, and every name it
-- marks is that of an action.
use dnfast.Base.{
  ℕ, zero, suc, ◌+◌, ◌≤◌, ◌<◌, ◌≡◌, refl, subst, ap, sym, ◌∙◌, arith, Text, Bool-cases, true, false,
  not, inl, inr, Option, some, List, [], ◌∷◌, nat_order, list_order, option_order, same, same_self,
  contains, filter, length, length-filter, All, All-map, ◌==◌,
}
use mathlib.Core.List.{Memᴰ}
use dnfast.Solver.Model.{ResolvedAction}
use dnfast.Solver.Preflight.{mark, requested_names, is_attached, visit, spread, reach}

pub All-Memᴰ {ℓ} : {A : Type ℓ} (xs : List A) → All (λ x. Memᴰ x xs) xs
All-Memᴰ [] = tt
All-Memᴰ (x ∷ xs) = (Memᴰ.head refl, All-map (λ y m. Memᴰ.tail m) xs (All-Memᴰ xs))

some-injective {ℓ} : {A : Type ℓ} {a b : A} → ◌≡◌ {A = Option A} (some a) (some b) → a ≡ b
some-injective h = cc

-- The actions whose names are not marked.
abbrev pub missing : List ResolvedAction → List Text → ℕ
missing actions reachable = length (filter (λ a. not (contains reachable a.name)) actions)

missing_le :
    (actions : List ResolvedAction) (r : List Text) (n : Text)
    → missing actions (n ∷ r) ≤ missing actions r
missing_le [] r n = omega arith
missing_le (a ∷ actions) r n = ground (arith, missing_le actions r n)

missing_lt :
    {a : ResolvedAction} {actions : List ResolvedAction} (r : List Text)
    → Memᴰ a actions
    → contains r a.name ≡ false
    → missing actions (a.name ∷ r) < missing actions r
missing_lt {a} {actions = []} r m h = elim m [ ]
missing_lt {a} {actions = x ∷ actions} r (Memᴰ.head e) h =
    let is_x : same a.name x.name ≡ true = rw e (same_self x.name) in
    let new : contains r x.name ≡ false =
      subst (λ (y : ResolvedAction). contains r y.name ≡ false) e h in
    ground (arith, missing_le actions r a.name, is_x, new)
missing_lt {a} {actions = x ∷ actions} r (Memᴰ.tail m) h = ground (arith, missing_lt r m h)

-- What a step may do to the marked names: mark more of the missing ones.
abbrev pub Grows : List ResolvedAction → List Text → List Text → Type 0
Grows actions r after =
    (length after + missing actions after ≤ length r + missing actions r)
    × (length r ≤ length after)

module _ (actions : List ResolvedAction) where
  Grows-mark :
      (a : ResolvedAction) (r : List Text) → Memᴰ a actions → Grows actions r (mark a.name r)
  Grows-mark a r m = elim (Bool-cases (contains r a.name)) [
    | inl there ↦ rw there (omega arith, omega arith)
    | inr new ↦ rw new (omega (arith, missing_lt r m new), omega arith)
  ]

  pub Grows-visit :
      (r : List Text) (item : ResolvedAction)
      → Memᴰ item actions
      → Grows actions r (visit actions r item)
  Grows-visit r item m = elim (Bool-cases (is_attached actions r item)) [
    | inl attached ↦ rw attached (Grows-mark item r m)
    | inr other ↦ rw other (omega arith, omega arith)
  ]

  pub Grows-spread :
      (items : List ResolvedAction) (r : List Text)
      → All (λ i. Memᴰ i actions) items
      → Grows actions r (spread actions items r)
  unfolding spread
  Grows-spread [] r m = (omega arith, omega arith)
  Grows-spread (item ∷ items) r m =
      let (less, longer) = Grows-visit r item m.0 in
      let (less', longer') = Grows-spread items (visit actions r item) m.1 in
      (omega (arith, less, less'), omega (arith, longer, longer'))

  pub Grows-requested_names :
      (items : List ResolvedAction)
      → All (λ i. Memᴰ i actions) items
      → Grows actions [] (requested_names items)
  unfolding requested_names
  Grows-requested_names [] m = (omega arith, omega arith)
  Grows-requested_names (item ∷ items) m =
      let (less, longer) = Grows-requested_names items m.1 in
      elim (Bool-cases item.requested) [
        | inl requested ↦
            (let (less', longer') = Grows-mark item (requested_names items) m.0 in
              rw requested (omega (arith, less, less'), omega (arith, longer, longer')))
        | inr other ↦ rw other (less, longer)
      ]

  reach_total :
      (fuel : ℕ) (r : List Text)
      → missing actions r < fuel
      → (after : List Text) × (reach fuel actions r ≡ some after)
  unfolding reach
  reach_total zero r h = absurd (omega (arith, h))
  reach_total (suc fuel) r h =
      let after = spread actions actions r in
      let (less, longer) = Grows-spread actions r (All-Memᴰ actions) in
      elim (Bool-cases (length after == length r)) [
        | inl same_length ↦ (after, rw same_length refl)
        | inr other ↦
            (let (end, run) = reach_total fuel after (ground (arith, less, longer, other, h)) in
              (end, rw other run))
      ]

  -- The loop ends within one more pass than there are actions, whatever the dependencies are.
  pub reach_requested :
      (after : List Text) × (reach (suc (length actions)) actions (requested_names actions)
        ≡ some after)
  reach_requested =
      reach_total (suc (length actions)) (requested_names actions) (
        omega (arith, length-filter (λ a. not (contains (requested_names actions) a.name)) actions))

  -- The last pass, and what the passes keep.
  pub last_pass {ℓ} :
      (P : List Text → Type ℓ) (fuel : ℕ) (r : List Text) {after : List Text}
      → ((b : List Text) → P b → P (spread actions actions b))
      → P r
      → reach fuel actions r ≡ some after
      → (before : List Text) × (spread actions actions before ≡ after)
        × (length after ≡ length before)
        × P before
        × P after
  unfolding reach
  last_pass P zero r step p h = cc
  last_pass P (suc fuel) r {after} step p h =
      let next = spread actions actions r in
      elim (Bool-cases (length next == length r)) [
        | inl same_length ↦
            (let ended : next ≡ after = some-injective (rw same_length at h) in
              (
                r,
                ended,
                ap length (sym ended) ∙ ground (arith, same_length),
                p,
                subst P ended (step r p),
              ))
        | inr other ↦ last_pass P fuel next step (step r p) (rw other at h)
      ]
