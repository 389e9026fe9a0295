-- ===== src/Solver/Preflight/Connected.antt =====
-- What `validate_reachable` in crates/dnfast-solver/src/preflight.rs decides: that every action has
-- a chain of dependencies and obsoletions from an action that was requested.
use dnfast.Base.{
  ◌≡◌, refl, subst, sym, ap, ◌∙◌, arith, Text, Bool, Bool-cases, true, false, not, ◌&&◌, inl, inr,
  Option, none, some, List, [], ◌∷◌, nat_order, list_order, option_order, same, same_self, same→eq,
  contains, any, length, All, All-contains,
}
use mathlib.Core.List.{Memᴰ}
use dnfast.Solver.Model.{
  ResolvedAction, DependencyEdge, ActionProvenance, obsoleted_by, action_identity,
}
use dnfast.Solver.Preflight.{requested_names, has_reached_parent, is_attached, visit, spread}
use dnfast.Solver.Preflight.Reachable.{Grows-visit, Grows-spread}

-- A name that is tied to a requested one.
pub data Connected (actions : List ResolvedAction) : Text → Type 0 where
  requested : (a : ResolvedAction) → Memᴰ a actions → a.requested ≡ true → Connected actions a.name
  needed :
      (a : ResolvedAction) (e : DependencyEdge)
      → Memᴰ a actions
      → Memᴰ e a.dependency_edges
      → Connected actions e.parent
      → Connected actions a.name
  obsolete :
      (a p : ResolvedAction) (id : Text)
      → Memᴰ a actions
      → Memᴰ p actions
      → a.provenance ≡ some (obsoleted_by id)
      → action_identity p ≡ some id
      → Connected actions p.name
      → Connected actions a.name

module _ {ℓ} {A : Type ℓ} (q : A → Bool) where
  found : (xs : List A) → any q xs ≡ true → (x : A) × Memᴰ x xs × (q x ≡ true)
  found [] h = cc
  found (x ∷ xs) h = elim (Bool-cases (q x)) [
    | inl here ↦ (x, Memᴰ.head refl, here)
    | inr other ↦
        (let (y, m, holds) = found xs (ground (arith, h, other)) in (y, Memᴰ.tail m, holds))
  ]

  any-Memᴰ : {x : A} {xs : List A} → Memᴰ x xs → q x ≡ true → any q xs ≡ true
  any-Memᴰ {x} {xs = []} m h = elim m [ ]
  any-Memᴰ {x} {xs = y ∷ xs} (Memᴰ.head e) h =
      let here : q y ≡ true = subst (λ z. q z ≡ true) e h in ground (arith, here)
  any-Memᴰ {x} {xs = y ∷ xs} (Memᴰ.tail m) h = ground (arith, any-Memᴰ m h)

All-Memᴰ-elim {ℓ κ} :
    {A : Type ℓ} (P : A → Type κ) {x : A} {xs : List A} → Memᴰ x xs → All P xs → P x
All-Memᴰ-elim P {xs = []} m h = elim m [ ]
All-Memᴰ-elim P {xs = y ∷ xs} (Memᴰ.head e) h = subst P (sym e) h.0
All-Memᴰ-elim P {xs = y ∷ xs} (Memᴰ.tail m) h = All-Memᴰ-elim P m h.1

module _ (actions : List ResolvedAction) where
  obsolete_of :
      (item : ResolvedAction) (r : List Text)
      → Memᴰ item actions
      → All (Connected actions) r
      → (o : Option ActionProvenance) → item.provenance ≡ o
      → has_reached_parent actions r o ≡ true
      → Connected actions item.name
  obsolete_of item r m known none is h = cc
  obsolete_of item r m known (some (obsoleted_by id)) is h =
      let (p, there, holds) =
        found (λ p. contains r p.name && same (action_identity p) (some id)) actions h in
      let marked : contains r p.name ≡ true = ground (arith, holds) in
      let named : same (action_identity p) (some id) ≡ true = ground (arith, holds) in
      obsolete item p id m there is (same→eq (action_identity p) (some id) named)
        (All-contains (Connected actions) r p.name known marked)

  Connected-visit :
      (item : ResolvedAction) (r : List Text)
      → Memᴰ item actions
      → All (Connected actions) r
      → All (Connected actions) (visit actions r item)
  Connected-visit item r m known = elim (Bool-cases (is_attached actions r item)) [
    | inr other ↦ rw other known
    | inl attached ↦ rw attached (elim (Bool-cases (contains r item.name)) [
      | inl there ↦ rw there known
      | inr new ↦ rw new (connected attached, known)
    ])
  ]
    where
      by_edge :
          any (λ e. contains r e.parent) item.dependency_edges ≡ true → Connected actions item.name
      by_edge h =
          let (e, edge, marked) = found (λ e. contains r e.parent) item.dependency_edges h in
          needed item e m edge (All-contains (Connected actions) r e.parent known marked)

      connected : is_attached actions r item ≡ true → Connected actions item.name
      connected h = elim (Bool-cases (has_reached_parent actions r item.provenance)) [
        | inl parent ↦ obsolete_of item r m known item.provenance refl parent
        | inr other ↦ by_edge (ground (arith, h, other))
      ]

  pub Connected-spread :
      (items : List ResolvedAction) (r : List Text)
      → All (λ i. Memᴰ i actions) items
      → All (Connected actions) r
      → All (Connected actions) (spread actions items r)
  unfolding spread
  Connected-spread [] r m known = known
  Connected-spread (item ∷ items) r m known =
      Connected-spread items (visit actions r item) m.1 (Connected-visit item r m.0 known)

  pub Connected-requested_names :
      (items : List ResolvedAction)
      → All (λ i. Memᴰ i actions) items
      → All (Connected actions) (requested_names items)
  unfolding requested_names
  Connected-requested_names [] m = tt
  Connected-requested_names (item ∷ items) m =
      let rest = Connected-requested_names items m.1 in
      elim (Bool-cases item.requested) [
        | inr other ↦ rw other rest
        | inl asked ↦ rw asked (elim (Bool-cases (contains (requested_names items) item.name)) [
          | inl there ↦ rw there rest
          | inr new ↦ rw new (requested item m.0 asked, rest)
        ])
      ]

  -- What is marked stays so.
  contains-visit :
      (item : ResolvedAction) (r : List Text) (n : Text)
      → contains r n ≡ true
      → contains (visit actions r item) n ≡ true
  contains-visit item r n h = ground (arith, h)

  pub contains-spread :
      (items : List ResolvedAction) (r : List Text) (n : Text)
      → contains r n ≡ true
      → contains (spread actions items r) n ≡ true
  unfolding spread
  contains-spread [] r n h = h
  contains-spread (item ∷ items) r n h =
      contains-spread items (visit actions r item) n (contains-visit item r n h)

  pub contains-requested_names :
      (a : ResolvedAction) {items : List ResolvedAction}
      → Memᴰ a items
      → a.requested ≡ true
      → contains (requested_names items) a.name ≡ true
  unfolding requested_names
  contains-requested_names a {items = []} m h = elim m [ ]
  contains-requested_names a {items = x ∷ items} (Memᴰ.head e) h =
      subst (λ (y : ResolvedAction). contains (requested_names (x ∷ items)) y.name ≡ true) (sym e)
        (let asked : x.requested ≡ true = subst (λ (y : ResolvedAction). y.requested ≡ true) e h in
          ground (arith, asked, same_self x.name))
  contains-requested_names a {items = x ∷ items} (Memᴰ.tail m) h =
      ground (arith, contains-requested_names a m h)

  -- A pass that marks nothing has nothing to mark.
  still_visit :
      (item : ResolvedAction) (r : List Text)
      → length (visit actions r item) ≡ length r
      → (visit actions r item ≡ r)
        × ((is_attached actions r item && not (contains r item.name)) ≡ false)
  still_visit item r h = elim (Bool-cases (is_attached actions r item)) [
    | inr other ↦ (rw other refl, rw other refl)
    | inl attached ↦ elim (Bool-cases (contains r item.name)) [
      | inl there ↦ (rw (attached, there) refl, rw (attached, there) refl)
      | inr new ↦ absurd (omega (arith, rw (attached, new) at h))
    ]
  ]

  pub still_spread :
      (items : List ResolvedAction) (r : List Text)
      → All (λ i. Memᴰ i actions) items
      → length (spread actions items r) ≡ length r
      → (spread actions items r ≡ r)
        × All (λ i. (is_attached actions r i && not (contains r i.name)) ≡ false) items
  unfolding spread
  still_spread [] r m h = (refl, tt)
  still_spread (item ∷ items) r m h =
      let longer = (Grows-visit actions r item m.0).1 in
      let longer' = (Grows-spread actions items (visit actions r item) m.1).1 in
      let (same_set, closed) = still_visit item r (omega (arith, longer, longer', h)) in
      let (rest, closed_rest) =
        still_spread items r m.1 (ap (λ v. length (spread actions items v)) (sym same_set) ∙ h) in
      (ap (spread actions items) same_set ∙ rest, (closed, closed_rest))

  -- What no pass can extend has every connected name.
  pub Connected-contains :
      (r : List Text)
      → All (λ i. (is_attached actions r i && not (contains r i.name)) ≡ false) actions
      → ((a : ResolvedAction) → Memᴰ a actions → a.requested ≡ true → contains r a.name ≡ true)
      → {n : Text} → Connected actions n
      → contains r n ≡ true
  Connected-contains r closed start (requested a m asked) = start a m asked
  Connected-contains r closed start (needed a e m edge c) =
      let parent = Connected-contains r closed start c in
      let attached = any-Memᴰ (λ (e : DependencyEdge). contains r e.parent) edge parent in
      let at =
        All-Memᴰ-elim (λ i. (is_attached actions r i && not (contains r i.name)) ≡ false) m
          closed in
      ground (arith, attached, at)
  Connected-contains r closed start (obsolete a p id m there is named c) =
      let parent = Connected-contains r closed start c in
      let known : (contains r p.name && same (action_identity p) (some id)) ≡ true =
        rw (parent, named) (same_self (some id)) in
      let reached =
        any-Memᴰ (λ (p : ResolvedAction). contains r p.name && same (action_identity p) (some id))
          there known in
      let attached : has_reached_parent actions r a.provenance ≡ true = rw is reached in
      let at =
        All-Memᴰ-elim (λ i. (is_attached actions r i && not (contains r i.name)) ≡ false) m
          closed in
      ground (arith, attached, at)
