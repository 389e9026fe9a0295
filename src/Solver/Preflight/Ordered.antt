-- ===== src/Solver/Preflight/Ordered.antt =====
-- What `execution_order` of crates/dnfast-solver/src/preflight.rs returns.
use dnfast.Base.{
  ℕ, zero, suc, ◌≤◌, ◌≡◌, ◌∙◌, sym, ap, refl, subst, arith, Text, Bool-cases, true, false, inl, inr,
  Option, none, some, List, [], ◌∷◌, ◌++◌, map, Permᴰ, nat_order, list_order, pair_order, contains,
  is_empty, length, sort, sort-id, sort-perm, out_of_order, get, keys, get-collect_from-Holds,
  out_of_order-keys-collect_from, some_injective, All, All-map, Result, ok, err, err-ne-ok,
  ok-injective, Result-cases,
}
use mathlib.Core.List.{Memᴰ}
use mathlib.Core.List.Permᴰ as PermD
use dnfast.Solver.Error.{PlanError}
use dnfast.Solver.Model.{ResolvedAction, ExplainedAction}
use dnfast.Solver.Preflight.Order.{
  Remaining, Links, Running, Graph, take_out, advance, run, start_of, named, execution_order,
  graph_of, order_graph,
}
use dnfast.Solver.Preflight.Reachable.{All-Memᴰ}
use dnfast.Solver.Preflight.Cycle.{choose_total}
use dnfast.Solver.Preflight.Complete.{Holds, release-same, Holds-take_out}

abbrev HoldsOf : Remaining → Running → Type 0
HoldsOf initial s = Holds initial s.active s.remaining s.ordered

module _ (initial : Remaining)
    (own_name : (n : Text) (a : ExplainedAction) → get initial n ≡ some a → a.name ≡ n) where
  Holds-released :
      {active : List Text} {remaining : Remaining} {ordered : List ExplainedAction} (out : Running)
      → (active ≡ out.active) × (remaining ≡ out.remaining) × (ordered ≡ out.ordered)
      → Holds initial active remaining ordered
      → HoldsOf initial out
  Holds-released {active} {remaining} {ordered} out (a, r, o) h =
      subst (λ x. Holds initial x out.remaining out.ordered) a
        (subst (λ y. Holds initial active y out.ordered) r
          (subst (λ z. Holds initial active remaining z) o h))

  Holds-take :
      (outgoing : Links) (s : Running) (next : Text) (ready : List Text)
      (found : Option ExplainedAction) {out : Running}
      → get s.remaining next ≡ found
      → take_out outgoing s next ready found ≡ ok out
      → HoldsOf initial s
      → HoldsOf initial out × (suc (length out.active) ≡ length s.active)
  Holds-take outgoing s next ready none at h holds = absurd (err-ne-ok h)
  Holds-take outgoing s next ready (some a) {out} at h holds =
      elim (Bool-cases (contains s.active next)) [
        | inr other ↦ absurd (err-ne-ok (rw other at h))
        | inl there ↦
            (let (held, shorter) = Holds-take_out initial own_name s next a holds at in
              let kept = release-same _ _ (rw there at h) in
              (Holds-released out kept held, ap suc (ap length (sym kept.0)) ∙ shorter))
      ]

  Holds-advance :
      (outgoing : Links) (s : Running) (chosen : Option Text × List Text) {out : Running}
      → advance outgoing s chosen ≡ ok out
      → HoldsOf initial s
      → HoldsOf initial out × (suc (length out.active) ≡ length s.active)
  Holds-advance outgoing s (none, ready) h holds = absurd (err-ne-ok h)
  Holds-advance outgoing s (some next, ready) h holds =
      Holds-take outgoing s next ready (get s.remaining next) refl h holds

  no_more : (xs : List Text) → is_empty xs ≡ true → xs ≡ []
  no_more [] h = refl
  no_more (x ∷ xs) h = cc

  finished :
      (s : Running)
      → HoldsOf initial s
      → is_empty s.active ≡ true
      → Permᴰ (map (λ a. a.name) s.ordered) (keys initial)
  finished s h e =
      Permᴰ.trans (PermD.symm (PermD.append-nil (map (λ (a : ExplainedAction). a.name) s.ordered)))
        (subst (λ l. Permᴰ (map (λ (a : ExplainedAction). a.name) s.ordered ++ l) (keys initial))
          (no_more s.active e) h.whole)

  run-Holds :
      (fuel : ℕ) (outgoing incoming : Links) (s : Running)
      → length s.active ≤ fuel
      → HoldsOf initial s
      → (r : Result PlanError (List ExplainedAction)) × (run fuel outgoing incoming s ≡ some r)
        × ((out : List ExplainedAction)
            → r ≡ ok out
            → Permᴰ (map (λ a. a.name) out) (keys initial)
              × All (λ a. get initial a.name ≡ some a) out)
  unfolding run
  run-Holds zero outgoing incoming s h holds = (
    ok s.ordered,
    rw (empty_of s.active h) refl,
    λ out e.
        subst
          (λ l.
            Permᴰ (map (λ (a : ExplainedAction). a.name) l) (keys initial)
            × All (λ a. get initial a.name ≡ some a) l)
          (ok-injective e) (finished s holds (empty_of s.active h), holds.known),
  )
    where
      empty_of : (xs : List Text) → length xs ≤ 0 → is_empty xs ≡ true
      empty_of [] h = refl
      empty_of (x ∷ xs) h = absurd (omega (arith, h))
  run-Holds (suc fuel) outgoing incoming s h holds = elim (Bool-cases (is_empty s.active)) [
    | inl done ↦ (
      ok s.ordered,
      rw done refl,
      λ out e.
          subst
            (λ l.
              Permᴰ (map (λ (a : ExplainedAction). a.name) l) (keys initial)
              × All (λ a. get initial a.name ≡ some a) l)
            (ok-injective e) (finished s holds done, holds.known),
    )
    | inr more ↦
        (let (c, chosen) = choose_total incoming s.active s.ready in
          elim (Result-cases (advance outgoing s c)) [
            | inr (e, failed) ↦
                (err e, rw (more, chosen, failed) refl, λ out g. absurd (err-ne-ok g))
            | inl (next, went) ↦
                (let (held, shorter) = Holds-advance outgoing s c went holds in
                  let (r, ends, right) =
                    run-Holds fuel outgoing incoming next (omega (arith, h, shorter)) held in
                  (r, rw (more, chosen, went) ends, right))
          ])
  ]

-- An entry of the map is an action under its name.
IsEntry : List ExplainedAction → Text → ExplainedAction → Type 0
IsEntry actions n a = (a.name ≡ n) × Memᴰ a actions

module _ (actions : List ExplainedAction) where
  entries :
      (items : List ExplainedAction)
      → All (λ a. Memᴰ a actions) items
      → All (λ (e : Text × ExplainedAction). IsEntry actions e.0 e.1) (map (λ a. (a.name, a)) items)
  unfolding IsEntry
  entries [] h = tt
  entries (a ∷ items) h = ((refl, h.0), entries items h.1)

  entry_of : (n : Text) (a : ExplainedAction) → get (named actions) n ≡ some a → IsEntry actions n a
  entry_of =
      get-collect_from-Holds (IsEntry actions) [] (map (λ a. (a.name, a)) actions) (λ n a e. cc)
        (entries actions (All-Memᴰ actions))

  own_name_of : (n : Text) (a : ExplainedAction) → get (named actions) n ≡ some a → a.name ≡ n
  unfolding IsEntry
  own_name_of n a h = (entry_of n a h).0

  member_of : (a : ExplainedAction) → get (named actions) a.name ≡ some a → Memᴰ a actions
  unfolding IsEntry
  member_of a h = (entry_of a.name a h).1

  ascending_names : out_of_order (keys (named actions)) ≡ false
  ascending_names = out_of_order-keys-collect_from [] (map (λ a. (a.name, a)) actions) refl

  start_holds : (g : Graph) → HoldsOf (named actions) (start_of (named actions) g)
  start_holds g = record {
    keyed = refl;
    ascending = ascending_names;
    kept = λ n a h. h;
    whole = PermD.refl (keys (named actions));
    known = tt;
  }

  length-keys : (m : Remaining) → length (keys m) ≡ length m
  length-keys [] = refl
  length-keys (e ∷ m) = ap suc (length-keys m)

  order_graph-perm :
      (graph : Result PlanError Graph)
      → (r : Result PlanError (List ExplainedAction)) × (order_graph (named actions) graph ≡ some r)
        × ((out : List ExplainedAction)
            → r ≡ ok out
            → Permᴰ (map (λ a. a.name) out) (keys (named actions))
              × All (λ a. get (named actions) a.name ≡ some a) out)
  order_graph-perm (err e) = (err e, refl, λ out g. absurd (err-ne-ok g))
  order_graph-perm (ok g) =
      run-Holds (named actions) own_name_of (length (named actions)) g.outgoing g.incoming
        (start_of (named actions) g) (omega (arith, length-keys (named actions))) (start_holds g)

  -- `execution_order` always ends, with an order or an error: as many rounds as there are names
  -- are enough, and so are the steps that a walk for a member of a cycle is given.
  pub execution_order_total :
      (resolved : List ResolvedAction)
      → (r : Result PlanError (List ExplainedAction)) × (execution_order resolved actions ≡ some r)
  unfolding execution_order
  execution_order_total resolved =
      let (r, ends, _) = order_graph-perm (graph_of resolved (named actions)) in (r, ends)

  -- What `execution_order` returns are the given actions in another order: their names are those
  -- of all the actions, each once, and every one of them was given.
  pub execution_order-perm :
      (resolved : List ResolvedAction) {out : List ExplainedAction}
      → execution_order resolved actions ≡ some (ok out)
      → (sort (map (λ a. a.name) out) ≡ keys (named actions)) × All (λ a. Memᴰ a actions) out
  unfolding execution_order
  execution_order-perm resolved {out} h =
      let (r, ends, right) = order_graph-perm (graph_of resolved (named actions)) in
      let (perm, known) = right out (some_injective (sym ends ∙ h)) in
      (sort-perm perm ∙ sort-id (keys (named actions)) ascending_names, All-map member_of out known)
