-- ===== src/Solver/Preflight/Exact.antt =====
-- `validate_reachable` in crates/dnfast-solver/src/preflight.rs marks exactly the connected names.
use dnfast.Base.{
  suc, ◌≡◌, ◌↔◌, subst, sym, ap, ◌∙◌, arith, Text, Bool-cases, true, false, not, ◌&&◌, inl, inr,
  some, List, [], ◌∷◌, nat_order, list_order, contains, length, length-filter, All, All-map,
  All-contains, ◌==◌, ok,
}
use dnfast.Solver.Model.{ResolvedAction}
use dnfast.Solver.Preflight.{requested_names, is_attached, spread, reach, validate_reachable}
use dnfast.Solver.Preflight.Reachable.{
  All-Memᴰ, missing, Grows, Grows-spread, Grows-requested_names, reach_requested, last_pass,
}
use dnfast.Solver.Preflight.Connected.{
  Connected, Connected-spread, Connected-requested_names, Connected-contains, contains-spread,
  contains-requested_names, still_spread,
}

-- What holds of the marked names after every pass.
record Marked (actions : List ResolvedAction) (r : List Text) : Type 0 where
  grown : Grows actions [] r
  connected : All (Connected actions) r
  started : (n : Text) → contains (requested_names actions) n ≡ true → contains r n ≡ true

-- The names that the loop returns.
record Reached (actions : List ResolvedAction) : Type 0 where
  after : List Text
  ended : reach (suc (length actions)) actions (requested_names actions) ≡ some after
  marked : Marked actions after
  closed : All (λ i. (is_attached actions after i && not (contains after i.name)) ≡ false) actions

module _ (actions : List ResolvedAction) where
  Marked-spread : (r : List Text) → Marked actions r → Marked actions (spread actions actions r)
  Marked-spread r m =
      let (less, longer) = m.grown in
      let (less', longer') = Grows-spread actions actions r (All-Memᴰ actions) in
      record {
        grown = (omega (arith, less, less'), omega (arith, longer, longer'));
        connected = Connected-spread actions actions r (All-Memᴰ actions) m.connected;
        started = λ n h. contains-spread actions actions r n (m.started n h);
      }

  Marked-requested_names : Marked actions (requested_names actions)
  Marked-requested_names = record {
    grown = Grows-requested_names actions actions (All-Memᴰ actions);
    connected = Connected-requested_names actions actions (All-Memᴰ actions);
    started = λ n h. h;
  }

  reached : Reached actions
  reached =
      let (after, run) = reach_requested actions in
      let (before, pass, same_length, _, m) =
        last_pass actions (Marked actions) (suc (length actions)) (requested_names actions)
          Marked-spread Marked-requested_names run in
      let (still, closed) =
        still_spread actions actions before (All-Memᴰ actions) (ap length pass ∙ same_length) in
      let stays : before ≡ after = sym still ∙ pass in
      record {
        after = after;
        ended = run;
        marked = m;
        closed =
            subst
              (λ r. All (λ i. (is_attached actions r i && not (contains r i.name)) ≡ false) actions)
              stays closed;
      }

  -- The loop of `validate_reachable` ends within one more pass than there are actions, and the names
  -- it returns are exactly those that a chain of dependencies and obsoletions ties to a requested
  -- action.
  pub reach-Connected :
      (name : Text)
      → (after : List Text) × (reach (suc (length actions)) actions (requested_names actions)
          ≡ some after)
        × (contains after name ≡ true ↔ Connected actions name)
  reach-Connected name =
      let r = reached in
      (
        r.after,
        r.ended,
        (
          λ h. All-contains (Connected actions) r.after name r.marked.connected h,
          λ c.
              Connected-contains actions r.after r.closed
                (λ a m asked. r.marked.started a.name (contains-requested_names actions a m asked))
                c,
        ),
      )

  nothing_missing :
      (r : List Text) (items : List ResolvedAction)
      → missing items r ≡ 0
      → All (λ a. contains r a.name ≡ true) items
  nothing_missing r [] h = tt
  nothing_missing r (a ∷ items) h = elim (Bool-cases (contains r a.name)) [
    | inl there ↦ (there, nothing_missing r items (ground (arith, h, there)))
    | inr new ↦ absurd (omega (arith, rw new at h))
  ]

  -- Every action of a list that passes the check is requested, or a chain of dependencies and
  -- obsoletions ties it to one that is.
  pub validate_reachable-Connected :
      validate_reachable actions ≡ ok tt → All (λ a. Connected actions a.name) actions
  unfolding validate_reachable
  validate_reachable-Connected h =
      let r = reached in
      let (less, _) = r.marked.grown in
      let whole : (length r.after == length actions) ≡ true = ground (arith, rw r.ended at h) in
      All-map (λ a there. All-contains (Connected actions) r.after a.name r.marked.connected there)
        actions
        (nothing_missing r.after actions
          (ground (arith, whole, less, length-filter (λ a. not (contains [] a.name)) actions)))
