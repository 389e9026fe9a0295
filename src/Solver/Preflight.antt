-- ===== src/Solver/Preflight.antt =====
-- crates/dnfast-solver/src/preflight.rs: the checks on the solver's actions.
pub mod Reachable
pub mod Connected
pub mod Exact
pub mod Inputs
pub mod Kind
pub mod Coverage
pub mod Validated
pub mod Order
pub mod Cycle
pub mod Cyclic
pub mod Complete
pub mod Ordered
use dnfast.Base.{
  ℕ, zero, suc, Text, Bool, true, false, not, ◌&&◌, ◌||◌, Option, none, some, List, [], ◌∷◌,
  nat_order, list_order, option_order, same, contains, any, length, ◌==◌, if◌then◌else◌, Result, ok,
  err,
}
use dnfast.Solver.Error.{PlanError, disconnected_graph}
use dnfast.Solver.Model.{ResolvedAction, ActionProvenance, obsoleted_by, action_identity}

-- `BTreeSet::insert`.
abbrev pub mark : Text → List Text → List Text
mark name reachable = if contains reachable name then reachable else name ∷ reachable

unfoldable pub requested_names : List ResolvedAction → List Text
requested_names [] = []
requested_names (a ∷ actions) =
    let rest = requested_names actions in if a.requested then mark a.name rest else rest

-- `obsolete_parent`: an action that is reached has the identity that the provenance names.
abbrev pub has_reached_parent : List ResolvedAction → List Text → Option ActionProvenance → Bool
has_reached_parent actions reachable none = false
has_reached_parent actions reachable (some (obsoleted_by id)) =
    any (λ p. contains reachable p.name && same (action_identity p) (some id)) actions

abbrev pub is_attached : List ResolvedAction → List Text → ResolvedAction → Bool
is_attached actions reachable item =
    has_reached_parent actions reachable item.provenance
    || any (λ e. contains reachable e.parent) item.dependency_edges

abbrev pub visit : List ResolvedAction → List Text → ResolvedAction → List Text
visit actions reachable item =
    if is_attached actions reachable item then mark item.name reachable else reachable

-- One pass over the actions, which reads what the pass has marked already.
unfoldable pub spread : List ResolvedAction → List ResolvedAction → List Text → List Text
spread actions [] reachable = reachable
spread actions (item ∷ items) reachable = spread actions items (visit actions reachable item)

-- The `loop`, which ends with the first pass that marks nothing; `none` is out of fuel.
unfoldable pub reach : ℕ → List ResolvedAction → List Text → Option (List Text)
reach zero actions reachable = none
reach (suc fuel) actions reachable =
    let after = spread actions actions reachable in
    let rest = reach fuel actions after in
    if length after == length reachable then some after else rest

abbrev pub whole_graph : List ResolvedAction → Option (List Text) → Result PlanError (Unit {0})
whole_graph actions none = err disconnected_graph
whole_graph actions (some reachable) =
    if length reachable == length actions then ok tt else err disconnected_graph

-- A pass marks at least one name of an action or is the last one.
unfoldable pub validate_reachable : List ResolvedAction → Result PlanError (Unit {0})
unfolding requested_names reach spread
validate_reachable actions =
    whole_graph actions (reach (suc (length actions)) actions (requested_names actions))
