-- ===== src/Solver/Preflight/Order.antt =====
-- `execution_order` of crates/dnfast-solver/src/preflight.rs: the actions after what they depend on,
-- where a cycle of dependencies is broken at one of its members.
use dnfast.Base.{
  ℕ, zero, suc, Text, text, Bool, true, false, not, Option, none, some, List, [], ◌∷◌, ◌++◌, map,
  nat_order, list_order, option_order, pair_order, same, contains, filter, is_empty, length, sort,
  dedup, get, insert, remove, keys, collect_map, is_some, ◌==◌, if◌then◌else◌, Result, ok, err,
  reject, ◌>>=◌, ◌>>◌,
}
use dnfast.Core.Policy.{to_set}
use dnfast.Solver.Error.{PlanError, duplicate_action, missing_parent, dependency_cycle}
use dnfast.Solver.Model.{
  ResolvedOperation, ResolvedOperation_order, DependencyEdge, ActionProvenance, obsoleted_by,
  ResolvedAction, ExplainedAction, action_identity,
}

-- Maps and sets of names, in the order of `BTreeMap` and `BTreeSet`.
abbrev pub Remaining : Type 0
Remaining = List (Text × ExplainedAction)

abbrev pub Links : Type 0
Links = List (Text × List Text)

abbrev pub Edge : Type 0
Edge = Text × Text

abbrev starts_with_removal : List ResolvedAction → Bool
starts_with_removal [] = false
starts_with_removal (a ∷ actions) = same a.operation ResolvedOperation.remove

-- The edge of one dependency, which a removal turns round.
abbrev edge_of : Bool → Text → Text → Edge
edge_of true parent name = (parent, name)
edge_of false parent name = (name, parent)

dependency_edges_of : Remaining → Bool → Text → List DependencyEdge → Result PlanError (List Edge)
dependency_edges_of remaining removing name [] = ok []
dependency_edges_of remaining removing name (e ∷ edges) =
    reject (not (is_some (get remaining e.parent))) (missing_parent e.parent) >>= λ _.
    dependency_edges_of remaining removing name edges >>= λ rest.
    ok (edge_of removing e.parent name ∷ rest)

abbrev find_action : Text → List ResolvedAction → Option ResolvedAction
find_action id [] = none
find_action id (a ∷ actions) =
    if same (action_identity a) (some id) then some a else find_action id actions

abbrev parent_edge : Text → Text → Option ResolvedAction → Result PlanError (List Edge)
parent_edge name id none = err (missing_parent id)
parent_edge name id (some parent) = ok ((parent.name, name) ∷ [])

abbrev provenance_edges :
    List ResolvedAction → Text → Option ActionProvenance → Result PlanError (List Edge)
provenance_edges resolved name none = ok []
provenance_edges resolved name (some (obsoleted_by id)) =
    parent_edge name id (find_action id resolved)

-- The loop that fills the set `edges`.
edges_of :
    List ResolvedAction → Remaining → Bool → List ResolvedAction → Result PlanError (List Edge)
unfolding dependency_edges_of
edges_of resolved remaining removing [] = ok []
edges_of resolved remaining removing (a ∷ actions) =
    dependency_edges_of remaining removing a.name a.dependency_edges >>= λ needed.
    provenance_edges resolved a.name a.provenance >>= λ obsolete.
    edges_of resolved remaining removing actions >>= λ rest. ok (needed ++ obsolete ++ rest)

abbrev pub links_of : Option (List Text) → List Text
links_of none = []
links_of (some names) = names

-- `BTreeSet::insert`.
abbrev pub add_name : Text → List Text → List Text
add_name name names = dedup (sort (name ∷ names))

-- `entry(from).or_default().insert(to)`.
abbrev link : Text → Text → Links → Links
link from to links = insert from (add_name to (links_of (get links from))) links

pub record Graph : Type 0 where
  pub outgoing : Links
  pub incoming : Links
  pub indegree : List (Text × ℕ)

abbrev raised : Graph → Text → Text → Option ℕ → Result PlanError Graph
raised g from to none = err (missing_parent to)
raised g from to (some n) = ok (record {
  outgoing = link from to g.outgoing;
  incoming = link to from g.incoming;
  indegree = insert to (suc n) g.indegree;
})

-- The body of the loop over the set of edges.
abbrev add_edge : Graph → Edge → Result PlanError Graph
add_edge g (from, to) =
    if contains (links_of (get g.outgoing from)) to
    then ok g
    else raised g from to (get g.indegree to)

add_edges : Graph → List Edge → Result PlanError Graph
add_edges g [] = ok g
add_edges g (e ∷ edges) = add_edge g e >>= λ next. add_edges next edges

abbrev pub first_active : List Text → List Text → Option Text
first_active active [] = none
first_active active (n ∷ names) = if contains active n then some n else first_active active names

-- The loop of `cycle_member` with the names that it has seen; the outer `none` is out of fuel.
unfoldable pub walk_back : ℕ → List Text → Links → List Text → Option Text → Option (Option Text)
walk_back zero active incoming seen current = none
walk_back (suc fuel) active incoming seen none = some none
walk_back (suc fuel) active incoming seen (some current) =
    let rest =
      walk_back fuel active incoming (current ∷ seen)
        (first_active active (links_of (get incoming current))) in
    if contains seen current then some (some current) else rest

-- `first()` of a set.
abbrev pub first_name : List Text → Option Text
first_name [] = none
first_name (n ∷ names) = some n

-- Every name that is walked over is active, and none is walked over twice.
unfoldable pub cycle_member : List Text → Links → Option (Option Text)
unfolding walk_back
cycle_member active incoming =
    walk_back (suc (suc (length active))) active incoming [] (first_name active)

pub record Running : Type 0 where
  pub active : List Text
  pub ready : List Text
  pub remaining : Remaining
  pub indegree : List (Text × ℕ)
  pub ordered : List ExplainedAction

-- One target that waits for the name that was taken, by its count.
abbrev pub lowered : Running → Text → Option ℕ → Result PlanError Running
lowered s target none = err (missing_parent target)
lowered s target (some zero) = err dependency_cycle
lowered s target (some (suc n)) = ok (record s {
  indegree = insert target n s.indegree;
  ready = if n == 0 then add_name target s.ready else s.ready;
})

unfoldable pub release : Running → List Text → Result PlanError Running
release s [] = ok s
release s (target ∷ targets) =
    lowered s target (get s.indegree target) >>= λ next. release next targets

-- `pop_first` of the ready names, or a member of a cycle, with the names that stay ready.
abbrev pub choose : Links → List Text → List Text → Option (Option Text × List Text)
choose incoming active (n ∷ ready) = some (some n, ready)
choose incoming active [] = elim (cycle_member active incoming) [
  | none ↦ none
  | some member ↦ some (member, [])
]

-- Taking a name out of the active ones and out of the map, after which its targets wait for less.
abbrev pub take_out :
    Links → Running → Text → List Text → Option ExplainedAction → Result PlanError Running
take_out outgoing s next ready none = err dependency_cycle
take_out outgoing s next ready (some a) =
    let active = filter (λ n. not (same n next)) s.active in
    if contains s.active next
    then release
        (record s {
          active = active;
          ready = ready;
          remaining = remove next s.remaining;
          ordered = s.ordered ++ a ∷ [];
        })
        (filter (contains active) (links_of (get outgoing next)))
    else err dependency_cycle

abbrev pub advance : Links → Running → Option Text × List Text → Result PlanError Running
advance outgoing s (none, ready) = err dependency_cycle
advance outgoing s (some next, ready) = take_out outgoing s next ready (get s.remaining next)

-- The `while` loop; `none` is out of fuel.
unfoldable pub run : ℕ → Links → Links → Running → Option (Result PlanError (List ExplainedAction))
unfolding cycle_member
run zero outgoing incoming s = if is_empty s.active then some (ok s.ordered) else none
run (suc fuel) outgoing incoming s =
    if is_empty s.active then some (ok s.ordered) else elim (choose incoming s.active s.ready) [
      | none ↦ none
      | some chosen ↦ elim (advance outgoing s chosen) [
        | err e ↦ some (err e)
        | ok next ↦ run fuel outgoing incoming next
      ]
    ]

abbrev pub start_of : Remaining → Graph → Running
start_of remaining g = record {
  active = keys remaining;
  ready = map (λ e. e.0) (filter (λ (e : Text × ℕ). e.1 == 0) g.indegree);
  remaining = remaining;
  indegree = g.indegree;
  ordered = [];
}

abbrev pub named : List ExplainedAction → Remaining
named actions = collect_map (map (λ a. (a.name, a)) actions)

abbrev pub no_edges : Remaining → Graph
no_edges remaining = record {
  outgoing = [];
  incoming = [];
  indegree = map (λ n. (n, 0)) (keys remaining);
}

-- The edges of all the actions, linked.
unfoldable pub graph_of : List ResolvedAction → Remaining → Result PlanError Graph
unfolding edges_of add_edges
graph_of resolved remaining = do
  reject (not (length remaining == length resolved)) (duplicate_action (text "name"))
  edges ← edges_of resolved remaining (starts_with_removal resolved) resolved
  add_edges (no_edges remaining) (to_set edges)

abbrev pub order_graph :
    Remaining → Result PlanError Graph → Option (Result PlanError (List ExplainedAction))
order_graph remaining (err e) = some (err e)
order_graph remaining (ok g) = run (length remaining) g.outgoing g.incoming (start_of remaining g)

unfoldable pub execution_order :
    List ResolvedAction → List ExplainedAction → Option (Result PlanError (List ExplainedAction))
unfolding graph_of run
execution_order resolved actions = order_graph (named actions) (graph_of resolved (named actions))
