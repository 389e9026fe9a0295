-- ===== src/Solver/Tests.antt =====
-- An upgrade that brings in a new dependency, and one that it has nothing to do with.
use dnfast.Base.{
  Text, text, ◌≡◌, ◌↔◌, refl, true, false, none, some, List, [], ◌∷◌, Result, ok, err, contains,
  suc, length, sort, dedup, insert, collect_from, keys, map, All, nat_order, list_order, decimal,
}
use mathlib.Core.Bool.{xor}
use mathlib.Core.List.{Memᴰ}
use dnfast.Core.Value.{as_rpm_arch, x86_64}
use dnfast.Core.Policy.{fedora44, dependency}
use dnfast.Core.Inventory.{inventory_of}
use dnfast.Core.Samples.{bash, hash, integrity, new_version, upgrade_bash}
use dnfast.Solver.Error.{PlanError, disconnected_graph, intent_coverage}
use dnfast.Solver.Model.{
  CandidatePackage, ResolvedOperation, strong, obsoleted_by, ResolvedAction, PlanBuilder,
  action_identity, ExplainedAction, by_dependency,
}
use dnfast.Solver.Preflight.{requested_names, spread, reach, validate_reachable}
use dnfast.Solver.Preflight.Connected.{Connected}
use dnfast.Solver.Preflight.Exact.{reach-Connected, validate_reachable-Connected}
use dnfast.Solver.Preflight.Inputs.{
  sum_sizes, validate_repository_selection, validate_candidates, check_candidates, cover,
  cover_satisfied, check_all, check_action, validate_kind, check_coverage, validate_inputs,
}
use dnfast.Solver.Preflight.Order.{
  execution_order, graph_of, run, cycle_member, walk_back, release, named,
}
use dnfast.Solver.Preflight.Order.{Links, cycle_member}
use dnfast.Solver.Preflight.Cyclic.{Chain, cycle_member-IsCyclic}
use dnfast.Solver.Preflight.Ordered.{execution_order_total, execution_order-perm}
use dnfast.Solver.Preflight.Validated.{IsCoherent, validate_inputs-IsCoherent}

abbrev candidate : Text → CandidatePackage
candidate name = record {
  name = name;
  evra = new_version;
  vendor = text "Fedora Project";
  repo_id = text "fedora";
  priority = 99;
  cost = 1000;
  package_size = 1024;
  installed_size = 4096;
  checksum_sha256 = hash;
  location = text "Packages/b.rpm";
  excluded = false;
  modular = false;
}

abbrev bash_upgrade : ResolvedAction
bash_upgrade = record {
  operation = ResolvedOperation.upgrade;
  name = text "bash";
  requested = true;
  requested_spec = some bash;
  requested_relation = false;
  candidate = some (candidate (text "bash"));
  installed_instance = some 17;
  installed_header_sha256 = some hash;
  installed_vendor = some (text "Fedora Project");
  dependency_edges = [];
  provenance = none;
  required_by_remaining = [];
  unresolved_dependencies = [];
  introduced_by_requested = false;
  solver_rule = text "job";
}

abbrev libs_install : ResolvedAction
libs_install = record bash_upgrade {
  operation = ResolvedOperation.install;
  name = text "bash-libs";
  requested = false;
  requested_spec = none;
  candidate = some (candidate (text "bash-libs"));
  installed_instance = none;
  installed_header_sha256 = none;
  installed_vendor = none;
  dependency_edges = record { parent = text "bash"; kind = strong } ∷ [];
}

-- Removed, since the new `bash-libs` obsoletes it.
abbrev compat_remove : ResolvedAction
compat_remove = record bash_upgrade {
  operation = ResolvedOperation.remove;
  name = text "bash-compat";
  requested = false;
  requested_spec = none;
  candidate = none;
  provenance = some (obsoleted_by (text "fedora:bash-libs-0:5.2.26-1.fc44.x86_64"));
}

-- The chain runs against the order of the list, so that a second pass is needed.
abbrev actions : List ResolvedAction
actions = compat_remove ∷ libs_install ∷ bash_upgrade ∷ []

abbrev stray : ResolvedAction
stray = record libs_install {
  name = text "zsh";
  dependency_edges = record { parent = text "zsh-common"; kind = strong } ∷ [];
}

abbrev builder : PlanBuilder
builder = record {
  intent = upgrade_bash;
  snapshots = integrity;
  inventory = inventory_of (text "sqlite") (text "6.0.0") [];
  policy = fedora44 x86_64 [] [];
  candidates = candidate (text "bash") ∷ candidate (text "bash-libs") ∷ [];
  expires_at_unix = 2000000000;
}

connected : validate_reachable actions ≡ ok tt
unfolding validate_reachable reach spread requested_names action_identity decimal as_rpm_arch
connected = refl

stray_refused : validate_reachable (stray ∷ actions) ≡ err disconnected_graph
unfolding validate_reachable reach spread requested_names action_identity decimal as_rpm_arch
stray_refused = refl

validate_reachable-Connected_example :
    All (λ (a : ResolvedAction). Connected actions a.name) actions
validate_reachable-Connected_example = validate_reachable-Connected actions connected

reach-Connected_example :
    (after : List Text) × (reach (suc (length actions)) actions (requested_names actions)
      ≡ some after)
    × (contains after (text "bash-compat") ≡ true ↔ Connected actions (text "bash-compat"))
reach-Connected_example = reach-Connected actions (text "bash-compat")

accepted : validate_inputs builder actions [] ≡ ok tt
unfolding validate_inputs validate_repository_selection validate_candidates check_candidates
    sum_sizes cover_satisfied check_all check_action cover validate_kind check_coverage insert sort
    dedup validate_reachable reach spread requested_names action_identity decimal as_rpm_arch xor
accepted = refl

-- `bash` is met twice, by an installed package and by its upgrade.
met_twice : validate_inputs builder actions (bash ∷ []) ≡ err intent_coverage
unfolding validate_inputs validate_repository_selection validate_candidates check_candidates
    sum_sizes cover_satisfied check_all check_action cover validate_kind check_coverage insert sort
    dedup validate_reachable reach spread requested_names action_identity decimal as_rpm_arch xor
met_twice = refl

validate_inputs-IsCoherent_example : IsCoherent builder [] actions
validate_inputs-IsCoherent_example = validate_inputs-IsCoherent builder actions [] accepted

abbrev explained : Text → ExplainedAction
explained name = record {
  operation = text "install";
  name = name;
  target_evra = new_version;
  installed_evra = none;
  installed_instance = none;
  installed_header_sha256 = none;
  installed_vendor = none;
  vendor = none;
  repo_id = none;
  reason = dependency;
  relation = by_dependency;
  requested_by = none;
  dependency_edges = [];
  provenance = none;
  package_size = 0;
  installed_size = 0;
  artifact = none;
  protection = record { installonly = false; protected = false; running_kernel = false };
  explanation = text "rule";
}

abbrev given : List ExplainedAction
given = explained (text "bash") ∷ explained (text "bash-compat") ∷ explained (text "bash-libs") ∷ []

-- `bash-libs` comes first: it names `bash` as its parent, and it obsoletes `bash-compat`.
abbrev placed : List ExplainedAction
placed =
    explained (text "bash-libs") ∷ explained (text "bash") ∷ explained (text "bash-compat") ∷ []

orders : execution_order (bash_upgrade ∷ libs_install ∷ compat_remove ∷ []) given ≡ some (ok placed)
unfolding execution_order graph_of run walk_back release insert collect_from sort dedup
    action_identity decimal as_rpm_arch
orders = refl

execution_order_total_example :
    (r : Result PlanError (List ExplainedAction)) × (execution_order actions given ≡ some r)
execution_order_total_example = execution_order_total given actions

execution_order-perm_example :
    (sort (map (λ a. a.name) placed) ≡ keys (named given)) × All (λ a. Memᴰ a given) placed
execution_order-perm_example =
    execution_order-perm given (bash_upgrade ∷ libs_install ∷ compat_remove ∷ []) orders

abbrev knot : Text → Text → ResolvedAction
knot name parent = record libs_install {
  name = name;
  dependency_edges = record { parent = parent; kind = strong } ∷ [];
}

-- Two actions that need each other are put in an order all the same.
cycle_broken :
    execution_order
      (knot (text "bash") (text "bash-libs") ∷ knot (text "bash-libs") (text "bash") ∷ [])
      (explained (text "bash") ∷ explained (text "bash-libs") ∷ [])
    ≡ some (ok (explained (text "bash") ∷ explained (text "bash-libs") ∷ []))
unfolding execution_order graph_of run cycle_member walk_back release insert collect_from sort dedup
    action_identity decimal as_rpm_arch
cycle_broken = refl

-- `a` waits for `b`, which waits for `c`, and that for `b`.
abbrev names : List Text
names = text "a" ∷ text "b" ∷ text "c" ∷ []

abbrev waiting : Links
waiting = (text "a", text "b" ∷ []) ∷ (text "b", text "c" ∷ []) ∷ (text "c", text "b" ∷ []) ∷ []

cycle_member-IsCyclic_example :
    (n : Text) × (cycle_member names waiting ≡ some (some n)) × Chain names waiting n n
cycle_member-IsCyclic_example =
    cycle_member-IsCyclic names waiting
      ((text "b", (refl, refl)), ((text "c", (refl, refl)), ((text "b", (refl, refl)), tt)))
      (text "a") refl
