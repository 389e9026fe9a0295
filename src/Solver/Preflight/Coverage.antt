-- ===== src/Solver/Preflight/Coverage.antt =====
-- The counts of `validate_inputs` in crates/dnfast-solver/src/preflight.rs: each selector that was
-- asked for is met once.
use dnfast.Base.{
  ℕ, suc, ◌+◌, ◌≡◌, ◌∙◌, sym, ap, refl, arith, Text, Bool-cases, true, false, not, ◌&&◌, ◌||◌, inl,
  inr, Option, none, some, List, [], ◌∷◌, ◌++◌, map, nat_order, list_order, option_order,
  pair_order, same, same→eq, contains, any, get, get-insert, filter_map, or_skip, All, All-map,
  if◌then◌else◌, ◌==◌, ok, reject, reject-eq-ok, for_each-All, xor, is_some, is_empty, ok-injective,
  >>=-eq-ok, >>-eq-ok, for_each,
}
use dnfast.Core.Intent.{Action, PackageSpec}
use dnfast.Core.Value.{Evra_order}
use dnfast.Solver.Error.{invalid, unresolved, duplicate_action, intent_coverage}
use dnfast.Solver.Model.{ResolvedAction, ResolvedOperation_order, DependencyEdge}
use dnfast.Solver.Preflight.Kind.{Fits, validate_kind-Fits}
use dnfast.Solver.Preflight.Inputs.{
  Covered, count_of, cover, cover_satisfied, cover_spec, cover_requested, Seen, check_action,
  check_all, check_coverage, all_replacement_root, resolved_identity, check_edge, check_provenance,
  validate_kind,
}

-- How often a name stands in a list.
abbrev pub occurrences : Text → List Text → ℕ
occurrences n [] = 0
occurrences n (x ∷ xs) = (if same x n then 1 else 0) + occurrences n xs

abbrev selector : Option PackageSpec → Option Text
selector none = none
selector (some s) = some s.name

-- The selector that a requested action answers.
abbrev pub answered : ResolvedAction → Option Text
answered a = if a.requested then selector a.requested_spec else none

-- The selectors that are met: by what is installed already, and by the requested actions.
abbrev pub met : List PackageSpec → List ResolvedAction → List Text
met satisfied actions = map (λ s. s.name) satisfied ++ filter_map answered actions

abbrev pub count : Text → Covered → ℕ
count n covered = count_of (get covered n)

count-cover :
    (n x : Text) (c : Covered) → count n (cover x c) ≡ (if same x n then 1 else 0) + count n c
unfolding cover
count-cover n x c = elim (Bool-cases (same x n)) [
  | inl equal ↦
      rw (get-insert x n (suc (count_of (get c x))) c, equal, same→eq x n equal) (omega arith)
  | inr other ↦ rw (get-insert x n (suc (count_of (get c x))) c, other) (omega arith)
]

pub occurrences-append :
    (n : Text) (xs ys : List Text) → occurrences n (xs ++ ys) ≡ occurrences n xs + occurrences n ys
occurrences-append n [] ys = omega arith
occurrences-append n (x ∷ xs) ys = omega (arith, occurrences-append n xs ys)

occurrences-or_skip :
    (n : Text) (o : Option Text) (xs : List Text)
    → occurrences n (or_skip o xs) ≡ occurrences n (or_skip o []) + occurrences n xs
occurrences-or_skip n none xs = omega arith
occurrences-or_skip n (some x) xs = omega arith

pub cover_satisfied-count :
    (n : Text) (requested : List Text) (c : Covered) (specs : List PackageSpec) {out : Covered}
    → cover_satisfied requested c specs ≡ ok out
    → count n out ≡ count n c + occurrences n (map (λ s. s.name) specs)
unfolding cover_satisfied
cover_satisfied-count n requested c [] h = rw (ok-injective h) (omega arith)
cover_satisfied-count n requested c (s ∷ specs) h =
    let (_, rest) =
      reject-eq-ok (not (contains requested s.name))
        (invalid "satisfied selector is not in requested intent")
        (cover_satisfied requested (cover s.name c) specs) h in
    omega
      (arith, cover_satisfied-count n requested (cover s.name c) specs rest, count-cover n s.name c)

cover_spec-count :
    (n : Text) (action : Action) (requested : List Text) (c : Covered) (name : Text)
    (o : Option PackageSpec) {out : Covered}
    → cover_spec action requested c name o ≡ ok out
    → count n out ≡ count n c + occurrences n (or_skip (selector o) [])
cover_spec-count n action requested c name none {out} h =
    let same_counts : c ≡ out = ground (arith, h) in rw (sym same_counts) (omega arith)
cover_spec-count n action requested c name (some s) {out} h =
    let counted : cover s.name c ≡ out = ground (arith, h) in
    rw (sym counted) (omega (arith, count-cover n s.name c))

cover_requested-count :
    (n : Text) (action : Action) (requested : List Text) (c : Covered) (a : ResolvedAction)
    {out : Covered}
    → cover_requested action requested c a ≡ ok out
    → count n out ≡ count n c + occurrences n (or_skip (answered a) [])
cover_requested-count n action requested c a {out} h = elim (Bool-cases a.requested) [
  | inl asked ↦
      rw asked (cover_spec-count n action requested c a.name a.requested_spec (rw asked at h))
  | inr other ↦
      (let same_counts : c ≡ out = ok-injective (rw other at h) in
        rw (other, sym same_counts) (omega arith))
]

-- What the loop has found of an action.
pub record IsChecked (action : Action) (names : List Text) (a : ResolvedAction) : Type 0 where
  pub resolved : a.unresolved_dependencies ≡ []
  pub parents :
      All
        (λ e. (contains names e.parent ≡ true) × (same e.parent a.name ≡ false))
        a.dependency_edges
  pub kind : Fits action a

check_edge-parts :
    (names : List Text) (name : Text) (e : DependencyEdge)
    → check_edge names name e ≡ ok tt
    → (contains names e.parent ≡ true) × (same e.parent name ≡ false)
check_edge-parts names name e h = ground (arith, h)

no_unresolved :
    (name : Text) (xs : List Text) → (is_empty name || not (is_empty xs)) ≡ false → xs ≡ []
no_unresolved name [] h = refl
no_unresolved name (x ∷ xs) h = ground (arith, h)

module _ (action : Action) (requested names : List Text) (actions : List ResolvedAction) where
  check_action-parts :
      (seen : Seen) (a : ResolvedAction) {out : Seen}
      → check_action action requested names actions seen a ≡ ok out
      → (cover_requested action requested seen.covered a ≡ ok out.covered)
        × IsChecked action names a
  unfolding check_action
  check_action-parts seen a {out} h =
      let (named, h1) =
        reject-eq-ok (is_empty a.name || not (is_empty a.unresolved_dependencies))
          (unresolved a.name) _ h in
      let (_, h2) =
        reject-eq-ok (contains seen.identities (resolved_identity a)) (duplicate_action a.name) _
          h1 in
      let (_, h3) =
        reject-eq-ok
          (xor a.requested (is_some a.requested_spec)
            && not (all_replacement_root action requested a))
          (invalid "requested action provenance differs") _ h2 in
      let (_, h4) =
        reject-eq-ok (a.requested_relation && not a.requested)
          (invalid "relation selector is not requested") _ h3 in
      let (covered, counted, h5) =
        >>=-eq-ok (cover_requested action requested seen.covered a) _ h4 in
      let (edges, h6) = >>-eq-ok (for_each (check_edge names a.name) a.dependency_edges) _ h5 in
      let (_, h7) = >>-eq-ok (check_provenance actions a.operation a.provenance) _ h6 in
      let (kind, h8) = >>-eq-ok (validate_kind action a) _ h7 in
      let same_covered : covered ≡ out.covered = ap (λ (s : Seen). s.covered) (ok-injective h8) in
      (
        counted ∙ ap ok same_covered,
        record {
          resolved = no_unresolved a.name a.unresolved_dependencies named;
          parents =
              All-map (check_edge-parts names a.name) a.dependency_edges
                (for_each-All (check_edge names a.name) a.dependency_edges edges);
          kind = validate_kind-Fits action a kind;
        },
      )

  pub check_all-parts :
      (n : Text) (seen : Seen) (items : List ResolvedAction) {out : Seen}
      → check_all action requested names actions seen items ≡ ok out
      → (count n out.covered ≡ count n seen.covered + occurrences n (filter_map answered items))
        × All (IsChecked action names) items
  unfolding check_all
  check_all-parts n seen [] h =
      (ap (λ (s : Seen). count n s.covered) (sym (ok-injective h)) ∙ omega arith, tt)
  check_all-parts n seen (a ∷ items) h =
      let (next, first, rest) =
        >>=-eq-ok (check_action action requested names actions seen a) _ h in
      let (counted, checked) = check_action-parts seen a first in
      let (total, all_checked) = check_all-parts n next items rest in
      (
        omega (
          arith,
          total,
          cover_requested-count n action requested seen.covered a counted,
          occurrences-or_skip n (answered a) (filter_map answered items),
        ),
        (checked, all_checked),
      )

pub check_coverage-once :
    (requested : List Text) (c : Covered)
    → check_coverage requested c ≡ ok tt
    → All (λ n. count n c ≡ 1) requested
unfolding check_coverage
check_coverage-once requested c h = once requested (
    let refused : reject
          (any (λ name. not (same (get c name) (some 1))) requested || any (λ e. not (e.1 == 1)) c)
          intent_coverage
        ≡ ok tt =
      h in
    ground (arith, refused))
  where
    once :
        (names : List Text)
        → any (λ name. not (same (get c name) (some 1))) names ≡ false
        → All (λ n. count n c ≡ 1) names
    once [] h = tt
    once (x ∷ names) h =
        let one : same (get c x) (some 1) ≡ true = ground (arith, h) in
        (ap count_of (same→eq (get c x) (some 1) one), once names (ground (arith, h)))
