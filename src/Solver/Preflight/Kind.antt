-- ===== src/Solver/Preflight/Kind.antt =====
-- Which actions the kind of a request admits: `validate_kind` of
-- crates/dnfast-solver/src/preflight.rs.
use dnfast.Base.{
  refl, option_order, ◌≡◌, ◌≢◌, arith, Bool-cases, true, false, not, ◌&&◌, none, [], is_some, same,
  same→eq, ◌⊎◌, inl, inr, ok,
}
use dnfast.Core.Intent.{Action}
use dnfast.Solver.Model.{ResolvedAction, ResolvedOperation, ResolvedOperation_order}
use dnfast.Solver.Preflight.Inputs.{validate_kind, is_sweeping, is_removing, kind_fits}

-- The operations that the request asks for.
abbrev pub Asked : Action → ResolvedAction → Type 0
Asked Action.install a =
    (a.operation ≡ ResolvedOperation.install) ⊎ (a.operation ≡ ResolvedOperation.upgrade)
Asked Action.remove a = (a.operation ≡ ResolvedOperation.remove) × (a.provenance ≡ none)
Asked Action.upgrade a = a.operation ≡ ResolvedOperation.upgrade
Asked Action.downgrade a = a.operation ≡ ResolvedOperation.downgrade
Asked Action.reinstall a = a.operation ≡ ResolvedOperation.reinstall
Asked Action.distro_sync a =
    (a.operation ≢ ResolvedOperation.install) × (a.operation ≢ ResolvedOperation.remove)
Asked Action.autoremove a = (a.operation ≡ ResolvedOperation.remove) × (a.provenance ≡ none)

-- A removal that another action causes, in a request that is not for removals.
pub record IsSideEffect (action : Action) (a : ResolvedAction) : Type 0 where
  pub caused : a.provenance ≢ none
  pub removal : a.operation ≡ ResolvedOperation.remove
  pub not_removing : action ≢ Action.remove

-- An installation that a request for the newest versions needs as a dependency.
pub record IsNeeded (action : Action) (a : ResolvedAction) : Type 0 where
  pub sweeping : (action ≡ Action.upgrade) ⊎ (action ≡ Action.distro_sync)
  pub installs : a.operation ≡ ResolvedOperation.install
  pub unrequested : (a.requested ≡ false) × (a.requested_spec ≡ none)
  pub depended_on : a.dependency_edges ≢ []

abbrev pub Fits : Action → ResolvedAction → Type 0
Fits action a = Asked action a ⊎ (IsSideEffect action a ⊎ IsNeeded action a)

fits-Asked :
    (action : Action) (a : ResolvedAction)
    → kind_fits action a.operation a.provenance ≡ true
    → Asked action a
fits-Asked Action.install a h = ground (
  arith,
  same→eq a.operation ResolvedOperation.install,
  same→eq a.operation ResolvedOperation.upgrade,
)
fits-Asked Action.remove a h = ground (arith, same→eq a.operation ResolvedOperation.remove)
fits-Asked Action.upgrade a h = same→eq a.operation ResolvedOperation.upgrade h
fits-Asked Action.downgrade a h = same→eq a.operation ResolvedOperation.downgrade h
fits-Asked Action.reinstall a h = same→eq a.operation ResolvedOperation.reinstall h
fits-Asked Action.distro_sync a h = (λ e. ground arith, λ e. ground arith)
fits-Asked Action.autoremove a h = ground (arith, same→eq a.operation ResolvedOperation.remove)

sweeping_parts :
    (action : Action)
    → is_sweeping action ≡ true
    → (action ≡ Action.upgrade) ⊎ (action ≡ Action.distro_sync)
sweeping_parts Action.upgrade h = inl refl
sweeping_parts Action.distro_sync h = inr refl
sweeping_parts _ h = cc

-- An action that passes the check fits the request.
pub validate_kind-Fits :
    (action : Action) (a : ResolvedAction) → validate_kind action a ≡ ok tt → Fits action a
unfolding validate_kind
validate_kind-Fits action a h = elim (Bool-cases (kind_fits action a.operation a.provenance)) [
  | inl asked ↦ inl (fits-Asked action a asked)
  | inr other ↦
      elim (Bool-cases (
        is_some a.provenance
        && (same a.operation ResolvedOperation.remove && not (is_removing action)))) [
          | inl effect ↦ inr (
              inl (record {
                caused = λ e. ground arith;
                removal = same→eq a.operation ResolvedOperation.remove (ground arith);
                not_removing = λ e. ground arith;
              }))
          | inr no_effect ↦ inr (
              inr (record {
                sweeping = sweeping_parts action (ground arith);
                installs = same→eq a.operation ResolvedOperation.install (ground arith);
                unrequested = ground arith;
                depended_on = λ e. ground arith;
              }))
        ]
]
