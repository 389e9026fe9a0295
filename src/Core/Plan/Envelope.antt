-- ===== src/Core/Plan/Envelope.antt =====
-- How a plan envelope is made and how long it holds: `new` and `validate_now` of
-- crates/dnfast-core/src/plan.rs.
use dnfast.Base.{
  ℕ, ◌≤◌, ◌<◌, false, List, [], ◌∷◌, ◌≡◌, ◌≢◌, refl, subst, arith, Permᴰ, All, list_order,
  nat_order, ok, >>=-eq-ok, >>-eq-ok, ok-injective, All-for_each,
}
use dnfast.Core.Integrity.{PlanIntegrity, validate_integrity, RepositoryBinding}
use dnfast.Core.Intent.{TransactionIntent}
use dnfast.Core.PackageAction.{
  PackageAction, PackageAction_order, validate_package_action, canonical_actions,
}
use dnfast.Core.PackageAction.Canonical.{
  canonical_actions-perm, canonical_actions-IsCanonical, IsCanonical,
}
use dnfast.Core.Plan.{envelope, PlanEnvelope, new_plan, unselected, check_selected, validate_now}

-- The plan does not depend on the order in which the solver names its actions.
pub new_plan-perm :
    (intent : TransactionIntent) (integrity : PlanIntegrity) (expires_at_unix : ℕ)
    {xs ys : List PackageAction}
    → Permᴰ xs ys
    → new_plan intent integrity expires_at_unix xs ≡ new_plan intent integrity expires_at_unix ys
unfolding new_plan
new_plan-perm intent integrity e p = rw (canonical_actions-perm p)

abbrev pub AllSelected : List RepositoryBinding → List PackageAction → Type 0
AllSelected selected xs = All (λ a. unselected selected a.repo_id ≡ false) xs

check_selected-ok :
    (selected : List RepositoryBinding) (xs : List PackageAction)
    → AllSelected selected xs
    → All (λ a. validate_package_action a ≡ ok tt) xs
    → All (λ a. check_selected selected a ≡ ok tt) xs
unfolding check_selected
check_selected-ok selected [] s v = tt
check_selected-ok selected (a ∷ xs) s v =
    (rw (v.0, s.0) refl, check_selected-ok selected xs s.1 v.1)

envelope-validate_now :
    (intent : TransactionIntent) (integrity : PlanIntegrity) (expires now_unix : ℕ)
    (actions : List PackageAction) {source : List PackageAction}
    → validate_integrity integrity ≡ ok tt
    → IsCanonical source actions
    → now_unix ≤ expires
    → AllSelected integrity.selected_repositories actions
    → validate_now (envelope intent integrity expires actions) now_unix ≡ ok tt
unfolding validate_now envelope
envelope-validate_now intent integrity expires now actions whole c fresh selected =
    let each =
      All-for_each (check_selected integrity.selected_repositories) actions
        (check_selected-ok integrity.selected_repositories actions selected c.valid) in
    ground (arith, c.ascending, c.bounded)

-- A new plan holds until it expires, if the repository of every action is one of the selected:
-- the one condition of `validate_now` that `new` does not check.
pub new_plan-validate_now :
    (intent : TransactionIntent) (integrity : PlanIntegrity) (expires_at_unix : ℕ)
    (source : List PackageAction) (now_unix : ℕ) {p : PlanEnvelope}
    → new_plan intent integrity expires_at_unix source ≡ ok p
    → AllSelected p.selected_repositories p.actions
    → now_unix ≤ expires_at_unix
    → validate_now p now_unix ≡ ok tt
unfolding new_plan
new_plan-validate_now intent integrity expires source now {p} h selected fresh =
    let (whole, rest) = >>-eq-ok (validate_integrity integrity) _ h in
    let (actions, made, e) = >>=-eq-ok (canonical_actions source) _ rest in
    subst (λ q. AllSelected q.selected_repositories q.actions → validate_now q now ≡ ok tt)
      (ok-injective e)
      (envelope-validate_now intent integrity expires now actions whole
        (canonical_actions-IsCanonical source made) fresh)
      selected

-- A plan that holds at a moment held at every earlier one, and a plan past its expiry never holds.
pub validate_now-until_expiry :
    (p : PlanEnvelope)
    → ((t now_unix : ℕ) → t ≤ now_unix → validate_now p now_unix ≡ ok tt → validate_now p t ≡ ok tt)
      × ((now_unix : ℕ) → p.expires_at_unix < now_unix → validate_now p now_unix ≢ ok tt)
unfolding validate_now
validate_now-until_expiry p = (λ t now le h. ground arith, λ now late h. ground arith)
