-- ===== src/Solver/Preflight/Cycle.antt =====
-- `cycle_member` of crates/dnfast-solver/src/preflight.rs ends: no name is walked over twice.
use dnfast.Base.{
  ℕ, zero, suc, ◌≤◌, ◌<◌, ◌≡◌, refl, arith, Text, Bool, Bool-cases, true, false, not, inl, inr,
  Option, none, some, List, [], ◌∷◌, nat_order, list_order, same_self, same→eq, contains,
  contains_self, filter, length, length-filter, get,
}
use dnfast.Solver.Preflight.Order.{
  Links, walk_back, first_active, first_name, links_of, cycle_member, choose,
}

-- The names that the walk has not seen.
abbrev pub unseen : List Text → List Text → ℕ
unseen seen names = length (filter (λ n. not (contains seen n)) names)

unseen_le : (seen names : List Text) (c : Text) → unseen (c ∷ seen) names ≤ unseen seen names
unseen_le seen [] c = omega arith
unseen_le seen (n ∷ names) c = ground (arith, unseen_le seen names c)

pub unseen_lt :
    (seen names : List Text) (c : Text)
    → contains names c ≡ true
    → contains seen c ≡ false
    → unseen (c ∷ seen) names < unseen seen names
unseen_lt seen [] c h g = cc
unseen_lt seen (n ∷ names) c h g =
    ground (arith, same→eq n c, same_self c, unseen_le seen names c, unseen_lt seen names c)

-- The walk stands on an active name, or nowhere.
abbrev is_active : List Text → Option Text → Bool
is_active active none = true
is_active active (some n) = contains active n

is_active-first_active :
    (active names : List Text) → is_active active (first_active active names) ≡ true
is_active-first_active active [] = refl
is_active-first_active active (n ∷ names) = elim (Bool-cases (contains active n)) [
  | inl here ↦ rw (here, here) refl
  | inr other ↦ rw other (is_active-first_active active names)
]

is_active-first_name : (names : List Text) → is_active names (first_name names) ≡ true
is_active-first_name [] = refl
is_active-first_name (n ∷ names) = contains_self n names

walk_back_total :
    (fuel : ℕ) (active : List Text) (incoming : Links) (seen : List Text) (current : Option Text)
    → suc (unseen seen active) < fuel
    → is_active active current ≡ true
    → (r : Option Text) × (walk_back fuel active incoming seen current ≡ some r)
unfolding walk_back
walk_back_total zero active incoming seen current h a = absurd (omega (arith, h))
walk_back_total (suc fuel) active incoming seen none h a = (none, refl)
walk_back_total (suc fuel) active incoming seen (some c) h a = elim (Bool-cases (contains seen c)) [
  | inl again ↦ (some c, rw again refl)
  | inr new ↦
      (let parents = links_of (get incoming c) in
        let (r, ends) =
          walk_back_total fuel active incoming (c ∷ seen) (first_active active parents)
            (omega (arith, h, unseen_lt seen active c a new))
            (is_active-first_active active parents) in
        (r, rw new ends))
]

cycle_member_total :
    (active : List Text) (incoming : Links)
    → (r : Option Text) × (cycle_member active incoming ≡ some r)
unfolding cycle_member
cycle_member_total active incoming =
    walk_back_total (suc (suc (length active))) active incoming [] (first_name active)
      (omega (arith, length-filter (λ n. not (contains [] n)) active)) (is_active-first_name active)

-- The next name is chosen, whether one is ready or not.
pub choose_total :
    (incoming : Links) (active ready : List Text)
    → (c : Option Text × List Text) × (choose incoming active ready ≡ some c)
choose_total incoming active (n ∷ ready) = ((some n, ready), refl)
choose_total incoming active [] =
    let (r, ends) = cycle_member_total active incoming in ((r, []), rw (choose, ends) refl)
