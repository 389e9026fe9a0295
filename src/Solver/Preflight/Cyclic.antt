-- ===== src/Solver/Preflight/Cyclic.antt =====
-- What `cycle_member` of crates/dnfast-solver/src/preflight.rs finds.
use dnfast.Base.{
  ℕ, zero, suc, ◌<◌, ◌≡◌, refl, subst, arith, Text, Bool-cases, true, not, inl, inr, some, List, [],
  ◌∷◌, nat_order, list_order, same, same→eq, contains, contains_self, length, length-filter, get,
  All, All-contains,
}
use dnfast.Solver.Preflight.Order.{
  Links, walk_back, first_active, first_name, links_of, cycle_member,
}
use dnfast.Solver.Preflight.Cycle.{unseen, unseen_lt}

module _ (active : List Text) (incoming : Links) where
  -- `m` is active, and `n` waits for it.
  abbrev pub WaitsFor : Text → Text → Type 0
  WaitsFor n m = (contains active m ≡ true) × (contains (links_of (get incoming n)) m ≡ true)

  -- A chain of names of which each waits for the next one.
  pub data Chain : Text → Text → Type 0 where
    one : (n m : Text) → WaitsFor n m → Chain n m
    more : (n m l : Text) → Chain n m → WaitsFor m l → Chain n l

  first_active-found :
      (names : List Text) (p : Text)
      → contains active p ≡ true
      → contains names p ≡ true
      → (m : Text) × (first_active active names ≡ some m)
        × (contains active m ≡ true)
        × (contains names m ≡ true)
  first_active-found [] p a c = cc
  first_active-found (n ∷ names) p a c = elim (Bool-cases (contains active n)) [
    | inl here ↦ (n, rw here refl, here, contains_self n names)
    | inr other ↦
        (let (m, first, there, among) =
            first_active-found names p a (ground (arith, c, a, other, same→eq n p)) in
          (m, rw other first, there, ground (arith, among)))
  ]

  module _ (waits : All (λ n. (p : Text) × WaitsFor n p) active) where
    walk_back-IsCyclic :
        (fuel : ℕ) (seen : List Text) (c : Text)
        → suc (unseen seen active) < fuel
        → contains active c ≡ true
        → ((s : Text) → contains seen s ≡ true → Chain s c)
        → (n : Text) × (walk_back fuel active incoming seen (some c) ≡ some (some n)) × Chain n n
    unfolding walk_back
    walk_back-IsCyclic zero seen c h a chain = absurd (omega (arith, h))
    walk_back-IsCyclic (suc fuel) seen c h a chain = elim (Bool-cases (contains seen c)) [
      | inl again ↦ (c, rw again refl, chain c again)
      | inr new ↦
          (let (p, (there, among)) =
              All-contains (λ n. (p : Text) × WaitsFor n p) active c waits a in
            let (m, first, m_active, m_among) =
              first_active-found (links_of (get incoming c)) p there among in
            let (n, ends, cyclic) =
              walk_back-IsCyclic fuel (c ∷ seen) m (omega (arith, h, unseen_lt seen active c a new))
                m_active
                (λ s k. elim (Bool-cases (same c s)) [
                  | inl at ↦ subst (λ x. Chain x m) (same→eq c s at) (one c m (m_active, m_among))
                  | inr off ↦ more s c m (chain s (rw off at k)) (m_active, m_among)
                ]) in
            (n, rw (new, first) ends, cyclic))
    ]

    -- Where every active name waits for an active one, and there is one, a name is found from which a
    -- chain of names that wait for the next leads back to it.
    pub cycle_member-IsCyclic :
        (x : Text)
        → contains active x ≡ true
        → (n : Text) × (cycle_member active incoming ≡ some (some n)) × Chain n n
    unfolding cycle_member
    cycle_member-IsCyclic x h = go active refl h
      where
        go :
            (names : List Text)
            → names ≡ active
            → contains names x ≡ true
            → (n : Text) × (walk_back
                  (suc (suc (length active)))
                  active
                  incoming
                  []
                  (first_name names)
                ≡ some (some n))
              × Chain n n
        go [] e c = cc
        go (y ∷ names) e c =
            walk_back-IsCyclic (suc (suc (length active))) [] y
              (omega (arith, length-filter (λ n. not (contains [] n)) active))
              (subst (λ l. contains l y ≡ true) e (contains_self y names)) (λ s k. cc)
