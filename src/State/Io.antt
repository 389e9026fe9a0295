-- ===== src/State/Io.antt =====
-- Code that changes a state and may fail: what was changed before a failure stays changed.
use dnfast.Base.{
  subst, ok-injective, refl, ◌≡◌, ◌∙◌, inl, inr, Result-cases, Bool, true, false, Result, ok, err,
}
use dnfast.State.Error.{StateError}

abbrev pub Io {ℓ κ} : Type ℓ → Type κ → Type (ℓ ⊔ κ)
Io S A = S → Result StateError A × S

abbrev pub continue {ℓ κ μ} :
    {S : Type ℓ} {A : Type κ} {B : Type μ} → Result StateError A → (A → Io S B) → Io S B
continue (ok a) f s = f a s
continue (err e) f s = (err e, s)

infixl 5 ◌>>=◌ ◌>>◌
abbrev pub ◌>>=◌ {ℓ κ μ} : {S : Type ℓ} {A : Type κ} {B : Type μ} → Io S A → (A → Io S B) → Io S B
◌>>=◌ m f s = continue (m s).0 f (m s).1

abbrev pub ◌>>◌ {ℓ κ} : {S : Type ℓ} {B : Type κ} → Io S (Unit {0}) → Io S B → Io S B
m >> k = m >>= λ _. k

abbrev pub pure {ℓ κ} : {S : Type ℓ} {A : Type κ} → A → Io S A
pure a s = (ok a, s)

abbrev pub fail {ℓ κ} : {S : Type ℓ} {A : Type κ} → StateError → Io S A
fail e s = (err e, s)

-- A computation that changes nothing.
abbrev pub lift {ℓ κ} : {S : Type ℓ} {A : Type κ} → Result StateError A → Io S A
lift r s = (r, s)

abbrev pub fail_if {ℓ} : {S : Type ℓ} → Bool → StateError → Io S (Unit {0})
fail_if true e s = (err e, s)
fail_if false e s = (ok tt, s)

module _ {ℓ κ μ} {S : Type ℓ} {A : Type κ} {B : Type μ} where
  pub continue-eq-ok :
      (r : Result StateError A) (f : A → Io S B) (s : S) {b : B}
      → (continue r f s).0 ≡ ok b
      → (a : A) × (r ≡ ok a) × ((f a s).0 ≡ ok b) × (continue r f s ≡ f a s)
  continue-eq-ok (ok a) f s h = (a, refl, h, refl)
  continue-eq-ok (err e) f s h = cc

-- What is known of every value that a computation returns.
pub record Returns {ℓ κ μ} {S : Type ℓ} {A : Type κ} (P : A → Type μ) (m : Io S A)
    : Type (ℓ ⊔ κ ⊔ μ) where
  pub returned : (s : S) (a : A) → (m s).0 ≡ ok a → P a

module _ {ℓ κ μ ν ρ} {S : Type ℓ} {A : Type κ} {B : Type μ} {Q : A → Type ν} {P : B → Type ρ} where
  pub Returns-bind :
      (m : Io S A) (f : A → Io S B)
      → Returns Q m
      → ((a : A) → Q a → Returns P (f a))
      → Returns P (m >>= f)
  Returns-bind m f first rest = record {
    returned = λ s b h.
        let (a, e, g, _) = continue-eq-ok (m s).0 f (m s).1 h in
        (rest a (first.returned s a e)).returned (m s).1 b g;
  }

module _ {ℓ κ} {S : Type ℓ} {A : Type κ} where
  pub Returns-any : (m : Io S A) → Returns (λ a. Unit {0}) m
  Returns-any m = record { returned = λ s a h. tt }

  pub Returns-lift : (r : Result StateError A) → Returns {S = S} (λ a. r ≡ ok a) (lift r)
  Returns-lift r = record { returned = λ s a h. h }

  pub Returns-pure {μ} : (P : A → Type μ) (a : A) → P a → Returns {S = S} P (pure a)
  Returns-pure P a p = record { returned = λ s b h. subst P (ok-injective h) p }

-- A computation that leaves the state as it was.
pub record Keeps {ℓ κ} {S : Type ℓ} {A : Type κ} (m : Io S A) : Type (ℓ ⊔ κ) where
  pub same_state : (s : S) → (m s).1 ≡ s

pub Keeps-bind {ℓ κ μ} :
    {S : Type ℓ} {A : Type κ} {B : Type μ} {m : Io S A} {f : A → Io S B}
    → Keeps m
    → ((a : A) → Keeps (f a))
    → Keeps (m >>= f)
Keeps-bind {m} {f} first rest = record {
  same_state = λ s. elim (Result-cases (m s).0) [
    | inl (a, e) ↦ rw e ((rest a).same_state (m s).1 ∙ first.same_state s)
    | inr (x, e) ↦ rw e (first.same_state s)
  ];
}

pub Keeps-lift {ℓ κ} : {S : Type ℓ} {A : Type κ} (r : Result StateError A) → Keeps {S = S} (lift r)
Keeps-lift r = record { same_state = λ s. refl }

pub Keeps-fail_if {ℓ} : {S : Type ℓ} (test : Bool) (e : StateError) → Keeps {S = S} (fail_if test e)
Keeps-fail_if true e = record { same_state = λ s. refl }
Keeps-fail_if false e = record { same_state = λ s. refl }

pub fail_if-eq-ok {ℓ} :
    {S : Type ℓ} (test : Bool) (e : StateError) (s : S) {u : Unit {0}}
    → (fail_if test e s).0 ≡ ok u
    → (test ≡ false) × (fail_if test e s ≡ (ok tt, s))
fail_if-eq-ok true e s h = cc
fail_if-eq-ok false e s h = (refl, refl)
