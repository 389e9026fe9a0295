-- ===== src/Repo/Variables/Escaped.antt =====
-- What `Variables::expand` of crates/dnfast-repo/src/variables.rs makes of escaped text and of a
-- name in braces.
use dnfast.Base.{
  ℕ, Text, ◌≡◌, ◌∙◌, sym, ap, refl, subst, arith, Bool-cases, false, inl, inr, some, [], ◌∷◌, ◌++◌,
  nat_order, list_order, get, is_empty, any, ◌==◌, if◌then◌else◌, Result, ok, err, ◌>>=◌,
}
use mathlib.Core.List.{append-nil}
use dnfast.Repo.Error.{RepoError}
use dnfast.Repo.Variables.{
  Variables, Mode, plain, braced, resolve, expand_step, expand_end, expand_from, expand,
}

-- Every `$` doubled.
abbrev pub escaped : Text → Text
escaped [] = []
escaped (c ∷ s) = if c == b'$' then b'$' ∷ b'$' ∷ escaped s else c ∷ escaped s

module _ (variables : Variables) (input : Text) where
  expand_from-escaped : (t : Text) → expand_from variables input plain (escaped t) ≡ ok t
  unfolding expand_from expand_step expand_end
  expand_from-escaped [] = refl
  expand_from-escaped (c ∷ s) = elim (Bool-cases (c == b'$')) [
    | inl d ↦
        rw (d, expand_from-escaped s)
          (let is_dollar : c ≡ b'$' = ground (arith, d) in rw is_dollar refl)
    | inr d ↦ rw (d, d, expand_from-escaped s) refl
  ]

  continue_with : (r : Result RepoError Text) → (r >>= λ rest. ok rest) ≡ r
  continue_with (ok rest) = refl
  continue_with (err e) = refl

  append_one : (xs : Text) (c : ℕ) (ys : Text) → (xs ++ c ∷ []) ++ ys ≡ xs ++ c ∷ ys
  append_one [] c ys = refl
  append_one (x ∷ xs) c ys = ap (◌∷◌ x) (append_one xs c ys)

  expand_from-name :
      (before name rest : Text)
      → any (λ c. c == b'}') name ≡ false
      → expand_from variables input (braced before) (name ++ b'}' ∷ rest) ≡ (
          resolve variables input (before ++ name) >>= λ value.
          expand_from variables input plain rest >>= λ out. ok (value ++ out))
  unfolding expand_from expand_step
  expand_from-name before [] rest h =
      subst
        (λ l. expand_from variables input (braced before) (b'}' ∷ rest) ≡ (
          resolve variables input l >>= λ value.
          expand_from variables input plain rest >>= λ out. ok (value ++ out)))
        (sym (append-nil before)) (resolved (resolve variables input before))
    where
      resolved :
          (r : Result RepoError Text)
          → ((r >>= λ value. ok (value, plain)) >>= λ (step : Text × Mode).
              expand_from variables input step.1 rest >>= λ out. ok (step.0 ++ out))
            ≡ (r >>= λ value. expand_from variables input plain rest >>= λ out. ok (value ++ out))
      resolved (ok value) = refl
      resolved (err e) = refl
  expand_from-name before (c ∷ name) rest h =
      let inside : (c == b'}') ≡ false = ground (arith, h) in
      rw inside (
        continue_with
          (expand_from variables input (braced (before ++ c ∷ [])) (name ++ b'}' ∷ rest))
        ∙ expand_from-name (before ++ c ∷ []) name rest (ground (arith, h))
        ∙ ap
            (λ l. resolve variables input l >>= λ value.
              expand_from variables input plain rest >>= λ out. ok (value ++ out))
            (append_one before c name))

  -- A name in braces, with no brace in it, is replaced by its value, and what follows is expanded.
  pub expand_from-braced :
      (name value rest : Text)
      → is_empty name ≡ false
      → any (λ c. c == b'}') name ≡ false
      → get variables name ≡ some value
      → expand_from variables input plain (b'$' ∷ b'{' ∷ (name ++ b'}' ∷ rest))
        ≡ (expand_from variables input plain rest >>= λ out. ok (value ++ out))
  unfolding expand_from expand_step
  expand_from-braced name value rest named closed there =
      continue_with _
      ∙ continue_with (expand_from variables input (braced []) (name ++ b'}' ∷ rest))
      ∙ expand_from-name [] name rest closed
      ∙ rw (named, there) refl

-- Any text is what its escaped form expands to, whatever the variables are.
pub expand-escaped : (variables : Variables) (t : Text) → expand variables (escaped t) ≡ ok t
unfolding expand
expand-escaped variables t = expand_from-escaped variables (escaped t) t
