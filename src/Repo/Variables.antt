-- ===== src/Repo/Variables.antt =====
-- crates/dnfast-repo/src/variables.rs: the expansion of `$name` and `${name}`. The iterator over the
-- characters and its inner loops are one pass with a mode.
pub mod Escaped
use dnfast.Base.{
  ℕ, Text, text, Bool, true, false, ◌&&◌, ◌||◌, Option, none, some, List, [], ◌∷◌, ◌++◌, nat_order,
  list_order, get, insert, collect_map, is_empty, is_alphanumeric, is_upper, is_lower, ◌==◌,
  if◌then◌else◌, Result, ok, err, ◌>>=◌,
}
use dnfast.Repo.Error.{RepoError, unresolved_variable, malformed_variable}

-- `Variables`.
abbrev pub Variables : Type 0
Variables = List (Text × Text)

unfoldable pub from_pairs : List (Text × Text) → Variables
from_pairs pairs = collect_map pairs

unfoldable pub with_system_release_and_arch : Variables → Text → Text → Variables
with_system_release_and_arch variables releasever basearch =
    insert (text "arch") basearch
      (insert (text "basearch") basearch (insert (text "releasever") releasever variables))

-- Outside of a variable, after a `$`, and within a name.
pub data Mode : Type 0 where
  plain dollar : Mode
  braced bare : Text → Mode

abbrev pub starts_name : ℕ → Bool
starts_name c = c == b'_' || (is_upper c || is_lower c)

abbrev pub continues_name : ℕ → Bool
continues_name c = c == b'_' || is_alphanumeric c

abbrev found_or_unresolved : Text → Option Text → Result RepoError Text
found_or_unresolved name none = err (unresolved_variable name)
found_or_unresolved name (some value) = ok value

-- What follows the loop over a name.
abbrev pub resolve : Variables → Text → Text → Result RepoError Text
resolve variables input name =
    if is_empty name
    then err (malformed_variable input)
    else found_or_unresolved name (get variables name)

-- What one character puts out, and the mode after it; a character that ends a bare name is read as
-- one outside.
abbrev pub outside : ℕ → Text × Mode
outside c = if c == b'$' then ([], dollar) else (c ∷ [], plain)

unfoldable pub expand_step : Variables → Text → Mode → ℕ → Result RepoError (Text × Mode)
expand_step variables input plain c = ok (outside c)
expand_step variables input dollar c =
    if c == b'$'
    then ok (b'$' ∷ [], plain)
    else if c == b'{'
    then ok ([], braced [])
    else if starts_name c
    then ok ([], bare (c ∷ []))
    else ok (b'$' ∷ c ∷ [], plain)
expand_step variables input (braced name) c =
    if c == b'}'
    then (resolve variables input name >>= λ value. ok (value, plain))
    else ok ([], braced (name ++ c ∷ []))
expand_step variables input (bare name) c =
    if continues_name c
    then ok ([], bare (name ++ c ∷ []))
    else resolve variables input name >>= λ value. ok (value ++ (outside c).0, (outside c).1)

-- The end of the input.
unfoldable pub expand_end : Variables → Text → Mode → Result RepoError Text
expand_end variables input plain = ok []
expand_end variables input dollar = ok (b'$' ∷ [])
expand_end variables input (braced name) = err (malformed_variable input)
expand_end variables input (bare name) = resolve variables input name

unfoldable pub expand_from : Variables → Text → Mode → Text → Result RepoError Text
unfolding expand_step expand_end
expand_from variables input mode [] = expand_end variables input mode
expand_from variables input mode (c ∷ s) = expand_step variables input mode c >>= λ (out, next).
    expand_from variables input next s >>= λ rest. ok (out ++ rest)

unfoldable pub expand : Variables → Text → Result RepoError Text
unfolding expand_from
expand variables input = expand_from variables input plain input
