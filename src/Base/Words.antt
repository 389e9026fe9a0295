-- ===== src/Base/Words.antt =====
-- Lines and words of a text, as the standard library splits them.
use Prim.Native.Nat.{ℕ}
use mathlib.Core.Bool.{Bool, false, not, ◌&&◌}
use mathlib.Core.Option.{Option, none, some}
use mathlib.Core.List.{List, [], ◌∷◌, map}
use dnfast.Base.Tests.{◌==◌, if◌then◌else◌}
use dnfast.Base.Lists.{filter, is_empty}
use dnfast.Base.Strings.{Text, is_whitespace, trim_start, to_lower}

-- A character in front of the first part.
abbrev pub onto_first : ℕ → List Text → List Text
onto_first c [] = (c ∷ []) ∷ []
onto_first c (part ∷ parts) = (c ∷ part) ∷ parts

abbrev pub first_is_newline : Text → Bool
first_is_newline [] = false
first_is_newline (c ∷ s) = c == 0x0a

-- `str::lines`: each line ends at `\n` or `\r\n`; nothing follows the last end of line.
unfoldable pub lines_of : Text → List Text
lines_of [] = []
lines_of (c ∷ s) =
    let rest = lines_of s in
    if c == 0x0a
    then [] ∷ rest
    else if c == 0x0d && first_is_newline s
    then rest
    else onto_first c rest

-- `str::trim_end` and `str::trim`.
unfoldable pub trim_end : Text → Text
trim_end [] = []
trim_end (c ∷ s) =
    let rest = trim_end s in if is_whitespace c && is_empty rest then [] else c ∷ rest

abbrev pub trim : Text → Text
trim s = trim_end (trim_start s)

abbrev pub onto_key : ℕ → Option (Text × Text) → Option (Text × Text)
onto_key c none = none
onto_key c (some (key, value)) = some (c ∷ key, value)

-- `str::split_once`.
unfoldable pub split_once : ℕ → Text → Option (Text × Text)
split_once mark [] = none
split_once mark (c ∷ s) =
    let rest = split_once mark s in if c == mark then some ([], s) else onto_key c rest

unfoldable pub split_at_spaces : Text → List Text
split_at_spaces [] = []
split_at_spaces (c ∷ s) =
    let rest = split_at_spaces s in if is_whitespace c then [] ∷ rest else onto_first c rest

-- `str::split_whitespace`.
abbrev pub words : Text → List Text
words s = filter (λ w. not (is_empty w)) (split_at_spaces s)

-- `str::to_ascii_lowercase`.
abbrev pub lowercase : Text → Text
lowercase s = map to_lower s

-- A text without its last character.
abbrev pub without_last : Text → Text
without_last [] = []
without_last (c ∷ []) = []
without_last (c ∷ d ∷ s) = c ∷ without_last (d ∷ s)
