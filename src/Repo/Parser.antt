-- ===== src/Repo/Parser.antt =====
-- `parse_repository_file` of crates/dnfast-repo/src/parser.rs.
pub mod Usable
use dnfast.Base.{
  ℕ, zero, suc, Text, text, Bool, true, false, not, ◌&&◌, ◌||◌, Option, none, some, is_none, List,
  [], ◌∷◌, ◌++◌, nat_order, list_order, same, any, is_empty, last, option_order, lines_of, trim,
  split_once, words, lowercase, without_last, starts_with, ends_with, if◌then◌else◌, Result, ok,
  err, reject, ◌>>=◌, ◌>>◌,
}
use dnfast.Repo.Error.{RepoError, parse_error}
use dnfast.Repo.Model.{Repository, selected_source}

pub record RepositoryBuilder : Type 0 where
  pub repository : Repository
  pub section_line : ℕ

unfoldable pub finish_repository :
    Text → Option RepositoryBuilder → List Repository → Result RepoError (List Repository)
finish_repository path none repositories = ok repositories
finish_repository path (some current) repositories = do
  reject (current.repository.enabled && is_none (selected_source current.repository))
      (parse_error path current.section_line (text "enabled repository has no source"))
  reject (any (λ r. same r.id current.repository.id) repositories) (
      parse_error path current.section_line
        (text "duplicate repository id: " ++ current.repository.id))
  ok (repositories ++ current.repository ∷ [])

-- The words for a boolean; `none` is any other text.
abbrev pub boolean_of : Text → Option Bool
boolean_of value =
    if same value (text "1")
      || (same value (text "true") || (same value (text "yes") || same value (text "on")))
    then some true
    else if same value (text "0")
        || (same value (text "false") || (same value (text "no") || same value (text "off")))
    then some false
    else none

abbrev pub enable : Text → ℕ → Text → Repository → Option Bool → Result RepoError Repository
enable path line value r none =
    err (parse_error path line (text "invalid boolean for enabled: " ++ value))
enable path line value r (some enabled) = ok (record r { enabled = enabled })

-- `(!value.is_empty()).then(|| value.to_owned())`.
abbrev pub unless_empty : Text → Option Text
unless_empty value = if is_empty value then none else some value

-- The match on the key.
unfoldable pub apply_key : Text → ℕ → Text → Text → Repository → Result RepoError Repository
apply_key path line key value r =
    if same key (text "enabled")
    then enable path line value r (boolean_of (lowercase value))
    else if same key (text "baseurl")
    then ok (record r { baseurls = r.baseurls ++ words value })
    else if same key (text "metalink")
    then ok (record r { metalink_url = unless_empty value })
    else if same key (text "mirrorlist")
    then ok (record r { mirrorlist_url = unless_empty value })
    else ok r

-- What the loop carries.
pub record Parsing : Type 0 where
  pub repositories : List Repository
  pub current : Option RepositoryBuilder

abbrev pub new_repository : Text → Text → Repository
new_repository path id = record {
  id = id;
  enabled = true;
  baseurls = [];
  metalink_url = none;
  mirrorlist_url = none;
  origin = path;
}

unfoldable pub open_section : Text → ℕ → Text → Parsing → Result RepoError Parsing
open_section path line id s = do
  reject (is_empty id) (parse_error path line (text "repository id cannot be empty"))
  repositories ← finish_repository path s.current s.repositories
  ok (record {
    repositories = repositories;
    current = some (record { repository = new_repository path id; section_line = line });
  })

unfoldable pub read_pair :
    Text → ℕ → Parsing → RepositoryBuilder → Option (Text × Text) → Result RepoError Parsing
read_pair path line s b none = err (parse_error path line (text "expected key=value"))
read_pair path line s b (some (key, value)) =
    apply_key path line (lowercase (trim key)) (trim value) b.repository >>= λ r.
    ok (record s { current = some (record b { repository = r }) })

unfoldable pub read_key :
    Text → ℕ → Text → Parsing → Option RepositoryBuilder → Result RepoError Parsing
read_key path line content s none =
    err (parse_error path line (text "key outside repository section"))
read_key path line content s (some b) = read_pair path line s b (split_once b'=' content)

-- One line, without the spaces around it.
unfoldable pub read_line : Text → ℕ → Text → Parsing → Result RepoError Parsing
unfolding open_section read_key
read_line path line [] s = ok s
read_line path line (c ∷ content) s =
    if same c b'#' || same c b';'
    then ok s
    else if same c b'['
    then (if same (last (c ∷ content)) (some b']')
        then open_section path line (trim (without_last content)) s
        else err (parse_error path line (text "malformed repository section")))
    else read_key path line (c ∷ content) s s.current

unfoldable pub read_lines : Text → ℕ → List Text → Parsing → Result RepoError Parsing
unfolding read_line
read_lines path line [] s = ok s
read_lines path line (raw ∷ lines) s =
    read_line path line (trim raw) s >>= λ next. read_lines path (suc line) lines next

unfoldable pub parse_repository_file : Text → Text → Result RepoError (List Repository)
unfolding read_lines finish_repository
parse_repository_file path input = do
  s ← read_lines path 1 (lines_of input) (record { repositories = []; current = none })
  finish_repository path s.current s.repositories
