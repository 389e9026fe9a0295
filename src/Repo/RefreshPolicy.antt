-- ===== src/Repo/RefreshPolicy.antt =====
-- crates/dnfast-repo/src/refresh_policy.rs; reading the file is a parameter.
pub mod Secure
use dnfast.Base.{
  ℕ, suc, Text, text, Bool, true, false, not, ◌&&◌, ◌||◌, Option, none, some, List, [], ◌∷◌,
  nat_order, list_order, option_order, same, is_empty, last, lines_of, trim, split_once, lowercase,
  without_last, if◌then◌else◌, Result, ok, err, map_err, ◌>>=◌,
}
use dnfast.Repo.Error.{RepoError, parse_error}
use dnfast.Repo.Model.{Repository}
use dnfast.Repo.Parser.{boolean_of}

pub record RefreshPolicy : Type 0 where
  pub skip_if_unavailable : Bool

-- What the loop carries.
pub record Selecting : Type 0 where
  pub selected : Bool
  pub skip : Bool

abbrev pub boolean_or : Text → ℕ → Option Bool → Result RepoError Bool
boolean_or path line none = err (parse_error path line (text "invalid refresh policy boolean"))
boolean_or path line (some b) = ok b

abbrev pub boolean : Text → ℕ → Text → Result RepoError Bool
boolean path line value = boolean_or path line (boolean_of (lowercase value))

abbrev pub is_direct : Text → Bool
is_direct value = is_empty value || same value (text "_none_")

-- The match on the key.
unfoldable pub apply_setting : Text → ℕ → Selecting → Text → Text → Result RepoError Selecting
apply_setting path line s key value =
    if same key (text "skip_if_unavailable")
    then (boolean path line value >>= λ skip. ok (record s { skip = skip }))
    else if same key (text "sslverify")
    then (boolean path line value >>= λ verify.
        if verify then ok s else err (parse_error path line (text "sslverify=false is forbidden")))
    else if same key (text "proxy") && not (is_direct value)
    then err (parse_error path line (text "proxy is unsupported for secure refresh"))
    else ok s

abbrev pub section_id : Text → Option Text
section_id [] = none
section_id (c ∷ content) =
    if same c b'[' && same (last (c ∷ content)) (some b']')
    then some (trim (without_last content))
    else none

abbrev pub is_comment : Text → Bool
is_comment [] = true
is_comment (c ∷ content) = same c b'#' || same c b';'

-- A line that is no section; without `=` it is passed over.
abbrev pub setting : Text → Option (Text × Text)
setting content = if is_comment content then none else split_once b'=' content

abbrev pub apply_pair : Text → ℕ → Selecting → Option (Text × Text) → Result RepoError Selecting
apply_pair path line s none = ok s
apply_pair path line s (some (key, value)) =
    if s.selected then apply_setting path line s (lowercase (trim key)) (trim value) else ok s

abbrev pub policy_line :
    Text → Text → ℕ → Text → Selecting → Option Text → Result RepoError Selecting
policy_line path id line content s (some section) = ok (record s { selected = same section id })
policy_line path id line content s none = apply_pair path line s (setting content)

unfoldable pub policy_lines : Text → Text → ℕ → List Text → Selecting → Result RepoError Selecting
policy_lines path id line [] s = ok s
policy_lines path id line (raw ∷ lines) s =
    policy_line path id line (trim raw) s (section_id (trim raw)) >>= λ next.
    policy_lines path id (suc line) lines next

unfoldable pub parse_policy : Text → Text → Text → Result RepoError RefreshPolicy
unfolding policy_lines
parse_policy path input id =
    policy_lines path id 1 (lines_of input) (record { selected = false; skip = false }) >>= λ s.
    ok (record { skip_if_unavailable = s.skip })

-- `read` gives the text of a file, or the message of the error.
unfoldable pub load_refresh_policy :
    (Text → Result Text Text) → Repository → Result RepoError RefreshPolicy
load_refresh_policy read r =
    map_err (parse_error r.origin 0) (read r.origin) >>= λ input. parse_policy r.origin input r.id
