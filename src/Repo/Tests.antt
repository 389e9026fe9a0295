-- ===== src/Repo/Tests.antt =====
-- A file of two repositories, variables, and a refresh policy.
use dnfast.Base.{
  ◌≤◌, len, length, Text, text, ◌≡◌, refl, true, false, none, [], ◌∷◌, ◌++◌, nat_order, list_order,
  All, lines_of, trim_end, split_once, split_at_spaces, Result, ok, err, ◌>>=◌,
}
use dnfast.Repo.Error.{parse_error, unresolved_variable}
use dnfast.Repo.MainConfig.{
  MainConfig, default_config, refused, max_file_bytes, max_lines, max_line_bytes, check_limits,
  pair, parse_u32, apply_other_value, apply_main_value, main_section, main_key, main_line,
  main_lines_from, parse_main_config,
}
use dnfast.Repo.MainConfig.Limited.{IsLimit, parse_main_config-IsLimit}
use dnfast.Repo.Model.{Repository}
use dnfast.Repo.Parser.{
  finish_repository, apply_key, read_pair, read_key, open_section, read_line, read_lines,
  parse_repository_file,
}
use dnfast.Repo.Parser.Usable.{IsUsable, repeats_id, parse_repository_file-IsUsable}
use dnfast.Repo.Variables.{Variables, plain, expand_step, expand_end, expand_from, expand}
use dnfast.Repo.Variables.Escaped.{expand-escaped, escaped, expand_from-braced}
use dnfast.Repo.RefreshPolicy.{apply_setting, policy_lines, parse_policy, load_refresh_policy}
use dnfast.Repo.RefreshPolicy.Secure.{IsSecure, settings_in, load_refresh_policy-IsSecure}

abbrev line : Text → Text → Text
line content rest = content ++ 0x0a ∷ rest

abbrev path : Text
path = text "/etc/yum.repos.d/fedora.repo"

abbrev file : Text
file = line (text "# Fedora") (
    line (text " [fedora] ") (
      line (text "BaseURL = https://a/ https://b/")
        (line (text "sslverify=yes") (line (text "[updates]") (line (text "enabled=0") [])))))

abbrev fedora : Repository
fedora = record {
  id = text "fedora";
  enabled = true;
  baseurls = text "https://a/" ∷ text "https://b/" ∷ [];
  metalink_url = none;
  mirrorlist_url = none;
  origin = path;
}

abbrev updates : Repository
updates = record fedora { id = text "updates"; enabled = false; baseurls = [] }

parsed : parse_repository_file path file ≡ ok (fedora ∷ updates ∷ [])
unfolding parse_repository_file read_lines read_line open_section read_key read_pair apply_key
    finish_repository lines_of trim_end split_once split_at_spaces
parsed = refl

parse_repository_file-IsUsable_example :
    All (IsUsable path) (fedora ∷ updates ∷ []) × (repeats_id (fedora ∷ updates ∷ []) ≡ false)
parse_repository_file-IsUsable_example = parse_repository_file-IsUsable path file parsed

twice :
    parse_repository_file path (
      line
        (text "[a]")
        (line (text "enabled=0") (line (text "[a]") (line (text "enabled=off") []))))
    ≡ err (parse_error path 3 (text "duplicate repository id: a"))
unfolding parse_repository_file read_lines read_line open_section read_key read_pair apply_key
    finish_repository lines_of trim_end split_once
twice = refl

abbrev variables : Variables
variables = (text "basearch", text "x86_64") ∷ []

expands : expand variables (text "f-$basearch/$$x") ≡ ok (text "f-x86_64/$x")
unfolding expand expand_from expand_step expand_end
expands = refl

unknown : expand variables (text "$unknown") ≡ err (unresolved_variable (text "unknown"))
unfolding expand expand_from expand_step expand_end
unknown = refl

expand-escaped_example : expand variables (escaped (text "${a")) ≡ ok (text "${a")
expand-escaped_example = expand-escaped variables (text "${a")

expand_from-braced_example :
    expand_from variables
      (text "${basearch}/")
      plain
      (b'$' ∷ b'{' ∷ (text "basearch" ++ b'}' ∷ text "/"))
    ≡ (expand_from variables (text "${basearch}/") plain (text "/") >>= λ out.
        ok (text "x86_64" ++ out))
expand_from-braced_example =
    expand_from-braced variables (text "${basearch}/") (text "basearch") (text "x86_64") (text "/")
      refl refl refl

read : Text → Result Text Text
read name = ok file

loaded : load_refresh_policy read fedora ≡ ok (record { skip_if_unavailable = false })
unfolding load_refresh_policy parse_policy policy_lines apply_setting lines_of trim_end split_once
    read
loaded = refl

there : read fedora.origin ≡ ok file
unfolding read
there = refl

load_refresh_policy-IsSecure_example :
    All IsSecure (settings_in (text "fedora") false (lines_of file))
load_refresh_policy-IsSecure_example = load_refresh_policy-IsSecure read fedora file there loaded

abbrev main_file : Text
main_file = line (text "[main]") (
    line (text "installonly_limit = +5")
      (line (text "excludepkgs=a b") (line (text "best=yes") [])))

abbrev main_path : Text
main_path = text "/etc/dnf/dnf.conf"

abbrev main_config : MainConfig
main_config = record default_config {
  installonly_limit = 5;
  excludepkgs = text "a" ∷ text "b" ∷ [];
  best = true;
}

configured : parse_main_config main_path main_file ≡ ok main_config
unfolding parse_main_config check_limits main_lines_from main_line main_section main_key pair
    apply_main_value apply_other_value parse_u32 lines_of trim_end split_once split_at_spaces
configured = refl

one_kernel :
    parse_main_config main_path (line (text "[main]") (line (text "installonly_limit=1") []))
    ≡ err (refused main_path 2 (text "installonly_limit must be 0 or at least 2"))
unfolding parse_main_config check_limits main_lines_from main_line main_section main_key pair
    apply_main_value apply_other_value parse_u32 lines_of trim_end split_once split_at_spaces
one_kernel = refl

parse_main_config-IsLimit_example :
    (len main_file ≤ max_file_bytes)
    × (length (lines_of main_file) ≤ max_lines)
    × All (λ l. len l ≤ max_line_bytes) (lines_of main_file)
    × IsLimit 5
parse_main_config-IsLimit_example = parse_main_config-IsLimit main_path main_file configured
