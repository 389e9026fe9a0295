-- ===== src/Repo/MainConfig.antt =====
-- crates/dnfast-repo/src/main_config.rs.
pub mod Limited
use dnfast.Base.{
  ℕ, suc, ◌+◌, ◌*◌, ◌-◌, ◌^◌, Text, text, Bool, true, false, not, ◌&&◌, ◌||◌, Option, none, some,
  List, [], ◌∷◌, ◌++◌, nat_order, list_order, same, contains, any, all, is_empty, is_alphanumeric,
  is_digit, len, length, ltb, lines_of, trim, split_once, words, ◌==◌, if◌then◌else◌, lowercase,
  Result, ok, err, reject, ◌>>=◌, ◌>>◌,
}
use dnfast.Repo.Parser.{boolean_of}

abbrev pub max_file_bytes : ℕ
max_file_bytes = 1048576

abbrev pub max_lines : ℕ
max_lines = 4096

abbrev pub max_line_bytes : ℕ
max_line_bytes = 65536

pub record MainConfig : Type 0 where
  pub reposdir : List Text
  pub varsdir : List Text
  pub install_weak_deps : Bool
  pub best : Bool
  pub excludepkgs : List Text
  pub includepkgs : List Text
  pub protected_packages : List Text
  pub installonlypkgs : List Text
  pub installonly_limit : ℕ  -- u32

abbrev pub default_config : MainConfig
default_config = record {
  reposdir = text "/etc/yum.repos.d" ∷ text "/etc/dnf/repos.d" ∷ [];
  varsdir = text "/etc/dnf/vars" ∷ text "/etc/yum/vars" ∷ [];
  install_weak_deps = true;
  best = false;
  excludepkgs = [];
  includepkgs = [];
  protected_packages = words (text "dnfast dnf dnf5 rpm glibc systemd");
  installonlypkgs =
      words (text "kernel kernel-core kernel-modules kernel-modules-core kernel-modules-extra");
  installonly_limit = 3;
}

pub record MutationError : Type 0 where
  pub path : Text
  pub line : ℕ
  pub message : Text

abbrev pub refused : Text → ℕ → Text → MutationError
refused path line message = record { path = path; line = line; message = message }

abbrev pub too_long_from : Text → ℕ → List Text → Result MutationError (Unit {0})
too_long_from path line [] = ok tt
too_long_from path line (l ∷ lines) =
    let rest = too_long_from path (suc line) lines in
    if ltb max_line_bytes (len l)
    then err (refused path line (text "configuration line exceeds 64 KiB"))
    else rest

unfoldable pub check_limits : Text → Text → Result MutationError (Unit {0})
check_limits path input = do
  reject (ltb max_file_bytes (len input)) (refused path 0 (text "configuration file exceeds 1 MiB"))
  reject (ltb max_lines (length (lines_of input)))
      (refused path (max_lines + 1) (text "configuration file exceeds 4096 lines"))
  too_long_from path 1 (lines_of input)

abbrev is_key_byte : ℕ → Bool
is_key_byte c = is_alphanumeric c || (c == b'_' || (c == b'.' || c == b'-'))

abbrev is_forbidden : ℕ → Bool
is_forbidden c = c == 0 || (ltb c 32 && not (c == 9))

abbrev check_pair : Text → ℕ → Text → Text → Result MutationError (Text × Text)
check_pair path line key value =
    if is_empty key || not (all is_key_byte key)
    then err (refused path line (text "invalid mutation key"))
    else if any is_forbidden value
    then err (refused path line (text "invalid control byte in value"))
    else ok (key, trim value)

abbrev pair_from : Text → ℕ → Option (Text × Text) → Result MutationError (Text × Text)
pair_from path line none = err (refused path line (text "expected key=value"))
pair_from path line (some (key, value)) = check_pair path line (trim key) value

unfoldable pub pair : Text → ℕ → Text → Result MutationError (Text × Text)
pair path line content = pair_from path line (split_once b'=' content)

abbrev flag_from : Text → ℕ → Option Bool → Result MutationError Bool
flag_from path line none = err (refused path line (text "invalid boolean"))
flag_from path line (some b) = ok b

-- `boolean`.
abbrev pub flag : Text → ℕ → Text → Result MutationError Bool
flag path line value = flag_from path line (boolean_of (lowercase value))

-- `reset_or_append`.
abbrev pub reset_or_append : List Text → Text → List Text
reset_or_append target value = if is_empty value then [] else target ++ words value

abbrev pub digits_from : ℕ → Text → ℕ
digits_from n [] = n
digits_from n (c ∷ digits) = digits_from (n * 10 + (c - b'0')) digits

abbrev without_plus : Text → Text
without_plus [] = []
without_plus (c ∷ s) = if c == b'+' then s else c ∷ s

-- `str::parse` of a u32: digits, with a `+` in front or without, of a number below 2^32.
unfoldable pub parse_u32 : Text → Option ℕ
parse_u32 value =
    let digits = without_plus value in
    if is_empty digits || (not (all is_digit digits) || not (ltb (digits_from 0 digits) (2 ^ 32)))
    then none
    else some (digits_from 0 digits)

abbrev pub set_limit : Text → ℕ → MainConfig → Option ℕ → Result MutationError MainConfig
set_limit path line c none = err (refused path line (text "invalid installonly_limit"))
set_limit path line c (some n) =
    if n == 1
    then err (refused path line (text "installonly_limit must be 0 or at least 2"))
    else ok (record c { installonly_limit = n })

-- The keys but the last, which change no limit.
unfoldable pub apply_other_value :
    Text → ℕ → MainConfig → Text → Text → Result MutationError MainConfig
apply_other_value path line c key value =
    if same key (text "reposdir")
    then ok (record c { reposdir = reset_or_append c.reposdir value })
    else if same key (text "varsdir")
    then ok (record c { varsdir = reset_or_append c.varsdir value })
    else if same key (text "install_weak_deps")
    then (flag path line value >>= λ b. ok (record c { install_weak_deps = b }))
    else if same key (text "best")
    then (flag path line value >>= λ b. ok (record c { best = b }))
    else if same key (text "excludepkgs")
    then ok (record c { excludepkgs = reset_or_append c.excludepkgs value })
    else if same key (text "includepkgs")
    then ok (record c { includepkgs = reset_or_append c.includepkgs value })
    else if same key (text "protected_packages")
    then ok (record c { protected_packages = reset_or_append c.protected_packages value })
    else if same key (text "installonlypkgs")
    then ok (record c { installonlypkgs = reset_or_append c.installonlypkgs value })
    else err (refused path line (text "unsupported mutation key: " ++ key))

unfoldable pub apply_main_value :
    Text → ℕ → MainConfig → Text → Text → Result MutationError MainConfig
apply_main_value path line c key value =
    if same key (text "installonly_limit")
    then set_limit path line c (parse_u32 value)
    else apply_other_value path line c key value

abbrev pub list_key : Text → Bool
list_key key =
    contains
      (text "reposdir"
        ∷ text "varsdir"
        ∷ text "excludepkgs"
        ∷ text "includepkgs"
        ∷ text "protected_packages"
        ∷ text "installonlypkgs"
        ∷ [])
      key

-- What the loop carries.
pub record Configuring : Type 0 where
  pub config : MainConfig
  pub in_main : Bool
  pub seen : List Text

unfoldable pub main_section : Text → ℕ → Text → Configuring → Result MutationError Configuring
main_section path line content s = do
  reject (not (same content (text "[main]")))
      (refused path line (text "unsupported main configuration section"))
  reject s.in_main (refused path line (text "duplicate main section"))
  ok (record s { in_main = true })

unfoldable pub main_key : Text → ℕ → Text → Configuring → Result MutationError Configuring
main_key path line content s = do
  reject (not s.in_main) (refused path line (text "key outside main section"))
  pair path line content >>= λ (key, value).
      reject (contains s.seen key && not (list_key key))
        (refused path line (text "duplicate mutation key: " ++ key))
      >>= λ _. apply_main_value path line s.config key value >>= λ config.
          ok (record s { config = config; seen = key ∷ s.seen })

unfoldable pub main_line : Text → ℕ → Text → Configuring → Result MutationError Configuring
main_line path line [] s = ok s
main_line path line (c ∷ content) s =
    if c == b'#' || c == b';'
    then ok s
    else if c == b'['
    then main_section path line (c ∷ content) s
    else main_key path line (c ∷ content) s

unfoldable pub main_lines_from :
    Text → ℕ → List Text → Configuring → Result MutationError Configuring
main_lines_from path line [] s = ok s
main_lines_from path line (raw ∷ lines) s =
    main_line path line (trim raw) s >>= λ next. main_lines_from path (suc line) lines next

unfoldable pub parse_main_config : Text → Text → Result MutationError MainConfig
unfolding check_limits main_lines_from
parse_main_config path input = do
  check_limits path input
  s ←
      main_lines_from path 1 (lines_of input)
        (record { config = default_config; in_main = false; seen = [] })
  ok s.config
