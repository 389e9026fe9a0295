-- ===== src/Core/Intent.antt =====
-- crates/dnfast-core/src/intent.rs: what the user asks for.
pub mod Canonical
use dnfast.Base.{
  ℕ, zero, suc, ◌+◌, ◌/◌, ◌%◌, String, Text, text, Bool, true, false, ◌&&◌, ◌||◌, not, List, [],
  ◌∷◌, ◌++◌, ◌≡◌, refl, Order, nat_order, list_order, order_by, contains, is_empty, any, sort,
  out_of_order, is_control, is_whitespace, trim_start, leb, ltb, ◌==◌, if◌then◌else◌, Result, ok,
  err, reject, collect, ◌>>=◌, ◌>>◌,
}

pub data Action : Type 0 where
  install upgrade remove downgrade reinstall distro_sync autoremove : Action

-- `Action::as_str`.
unfoldable pub as_str : Action → Text
as_str install = text "install"
as_str upgrade = text "upgrade"
as_str remove = text "remove"
as_str downgrade = text "downgrade"
as_str reinstall = text "reinstall"
as_str distro_sync = text "distro-sync"
as_str autoremove = text "autoremove"

pub data IntentError : Type 0 where
  missing_packages : Action → IntentError
  empty_package : IntentError
  option_like_package : Text → IntentError
  control_character : Text → IntentError
  duplicate_package : Text → IntentError
  schema_version : ℕ → IntentError
  json : Text → IntentError
  non_canonical_packages : IntentError

-- `str::escape_default`, for the message of a refused name. Six hexadecimal digits write every
-- Unicode scalar value.
hex_digit : ℕ → ℕ
hex_digit d = if ltb d 10 then b'0' + d else b'W' + d

hex_digits : ℕ → ℕ → Text
unfolding hex_digit
hex_digits zero n = []
hex_digits (suc fuel) n =
    let front = hex_digits fuel (n / 16) in
    (if ltb n 16 then [] else front) ++ (hex_digit (n % 16) ∷ [])

escape_char : ℕ → Text
unfolding hex_digits
escape_char c =
    if c == 9
    then text "\\t"
    else if c == 13
    then text "\\r"
    else if c == 10
    then text "\\n"
    else if c == b'\'' || (c == b'"' || c == b'\\')
    then b'\\' ∷ c ∷ []
    else if leb 0x20 c && leb c 0x7e
    then c ∷ []
    else text "\\u{" ++ (hex_digits 6 c ++ text "}")

escape_default : Text → Text
unfolding escape_char
escape_default [] = []
escape_default (c ∷ s) = escape_char c ++ escape_default s

pub record PackageSpec : Type 0 where
  pub name : Text

instance abbrev pub PackageSpec_order : Order PackageSpec
PackageSpec_order = order_by list_order (λ p. p.name) (λ t. record { name = t }) (λ p. refl)

abbrev starts_with_dash : Text → Bool
starts_with_dash [] = false
starts_with_dash (c ∷ s) = c == b'-'

-- `PackageSpec::parse`. `trim().is_empty()` holds of a text that is blank.
unfoldable pub parse_spec : Text → Result IntentError PackageSpec
unfolding escape_default
parse_spec value = do
  reject (is_empty (trim_start value)) empty_package
  reject (starts_with_dash (trim_start value)) (option_like_package value)
  reject (any is_control value) (control_character (escape_default value))
  ok (record { name = value })

pub record TransactionIntent : Type 0 where
  pub schema : ℕ  -- schema_version: u32
  pub action : Action
  pub packages : List PackageSpec

-- The actions of the `matches!` of `validate`.
abbrev pub needs_packages : Action → Bool
needs_packages install = true
needs_packages remove = true
needs_packages downgrade = true
needs_packages reinstall = true
needs_packages _ = false

-- The loop of `validate`, with the set of names that it has seen.
check_specs : List Text → List PackageSpec → Result IntentError (Unit {0})
check_specs seen [] = ok tt
check_specs seen (p ∷ ps) = parse_spec p.name >>= λ _.
    reject (contains seen p.name) (duplicate_package p.name) >>= λ _. check_specs (p.name ∷ seen) ps

-- `TransactionIntent::validate`.
unfoldable pub validate_intent : TransactionIntent → Result IntentError (Unit {0})
unfolding check_specs
validate_intent i = do
  reject (not (i.schema == 1)) (schema_version i.schema)
  reject (needs_packages i.action && is_empty i.packages) (missing_packages i.action)
  reject (out_of_order i.packages) non_canonical_packages
  check_specs [] i.packages

-- `TransactionIntent::new`.
unfoldable pub new_intent : Action → List PackageSpec → Result IntentError TransactionIntent
new_intent action packages =
    let value : TransactionIntent = record {
      schema = 1;
      action = action;
      packages = sort packages;
    } in
    do validate_intent value; ok value

unfoldable pub from_package_names : Action → List Text → Result IntentError TransactionIntent
unfolding new_intent
from_package_names action names =
    collect parse_spec names >>= λ packages. new_intent action packages
