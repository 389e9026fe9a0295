-- ===== src/Base/Strings.antt =====
-- Rust strings as lists of Unicode scalar values. The order of their UTF-8 bytes is the order of
-- these lists; `len` counts the bytes. A test that the source makes on every byte and that accepts
-- ASCII only is made on every character: the bytes of a character beyond ASCII all fail it.
use Prim.Native.Nat.{ℕ, zero, suc, ◌+◌, ◌-◌, ◌/◌, ◌%◌}
use Prim.Native.Char.{code}
use Prim.Native.String.{String}
use mathlib.Core.Bool.{Bool, ◌&&◌, ◌||◌, not}
use mathlib.Core.List.{List, [], ◌∷◌, ◌++◌}
use mathlib.Core.Path.{◌≡◌, refl}
use native.Mathlib.Omega.{arith}
use dnfast.Base.Lists.{length, length-append}
use dnfast.Base.Tests.{leb, ◌==◌, if◌then◌else◌}

abbrev pub Text : Type 0
Text = List ℕ

-- The characters of a literal.
abbrev pub text : String → Text
text String.[] = []
text (String.◌∷◌ c s) = code c ∷ text s

abbrev pub utf8_len : ℕ → ℕ
utf8_len c = if leb c 0x7f then 1 else if leb c 0x7ff then 2 else if leb c 0xffff then 3 else 4

-- `str::len`.
abbrev pub len : Text → ℕ
len [] = 0
len (c ∷ s) = utf8_len c + len s

abbrev pub is_digit : ℕ → Bool
is_digit c = leb b'0' c && leb c b'9'

abbrev pub is_upper : ℕ → Bool
is_upper c = leb b'A' c && leb c b'Z'

abbrev pub is_lower : ℕ → Bool
is_lower c = leb b'a' c && leb c b'z'

abbrev pub is_alphanumeric : ℕ → Bool
is_alphanumeric c = is_digit c || (is_upper c || is_lower c)

abbrev pub is_hexdigit : ℕ → Bool
is_hexdigit c = is_digit c || ((leb b'A' c && leb c b'F') || (leb b'a' c && leb c b'f'))

-- `is_ascii_hexdigit() && !is_ascii_uppercase()`.
abbrev pub is_lower_hexdigit : ℕ → Bool
is_lower_hexdigit c = is_hexdigit c && not (is_upper c)

abbrev pub to_lower : ℕ → ℕ
to_lower c = if is_upper c then c + 32 else c

abbrev pub to_upper : ℕ → ℕ
to_upper c = if is_lower c then c - 32 else c

-- `char::is_control`: the category Cc.
abbrev pub is_control : ℕ → Bool
is_control c = leb c 0x1f || (leb 0x7f c && leb c 0x9f)

-- `char::is_whitespace`: the property White_Space.
abbrev pub is_whitespace : ℕ → Bool
is_whitespace c =
    (leb 9 c && leb c 13)
    || c == 0x20
    || c == 0x85
    || c == 0xa0
    || c == 0x1680
    || (leb 0x2000 c && leb c 0x200a)
    || c == 0x2028
    || c == 0x2029
    || c == 0x202f
    || c == 0x205f
    || c == 0x3000

-- `str::trim_start`.
abbrev pub trim_start : Text → Text
trim_start [] = []
trim_start (c ∷ s) = if is_whitespace c then trim_start s else c ∷ s

-- The decimal digits of a machine integer, as `{}` prints it: a u64 has at most 20.
decimal_digits : ℕ → ℕ → Text
decimal_digits zero n = []
decimal_digits (suc fuel) n =
    let front = decimal_digits fuel (n / 10) in
    (if leb n 9 then [] else front) ++ ((b'0' + n % 10) ∷ [])

unfoldable pub decimal : ℕ → Text
unfolding decimal_digits
decimal n = decimal_digits 20 n

-- `{:020}`.
padded_digits : ℕ → ℕ → Text
padded_digits zero n = []
padded_digits (suc width) n = padded_digits width (n / 10) ++ ((b'0' + n % 10) ∷ [])

unfoldable pub decimal_padded : ℕ → Text
unfolding padded_digits
decimal_padded n = padded_digits 20 n

length-padded_digits : (width n : ℕ) → length (padded_digits width n) ≡ width
unfolding padded_digits
length-padded_digits zero n = refl
length-padded_digits (suc width) n = omega (
  arith,
  length-append (padded_digits width (n / 10)) ((b'0' + n % 10) ∷ []),
  length-padded_digits width (n / 10),
)

pub length-decimal_padded : (n : ℕ) → length (decimal_padded n) ≡ 20
unfolding decimal_padded
length-decimal_padded n = length-padded_digits 20 n
