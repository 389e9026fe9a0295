-- ===== src/Core/Tests/Documents.antt =====
-- Documents: a codec of one-byte documents stands for `serde_json`.
use dnfast.Base.{ℕ, ◌≤◌, ◌<◌, ◌++◌, ◌∷◌, [], ◌≡◌, refl, text, Text, Result, ok, err, arith}
use dnfast.Core.Value.{string_too_large}
use dnfast.Core.Canonical.{Bytes, Serde, inspect, parse, serialize, max_string_bytes}
use dnfast.Core.Canonical.Limits.{inspect-escapes, escapes, letters}
use dnfast.Core.Canonical.Form.{parse-injective, parse-serialize}

read_digit : Bytes → Result Text ℕ
read_digit [] = err (text "EOF")
read_digit (c ∷ []) = ok c
read_digit (c ∷ d ∷ r) = err (text "trailing characters")

abbrev digits : Serde ℕ
digits = record { from_slice = read_digit; to_vec = λ n. ok (n ∷ []) }

written : serialize digits b'7' ≡ ok (b'7' ∷ [])
unfolding serialize
written = refl

seen : inspect (b'7' ∷ []) ≡ ok tt
unfolding inspect
seen = refl

read_back : read_digit (b'7' ∷ []) ≡ ok b'7'
unfolding read_digit
read_back = refl

reads_back : parse digits (b'7' ∷ []) ≡ ok b'7'
reads_back = parse-serialize digits b'7' (b'7' ∷ []) written seen read_back

parse-injective_example :
    (◌≡◌ {A = Bytes} (b'7' ∷ []) (b'7' ∷ [])) × (serialize digits b'7' ≡ ok (b'7' ∷ []))
parse-injective_example = parse-injective digits (b'7' ∷ []) (b'7' ∷ []) reads_back reads_back

inspect-escapes_example :
    (inspect (b'"' ∷ (escapes 2000000 ++ b'"' ∷ [])) ≡ ok tt)
    × (max_string_bytes ≤ 2000000
        → inspect (b'"' ∷ (escapes 2000000 ++ b'n' ∷ b'"' ∷ [])) ≡ err string_too_large)
    × (max_string_bytes < 2000000
        → inspect (b'"' ∷ (letters 2000000 ++ b'"' ∷ [])) ≡ err string_too_large)
inspect-escapes_example = inspect-escapes 2000000 (omega arith)
