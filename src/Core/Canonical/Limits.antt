-- ===== src/Core/Canonical/Limits.antt =====
-- What `inspect` of crates/dnfast-core/src/canonical.rs bounds, and what it does not.
use dnfast.Base.{
  ℕ, zero, suc, ◌+◌, ◌*◌, ◌≤◌, ◌<◌, true, false, [], ◌∷◌, ◌++◌, ◌≡◌, ◌∙◌, ap, arith, length, ok,
  err,
}
use native.Mathlib.Nat.{add-zero}
use dnfast.Core.Value.{string_too_large}
use dnfast.Core.Canonical.{
  Bytes, Scan, scan_byte, scan, inspect, max_document_bytes, max_string_bytes,
}

-- A string of `n` escape sequences of one letter each, without its quotes.
abbrev pub escapes : ℕ → Bytes
escapes zero = []
escapes (suc n) = b'\\' ∷ b'n' ∷ escapes n

abbrev pub letters : ℕ → Bytes
letters zero = []
letters (suc n) = b'n' ∷ letters n

abbrev in_string_at : ℕ → Scan
in_string_at k = record { depth = 0; string_bytes = k; in_string = true; escaped = false }

scan-escapes :
    (n k : ℕ) (rest : Bytes)
    → scan (in_string_at k) (escapes n ++ rest) ≡ scan (in_string_at (k + n)) rest
unfolding scan scan_byte
scan-escapes zero k rest = rw add-zero
scan-escapes (suc n) k rest =
    scan-escapes n (k + 1) rest ∙ ap (λ (j : ℕ). scan (in_string_at j) rest) (omega arith)

length-escapes : (n : ℕ) (rest : Bytes) → length (escapes n ++ rest) ≡ 2 * n + length rest
length-escapes zero rest = omega arith
length-escapes (suc n) rest = omega (arith, length-escapes n rest)

length-letters : (n : ℕ) (rest : Bytes) → length (letters n ++ rest) ≡ n + length rest
length-letters zero rest = omega arith
length-letters (suc n) rest = omega (arith, length-letters n rest)

scan-letters :
    (n k : ℕ) (rest : Bytes)
    → k ≤ max_string_bytes
    → max_string_bytes < k + n
    → scan (in_string_at k) (letters n ++ rest) ≡ err string_too_large
unfolding scan scan_byte
scan-letters zero k rest small large = absurd (omega arith)
scan-letters (suc n) k rest small large = ground (arith, scan-letters n (k + 1) rest)

-- An escaped byte counts for the length of its string but is not held against the limit: a document
-- that is one string of escape sequences passes at any length that the limit on documents leaves,
-- with one plain byte after as many escapes as the limit it is refused, and so is a string of more
-- plain bytes than the limit.
pub inspect-escapes :
    (n : ℕ)
    → 2 * n + 3 ≤ max_document_bytes
    → (inspect (b'"' ∷ (escapes n ++ b'"' ∷ [])) ≡ ok tt)
      × (max_string_bytes ≤ n
          → inspect (b'"' ∷ (escapes n ++ b'n' ∷ b'"' ∷ [])) ≡ err string_too_large)
      × (max_string_bytes < n → inspect (b'"' ∷ (letters n ++ b'"' ∷ [])) ≡ err string_too_large)
unfolding inspect scan scan_byte
inspect-escapes n h = (
  ground (arith, length-escapes n (b'"' ∷ []), scan-escapes n 0 (b'"' ∷ [])),
  λ many. ground (arith, length-escapes n (b'n' ∷ b'"' ∷ []), scan-escapes n 0 (b'n' ∷ b'"' ∷ [])),
  λ large. ground (arith, length-letters n (b'"' ∷ []), scan-letters n 0 (b'"' ∷ [])),
)
