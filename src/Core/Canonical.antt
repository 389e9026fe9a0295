-- ===== src/Core/Canonical.antt =====
-- crates/dnfast-core/src/canonical.rs: the limits that a JSON document must meet before it is
-- parsed, and the test that it is in canonical form. `serde_json` is a parameter: `from_slice`,
-- and `to_vec` of `to_value`, which may each refuse with a message.
pub mod Limits
pub mod Form
use dnfast.Base.{
  ℕ, ◌+◌, ◌-◌, ◌*◌, Text, Bool, true, false, ◌||◌, not, List, [], ◌∷◌, length, same, nat_order,
  list_order, ltb, ◌==◌, if◌then◌else◌, Result, ok, err, reject, map_err, ◌>>=◌, ◌>>◌,
}
use dnfast.Core.Value.{
  DomainError, json, non_canonical, document_too_large, depth_exceeded, string_too_large,
}

abbrev pub Bytes : Type 0
Bytes = List ℕ

abbrev pub max_document_bytes : ℕ
max_document_bytes = 16 * 1024 * 1024

abbrev pub max_string_bytes : ℕ
max_string_bytes = 1024 * 1024

abbrev pub max_depth : ℕ
max_depth = 32

-- The variables of the loop of `inspect`.
pub record Scan : Type 0 where
  pub depth : ℕ
  pub string_bytes : ℕ
  pub in_string : Bool
  pub escaped : Bool

in_text : Scan → ℕ → Result DomainError Scan
in_text s byte =
    if s.escaped
    then ok (record s { escaped = false; string_bytes = s.string_bytes + 1 })
    else if byte == b'\\'
    then ok (record s { escaped = true })
    else if byte == b'"'
    then ok (record s { in_string = false; string_bytes = 0 })
    else if ltb max_string_bytes (s.string_bytes + 1)
    then err string_too_large
    else ok (record s { string_bytes = s.string_bytes + 1 })

-- `depth.saturating_sub(1)` is `-` on ℕ.
in_structure : Scan → ℕ → Result DomainError Scan
in_structure s byte =
    if byte == b'"'
    then ok (record s { in_string = true })
    else if byte == b'{' || byte == b'['
    then (if ltb max_depth (s.depth + 1)
        then err depth_exceeded
        else ok (record s { depth = s.depth + 1 }))
    else if byte == b'}' || byte == b']'
    then ok (record s { depth = s.depth - 1 })
    else ok s

-- One turn of the loop.
scan_byte : Scan → ℕ → Result DomainError Scan
unfolding in_text in_structure
scan_byte s byte = if s.in_string then in_text s byte else in_structure s byte

pub scan : Scan → Bytes → Result DomainError Scan
scan s [] = ok s
scan s (byte ∷ bytes) = scan_byte s byte >>= λ next. scan next bytes

abbrev pub start : Scan
start = record { depth = 0; string_bytes = 0; in_string = false; escaped = false }

unfoldable pub inspect : Bytes → Result DomainError (Unit {0})
unfolding scan scan_byte
inspect bytes = do
  reject (ltb max_document_bytes (length bytes)) document_too_large
  end_state ← scan start bytes
  ok tt

-- What the code uses of `serde_json` for one type of document.
pub record Serde {ℓ} (A : Type ℓ) : Type ℓ where
  pub from_slice : Bytes → Result Text A
  pub to_vec : A → Result Text Bytes

module _ {ℓ} {A : Type ℓ} (serde : Serde A) where
  -- `canonical_encode`.
  unfoldable pub serialize : A → Result DomainError Bytes
  serialize value = map_err json (serde.to_vec value)

  -- `canonical_decode`.
  unfoldable pub parse : Bytes → Result DomainError A
  unfolding serialize
  parse bytes = do
    inspect bytes
    value ← map_err json (serde.from_slice bytes)
    again ← serialize value
    reject (not (same again bytes)) non_canonical
    ok value
