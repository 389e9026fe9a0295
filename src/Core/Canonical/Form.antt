-- ===== src/Core/Canonical/Form.antt =====
-- Canonical form is unique: crates/dnfast-core/src/canonical.rs, `parse` and `serialize`.
use dnfast.Base.{
  ap, ok-injective, ◌≡◌, ◌∙◌, sym, refl, arith, same, same→eq, same_self, not, nat_order,
  list_order, ok, map_err, >>=-eq-ok, >>-eq-ok, reject-eq-ok,
}
use dnfast.Core.Value.{json}
use dnfast.Core.Canonical.{Bytes, Serde, serialize, parse, inspect}

module _ {ℓ} {A : Type ℓ} (serde : Serde A) where
  parse-parts :
      (bytes : Bytes) {value : A}
      → parse serde bytes ≡ ok value
      → (inspect bytes ≡ ok tt) × (serialize serde value ≡ ok bytes)
  unfolding parse
  parse-parts bytes {value} h =
      let (seen, h₁) = >>-eq-ok (inspect bytes) _ h in
      let (v, e, h₂) = >>=-eq-ok (map_err json (serde.from_slice bytes)) _ h₁ in
      let (again, e₂, h₃) = >>=-eq-ok (serialize serde v) _ h₂ in
      let (canonical, e₃) = reject-eq-ok (not (same again bytes)) _ _ h₃ in
      let same_bytes : again ≡ bytes = same→eq again bytes (ground arith) in
      (seen, rw (← ok-injective e₃) (e₂ ∙ ap ok same_bytes))

  -- A value has one document: documents that parse to the same value are equal, and the document
  -- is the one that the value is written as.
  pub parse-injective :
      (xs ys : Bytes) {value : A}
      → parse serde xs ≡ ok value
      → parse serde ys ≡ ok value
      → (xs ≡ ys) × (serialize serde value ≡ ok xs)
  parse-injective xs ys h k =
      let p = (parse-parts xs h).1 in let q = (parse-parts ys k).1 in (ok-injective (sym p ∙ q), p)

  -- What is written is read back, if the document is within the limits and `serde_json` reads its
  -- own output as the value that it wrote.
  pub parse-serialize :
      (value : A) (bytes : Bytes)
      → serialize serde value ≡ ok bytes
      → inspect bytes ≡ ok tt
      → serde.from_slice bytes ≡ ok value
      → parse serde bytes ≡ ok value
  unfolding parse
  parse-serialize value bytes s i f = rw (i, f, s) (rw (same_self bytes) refl)
