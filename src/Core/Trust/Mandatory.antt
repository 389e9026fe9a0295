-- ===== src/Core/Trust/Mandatory.antt =====
-- What an accepted trust policy demands: crates/dnfast-core/src/trust.rs, `new` and `validate`.
use dnfast.Base.{
  ℕ, Text, ◌≡◌, ◌↔◌, subst, arith, true, false, List, map, nat_order, list_order, sort, contains,
  contains-sort, out_of_order, is_empty, all, ok, ok-injective, >>-eq-ok, >>=-eq-ok, reject-eq-ok,
}
use dnfast.Core.Value.{parse_digest}
use dnfast.Core.Trust.{
  RepoTrustPolicy, SigningSubkeyRule, is_fingerprint, validate_trust, trust_of, to_ascii_uppercase,
  new_trust,
}

-- Package signatures are mandatory, and some keys are allowed, listed once each, every one by the 40
-- hexadecimal digits of its fingerprint.
pub record IsStrict (p : RepoTrustPolicy) : Type 0 where
  pub signed : p.require_package_signature ≡ true
  pub some_key : is_empty p.allowed_primary_fingerprints ≡ false
  pub ascending : out_of_order p.allowed_primary_fingerprints ≡ false
  pub fingerprints : all is_fingerprint p.allowed_primary_fingerprints ≡ true
  pub named : is_empty p.repo_id ≡ false
  pub current : p.schema ≡ 1

-- A trust policy passes its check exactly when it demands package signatures and allows some keys,
-- in strictly ascending order, each by a fingerprint of 40 hexadecimal digits, for a named
-- repository in the current schema.
pub validate_trust-IsStrict : (p : RepoTrustPolicy) → validate_trust p ≡ ok tt ↔ IsStrict p
unfolding validate_trust
validate_trust-IsStrict p = (λ h. ground arith, λ s. ground (arith, s))

-- A new trust policy is strict, and allows exactly the given keys, in upper case.
pub new_trust-IsStrict :
    (repo_id bundle : Text) (fingerprints : List Text) (rule : SigningSubkeyRule)
    (valid_at_unix : ℕ) {p : RepoTrustPolicy}
    → new_trust repo_id bundle fingerprints rule valid_at_unix ≡ ok p
    → IsStrict p
      × ((key : Text)
          → contains p.allowed_primary_fingerprints key
            ≡ contains (map to_ascii_uppercase fingerprints) key)
unfolding new_trust
new_trust-IsStrict repo bundle fingerprints rule valid_at h =
    let (_, h₁) = reject-eq-ok (is_empty repo) _ _ h in
    let (digest, _, h₂) = >>=-eq-ok (parse_digest bundle "key_bundle_sha256") _ h₁ in
    let value = trust_of repo digest (sort (map to_ascii_uppercase fingerprints)) rule valid_at in
    let (valid, e) = >>-eq-ok (validate_trust value) (ok value) h₂ in
    subst
      (λ p.
        IsStrict p
        × ((key : Text)
            → contains p.allowed_primary_fingerprints key
              ≡ contains (map to_ascii_uppercase fingerprints) key))
      (ok-injective e)
      ((validate_trust-IsStrict value).0 valid, contains-sort (map to_ascii_uppercase fingerprints))
