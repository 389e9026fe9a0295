-- ===== src/Core/Trust.antt =====
-- crates/dnfast-core/src/trust.rs: which keys may sign the packages of a repository.
pub mod Mandatory
use dnfast.Base.{
  ℕ, Text, text, len, Bool, not, ◌&&◌, List, [], ◌∷◌, map, nat_order, list_order, sort,
  out_of_order, is_empty, all, is_hexdigit, to_upper, true, ◌==◌, Result, ok, err, reject, map_err,
  ◌>>=◌, ◌>>◌,
}
use dnfast.Core.Value.{
  DomainError, DecodeError, rejected, empty, schema_version, duplicate, invalid_digest,
  unsafe_action, Sha256Digest, parse_digest,
}

pub data SigningSubkeyRule : Type 0 where
  primary_only authorized_subkeys : SigningSubkeyRule

pub record RepoTrustPolicy : Type 0 where
  pub schema : ℕ  -- schema_version: u32
  pub repo_id : Text
  pub key_bundle_sha256 : Sha256Digest
  pub allowed_primary_fingerprints : List Text
  pub signing_subkey_rule : SigningSubkeyRule
  pub valid_at_unix : ℕ
  pub require_package_signature : Bool

abbrev pub is_fingerprint : Text → Bool
is_fingerprint fingerprint = len fingerprint == 40 && all is_hexdigit fingerprint

unfoldable pub validate_trust : RepoTrustPolicy → Result DomainError (Unit {0})
validate_trust p = do
  reject (not (p.schema == 1)) (schema_version 1 p.schema)
  reject (is_empty p.repo_id) (empty "repo_id")
  reject (is_empty p.allowed_primary_fingerprints) (empty "allowed_primary_fingerprints")
  reject (out_of_order p.allowed_primary_fingerprints) (duplicate (text "primary fingerprint"))
  reject (not (all is_fingerprint p.allowed_primary_fingerprints))
      (invalid_digest "allowed_primary_fingerprints")
  reject (not p.require_package_signature) (unsafe_action "package signatures are mandatory")
  ok tt

unfoldable pub decode_trust : RepoTrustPolicy → Result DecodeError RepoTrustPolicy
decode_trust raw = do map_err rejected (validate_trust raw); ok raw

abbrev pub trust_of : Text → Sha256Digest → List Text → SigningSubkeyRule → ℕ → RepoTrustPolicy
trust_of repo_id bundle fingerprints rule valid_at_unix = record {
  schema = 1;
  repo_id = repo_id;
  key_bundle_sha256 = bundle;
  allowed_primary_fingerprints = fingerprints;
  signing_subkey_rule = rule;
  valid_at_unix = valid_at_unix;
  require_package_signature = true;
}

-- `to_ascii_uppercase`.
abbrev pub to_ascii_uppercase : Text → Text
to_ascii_uppercase value = map to_upper value

-- `RepoTrustPolicy::new`.
unfoldable pub new_trust :
    Text → Text → List Text → SigningSubkeyRule → ℕ → Result DomainError RepoTrustPolicy
new_trust repo_id key_bundle_sha256 fingerprints rule valid_at_unix = do
  reject (is_empty repo_id) (empty "repo_id")
  bundle ← parse_digest key_bundle_sha256 "key_bundle_sha256"
  validate_trust
      (trust_of repo_id bundle (sort (map to_ascii_uppercase fingerprints)) rule valid_at_unix)
  ok (trust_of repo_id bundle (sort (map to_ascii_uppercase fingerprints)) rule valid_at_unix)
