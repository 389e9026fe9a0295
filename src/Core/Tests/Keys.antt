-- ===== src/Core/Tests/Keys.antt =====
-- A trust policy of two keys.
use dnfast.Base.{
  Text, text, List, [], ◌∷◌, map, ◌≡◌, ◌↔◌, refl, ok, err, contains, sort, nat_order, list_order,
}
use dnfast.Core.Value.{parse_digest, empty}
use dnfast.Core.Samples.{hash, digest}
use dnfast.Core.Trust.{
  RepoTrustPolicy, primary_only, validate_trust, trust_of, to_ascii_uppercase, new_trust,
}
use dnfast.Core.Trust.Mandatory.{IsStrict, validate_trust-IsStrict, new_trust-IsStrict}

abbrev first_key : Text
first_key = text "36f612dcf27f7d1a48a835e4dbfcf71c6d9f90a6"

abbrev second_key : Text
second_key = text "0123456789ABCDEF0123456789ABCDEF01234567"

abbrev policy : RepoTrustPolicy
policy =
    trust_of (text "fedora") digest (second_key ∷ to_ascii_uppercase first_key ∷ []) primary_only
      1700000000

made :
    new_trust (text "fedora") hash (first_key ∷ second_key ∷ []) primary_only 1700000000 ≡ ok policy
unfolding new_trust validate_trust parse_digest sort
made = refl

no_key :
    new_trust (text "fedora") hash [] primary_only 0 ≡ err (empty "allowed_primary_fingerprints")
unfolding new_trust validate_trust parse_digest sort
no_key = refl

only_signed : validate_trust policy ≡ ok tt ↔ IsStrict policy
only_signed = validate_trust-IsStrict policy

abbrev given : List Text
given = map to_ascii_uppercase (first_key ∷ second_key ∷ [])

new_trust-IsStrict_example :
    IsStrict policy
    × ((key : Text) → contains policy.allowed_primary_fingerprints key ≡ contains given key)
new_trust-IsStrict_example =
    new_trust-IsStrict (text "fedora") hash (first_key ∷ second_key ∷ []) primary_only 1700000000
      made
