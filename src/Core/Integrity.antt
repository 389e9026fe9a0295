-- ===== src/Core/Integrity.antt =====
-- crates/dnfast-core/src/integrity.rs: the digests and the repositories that a plan is bound to.
use dnfast.Base.{
  ℕ, Text, Bool, ◌||◌, not, List, refl, Order, nat_order, list_order, pair_order, order_by,
  is_empty, any, out_of_order, is_alphanumeric, ◌==◌, Result, ok, reject, map_err, ◌>>=◌, ◌>>◌,
}
use dnfast.Core.Value.{
  DomainError, invalid_plan, non_canonical, DecodeError, rejected, Sha256Digest, Sha256Digest_order,
  parse_digest,
}

pub record RepositoryBinding : Type 0 where
  pub id : Text
  pub generation_sha256 : Sha256Digest
  pub origin_sha256 : Sha256Digest
  pub trust_sha256 : Sha256Digest

abbrev pub binding_tuple : RepositoryBinding → Text × (Sha256Digest × (Sha256Digest × Sha256Digest))
binding_tuple b = (b.id, (b.generation_sha256, (b.origin_sha256, b.trust_sha256)))

abbrev pub tuple_binding : Text × (Sha256Digest × (Sha256Digest × Sha256Digest)) → RepositoryBinding
tuple_binding (i, (g, (o, t))) = record {
  id = i;
  generation_sha256 = g;
  origin_sha256 = o;
  trust_sha256 = t;
}

instance abbrev pub RepositoryBinding_order : Order RepositoryBinding
RepositoryBinding_order = order_by pair_order binding_tuple tuple_binding (λ b. refl)

abbrev pub outside_binding_id : ℕ → Bool
outside_binding_id c = not (is_alphanumeric c || (c == b'_' || (c == b'.' || c == b'-')))

-- `RepositoryBinding::new`.
unfoldable pub new_binding :
    Text → Sha256Digest → Sha256Digest → Sha256Digest → Result DomainError RepositoryBinding
new_binding id generation_sha256 origin_sha256 trust_sha256 = do
  reject (is_empty id || any outside_binding_id id)
      (invalid_plan "invalid repository binding identifier")
  ok (record {
    id = id;
    generation_sha256 = generation_sha256;
    origin_sha256 = origin_sha256;
    trust_sha256 = trust_sha256;
  })

unfoldable pub decode_binding : RepositoryBinding → Result DecodeError RepositoryBinding
unfolding new_binding
decode_binding raw =
    map_err rejected (new_binding raw.id raw.generation_sha256 raw.origin_sha256 raw.trust_sha256)

pub record PlanIntegrity : Type 0 where
  pub policy_sha256 : Sha256Digest
  pub trust_sha256 : Sha256Digest
  pub inventory_sha256 : Sha256Digest
  pub metadata_sha256 : Sha256Digest
  pub planning_snapshot_sha256 : Sha256Digest
  pub selected_repositories : List RepositoryBinding

-- `PlanIntegrity::validate`.
unfoldable pub validate_integrity : PlanIntegrity → Result DomainError (Unit {0})
validate_integrity i = do
  reject (is_empty i.selected_repositories || out_of_order i.selected_repositories) non_canonical
  ok tt

-- The argument `digests: [&str; 5]` of `PlanIntegrity::new`.
pub record Digests : Type 0 where
  pub policy : Text
  pub trust : Text
  pub inventory : Text
  pub metadata : Text
  pub planning_snapshot : Text

-- `PlanIntegrity::new`.
unfoldable pub new_integrity : Digests → List RepositoryBinding → Result DomainError PlanIntegrity
new_integrity digests selected_repositories = do
  policy ← parse_digest digests.policy "policy_sha256"
  trust ← parse_digest digests.trust "trust_sha256"
  inventory ← parse_digest digests.inventory "inventory_sha256"
  metadata ← parse_digest digests.metadata "metadata_sha256"
  snapshot ← parse_digest digests.planning_snapshot "planning_snapshot_sha256"
  let value : PlanIntegrity = record {
    policy_sha256 = policy;
    trust_sha256 = trust;
    inventory_sha256 = inventory;
    metadata_sha256 = metadata;
    planning_snapshot_sha256 = snapshot;
    selected_repositories = selected_repositories;
  }
  validate_integrity value
  ok value
