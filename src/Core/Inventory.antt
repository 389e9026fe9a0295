-- ===== src/Core/Inventory.antt =====
-- crates/dnfast-core/src/inventory.rs: the packages that are installed, and the exact one that is
-- to be erased. The cached digest, which no comparison reads, is left out.
pub mod Erase
use dnfast.Base.{
  ℕ, Text, text, decimal, ◌++◌, Bool, ◌||◌, not, List, [], ◌∷◌, refl, Order, order_by, nat_order,
  list_order, pair_order, same, sort, out_of_order, filter, is_empty, contains, ◌==◌, if◌then◌else◌,
  Result, ok, err, reject, map_err, ◌>>=◌, ◌>>◌,
}
use dnfast.Core.Value.{
  DomainError, DecodeError, custom, rejected, empty, schema_version, duplicate, invalid_plan,
  non_canonical, Sha256Digest, Sha256Digest_order, parse_digest, Evra, Evra_order, validate_evra,
}

pub data EraseLookupError : Type 0 where
  not_found header_mismatch ambiguous : EraseLookupError

pub record InstalledPackage : Type 0 where
  pub name : Text
  pub evra : Evra
  pub vendor : Text
  pub db_instance : ℕ
  pub install_time : ℕ
  pub immutable_header_sha256 : Sha256Digest

abbrev pub package_tuple : InstalledPackage → Text × (Evra × (Text × (ℕ × (ℕ × Sha256Digest))))
package_tuple p =
    (p.name, (p.evra, (p.vendor, (p.db_instance, (p.install_time, p.immutable_header_sha256)))))

abbrev pub tuple_package : Text × (Evra × (Text × (ℕ × (ℕ × Sha256Digest)))) → InstalledPackage
tuple_package (n, (e, (v, (i, (t, h))))) = record {
  name = n;
  evra = e;
  vendor = v;
  db_instance = i;
  install_time = t;
  immutable_header_sha256 = h;
}

-- The derived order compares the fields in turn.
instance abbrev pub InstalledPackage_order : Order InstalledPackage
InstalledPackage_order = order_by pair_order package_tuple tuple_package (λ p. refl)

unfoldable pub decode_package : InstalledPackage → Result DecodeError InstalledPackage
decode_package raw = do reject (is_empty raw.name) (custom "empty package name"); ok raw

-- `InstalledPackage::new`.
unfoldable pub new_package : Text → Evra → Text → ℕ → ℕ → Text → Result DomainError InstalledPackage
new_package name evra vendor db_instance install_time digest = do
  reject (is_empty name) (empty "package_name")
  validate_evra evra
  header ← parse_digest digest "immutable_header_sha256"
  ok (record {
    name = name;
    evra = evra;
    vendor = vendor;
    db_instance = db_instance;
    install_time = install_time;
    immutable_header_sha256 = header;
  })

pub record InstalledInventory : Type 0 where
  pub schema : ℕ  -- schema_version: u32
  pub install_root : Text
  pub rpmdb_backend : Text
  pub rpm_version : Text
  pub packages : List InstalledPackage

-- The loop over the set `identities`, which refuses an instance that was seen.
unfoldable pub check_instances : List ℕ → List InstalledPackage → Result DomainError (Unit {0})
check_instances seen [] = ok tt
check_instances seen (p ∷ packages) =
    reject (contains seen p.db_instance)
      (duplicate (text "rpmdb instance " ++ decimal p.db_instance))
    >>= λ _. check_instances (p.db_instance ∷ seen) packages

unfoldable pub validate_inventory : InstalledInventory → Result DomainError (Unit {0})
unfolding check_instances
validate_inventory i = do
  reject (not (i.schema == 1)) (schema_version 1 i.schema)
  reject (not (same i.install_root (text "/"))) (invalid_plan "inventory root must be /")
  reject (is_empty i.rpmdb_backend) (empty "rpmdb_backend")
  reject (is_empty i.rpm_version) (empty "rpm_version")
  reject (out_of_order i.packages) non_canonical
  check_instances [] i.packages

unfoldable pub decode_inventory : InstalledInventory → Result DecodeError InstalledInventory
decode_inventory raw = do map_err rejected (validate_inventory raw); ok raw

abbrev pub inventory_of : Text → Text → List InstalledPackage → InstalledInventory
inventory_of backend rpm_version packages = record {
  schema = 1;
  install_root = text "/";
  rpmdb_backend = backend;
  rpm_version = rpm_version;
  packages = packages;
}

-- `InstalledInventory::new`.
unfoldable pub new_inventory :
    Text → Text → List InstalledPackage → Result DomainError InstalledInventory
new_inventory backend rpm_version packages = do
  check_instances [] (sort packages)
  validate_inventory (inventory_of backend rpm_version (sort packages))
  ok (inventory_of backend rpm_version (sort packages))

abbrev pub with_instance : ℕ → List InstalledPackage → List InstalledPackage
with_instance db_instance packages = filter (λ p. p.db_instance == db_instance) packages

-- The `match` on the slice of matches.
abbrev pub only_match : List InstalledPackage → Text → Result EraseLookupError InstalledPackage
only_match [] header_sha256 = err not_found
only_match (p ∷ []) header_sha256 =
    if same p.immutable_header_sha256.hex header_sha256 then ok p else err header_mismatch
only_match (p ∷ q ∷ r) header_sha256 = err ambiguous

unfoldable pub erase_target :
    InstalledInventory → ℕ → Text → Result EraseLookupError InstalledPackage
erase_target i db_instance header_sha256 =
    only_match (with_instance db_instance i.packages) header_sha256
