-- ===== src/Core/Tests/Inventories.antt =====
-- An inventory of two packages, and lookups in it.
use dnfast.Base.{ℕ, Text, text, [], ◌∷◌, ◌≡◌, ◌≢◌, ◌↔◌, refl, true, ok, err, Permᴰ, contains, sort}
use dnfast.Core.Value.{Evra, parse_digest, validate_evra}
use dnfast.Core.Samples.{hash, digest, old_version, new_version}
use dnfast.Core.Inventory.{
  InstalledPackage, InstalledPackage_order, InstalledInventory, ambiguous, header_mismatch,
  not_found, new_package, new_inventory, check_instances, validate_inventory, erase_target,
  inventory_of,
}
use dnfast.Core.Inventory.Erase.{
  erase_target-exact, erase_target-ne-ambiguous, new_inventory-canonical,
}

abbrev installed : Text → Evra → ℕ → InstalledPackage
installed name evra instance_id = record {
  name = name;
  evra = evra;
  vendor = text "Fedora Project";
  db_instance = instance_id;
  install_time = 1700000000;
  immutable_header_sha256 = digest;
}

abbrev bash : InstalledPackage
bash = installed (text "bash") old_version 7

abbrev zsh : InstalledPackage
zsh = installed (text "zsh") new_version 8

abbrev inventory : InstalledInventory
inventory = inventory_of (text "sqlite") (text "6.0.0") (bash ∷ zsh ∷ [])

made : new_package (text "bash") old_version (text "Fedora Project") 7 1700000000 hash ≡ ok bash
unfolding new_package parse_digest validate_evra
made = refl

inventory_valid : validate_inventory inventory ≡ ok tt
unfolding validate_inventory
inventory_valid = refl

wrong_header : erase_target inventory 7 (text "0") ≡ err header_mismatch
unfolding erase_target
wrong_header = refl

missing : erase_target inventory 9 hash ≡ err not_found
unfolding erase_target
missing = refl

erase_target-exact_example : erase_target inventory 8 hash ≡ ok zsh ↔ (
    (contains inventory.packages zsh ≡ true)
    × (zsh.db_instance ≡ 8)
    × (zsh.immutable_header_sha256.hex ≡ hash))
erase_target-exact_example = erase_target-exact inventory 8 hash zsh inventory_valid

no_lookup_ambiguous : erase_target inventory 8 hash ≢ err ambiguous
no_lookup_ambiguous = erase_target-ne-ambiguous inventory 8 hash inventory_valid

read_first : new_inventory (text "sqlite") (text "6.0.0") (bash ∷ zsh ∷ []) ≡ ok inventory
unfolding new_inventory check_instances validate_inventory sort
read_first = refl

new_inventory-canonical_example :
    (validate_inventory inventory ≡ ok tt)
    × (new_inventory (text "sqlite") (text "6.0.0") (zsh ∷ bash ∷ []) ≡ ok inventory)
new_inventory-canonical_example =
    new_inventory-canonical (text "sqlite") (text "6.0.0") (Permᴰ.swap refl refl) read_first
