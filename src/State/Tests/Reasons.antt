-- ===== src/State/Tests/Reasons.antt =====
-- The reasons of two packages: after an upgrade, and those that autoremove may take.
use dnfast.Base.{
  All-contains, ◌≢◌, All, ℕ, Text, text, ◌≡◌, refl, true, false, none, some, List, [], ◌∷◌, ok, err,
  same, contains, length, sort, dedup, insert, collect_from, nat_order, list_order, pair_order,
  if◌then◌else◌,
}
use dnfast.Core.Canonical.{Serde}
use dnfast.Core.Value.{Evra, x86_64}
use dnfast.Core.Policy.{PackageReason, SolverPolicy, fedora44, dependency}
use dnfast.Core.Samples.{digest, old_version, new_version, bash_upgrade, libs_install}
use dnfast.Core.Inventory.{InstalledPackage, InstalledInventory, inventory_of, validate_inventory}
use dnfast.Core.PackageAction.{PackageAction, PackageAction_order}
use dnfast.State.Error.{none_armed}
use dnfast.State.Fs.{Machine}
use dnfast.State.Reason.{
  ReasonRecord, ReasonRecord_order, PlannedIdentity_order, is_fixed, planned_of,
  proposals_from_plan, reconcile_reasons, replacement_reasons, success_records,
}
use dnfast.State.Reason.Store.{ReasonState, check_records, state_file}
use dnfast.State.Reason.Replaced.{Replaces}
use dnfast.State.Reason.Success.{
  with_reason, success_records-total, success_records-lasting, success_records-inherited,
}
use dnfast.State.Tests.Files.{disk_kernel}

abbrev policy : SolverPolicy
policy = fedora44 x86_64 (text "glibc" ∷ []) (text "kernel" ∷ [])

abbrev installed : Text → Evra → ℕ → InstalledPackage
installed name evra instance_id = record {
  name = name;
  evra = evra;
  vendor = text "Fedora Project";
  db_instance = instance_id;
  install_time = 1700000000;
  immutable_header_sha256 = digest;
}

abbrev old_bash : InstalledPackage
old_bash = installed (text "bash") old_version 17

abbrev new_bash : InstalledPackage
new_bash = installed (text "bash") new_version 18

abbrev libs : InstalledPackage
libs = installed (text "bash-libs") new_version 19

abbrev zsh : InstalledPackage
zsh = installed (text "zsh") old_version 5

abbrev before : InstalledInventory
before = inventory_of (text "sqlite") (text "6.0.0") (old_bash ∷ zsh ∷ [])

abbrev after : InstalledInventory
after = inventory_of (text "sqlite") (text "6.0.0") (new_bash ∷ libs ∷ zsh ∷ [])

abbrev actions : List PackageAction
actions = libs_install ∷ bash_upgrade ∷ []

-- What was known before: `bash` is a dependency, and so is `zsh`.
abbrev known : List ReasonRecord
known = with_reason zsh dependency ∷ with_reason old_bash dependency ∷ []

abbrev next : List ReasonRecord
next =
    with_reason zsh dependency ∷ with_reason new_bash dependency ∷ with_reason libs dependency ∷ []

succeeds : success_records before after actions policy known ≡ ok next
unfolding success_records reconcile_reasons replacement_reasons proposals_from_plan collect_from
    insert sort dedup fedora44
succeeds = refl

after_valid : validate_inventory after ≡ ok tt
unfolding validate_inventory
after_valid = refl

success_records-total_example :
    (next : List ReasonRecord) × (success_records before after actions policy known ≡ ok next)
    × (length next ≡ length after.packages)
    × All (λ p. (r : PackageReason) × (contains next (with_reason p r) ≡ true)) after.packages
success_records-total_example = success_records-total before after actions policy known after_valid

known_valid : check_records [] known ≡ ok tt
unfolding check_records
known_valid = refl

not_replaced : ¬ Replaces known actions (planned_of zsh)
not_replaced r =
    All-contains (λ a. a.name ≢ text "zsh") actions r.action (λ e. cc, (λ e. cc, tt)) r.planned
      r.to_name

zsh_free : is_fixed policy zsh.name ≡ false
unfolding fedora44 sort dedup
zsh_free = refl

success_records-lasting_example : contains next (with_reason zsh dependency) ≡ true
success_records-lasting_example =
    success_records-lasting before after actions policy known zsh (with_reason zsh dependency)
      succeeds after_valid known_valid refl zsh_free not_replaced refl refl

bash_free : is_fixed policy new_bash.name ≡ false
unfolding fedora44 sort dedup
bash_free = refl

bash_replaced : Replaces known actions (planned_of new_bash)
bash_replaced = record {
  action = bash_upgrade;
  replaced = with_reason old_bash dependency;
  digest = digest;
  planned = refl;
  not_install = λ e. cc;
  to_name = refl;
  to_version = refl;
  of_instance = refl;
  of_header = refl;
  header = refl;
  known = refl;
}

success_records-inherited_example :
    (r : Replaces known actions (planned_of new_bash)) × (contains next
        (with_reason new_bash r.replaced.reason)
      ≡ true)
success_records-inherited_example =
    success_records-inherited before after actions policy known new_bash succeeds after_valid
      known_valid refl bash_free bash_replaced

-- A codec of one document, the state with the three records.
abbrev codec : Serde ReasonState
codec = record {
  from_slice = λ bytes.
      if same bytes (b'r' ∷ [])
      then ok (record { schema = 1; records = next })
      else err (text "EOF");
  to_vec = λ s. ok (b'r' ∷ []);
}

abbrev machine : Machine (disk_kernel [])
machine = (λ name. if same name state_file then some (b'r' ∷ []) else none, none_armed)
