-- ===== src/State/Reason/Autoremove.antt =====
-- Which packages `autoremove_candidates` of crates/dnfast-state/src/reason.rs names.
use dnfast.Base.{
  Text, ◌≡◌, true, false, Option, none, some, List, [], All, nat_order, list_order, pair_order,
  contains, out_of_order, ok,
}
use dnfast.Core.Policy.{SolverPolicy, is_autoremove_candidate}
use dnfast.Core.Inventory.{InstalledPackage, InstalledPackage_order, InstalledInventory}
use dnfast.Core.Canonical.{Bytes, Serde, parse}
use dnfast.State.Fs.{Kernel, Machine, read_optional_bounded}
use dnfast.State.Reason.{ReasonRecord, ReasonRecord_order, is_fixed}
use dnfast.State.Reason.Store.{ReasonState, validate_reasons, state_file, max_reason_bytes}

-- Why a name is a candidate: a record of a dependency, of an installed package of that name that
-- the policy does not fix.
pub record IsUnneeded (inventory : InstalledInventory) (policy : SolverPolicy)
    (records : List ReasonRecord) (name : Text) : Type 0 where
  pub reason : ReasonRecord
  pub installed : InstalledPackage
  pub known : contains records reason ≡ true
  pub there : contains inventory.packages installed ≡ true
  pub same_instance : installed.db_instance ≡ reason.db_instance
  pub same_name : installed.name ≡ name
  pub dependency : is_autoremove_candidate reason.reason ≡ true
  pub free : is_fixed policy name ≡ false

-- What a file holds: no file is a state without records.
abbrev pub IsContent : Serde ReasonState → Option Bytes → ReasonState → Type 0
IsContent serde none st = st.records ≡ []
IsContent serde (some bytes) st = parse serde bytes ≡ ok st

module _ (k : Kernel) (serde : Serde ReasonState) where
  -- The state that the file holds passes the checks.
  pub record IsStored (root : k.Fd) (s : Machine k) (st : ReasonState) : Type 0 where
    pub found : Option Bytes
    pub read : (read_optional_bounded k root state_file max_reason_bytes s).0 ≡ ok found
    pub content : IsContent serde found st
    pub valid : validate_reasons st ≡ ok tt

  abbrev pub AreUnneeded : k.Fd → InstalledInventory → SolverPolicy → Machine k → List Text → Type 0
  AreUnneeded root inventory policy s names =
      (st : ReasonState) × IsStored root s st
      × (out_of_order names ≡ false)
      × All (IsUnneeded inventory policy st.records) names
