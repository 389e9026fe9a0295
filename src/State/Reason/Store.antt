-- ===== src/State/Reason/Store.antt =====
-- `ReasonStateStore` of crates/dnfast-state/src/reason.rs: its file, read and written whole under a
-- lock. The store is its root's descriptor; `serde_json` and the system calls are parameters.
use dnfast.Base.{
  false, ◌++◌, ℕ, ◌*◌, Text, text, Bool, ◌&&◌, ◌||◌, not, Option, none, some, List, [], ◌∷◌, map,
  nat_order, list_order, pair_order, same, len, length, all, is_lower_hexdigit, out_of_order,
  contains, ltb, ◌==◌, sort, get, collect_map, Result, ok, err, map_err, if◌then◌else◌,
}
use dnfast.Core.Value.Display.{to_string}
use dnfast.Core.Canonical.{Bytes, Serde, serialize, parse}
use dnfast.Core.Policy.{SolverPolicy, is_autoremove_candidate}
use dnfast.Core.Inventory.{InstalledPackage, InstalledInventory}
use dnfast.Core.PackageAction.{PackageAction}
use dnfast.State.Error.{StateError, corrupt, limit, unsafe_path}
use dnfast.State.Io.{◌>>=◌, ◌>>◌, pure, lift, fail_if}
use dnfast.State.Names.{is_identifier}
use dnfast.State.Fs.{Kernel, Run, read_optional_bounded, write_atomic_replacing}
use dnfast.State.Fs.Root.{Component, root_dir, normal, open_or_create_root}
use dnfast.State.Fs.Lock.{locked}
use dnfast.State.Reason.{
  ReasonRecord, ReasonRecord_order, Exact, exact_of, exact_of_record, is_fixed, success_records,
}

pub record ReasonState : Type 0 where
  pub schema : ℕ  -- schema_version: u32
  pub records : List ReasonRecord

abbrev pub max_reason_bytes : ℕ
max_reason_bytes = 64 * 1024 * 1024

abbrev pub max_records : ℕ
max_records = 200000

abbrev pub is_reason_record : ReasonRecord → Bool
is_reason_record r =
    not (r.db_instance == 0)
    && (len r.header_sha256 == 64
        && (all is_lower_hexdigit r.header_sha256 && is_identifier r.package_name))

-- The loop over the set `identities`.
unfoldable pub check_records : List Exact → List ReasonRecord → Result StateError (Unit {0})
check_records identities [] = ok tt
check_records identities (r ∷ records) =
    let rest = check_records (exact_of_record r ∷ identities) records in
    if not (is_reason_record r) || contains identities (exact_of_record r)
    then err (corrupt (text "invalid package reason record"))
    else rest

unfoldable pub validate_reasons : ReasonState → Result StateError (Unit {0})
unfolding check_records
validate_reasons s =
    if not (s.schema == 1) || ltb max_records (length s.records)
    then err (corrupt (text "invalid package reason state bounds"))
    else if out_of_order s.records
    then err (corrupt (text "package reason records are not canonical"))
    else check_records [] s.records

abbrev pub state_file : Text
state_file = text "state.json"

-- The names of the candidates, by the installed package that each record is found at.
unfoldable pub candidate_at : SolverPolicy → ReasonRecord → Option InstalledPackage → List Text
candidate_at policy r none = []
candidate_at policy r (some p) =
    if not (same p.name r.package_name)
      || (not (is_autoremove_candidate r.reason) || is_fixed policy p.name)
    then []
    else r.package_name ∷ []

unfoldable pub candidate_names :
    List (Exact × InstalledPackage) → SolverPolicy → List ReasonRecord → List Text
unfolding candidate_at
candidate_names installed policy [] = []
candidate_names installed policy (r ∷ records) =
    candidate_at policy r (get installed (exact_of_record r))
    ++ candidate_names installed policy records

abbrev pub repeats_from : Text → List Text → Bool
repeats_from x [] = false
repeats_from x (y ∷ ys) = same x y || repeats_from y ys

-- `windows(2).any(|pair| pair[0] == pair[1])`.
abbrev pub repeats : List Text → Bool
repeats [] = false
repeats (x ∷ xs) = repeats_from x xs

-- The body of `autoremove_candidates` after the state is read.
unfoldable pub candidates_in :
    InstalledInventory → SolverPolicy → List ReasonRecord → Result StateError (List Text)
unfolding candidate_names
candidates_in inventory policy records =
    let installed = collect_map (map (λ p. (exact_of p, p)) inventory.packages) in
    let names = sort (candidate_names installed policy records) in
    if repeats names
    then err (corrupt (text "autoremove package name has multiple installed identities"))
    else ok names

module _ (k : Kernel) (serde : Serde ReasonState) where
  unfoldable pub encode_reasons : ReasonState → Result StateError Bytes
  encode_reasons state = map_err (λ e. corrupt (to_string e)) (serialize serde state)

  unfoldable pub decode_reasons : Bytes → Run k ReasonState
  decode_reasons bytes = do
    state ← lift (map_err (λ e. corrupt (to_string e)) (parse serde bytes))
    again ← lift (encode_reasons state)
    fail_if (not (same again bytes)) (corrupt (text "package reason state is not canonical JSON"))
    lift (validate_reasons state)
    pure state

  unfoldable pub read_or_default : Option Bytes → Run k ReasonState
  unfolding decode_reasons
  read_or_default none = pure (record { schema = 1; records = [] })
  read_or_default (some bytes) = decode_reasons bytes

  unfoldable pub read_reasons : k.Fd → Run k ReasonState
  unfolding read_or_default
  read_reasons root = do
    found ← read_optional_bounded k root state_file max_reason_bytes
    read_or_default found

  unfoldable pub write_reasons : k.Fd → ReasonState → Run k (Unit {0})
  write_reasons root state = do
    lift (validate_reasons state)
    bytes ← lift (encode_reasons state)
    fail_if (ltb max_reason_bytes (length bytes)) (limit "package reason state")
    write_atomic_replacing k root state_file bytes

  unfoldable pub record_success :
      k.Fd
      → InstalledInventory
      → InstalledInventory
      → List PackageAction
      → SolverPolicy
      → Run k (Unit {0})
  record_success root before after actions policy = locked k root (do
    state ← read_reasons root
    records ← lift (success_records before after actions policy state.records)
    write_reasons root (record { schema = 1; records = records }))

  unfoldable pub autoremove_candidates :
      k.Fd → InstalledInventory → SolverPolicy → Run k (List Text)
  autoremove_candidates root inventory policy =
      locked k root
        (do state ← read_reasons root; lift (candidates_in inventory policy state.records))

  unfoldable pub open_reasons : List Component → Run k k.Fd
  open_reasons path = open_or_create_root k path

  unfoldable pub open_system_reasons : Run k k.Fd
  unfolding open_reasons
  open_system_reasons = do
    fail_if (not (k.euid == 0)) (unsafe_path (text "system package reason state requires root"))
    open_reasons (
        root_dir
        ∷ normal (text "var")
        ∷ normal (text "lib")
        ∷ normal (text "dnfast")
        ∷ normal (text "reasons")
        ∷ [])
