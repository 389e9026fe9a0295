-- ===== src/State/Error.antt =====
-- crates/dnfast-state/src/error.rs, and the fault injection of crates/dnfast-state/src/fault.rs.
use dnfast.Base.{Text, String, text, Bool, true, false, ◌++◌, Result, ok, err, if◌then◌else◌}

pub data StateError : Type 0 where
  io : Text → StateError
  unsafe_path : Text → StateError
  corrupt : Text → StateError
  transition : Text → StateError
  limit : String → StateError
  busy : StateError

pub data FaultPoint : Type 0 where
  none_armed create write file_sync publish directory_sync : FaultPoint

abbrev pub same_point : FaultPoint → FaultPoint → Bool
same_point none_armed none_armed = true
same_point create create = true
same_point write write = true
same_point file_sync file_sync = true
same_point publish publish = true
same_point directory_sync directory_sync = true
same_point _ _ = false

-- `{point:?}`.
point_name : FaultPoint → Text
point_name none_armed = text "None"
point_name create = text "Create"
point_name write = text "Write"
point_name file_sync = text "FileSync"
point_name publish = text "Publish"
point_name directory_sync = text "DirectorySync"

-- `FaultPlan::check` on the armed point: the compare-and-exchange disarms the point that it finds.
unfoldable pub check_fault : FaultPoint → FaultPoint → Result StateError (Unit {0}) × FaultPoint
unfolding point_name
check_fault point armed =
    if same_point point armed
    then (err (io (text "injected " ++ (point_name point ++ text " failure"))), none_armed)
    else (ok tt, armed)
