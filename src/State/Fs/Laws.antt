-- ===== src/State/Fs/Laws.antt =====
-- What crates/dnfast-state/src/fs.rs relies on of the files in one directory: the documented
-- behaviour of the calls, on the contents of names. A failed call may have changed only the file
-- that it was given; a failed `rename` has changed nothing.
use dnfast.Base.{◌≡◌, ◌≢◌, Text, Option, some, [], ◌++◌, ok, err}
use dnfast.Core.Canonical.{Bytes}
use dnfast.State.Fs.{Kernel}

pub record FileLaws (k : Kernel) (d : k.Fd) : Type 0 where
  pub content : k.World → Text → Option Bytes
  pub create_ok :
      (n : Text) (w : k.World)
      → (k.create_exclusive d n w).0 ≡ ok tt
      → content (k.create_exclusive d n w).1 n ≡ some []
  pub create_err :
      (n j : Text) (w : k.World) (e : k.Errno)
      → (k.create_exclusive d n w).0 ≡ err e
      → content (k.create_exclusive d n w).1 j ≡ content w j
  pub create_other :
      (n j : Text) (w : k.World) → j ≢ n → content (k.create_exclusive d n w).1 j ≡ content w j
  pub fchmod_content : (n j : Text) (w : k.World) → content (k.fchmod d n w).1 j ≡ content w j
  pub sync_all_content : (n j : Text) (w : k.World) → content (k.sync_all d n w).1 j ≡ content w j
  pub fsync_content : (j : Text) (w : k.World) → content (k.fsync d w).1 j ≡ content w j
  pub write_ok :
      (n : Text) (old bytes : Bytes) (w : k.World)
      → content w n ≡ some old
      → (k.write_all d n bytes w).0 ≡ ok tt
      → content (k.write_all d n bytes w).1 n ≡ some (old ++ bytes)
  pub write_other :
      (n j : Text) (bytes : Bytes) (w : k.World)
      → j ≢ n
      → content (k.write_all d n bytes w).1 j ≡ content w j
  pub rename_ok :
      (n to : Text) (w : k.World)
      → (k.renameat d n to w).0 ≡ ok tt
      → content (k.renameat d n to w).1 to ≡ content w n
  pub rename_err :
      (n to j : Text) (w : k.World) (e : k.Errno)
      → (k.renameat d n to w).0 ≡ err e
      → content (k.renameat d n to w).1 j ≡ content w j
  pub rename_other :
      (n to j : Text) (w : k.World)
      → j ≢ n
      → j ≢ to
      → content (k.renameat d n to w).1 j ≡ content w j
  pub unlink_other :
      (n j : Text) (w : k.World) → j ≢ n → content (k.unlinkat d n w).1 j ≡ content w j
