-- ===== src/State/Fs.antt =====
-- crates/dnfast-state/src/fs.rs over the system calls of `rustix`, which are a parameter. A file
-- that was created is named by its directory and name where the source holds its descriptor.
pub mod Laws
pub mod Atomic
pub mod Root
pub mod Lock
use dnfast.Base.{
  ℕ, ◌+◌, String, Text, text, decimal, decimal_padded, Bool, true, false, ◌&&◌, ◌||◌, not, Option,
  none, some, List, [], ◌∷◌, ◌++◌, nat_order, list_order, same, sort, filter, length, take, ltb,
  ◌==◌, if◌then◌else◌, Result, ok, err, map_err, reject,
}
use Prim.Native.Nat.{bit_and}
use dnfast.Core.Canonical.{Bytes}
use dnfast.State.Error.{
  StateError, io, unsafe_path, corrupt, limit, FaultPoint, create, write, file_sync, publish,
  directory_sync, check_fault,
}
use dnfast.State.Io.{Io, continue, ◌>>=◌, ◌>>◌, pure, fail, lift, fail_if}

-- What `fstat` tells that the code reads.
pub record Stat : Type 0 where
  pub st_uid : ℕ
  pub st_mode : ℕ
  pub st_nlink : ℕ
  pub st_size : ℕ

-- An open file: what `fstat` says of it and what reading it to the end gives.
pub record OpenFile (Errno : Type 0) : Type 0 where
  pub stat : Result Errno Stat
  pub content : Result Errno Bytes

-- The calls into `rustix` and the process; every one may fail with an `Errno`.
pub record Kernel : Type 1 where
  pub World : Type 0
  pub Fd : Type 0
  pub Errno : Type 0
  pub describe : Errno → Text
  pub is_noent : Errno → Bool
  pub is_wouldblock : Errno → Bool
  pub is_exist : Errno → Bool
  pub euid : ℕ
  pub pid : ℕ
  pub open_slash : World → Result Errno Fd
  pub open_directory : World → Fd → Text → Result Errno Fd
  pub open_file : World → Fd → Text → Result Errno (OpenFile Errno)
  pub fstat : World → Fd → Result Errno Stat
  -- A name that is not UTF-8 is `none`.
  pub read_dir : World → Fd → Result Errno (List (Result Errno (Option Text)))
  pub flock_exclusive : Fd → World → Result Errno (Unit {0}) × World
  pub flock_wait : Fd → World → Result Errno (Unit {0}) × World
  pub flock_unlock : Fd → World → Result Errno (Unit {0}) × World
  pub mkdirat : Fd → Text → World → Result Errno (Unit {0}) × World
  pub create_exclusive : Fd → Text → World → Result Errno (Unit {0}) × World
  pub fchmod : Fd → Text → World → Result Errno (Unit {0}) × World
  pub write_all : Fd → Text → Bytes → World → Result Errno (Unit {0}) × World
  pub sync_all : Fd → Text → World → Result Errno (Unit {0}) × World
  pub renameat : Fd → Text → Text → World → Result Errno (Unit {0}) × World
  pub fsync : Fd → World → Result Errno (Unit {0}) × World
  pub unlinkat : Fd → Text → World → Result Errno (Unit {0}) × World
  pub remove_directory : Fd → Text → World → Result Errno (Unit {0}) × World

-- `format!("{sequence:020}.json")`.
unfoldable pub record_name : ℕ → Text
record_name sequence = decimal_padded sequence ++ text ".json"

module _ (k : Kernel) where
  open k use {
    World, Fd, Errno, describe, is_noent, euid, pid, open_directory, open_file, fstat, read_dir,
    mkdirat, create_exclusive, fchmod, write_all, sync_all, renameat, fsync, unlinkat,
    remove_directory,
  }

  -- The disk and the armed fault point.
  abbrev pub Machine : Type 0
  Machine = World × FaultPoint

  abbrev pub Run {ℓ} : Type ℓ → Type ℓ
  Run A = Io Machine A

  -- `.map_err(errno)?` of a call that changes the disk.
  abbrev pub call : (World → Result Errno (Unit {0}) × World) → Run (Unit {0})
  call f (w, armed) = (map_err (λ e. io (describe e)) (f w).0, ((f w).1, armed))

  -- `let _ = call`.
  abbrev pub call_ignoring : (World → Result Errno (Unit {0}) × World) → Machine → Machine
  call_ignoring f (w, armed) = ((f w).1, armed)

  -- `.map_err(errno)?` of a call that only reads.
  abbrev pub ask {ℓ} : {A : Type ℓ} → (World → Result Errno A) → Run A
  ask f (w, armed) = (map_err (λ e. io (describe e)) (f w), (w, armed))

  abbrev pub check : FaultPoint → Run (Unit {0})
  check point (w, armed) = let (r, armed') = check_fault point armed in (r, (w, armed'))

  -- `verify`, on what `fstat` returned.
  unfoldable pub verify_stat : Stat → Bool → Bool → Result StateError (Unit {0})
  verify_stat stat is_directory one_link =
      let kind : ℕ = if is_directory then 0o040000 else 0o100000 in
      let expected_mode : ℕ = if is_directory then 0o700 else 0o600 in
      reject
        (not (stat.st_uid == euid)
          || (not (bit_and stat.st_mode 0o170000 == kind)
              || (not (bit_and stat.st_mode 0o777 == expected_mode)
                  || (one_link && not (stat.st_nlink == 1)))))
        (unsafe_path (text "ownership, mode, type, or link count"))

  unfoldable pub open_transaction : Fd → Text → Run Fd
  unfolding verify_stat
  open_transaction root name = do
    fd ← ask (λ w. open_directory w root name)
    stat ← ask (λ w. fstat w fd)
    lift (verify_stat stat true false)
    pure fd

  unfoldable pub create_transaction : Fd → Text → Run Fd
  unfolding open_transaction
  create_transaction root name = do
    check create
    call (mkdirat root name)
    call (fsync root)
    open_transaction root name

  abbrev is_ok {ℓ} : {A : Type ℓ} → Result Errno A → Bool
  is_ok (ok a) = true
  is_ok (err e) = false

  -- `openat(..).is_ok()`.
  abbrev exists : Fd → Text → Run Bool
  exists directory name (w, armed) = (ok (is_ok (open_file w directory name)), (w, armed))

  unfoldable pub temporary_name : ℕ → Text
  temporary_name sequence = text "." ++ (decimal_padded sequence ++ (text ".tmp-" ++ decimal pid))

  -- The part of `write_record` that runs while the guard `TempCleanup` is armed.
  write_and_publish : Fd → Text → Text → Bytes → Run (Unit {0})
  write_and_publish directory temporary final_name bytes = do
    call (fchmod directory temporary)
    check write
    call (write_all directory temporary bytes)
    check file_sync
    call (sync_all directory temporary)
    check publish
    call (renameat directory temporary final_name)
    call (fsync directory)

  -- `Drop for TempCleanup`: an error that leaves the scope while the guard is armed unlinks the
  -- temporary file; what the unlinking returns is dropped.
  settle :
      Fd → Text → Result StateError (Unit {0}) → Machine → Result StateError (Unit {0}) × Machine
  settle directory temporary (ok u) m = (ok u, m)
  settle directory temporary (err e) m = (err e, call_ignoring (unlinkat directory temporary) m)

  guarded : Fd → Text → Run (Unit {0}) → Run (Unit {0})
  unfolding settle
  guarded directory temporary body m = settle directory temporary (body m).0 (body m).1

  unfoldable pub write_record : Fd → ℕ → Bytes → Run (Unit {0})
  unfolding write_and_publish guarded
  write_record directory sequence bytes = do
    taken ← exists directory (record_name sequence)
    fail_if taken (corrupt (text "duplicate sequence"))
    call (create_exclusive directory (temporary_name sequence))
    guarded directory (temporary_name sequence)
        (write_and_publish directory (temporary_name sequence) (record_name sequence) bytes)
    check directory_sync
    pure tt

  -- `read_bounded`; `take(maximum + 1)` bounds what is read whatever `fstat` said.
  read_verified : OpenFile Errno → ℕ → Stat → Result StateError (Unit {0}) → Result StateError Bytes
  read_verified file maximum stat (err e) = err e
  read_verified file maximum stat (ok u) =
      if ltb maximum stat.st_size then err (limit "record") else elim file.content [
        | err e ↦ err (io (describe e))
        | ok content ↦
            if ltb maximum (length (take (maximum + 1) content))
            then err (limit "record")
            else ok (take (maximum + 1) content)
      ]

  -- The two calls of `fstat` on the open file are one, and a size is a natural number.
  unfoldable pub read_open : OpenFile Errno → ℕ → Result StateError Bytes
  unfolding verify_stat read_verified
  read_open file maximum = elim file.stat [
    | err e ↦ err (io (describe e))
    | ok stat ↦ read_verified file maximum stat (verify_stat stat false true)
  ]

  unfoldable pub read_bounded : Fd → Text → ℕ → Run Bytes
  unfolding read_open
  read_bounded directory name maximum = do
    file ← ask (λ w. open_file w directory name)
    lift (read_open file maximum)

  optional_file : Result Errno (OpenFile Errno) → ℕ → Result StateError (Option Bytes)
  optional_file (ok file) maximum = elim (read_open file maximum) [
    | ok bytes ↦ ok (some bytes)
    | err e ↦ err e
  ]
  optional_file (err e) maximum = if is_noent e then ok none else err (io (describe e))

  unfoldable pub read_optional_bounded : Fd → Text → ℕ → Run (Option Bytes)
  unfolding optional_file read_open
  read_optional_bounded directory name maximum (w, armed) =
      (optional_file (open_file w directory name) maximum, (w, armed))

  -- The part of `write_atomic_replacing` under its guard.
  write_and_replace : Fd → Text → Text → Bytes → Run (Unit {0})
  write_and_replace directory temporary name bytes = do
    call (fchmod directory temporary)
    call (write_all directory temporary bytes)
    call (sync_all directory temporary)
    call (renameat directory temporary name)
    call (fsync directory)

  pub replacing_name : Text → Text
  replacing_name name = text "." ++ (name ++ (text ".tmp-" ++ decimal pid))

  unfoldable pub write_atomic_replacing : Fd → Text → Bytes → Run (Unit {0})
  unfolding write_and_replace guarded
  write_atomic_replacing directory name bytes m =
      (do
        call (create_exclusive directory (replacing_name name))
        guarded directory (replacing_name name)
            (write_and_replace directory (replacing_name name) name bytes))
        (call_ignoring (unlinkat directory (replacing_name name)) m)

  abbrev is_entry : Text → Bool
  is_entry name = not (same name (text ".") || same name (text ".."))

  -- The loop over the directory's entries.
  pub entry_names : List (Result Errno (Option Text)) → Result StateError (List Text)
  entry_names [] = ok []
  entry_names (err e ∷ entries) = err (io (describe e))
  entry_names (ok none ∷ entries) = err (corrupt (text "non-UTF8 journal name"))
  entry_names (ok (some name) ∷ entries) = elim (entry_names entries) [
    | err e ↦ err e
    | ok names ↦ if is_entry name then ok (name ∷ names) else ok names
  ]

  unfoldable pub child_names : Fd → Run (List Text)
  unfolding entry_names
  child_names directory = do
    entries ← ask (λ w. read_dir w directory)
    names ← lift (entry_names entries)
    pure (sort names)

  unlink_all : Fd → List Text → Run (Unit {0})
  unlink_all directory [] = pure tt
  unlink_all directory (name ∷ names) =
      call (unlinkat directory name) >>= λ _. unlink_all directory names

  unfoldable pub remove_failed_transaction : Fd → Text → Run (Unit {0})
  unfolding unlink_all open_transaction child_names
  remove_failed_transaction root child = do
    directory ← open_transaction root child
    names ← child_names directory
    unlink_all directory names
    call (fsync directory)
    call (remove_directory root child)
    call (fsync root)
