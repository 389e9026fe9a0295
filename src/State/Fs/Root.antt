-- ===== src/State/Fs/Root.antt =====
-- The state's root directory and the cleaning of a staging directory: crates/dnfast-state/src/fs.rs.
-- A path is the list of its components, as `Path::components` gives them.
use dnfast.Base.{Text, text, true, false, List, [], ◌∷◌, Result, ok, err, is_empty, if◌then◌else◌}
use dnfast.State.Error.{StateError, io, unsafe_path}
use dnfast.State.Io.{◌>>=◌, ◌>>◌, pure, fail, lift, fail_if}
use dnfast.State.Fs.{Kernel, Run, ask, call, verify_stat, open_transaction, child_names}

pub data Component : Type 0 where
  root_dir other_component : Component
  normal : Text → Component

module _ (k : Kernel) where
  open k use {
    World, Fd, Errno, describe, is_exist, open_slash, open_directory, open_file, fstat, fsync,
    mkdirat, unlinkat, remove_directory,
  }

  -- The components after the leading root, all of which must be names.
  normal_names : List Component → Result StateError (List Text)
  normal_names [] = ok []
  normal_names (normal name ∷ rest) = elim (normal_names rest) [
    | ok names ↦ ok (name ∷ names)
    | err e ↦ err e
  ]
  normal_names (root_dir ∷ rest) = err (unsafe_path (text "invalid journal root component"))
  normal_names (other_component ∷ rest) = err (unsafe_path (text "invalid journal root component"))

  absolute_names : List Component → Result StateError (List Text)
  unfolding normal_names
  absolute_names (root_dir ∷ rest) = normal_names rest
  absolute_names _ = err (unsafe_path (text "journal root must be absolute"))

  -- An existing directory is as good as a new one.
  after_mkdir : Fd → Result Errno (Unit {0}) → Run k (Unit {0})
  after_mkdir current (ok u) m = call k (fsync current) m
  after_mkdir current (err e) m = (if is_exist e then ok tt else err (io (describe e)), m)

  make_last : Fd → Text → Run k (Unit {0})
  unfolding after_mkdir
  make_last current name (w, armed) =
      after_mkdir current (mkdirat current name w).0 ((mkdirat current name w).1, armed)

  -- The loop of `open_or_create_root`, which makes the last directory only.
  descend_creating : Fd → List Text → Run k Fd
  unfolding make_last
  descend_creating current [] = pure current
  descend_creating current (name ∷ []) =
      make_last current name >>= λ _. ask k (λ w. open_directory w current name)
  descend_creating current (name ∷ next ∷ rest) =
      ask k (λ w. open_directory w current name) >>= λ fd. descend_creating fd (next ∷ rest)

  unfoldable pub open_or_create_root : List Component → Run k Fd
  unfolding descend_creating absolute_names
  open_or_create_root path = do
    names ← lift (absolute_names path)
    fail_if (is_empty names) (unsafe_path (text "journal root cannot be filesystem root"))
    slash ← ask k open_slash
    fd ← descend_creating slash names
    stat ← ask k (λ w. fstat w fd)
    lift (verify_stat k stat true false)
    pure fd

  -- The loop of `open_existing_root`, which checks each component as it opens it.
  descend : Fd → List Component → Run k Fd
  descend current [] = pure current
  descend current (normal name ∷ rest) =
      ask k (λ w. open_directory w current name) >>= λ fd. descend fd rest
  descend current (root_dir ∷ rest) = fail (unsafe_path (text "invalid root component"))
  descend current (other_component ∷ rest) = fail (unsafe_path (text "invalid root component"))

  descend_absolute : Fd → List Component → Run k Fd
  unfolding descend
  descend_absolute slash (root_dir ∷ rest) = descend slash rest
  descend_absolute slash _ = fail (unsafe_path (text "root must be absolute"))

  unfoldable pub open_existing_root : List Component → Run k Fd
  unfolding descend_absolute
  open_existing_root path = do
    slash ← ask k open_slash
    fd ← descend_absolute slash path
    stat ← ask k (λ w. fstat w fd)
    lift (verify_stat k stat true false)
    pure fd

  -- The loop of `cleanup_private_child`, which verifies every file before it unlinks it.
  unlink_verified : Fd → List Text → Run k (Unit {0})
  unlink_verified directory [] = pure tt
  unlink_verified directory (name ∷ names) = ask k (λ w. open_file w directory name) >>= λ file.
      ask k (λ w. file.stat) >>= λ stat. lift (verify_stat k stat false true) >>= λ _.
      call k (unlinkat directory name) >>= λ _. unlink_verified directory names

  unfoldable pub cleanup_private_child : List Component → Text → Run k (Unit {0})
  unfolding unlink_verified open_existing_root
  cleanup_private_child path child = do
    root ← open_existing_root path
    directory ← open_transaction k root child
    names ← child_names k directory
    unlink_verified directory names
    call k (fsync directory)
    call k (remove_directory root child)
    call k (fsync root)
