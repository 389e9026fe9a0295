-- ===== src/State/Tests/Files.antt =====
-- A file system with one directory, whose calls succeed, and the record written to it.
use dnfast.Base.{
  map, List, Text, text, ◌≡◌, ◌≢◌, ◌∙◌, ap, refl, Option, none, some, [], ◌∷◌, ◌++◌, ◌⊎◌, inl, inr,
  Bool-cases, true, false, Result, ok, err, same, same_self, same→eq, length, if◌then◌else◌,
  nat_order, list_order, decimal, decimal_padded,
}
use dnfast.Core.Canonical.{Bytes}
use dnfast.State.Error.{StateError, none_armed, publish, check_fault}
use dnfast.State.Fs.{Kernel, OpenFile, Machine, write_record, record_name, temporary_name}
use dnfast.State.Fs.Laws.{FileLaws}
use dnfast.State.Fs.Atomic.{write_record-atomic}

abbrev pub Disk : Type 0
Disk = Text → Option Bytes

unfoldable pub update : Text → Option Bytes → Disk → Disk
update n c w j = if same j n then c else w j

pub update-same : (n : Text) (c : Option Bytes) (w : Disk) → update n c w n ≡ c
unfolding update
update-same n c w = rw (same_self n) refl

pub update-other : (n j : Text) (c : Option Bytes) (w : Disk) → j ≢ n → update n c w j ≡ w j
unfolding update
update-other n j c w ne = elim (Bool-cases (same j n)) [
  | inl equal ↦ absurd (ne (same→eq j n equal))
  | inr distinct ↦ rw distinct refl
]

abbrev pub appended : Bytes → Option Bytes → Option Bytes
appended bytes none = none
appended bytes (some old) = some (old ++ bytes)

abbrev pub opened : Option Bytes → Result Text (OpenFile Text)
opened none = err (text "ENOENT")
opened (some bytes) = ok (record {
  stat = ok (record { st_uid = 0; st_mode = 0o100600; st_nlink = 1; st_size = length bytes });
  content = ok bytes;
})

-- `names` is what a reading of the directory lists.
abbrev pub disk_kernel : List Text → Kernel
disk_kernel names = record {
  World = Disk;
  Fd = Unit {0};
  Errno = Text;
  describe = λ e. e;
  is_noent = λ e. same e (text "ENOENT");
  is_wouldblock = λ e. same e (text "EAGAIN");
  is_exist = λ e. same e (text "EEXIST");
  euid = 0;
  pid = 7;
  open_slash = λ w. ok tt;
  open_directory = λ w d n. ok tt;
  open_file = λ w d n. opened (w n);
  fstat = λ w d. ok (record { st_uid = 0; st_mode = 0o40700; st_nlink = 2; st_size = 0 });
  read_dir = λ w d. ok (map (λ n. ok (some n)) names);
  flock_exclusive = λ d w. (ok tt, w);
  flock_wait = λ d w. (ok tt, w);
  flock_unlock = λ d w. (ok tt, w);
  mkdirat = λ d n w. (ok tt, w);
  create_exclusive = λ d n w. (ok tt, update n (some []) w);
  fchmod = λ d n w. (ok tt, w);
  write_all = λ d n bytes w. (ok tt, update n (appended bytes (w n)) w);
  sync_all = λ d n w. (ok tt, w);
  renameat = λ d n to w. (ok tt, update to (w n) (update n none w));
  fsync = λ d w. (ok tt, w);
  unlinkat = λ d n w. (ok tt, update n none w);
  remove_directory = λ d n w. (ok tt, w);
}

unfoldable pub disk_laws : (names : List Text) → FileLaws (disk_kernel names) tt
disk_laws names = record {
  content = λ w n. w n;
  create_ok = λ n w e. update-same n (some []) w;
  create_err = λ n j w x e. cc;
  create_other = λ n j w ne. update-other n j (some []) w ne;
  fchmod_content = λ n j w. refl;
  sync_all_content = λ n j w. refl;
  fsync_content = λ j w. refl;
  write_ok = λ n old bytes w h e. update-same n (appended bytes (w n)) w ∙ ap (appended bytes) h;
  write_other = λ n j bytes w ne. update-other n j (appended bytes (w n)) w ne;
  rename_ok = λ n to w e. update-same to (w n) (update n none w);
  rename_err = λ n to j w x e. cc;
  rename_other =
      λ n to j w a b. update-other to j (w n) (update n none w) b ∙ update-other n j none w a;
  unlink_other = λ n j w ne. update-other n j none w ne;
}

abbrev empty_disk : Machine (disk_kernel [])
empty_disk = (λ n. none, none_armed)

abbrev armed_disk : Machine (disk_kernel [])
armed_disk = (λ n. none, publish)

record_written :
    (write_record (disk_kernel []) tt 1 (65 ∷ []) empty_disk).1.0 (record_name 1) ≡ some (65 ∷ [])
unfolding write_record record_name check_fault update decimal_padded temporary_name decimal
record_written = refl

fault_leaves_nothing :
    (write_record (disk_kernel []) tt 1 (65 ∷ []) armed_disk).1.0 (record_name 1) ≡ none
unfolding write_record record_name check_fault update decimal_padded temporary_name
fault_leaves_nothing = refl

abbrev written : Result StateError (Unit {0}) × Machine (disk_kernel [])
written = write_record (disk_kernel []) tt 1 (65 ∷ []) empty_disk

abbrev other_name : Text
other_name = text "index"

apart : (a b : Text) → same a b ≡ false → a ≢ b
apart a b h e = let whole : same a a ≡ true = same_self a in cc

write_record-atomic_example :
    (written.0 ≡ ok tt → written.1.0 (record_name 1) ≡ some (65 ∷ []))
    × ((written.1.0 (record_name 1) ≡ none) ⊎ (written.1.0 (record_name 1) ≡ some (65 ∷ [])))
    × (written.1.0 other_name ≡ none)
unfolding temporary_name record_name decimal_padded decimal write_record disk_laws
write_record-atomic_example =
    write_record-atomic (disk_kernel []) tt (disk_laws []) 1 (65 ∷ []) empty_disk other_name
      (apart other_name (temporary_name (disk_kernel []) 1) refl)
      (apart other_name (record_name 1) refl)
