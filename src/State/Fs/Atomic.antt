-- ===== src/State/Fs/Atomic.antt =====
-- A record is written whole or not at all: `write_record` and `write_atomic_replacing` of
-- crates/dnfast-state/src/fs.rs.
use dnfast.Base.{
  Bool-cases, ℕ, Text, text, decimal, decimal_padded, ◌≡◌, ◌≢◌, sym, ap, refl, arith, some, [],
  ◌++◌, ◌⊎◌, inl, inr, Result, ok, err, map_err, length, length-append, length-decimal_padded,
}
use dnfast.Core.Canonical.{Bytes}
use dnfast.State.Error.{
  StateError, FaultPoint, io, write, file_sync, publish, directory_sync, check_fault,
}
use dnfast.State.Io.{continue, ◌>>◌}
use dnfast.State.Fs.{
  is_ok, Kernel, Run, Machine, call, check, write_record, write_and_publish, guarded, settle,
  record_name, temporary_name,
}
use dnfast.State.Fs.Laws.{FileLaws}

module _ (k : Kernel) where
  -- What holds of the disk after a run that returned, and after one that failed.
  abbrev Post :
      (k.World → Type 0) → (k.World → Type 0) → Result StateError (Unit {0}) → k.World → Type 0
  Post Q E (ok u) w = Q w
  Post Q E (err e) w = E w

  record Triple (P Q E : k.World → Type 0) (m : Run k (Unit {0})) : Type 0 where
    at : (s : Machine k) → P s.0 → Post Q E (m s).0 (m s).1.0

  Post-map_err :
      (Q E : k.World → Type 0) (r : Result k.Errno (Unit {0})) (w : k.World)
      → (r ≡ ok tt → Q w)
      → ((e : k.Errno) → r ≡ err e → E w)
      → Post Q E (map_err (λ e. io (k.describe e)) r) w
  Post-map_err Q E (ok u) w good bad = good refl
  Post-map_err Q E (err e) w good bad = bad e refl

  Post-both :
      (Q E : k.World → Type 0) (r : Result StateError (Unit {0})) (w : k.World)
      → Q w
      → E w
      → Post Q E r w
  Post-both Q E (ok u) w q e = q
  Post-both Q E (err x) w q e = e

  Post-continue :
      (Q R E : k.World → Type 0) (n : Run k (Unit {0})) (r : Result StateError (Unit {0}))
      (s : Machine k)
      → Triple Q R E n
      → Post Q E r s.0
      → Post R E (continue r (λ _. n) s).0 (continue r (λ _. n) s).1.0
  Post-continue Q R E n (ok u) s t h = t.at s h
  Post-continue Q R E n (err e) s t h = h

  Triple-seq :
      {P Q R E : k.World → Type 0} (m n : Run k (Unit {0}))
      → Triple P Q E m
      → Triple Q R E n
      → Triple P R E (m >> n)
  Triple-seq {Q} {R} {E} m n t u = record {
    at = λ s h. Post-continue Q R E n (m s).0 (m s).1 u (t.at s h);
  }

  Triple-call :
      (P Q E : k.World → Type 0) (f : k.World → Result k.Errno (Unit {0}) × k.World)
      → ((w : k.World) → P w → (f w).0 ≡ ok tt → Q (f w).1)
      → ((w : k.World) (e : k.Errno) → P w → (f w).0 ≡ err e → E (f w).1)
      → Triple P Q E (call k f)
  Triple-call P Q E f good bad = record {
    at = λ s h. Post-map_err Q E (f s.0).0 (f s.0).1 (good s.0 h) (λ e. bad s.0 e h);
  }

  Triple-check :
      (P E : k.World → Type 0) (point : FaultPoint)
      → ((w : k.World) → P w → E w)
      → Triple P P E (check k point)
  Triple-check P E point weaken = record {
    at = λ s h. Post-both P E (check_fault point s.1).0 s.0 h (weaken s.0 h);
  }

-- Writing under the guard, seen at the temporary name, the final name and any other name `j`.
module _ (k : Kernel) (d : k.Fd) (laws : FileLaws k d) (temporary final j : Text) (bytes : Bytes)
    (start : k.World) (distinct : temporary ≢ final) (other_temporary : j ≢ temporary)
    (other_final : j ≢ final) where
  open laws use {
    content, create_ok, create_err, create_other, fchmod_content, sync_all_content, fsync_content,
    write_ok, write_other, rename_ok, rename_err, rename_other, unlink_other,
  }

  -- Nothing but the temporary file has changed.
  record Untouched (w : k.World) : Type 0 where
    at_other : content w j ≡ content start j
    at_final : content w final ≡ content start final

  record Holds (draft : Bytes) (w : k.World) : Type 0 where
    untouched : Untouched w
    at_temporary : content w temporary ≡ some draft

  record Published (w : k.World) : Type 0 where
    at_other : content w j ≡ content start j
    at_final : content w final ≡ some bytes

  abbrev Either : k.World → Type 0
  Either w = Untouched w ⊎ Published w

  Holds-Either : (draft : Bytes) (w : k.World) → Holds draft w → Either w
  Holds-Either draft w h = inl h.untouched

  fchmod-Triple : Triple k (Holds []) (Holds []) Either (call k (k.fchmod d temporary))
  fchmod-Triple =
      Triple-call k (Holds []) (Holds []) Either (k.fchmod d temporary)
        (λ w h e. ground (
          arith,
          fchmod_content temporary j w,
          fchmod_content temporary final w,
          fchmod_content temporary temporary w,
        ))
        (λ w x h e.
          inl (ground (arith, fchmod_content temporary j w, fchmod_content temporary final w)))

  final_ne_temporary : final ≢ temporary
  final_ne_temporary e = distinct (sym e)

  write-Triple : Triple k (Holds []) (Holds bytes) Either (call k (k.write_all d temporary bytes))
  write-Triple =
      Triple-call k (Holds []) (Holds bytes) Either (k.write_all d temporary bytes)
        (λ w h e. ground (
          arith,
          write_other temporary j bytes w other_temporary,
          write_other temporary final bytes w final_ne_temporary,
          write_ok temporary [] bytes w,
        ))
        (λ w x h e. inl (
          ground (
            arith,
            write_other temporary j bytes w other_temporary,
            write_other temporary final bytes w final_ne_temporary,
          )))

  sync-Triple : Triple k (Holds bytes) (Holds bytes) Either (call k (k.sync_all d temporary))
  sync-Triple =
      Triple-call k (Holds bytes) (Holds bytes) Either (k.sync_all d temporary)
        (λ w h e. ground (
          arith,
          sync_all_content temporary j w,
          sync_all_content temporary final w,
          sync_all_content temporary temporary w,
        ))
        (λ w x h e.
          inl (ground (arith, sync_all_content temporary j w, sync_all_content temporary final w)))

  rename-Triple : Triple k (Holds bytes) Published Either (call k (k.renameat d temporary final))
  rename-Triple =
      Triple-call k (Holds bytes) Published Either (k.renameat d temporary final)
        (λ w h e. ground (
          arith,
          rename_other temporary final j w other_temporary other_final,
          rename_ok temporary final w,
        ))
        (λ w x h e. inl (
          ground
            (arith, rename_err temporary final j w x e, rename_err temporary final final w x e)))

  fsync-Triple : Triple k Published Published Either (call k (k.fsync d))
  fsync-Triple =
      Triple-call k Published Published Either (k.fsync d)
        (λ w h e. ground (arith, fsync_content j w, fsync_content final w))
        (λ w x h e. inr (ground (arith, fsync_content j w, fsync_content final w)))

  write_and_publish-Triple :
      Triple k (Holds []) Published Either (write_and_publish k d temporary final bytes)
  unfolding write_and_publish
  write_and_publish-Triple = Triple-seq k _ _ fchmod-Triple (
      Triple-seq k _ _ (Triple-check k (Holds []) Either write (Holds-Either [])) (
        Triple-seq k _ _ write-Triple (
          Triple-seq k _ _ (Triple-check k (Holds bytes) Either file_sync (Holds-Either bytes)) (
            Triple-seq k _ _ sync-Triple (
              Triple-seq k _ _ (Triple-check k (Holds bytes) Either publish (Holds-Either bytes))
                (Triple-seq k _ _ rename-Triple fsync-Triple))))))

  Untouched-unlink : (w : k.World) → Untouched w → Untouched (k.unlinkat d temporary w).1
  Untouched-unlink w h = ground (
    arith,
    unlink_other temporary j w other_temporary,
    unlink_other temporary final w final_ne_temporary,
  )

  Published-unlink : (w : k.World) → Published w → Published (k.unlinkat d temporary w).1
  Published-unlink w h = ground (
    arith,
    unlink_other temporary j w other_temporary,
    unlink_other temporary final w final_ne_temporary,
  )

  Either-unlink : (w : k.World) → Either w → Either (k.unlinkat d temporary w).1
  Either-unlink w (inl h) = inl (Untouched-unlink w h)
  Either-unlink w (inr h) = inr (Published-unlink w h)

  settle-Post :
      (r : Result StateError (Unit {0})) (s : Machine k)
      → Post k Published Either r s.0
      → Post k Published Either (settle k d temporary r s).0 (settle k d temporary r s).1.0
  unfolding settle
  settle-Post (ok u) s h = h
  settle-Post (err e) s h = Either-unlink s.0 h

  guarded-Triple :
      Triple k
        (Holds [])
        Published
        Either
        (guarded k d temporary (write_and_publish k d temporary final bytes))
  unfolding guarded
  guarded-Triple = record {
    at = λ s h.
        let m = write_and_publish k d temporary final bytes in
        settle-Post (m s).0 (m s).1 (write_and_publish-Triple.at s h);
  }

  create-Triple : Triple k Untouched (Holds []) Either (call k (k.create_exclusive d temporary))
  create-Triple =
      Triple-call k Untouched (Holds []) Either (k.create_exclusive d temporary)
        (λ w h e. ground (
          arith,
          create_other temporary j w other_temporary,
          create_other temporary final w final_ne_temporary,
          create_ok temporary w,
        ))
        (λ w x h e.
          inl (ground (arith, create_err temporary j w x e, create_err temporary final w x e)))

  pure-Triple : Triple k Published Published Either (λ m. (ok tt, m))
  pure-Triple = record { at = λ m h. h }

  writing-Triple : Triple k Untouched Published Either (
      call k (k.create_exclusive d temporary)
      >> (guarded k d temporary (write_and_publish k d temporary final bytes)
          >> (check k directory_sync >> λ m. (ok tt, m))))
  writing-Triple = Triple-seq k _ _ create-Triple (
      Triple-seq k _ _ guarded-Triple (
        Triple-seq k _ _ (Triple-check k Published Either directory_sync (λ w h. inr h))
          pure-Triple))

  -- What is known of the three names, whatever was returned.
  abbrev Outcome : Result StateError (Unit {0}) → k.World → Type 0
  Outcome r w =
      (r ≡ ok tt → content w final ≡ some bytes)
      × ((content w final ≡ content start final) ⊎ (content w final ≡ some bytes))
      × (content w j ≡ content start j)

  Post-Outcome :
      (r : Result StateError (Unit {0})) (w : k.World) → Post k Published Either r w → Outcome r w
  Post-Outcome (ok u) w h = (λ e. h.at_final, inr h.at_final, h.at_other)
  Post-Outcome (err e) w (inl h) = (λ f. cc, inl h.at_final, h.at_other)
  Post-Outcome (err e) w (inr h) = (λ f. cc, inr h.at_final, h.at_other)

temporary_name-ne-record_name : (k : Kernel) (n : ℕ) → temporary_name k n ≢ record_name n
unfolding temporary_name record_name
temporary_name-ne-record_name k n e = omega (
  arith,
  ap length e,
  length-decimal_padded n,
  length-append (decimal_padded n) (text ".json"),
  length-append (decimal_padded n) (text ".tmp-" ++ decimal k.pid),
)

module _ (k : Kernel) (d : k.Fd) (laws : FileLaws k d) (sequence : ℕ) (bytes : Bytes)
    (s : Machine k) (j : Text) (other_temporary : j ≢ temporary_name k sequence)
    (other_final : j ≢ record_name sequence) where
  writing_run : Run k (Unit {0})
  writing_run =
      call k (k.create_exclusive d (temporary_name k sequence))
      >> (guarded k d (temporary_name k sequence)
            (write_and_publish k d (temporary_name k sequence) (record_name sequence) bytes)
          >> (check k directory_sync >> λ m. (ok tt, m)))

  writing :
      Outcome k d laws
        (temporary_name k sequence)
        (record_name sequence)
        j
        bytes
        s.0
        (temporary_name-ne-record_name k sequence)
        other_temporary
        other_final
        (writing_run s).0
        (writing_run s).1.0
  unfolding writing_run
  writing =
      Post-Outcome k d laws (temporary_name k sequence) (record_name sequence) j bytes s.0
        (temporary_name-ne-record_name k sequence) other_temporary other_final (writing_run s).0
        (writing_run s).1.0
        ((writing-Triple k d laws (temporary_name k sequence) (record_name sequence) j bytes s.0
            (temporary_name-ne-record_name k sequence) other_temporary other_final).at
          s (record { at_other = refl; at_final = refl }))

  -- Whatever call fails, `write_record` leaves the record as it was or whole, and changes no other
  -- file but the temporary one; if it returns, the record is whole.
  pub write_record-atomic :
      let out = write_record k d sequence bytes s in
      (out.0 ≡ ok tt → laws.content out.1.0 (record_name sequence) ≡ some bytes)
      × ((laws.content out.1.0 (record_name sequence) ≡ laws.content s.0 (record_name sequence))
          ⊎ (laws.content out.1.0 (record_name sequence) ≡ some bytes))
      × (laws.content out.1.0 j ≡ laws.content s.0 j)
  unfolding write_record writing_run
  write_record-atomic = elim (Bool-cases (is_ok k (k.open_file s.0 d (record_name sequence)))) [
    | inl taken ↦ rw taken (λ e. cc, inl refl, refl)
    | inr absent ↦ rw absent writing
  ]
