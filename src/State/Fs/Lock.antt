-- ===== src/State/Fs/Lock.antt =====
-- The lock guards `ReasonStateLock` and `GroupStateLock` of crates/dnfast-state/src: taken before
-- the body runs, and dropped after it, whatever it returned.
use dnfast.Base.{◌≡◌, ok}
use dnfast.State.Io.{continue-eq-ok, ◌>>=◌, Returns, Returns-bind, Returns-any}
use dnfast.State.Fs.{Kernel, Machine, Run, call, call_ignoring}

module _ (k : Kernel) where
  -- The body, and then `Drop`, which ignores what unlocking returns.
  pub then_unlock {ℓ} : {A : Type ℓ} → k.Fd → Run k A → Run k A
  then_unlock root body m = ((body m).0, call_ignoring k (k.flock_unlock root) (body m).1)

  unfoldable pub locked {ℓ} : {A : Type ℓ} → k.Fd → Run k A → Run k A
  unfolding then_unlock
  locked root body = call k (k.flock_wait root) >>= λ _. then_unlock root body

  -- The disk as it is once the lock is taken.
  abbrev pub once_locked : k.Fd → Machine k → Machine k
  once_locked root s = (call k (k.flock_wait root) s).1

  -- What the lock lets through is what the body returns once the lock is taken.
  pub locked-once_locked {ℓ} :
      {A : Type ℓ} (root : k.Fd) (body : Run k A) (s : Machine k) {a : A}
      → (locked root body s).0 ≡ ok a
      → (body (once_locked root s)).0 ≡ ok a
  unfolding locked
  locked-once_locked root body s h =
      let (_, _, inside, _) =
        continue-eq-ok (call k (k.flock_wait root) s).0 (λ _. then_unlock root body)
          (once_locked root s) h in
      inside

  -- The lock changes nothing of what the body returns.
  pub locked-Returns {ℓ κ} :
      {A : Type ℓ} (P : A → Type κ) (root : k.Fd) (body : Run k A)
      → Returns P body
      → Returns P (locked root body)
  unfolding locked
  locked-Returns P root body known =
      Returns-bind _ _ (Returns-any (call k (k.flock_wait root)))
        λ _ _. record { returned = λ s a h. known.returned s a h }
