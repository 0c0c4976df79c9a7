-- ===== src/Lock/Held.antt =====
-- What `acquire_lockfile` has done when it returns.
use nvram.Base.{
  ℕ, zero, suc, ◌≡◌, ◌⊎◌, inl, inr, refl, true, false, arith, Bytes, Result, ok, err, Io, ◌==◌,
  Io-cases, Bool-cases, >>=-ok, >>=-err, pure, ◌>>◌, etimedout,
}
use nvram.Lock.{
  LockCalls, lock_loop, close_fail, acquire_lockfile, ewouldblock, allowed_retries, retry_delay_us,
}

module _ {World : Type 0} (C : LockCalls World) where
  -- The loop ends with the lock granted by its last call, or with the file closed after a refusal.
  abbrev Ended : ℕ → Result (Unit {0}) × World → Type 0
  Ended fd (ok _, w) = (v : World) × (C.flock fd v ≡ (ok tt, w))
  Ended fd (err c, w) =
      (u : World) × (v : World) × (e : ℕ) × (C.flock fd u ≡ (err e, v)) × (w ≡ (C.close fd v).1)

  -- One round of the loop, by what `flock` returns.
  pub lock_loop-granted :
      (retries fd : ℕ) (w : World) {v : World}
      → C.flock fd w ≡ (ok tt, v)
      → lock_loop C (suc retries) fd w ≡ (ok tt, v)
  unfolding lock_loop
  lock_loop-granted retries fd w e = ground (arith, e)

  pub lock_loop-failed :
      (retries fd : ℕ) (w : World) {v : World} {c : ℕ}
      → C.flock fd w ≡ (err c, v)
      → (c == ewouldblock) ≡ false
      → lock_loop C (suc retries) fd w ≡ (err c, (C.close fd v).1)
  unfolding lock_loop close_fail
  lock_loop-failed retries fd w e h = ground (arith, e, h)

  pub lock_loop_last :
      (fd : ℕ) (w : World) {v : World} {c : ℕ}
      → C.flock fd w ≡ (err c, v)
      → (c == ewouldblock) ≡ true
      → lock_loop C 1 fd w ≡ (err etimedout, (C.close fd v).1)
  unfolding lock_loop close_fail
  lock_loop_last fd w e h = ground (arith, e, h)

  pub lock_loop_again :
      (retries fd : ℕ) (w : World) {v : World} {c : ℕ}
      → C.flock fd w ≡ (err c, v)
      → (c == ewouldblock) ≡ true
      → lock_loop C (suc (suc retries)) fd w
        ≡ lock_loop C (suc retries) fd (C.usleep retry_delay_us v)
  unfolding lock_loop
  lock_loop_again retries fd w e h = ground (arith, e, h)

  lock_loop-Ended : (retries fd : ℕ) (w : World) → Ended fd (lock_loop C (suc retries) fd w)
  lock_loop-Ended zero fd w = elim (Io-cases (C.flock fd) w) [
    | inl (tt, v, e) ↦ rw (lock_loop-granted zero fd w e) (w, e)
    | inr (c, v, e) ↦ elim (Bool-cases (c == ewouldblock)) [
      | inl busy ↦ rw (lock_loop_last fd w e busy) (w, v, c, e, refl)
      | inr other ↦ rw (lock_loop-failed zero fd w e other) (w, v, c, e, refl)
    ]
  ]
  lock_loop-Ended (suc retries) fd w = elim (Io-cases (C.flock fd) w) [
    | inl (tt, v, e) ↦ rw (lock_loop-granted (suc retries) fd w e) (w, e)
    | inr (c, v, e) ↦ elim (Bool-cases (c == ewouldblock)) [
      | inl busy ↦
          rw (lock_loop_again retries fd w e busy)
            (lock_loop-Ended retries fd (C.usleep retry_delay_us v))
      | inr other ↦ rw (lock_loop-failed (suc retries) fd w e other) (w, v, c, e, refl)
    ]
  ]

  -- What a return of `acquire_lockfile` says.
  abbrev pub Acquired : Bytes → World → Result ℕ × World → Type 0
  Acquired path w (ok fd, w') =
      (u : World) × (v : World) × (C.open_file path w ≡ (ok fd, u)) × (C.flock fd v ≡ (ok tt, w'))
  Acquired path w (err c, w') =
      (C.open_file path w ≡ (err c, w'))
      ⊎ ((fd : ℕ) × (u : World) × (v : World) × (C.open_file path w ≡ (ok fd, u))
          × (w' ≡ (C.close fd v).1))

  -- A descriptor comes back only with the lock granted on it by the last call; after any failure
  -- behind the opening of the file it has been closed.
  pub acquire_lockfile-Acquired :
      (path : Bytes) (w : World) → Acquired path w (acquire_lockfile C path w)
  unfolding acquire_lockfile
  acquire_lockfile-Acquired path w = elim (Io-cases (C.open_file path) w) [
    | inr (c, u, e) ↦ rw (>>=-err (C.open_file path) locking w e) (inl e)
    | inl (fd, u, e) ↦
        rw (>>=-ok (C.open_file path) locking w e)
          (locked fd u e (lock_loop C allowed_retries fd u) refl (lock_loop-Ended 9 fd u))
  ]
    where
      locking : ℕ → Io World ℕ
      locking fd = lock_loop C allowed_retries fd >> pure fd

      locked :
          (fd : ℕ) (u : World)
          → C.open_file path w ≡ (ok fd, u)
          → (p : Result (Unit {0}) × World) → lock_loop C allowed_retries fd u ≡ p
          → Ended fd p
          → Acquired path w (locking fd u)
      locked fd u e (ok _, v) l (x, f) =
          rw (>>=-ok (lock_loop C allowed_retries fd) (λ _. pure fd) u l) (u, x, e, f)
      locked fd u e (err c, v) l (x, y, d, f, g) =
          rw (>>=-err (lock_loop C allowed_retries fd) (λ _. pure fd) u l) (inr (fd, u, y, e, g))
