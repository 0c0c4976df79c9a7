-- ===== src/Lock/Waiting.antt =====
-- How long `acquire_lockfile` waits for a lock that another program holds.
use nvram.Base.{
  ℕ, zero, suc, ◌≤◌, ◌<◌, ◌≡◌, refl, ◌∙◌, arith, Bytes, ok, err, Io, >>=-ok, >>=-err, pure, ◌>>◌,
  etimedout,
}
use nvram.Lock.{
  LockCalls, lock_loop, acquire_lockfile, ewouldblock, allowed_retries, retry_delay_us,
}
use nvram.Lock.Held.{lock_loop-granted, lock_loop_last, lock_loop_again}

module _ {World : Type 0} (C : LockCalls World) where
  -- The other program lets go of the lock after that many tries, each with a pause behind it.
  pub data Freed (fd : ℕ) : ℕ → World → Type 0 where
    now : {w v : World} → C.flock fd w ≡ (ok tt, v) → Freed fd 0 w
    later :
        {n : ℕ} {w v : World}
        → C.flock fd w ≡ (err ewouldblock, v)
        → Freed fd n (C.usleep retry_delay_us v)
        → Freed fd (suc n) w

  -- The lock is refused at least that many times in a row.
  pub data Refused (fd : ℕ) : ℕ → World → Type 0 where
    any : {w : World} → Refused fd 0 w
    again :
        {n : ℕ} {w v : World}
        → C.flock fd w ≡ (err ewouldblock, v)
        → Refused fd n (C.usleep retry_delay_us v)
        → Refused fd (suc n) w

  lock_loop-Freed :
      (fd retries : ℕ) {n : ℕ} {w : World}
      → n ≤ retries
      → Freed fd n w
      → (v : World) × (lock_loop C (suc retries) fd w ≡ (ok tt, v))
  lock_loop-Freed fd retries {w = w} le (now {v = v} e) = (v, lock_loop-granted C retries fd w e)
  lock_loop-Freed fd zero le (later e f) = absurd (omega (arith, le))
  lock_loop-Freed fd (suc retries) {w = w} le (later e f) =
      let (v, done) = lock_loop-Freed fd retries (omega (arith, le)) f in
      (v, lock_loop_again C retries fd w e refl ∙ done)

  lock_loop-Refused :
      (fd retries : ℕ) {w : World}
      → Refused fd (suc retries) w
      → (v : World) × (lock_loop C (suc retries) fd w ≡ (err etimedout, (C.close fd v).1))
  lock_loop-Refused fd zero {w} (again {v = v} e r) = (v, lock_loop_last C fd w e refl)
  lock_loop-Refused fd (suc retries) {w} (again e r) =
      let (v, done) = lock_loop-Refused fd retries r in
      (v, lock_loop_again C retries fd w e refl ∙ done)

  -- Where the file can be opened, a lock that is let go within the allowed tries is acquired.
  pub acquire_lockfile-Freed :
      (path : Bytes) (fd n : ℕ) (w u : World)
      → C.open_file path w ≡ (ok fd, u)
      → n < allowed_retries
      → Freed fd n u
      → (v : World) × (acquire_lockfile C path w ≡ (ok fd, v))
  unfolding acquire_lockfile
  acquire_lockfile-Freed path fd n w u opened lt f =
      let locking : ℕ → Io World ℕ = λ fd. lock_loop C allowed_retries fd >> pure fd in
      let (v, done) = lock_loop-Freed fd 9 (omega (arith, lt)) f in
      (
        v,
        >>=-ok (C.open_file path) locking w opened
            ∙ >>=-ok (lock_loop C allowed_retries fd) (λ _. pure fd) u done,
      )

  -- Where the file can be opened, a lock that is refused in all of the allowed tries ends in ETIMEDOUT,
  -- with the file closed.
  pub acquire_lockfile-Refused :
      (path : Bytes) (fd : ℕ) (w u : World)
      → C.open_file path w ≡ (ok fd, u)
      → Refused fd allowed_retries u
      → (v : World) × (acquire_lockfile C path w ≡ (err etimedout, (C.close fd v).1))
  unfolding acquire_lockfile
  acquire_lockfile-Refused path fd w u opened r =
      let locking : ℕ → Io World ℕ = λ fd. lock_loop C allowed_retries fd >> pure fd in
      let (v, failed) = lock_loop-Refused fd 9 r in
      (
        v,
        >>=-ok (C.open_file path) locking w opened
            ∙ >>=-err (lock_loop C allowed_retries fd) (λ _. pure fd) u failed,
      )
