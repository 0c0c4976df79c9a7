-- ===== src/Lock.antt =====
-- The lock file, `acquire_lockfile` and `release_lockfile` of main.c.
pub mod Held
pub mod Waiting
mod Tests
use nvram.Base.{
  ℕ, zero, suc, Bool, true, false, not, Option, none, some, Bytes, ◌==◌, if◌then◌else◌, Result, ok,
  err, Io, pure, ◌>>=◌, ◌>>◌, eagain, etimedout,
}

-- The system calls on the lock file. A descriptor is a number.
pub record LockCalls (World : Type 0) : Type 0 where
  pub open_file : Bytes → Io World ℕ
  -- `flock(fd, LOCK_EX | LOCK_NB)`
  pub flock : ℕ → Io World (Unit {0})
  pub usleep : ℕ → World → World
  pub close : ℕ → Io World (Unit {0})
  pub unlink : Bytes → Io World (Unit {0})

abbrev pub allowed_retries : ℕ
allowed_retries = 10

abbrev pub retry_delay_us : ℕ
retry_delay_us = 10000

-- EWOULDBLOCK is EAGAIN.
abbrev pub ewouldblock : ℕ
ewouldblock = eagain

module _ {World : Type 0} (C : LockCalls World) where
  -- `close(fd)`, then the return of `-e`.
  close_fail : ℕ → ℕ → Io World (Unit {0})
  close_fail fd e w = (err e, (C.close fd w).1)

  -- The loop, with the rounds that are left.
  pub lock_loop : ℕ → ℕ → Io World (Unit {0})
  unfolding close_fail
  lock_loop zero fd w = (ok tt, w)
  lock_loop (suc retries) fd w =
      let (r, w') = C.flock fd w in
      elim r [
        | ok _ ↦ (ok tt, w')
        | err e ↦ elim (e == ewouldblock) [
          | false ↦ close_fail fd e w'
          | true ↦ elim (retries == 0) [
            | true ↦ close_fail fd etimedout w'
            | false ↦ lock_loop retries fd (C.usleep retry_delay_us w')
          ]
        ]
      ]

  unfoldable pub acquire_lockfile : Bytes → Io World ℕ
  unfolding lock_loop
  acquire_lockfile path = do fd ← C.open_file path; lock_loop allowed_retries fd; pure fd

  -- `none` is a negative descriptor.
  unfoldable pub release_lockfile : Bytes → Option ℕ → Io World (Unit {0})
  release_lockfile path none = pure tt
  release_lockfile path (some fd) = do C.close fd; C.unlink path
