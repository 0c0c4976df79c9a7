-- ===== src/Lock/Tests.antt =====
-- Runs on a lock file, and the theorems at concrete data.
use nvram.Base.{arith, ℕ, zero, suc, ◌≡◌, refl, Bytes, codes, Result, ok, err, Io, etimedout}
use nvram.Lock.{LockCalls, acquire_lockfile, lock_loop, close_fail, ewouldblock}
use nvram.Lock.Waiting.{now, later, any, again, acquire_lockfile-Freed, acquire_lockfile-Refused}
use nvram.Lock.Held.{Acquired, acquire_lockfile-Acquired}

-- A lock that another program holds for a number of tries.
abbrev flock_after : Io ℕ (Unit {0})
flock_after zero = (ok tt, zero)
flock_after (suc n) = (err ewouldblock, n)

abbrev calls : LockCalls ℕ
calls = record {
  open_file = λ path w. (ok 3, w);
  flock = λ fd. flock_after;
  usleep = λ us w. w;
  close = λ fd w. (ok tt, w);
  unlink = λ path w. (ok tt, w);
}

abbrev file : Bytes
file = codes "lock"

acquire : ℕ → Result ℕ × ℕ
unfolding acquire_lockfile lock_loop close_fail
acquire = acquire_lockfile calls file

ten_tries : (acquire 9 ≡ (ok 3, 0)) × (acquire 10 ≡ (err etimedout, 0))
unfolding acquire
ten_tries = (refl, refl)

acquire_lockfile-Acquired_example : Acquired calls file 9 (acquire_lockfile calls file 9)
acquire_lockfile-Acquired_example = acquire_lockfile-Acquired calls file 9

acquire_lockfile-Freed_example : (v : ℕ) × (acquire_lockfile calls file 2 ≡ (ok 3, v))
acquire_lockfile-Freed_example =
    acquire_lockfile-Freed calls file 3 2 2 2 refl (ground arith)
      (later refl (later refl (now refl)))

acquire_lockfile-Refused_example : (v : ℕ) × (acquire_lockfile calls file 12 ≡ (err etimedout, v))
acquire_lockfile-Refused_example = acquire_lockfile-Refused calls file 3 12 12 refl (
    again refl (
      again refl (
        again refl (
          again refl
            (again refl (again refl (again refl (again refl (again refl (again refl any))))))))))
