-- ===== src/Posix/Descriptors.antt =====
-- Calls that leave as many descriptors open as there were.
use nvram.Base.{
  Keeps, ℕ, suc, ◌-◌, ◌≡◌, inl, inr, Bool, arith, Bytes, ok, err, Io, ◌>>=◌, >>=-ok, >>=-err,
  Io-cases,
}
use nvram.Entry.{Runtime, allocate}
use nvram.Posix.{Posix, OpenFlags, read_all, write_all, closing}

-- How the calls change the number of open descriptors.
pub record Counted {World : Type 0} (R : Runtime World) (P : Posix World) : Type 0 where
  pub count : World → ℕ
  pub count-open_ok :
      (path : Bytes) (flags : OpenFlags) (fd : ℕ) (w v : World)
      → P.open_file path flags w ≡ (ok fd, v)
      → count v ≡ suc (count w)
  pub count-open_err :
      (path : Bytes) (flags : OpenFlags) (c : ℕ) (w v : World)
      → P.open_file path flags w ≡ (err c, v)
      → count v ≡ count w
  pub count-close : (fd : ℕ) (w : World) → count (P.close fd w) ≡ count w - 1
  pub count-stat : (path : Bytes) (w : World) → count (P.stat path w).1 ≡ count w
  pub count-read : (fd n : ℕ) (w : World) → count (P.read fd n w).1 ≡ count w
  pub count-write : (fd : ℕ) (b : Bytes) (w : World) → count (P.write fd b w).1 ≡ count w
  pub count-block_size : (fd : ℕ) (w : World) → count (P.block_size fd w).1 ≡ count w
  pub count-erase : (fd start n : ℕ) (w : World) → count (P.erase fd start n w).1 ≡ count w
  pub count-get_flags : (path : Bytes) (w : World) → count (P.get_flags path w).1 ≡ count w
  pub count-set_flags :
      (path : Bytes) (f : Bool × ℕ) (w : World) → count (P.set_flags path f w).1 ≡ count w
  pub count-malloc : (n : ℕ) (w : World) → count (R.malloc n w).1 ≡ count w

module _ {World : Type 0} {R : Runtime World} {P : Posix World} (C : Counted R P) where
  pub allocate-Keeps : (n : ℕ) → Keeps C.count (allocate R n)
  allocate-Keeps n = record { at = λ w. C.count-malloc n w }

  pub read_all-Keeps : (fd n : ℕ) → Keeps C.count (read_all P fd n)
  unfolding read_all
  read_all-Keeps fd n = record { at = λ w. C.count-read fd n w }

  pub write_all-Keeps : (fd : ℕ) (b : Bytes) → Keeps C.count (write_all P fd b)
  unfolding write_all
  write_all-Keeps fd b = record { at = λ w. C.count-write fd b w }

  pub block_size-Keeps : (fd : ℕ) → Keeps C.count (P.block_size fd)
  block_size-Keeps fd = record { at = λ w. C.count-block_size fd w }

  pub erase-Keeps : (fd start n : ℕ) → Keeps C.count (P.erase fd start n)
  erase-Keeps fd start n = record { at = λ w. C.count-erase fd start n w }

  pub get_flags-Keeps : (path : Bytes) → Keeps C.count (P.get_flags path)
  get_flags-Keeps path = record { at = λ w. C.count-get_flags path w }

  pub set_flags-Keeps : (path : Bytes) (f : Bool × ℕ) → Keeps C.count (P.set_flags path f)
  set_flags-Keeps path f = record { at = λ w. C.count-set_flags path f w }

  pub stat-Keeps : (path : Bytes) → Keeps C.count (P.stat path)
  stat-Keeps path = record { at = λ w. C.count-stat path w }

  -- An opened file that is closed behind what keeps the number.
  pub open-closing-Keeps :
      {A : Type 0} (path : Bytes) (flags : OpenFlags) (m : ℕ → Io World A)
      → ((fd : ℕ) → Keeps C.count (m fd))
      → Keeps C.count (P.open_file path flags >>= λ fd. closing P fd (m fd))
  unfolding closing
  open-closing-Keeps path flags m k = record {
    at = λ w. elim (Io-cases (P.open_file path flags) w) [
      | inl (fd, u, e) ↦ rw (>>=-ok (P.open_file path flags) (λ fd. closing P fd (m fd)) w e) (
          omega
            (arith, C.count-close fd (m fd u).1, (k fd).at u, C.count-open_ok path flags fd w u e))
      | inr (c, u, e) ↦
          rw (>>=-err (P.open_file path flags) (λ fd. closing P fd (m fd)) w e)
            (C.count-open_err path flags c w u e)
    ];
  }
