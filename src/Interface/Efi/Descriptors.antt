-- ===== src/Interface/Efi/Descriptors.antt =====
-- The descriptors that the calls of nvram_interface_efi.c leave open.
use nvram.Base.{
  Keeps, pure-Keeps, fail-Keeps, >>=-Keeps, ℕ, suc, ◌+◌, ◌≡◌, Bool, true, false, ok, err, inl, inr,
  ap, arith, Bytes, length, Io, Result, pure, fail, ◌>>◌, Io-cases, ◌∙◌, >>=-ok, >>=-err, ◌++◌,
  drop, enomem,
}
use nvram.Entry.{Runtime, allocate, allocate-err}
use nvram.Posix.{Posix, read_only, write_create, read_all, write_all, closing}
use nvram.Posix.Descriptors.{
  Counted, read_all-Keeps, write_all-Keeps, allocate-Keeps, get_flags-Keeps, set_flags-Keeps,
}
use nvram.Interface.Efi.{
  efi_header, header_size, efi_read, read_behind, set_immutable, protecting, unprotect,
  write_behind, write_open, open_and_write, efi_write,
}

module _ {World : Type 0} {R : Runtime World} {P : Posix World} (C : Counted R P) where
  set_immutable-Keeps : (path : Bytes) (value : Bool) → Keeps C.count (set_immutable R P path value)
  unfolding set_immutable
  set_immutable-Keeps path value =
      >>=-Keeps C.count (P.get_flags path) (λ flags. P.set_flags path (value, flags.1))
        (get_flags-Keeps C path) (λ flags. set_flags-Keeps C path (value, flags.1))

  protecting-Keeps :
      {A : Type 0} (path : Bytes) (m : Io World A)
      → Keeps C.count m
      → Keeps C.count (protecting R P path m)
  unfolding protecting
  protecting-Keeps path m k = record {
    at = λ w. (set_immutable-Keeps path true).at (m w).1 ∙ k.at w;
  }

  unprotect-Keeps : (path : Bytes) → Keeps C.count (unprotect R P path)
  unfolding unprotect
  unprotect-Keeps path = record { at = (set_immutable-Keeps path false).at }

  write_behind-Keeps : (fd : ℕ) (b : Bytes) → Keeps C.count (write_behind R P fd b)
  unfolding write_behind
  write_behind-Keeps fd b =
      >>=-Keeps C.count (allocate R (length b + header_size))
        (λ _. write_all P fd (efi_header ++ b)) (allocate-Keeps C (length b + header_size))
        (λ _. write_all-Keeps C fd (efi_header ++ b))

  open_and_write-Keeps : (path b : Bytes) → Keeps C.count (open_and_write R P path b)
  unfolding open_and_write write_open closing
  open_and_write-Keeps path b = record {
    at = λ w. elim (Io-cases (P.open_file path write_create) w) [
      | inl (fd, u, e) ↦
          let m : Io World (Unit {0}) = protecting R P path (write_behind R P fd b) in
          let found : open_and_write R P path b w ≡ write_open R P path fd b u =
            ground (arith, e) in
          rw found (
            omega (
              arith,
              C.count-close fd (m u).1,
              (protecting-Keeps path (write_behind R P fd b) (write_behind-Keeps fd b)).at u,
              C.count-open_ok path write_create fd w u e,
            ))
      | inr (c, u, e) ↦
          let missing : open_and_write R P path b w ≡ protecting R P path (fail c) u =
            ground (arith, e) in
          rw missing (
            (protecting-Keeps {A = Unit {0}} path (fail c) (fail-Keeps C.count c)).at u
            ∙ C.count-open_err path write_create c w u e)
    ];
  }

  -- Whatever it returns, the writing of a variable leaves as many descriptors open as there were.
  pub efi_write-Keeps : (path b : Bytes) → Keeps C.count (efi_write R P path b)
  unfolding efi_write
  efi_write-Keeps path b =
      >>=-Keeps C.count (unprotect R P path) (λ _. open_and_write R P path b) (unprotect-Keeps path)
        (λ _. open_and_write-Keeps path b)

  read_behind-Keeps : (fd n : ℕ) → Keeps C.count (read_behind R P fd n)
  unfolding read_behind
  read_behind-Keeps fd n =
      >>=-Keeps C.count (read_all P fd (n + header_size)) (λ pbuf. pure (drop header_size pbuf))
        (read_all-Keeps C fd (n + header_size)) (λ pbuf. pure-Keeps C.count (drop header_size pbuf))

  -- Where the file can be opened and memory does not suffice for its contents, the reading of a
  -- variable leaves one more descriptor open, and fails with ENOMEM.
  pub efi_read_leaks :
      (path : Bytes) (n fd : ℕ) (w u : World)
      → P.open_file path read_only w ≡ (ok fd, u)
      → (R.malloc (n + header_size) u).0 ≡ false
      → ((efi_read R P path n w).0 ≡ err enomem)
        × (C.count (efi_read R P path n w).1 ≡ suc (C.count w))
  unfolding efi_read
  efi_read_leaks path n fd w u opened failed =
      let body : ℕ → Io World Bytes =
        λ fd. allocate R (n + header_size) >> closing P fd (read_behind R P fd n) in
      let run : efi_read R P path n w ≡ (err enomem, (R.malloc (n + header_size) u).1) =
        >>=-ok (P.open_file path read_only) body w opened
        ∙ >>=-err (allocate R (n + header_size)) (λ _. closing P fd (read_behind R P fd n)) u
            (allocate-err R (n + header_size) u failed) in
      (
        ap (λ (p : Result Bytes × World). p.0) run,
        ap (λ (p : Result Bytes × World). C.count p.1) run
            ∙ (C.count-malloc (n + header_size) u ∙ C.count-open_ok path read_only fd w u opened),
      )
