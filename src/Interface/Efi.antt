-- ===== src/Interface/Efi.antt =====
-- The EFI interface, nvram_interface_efi.c: a variable is a file of efivarfs that is immutable between
-- writes, with its attributes in front of the data.
pub mod Restore
pub mod Restart
pub mod Descriptors
mod Tests
use nvram.Base.{
  ℕ, ◌+◌, ◌-◌, Bool, true, false, ◌&&◌, not, List, [], ◌∷◌, ◌++◌, ◌==◌, ltb, if◌then◌else◌, length,
  drop, Bytes, Result, ok, err, Io, pure, fail, ◌>>=◌, ◌>>◌, enoent, ebadf, enomem,
}
use nvram.Entry.{Runtime, allocate}
use nvram.Device.{Device}
use nvram.Posix.{Posix, OpenFlags, read_only, write_create, read_all, write_all, closing}

-- `EFI_HEADER`, the attributes 0x7 as the bytes of a little-endian host.
abbrev pub efi_header : Bytes
efi_header = 7 ∷ 0 ∷ 0 ∷ 0 ∷ []

-- `sizeof(EFI_HEADER)`
abbrev pub header_size : ℕ
header_size = 4

abbrev priv_size : ℕ
priv_size = 8

module _ {World : Type 0} (R : Runtime World) (P : Posix World) where
  pub efi_init : Bytes → Io World Bytes
  efi_init section = do allocate R priv_size; pure section

  pub efi_size : Bytes → Io World ℕ
  efi_size path w =
      let (r, w') = P.stat path w in
      (
        elim r [
          | err c ↦ if c == enoent then ok 0 else err c
          | ok sb ↦ if ltb sb.st_size header_size then err ebadf else ok (sb.st_size - header_size)
        ],
        w',
      )

  -- The copy behind the header, which is not looked at.
  read_behind : ℕ → ℕ → Io World Bytes
  read_behind fd size = do pbuf ← read_all P fd (size + header_size); pure (drop header_size pbuf)

  -- A failed allocation returns with the file still open.
  pub efi_read : Bytes → ℕ → Io World Bytes
  unfolding closing read_behind
  efi_read path size = do
    fd ← P.open_file path read_only
    allocate R (size + header_size)
    closing P fd (read_behind fd size)

  pub set_immutable : Bytes → Bool → Io World (Unit {0})
  set_immutable path value = do flags ← P.get_flags path; P.set_flags path (value, flags.1)

  -- From the label `exit`: the file is made immutable again, whatever that returns.
  protecting : {A : Type 0} → Bytes → Io World A → Io World A
  unfolding set_immutable
  protecting path m w = let (r, w') = m w in (r, (set_immutable path true w').1)

  -- `r != 0 && r != -ENOENT` after `set_immutable(priv->path, false)`.
  unprotect : Bytes → Io World (Unit {0})
  unfolding set_immutable
  unprotect path w =
      let (r, w') = set_immutable path false w in
      (elim r [ ok _ ↦ ok tt | err c ↦ if c == enoent then ok tt else err c ], w')

  write_behind : ℕ → Bytes → Io World (Unit {0})
  unfolding write_all
  write_behind fd buf = do allocate R (length buf + header_size); write_all P fd (efi_header ++ buf)

  -- The file is open where the flag is set again; it is closed behind that.
  write_open : Bytes → ℕ → Bytes → Io World (Unit {0})
  unfolding protecting write_behind closing
  write_open path fd buf = closing P fd (protecting path (write_behind fd buf))

  -- Where the file cannot be opened, `close(-1)` does nothing.
  open_and_write : Bytes → Bytes → Io World (Unit {0})
  unfolding write_open protecting
  open_and_write path buf w =
      let (r, w') = P.open_file path write_create w in
      elim r [ err c ↦ protecting path (fail c) w' | ok fd ↦ write_open path fd buf w' ]

  pub efi_write : Bytes → Bytes → Io World (Unit {0})
  unfolding unprotect open_and_write
  efi_write path buf = do unprotect path; open_and_write path buf

  -- `nvram_efi_interface`; `efi_destroy` only frees.
  abbrev pub nvram_efi_interface : Device World
  nvram_efi_interface = record {
    Priv = Bytes;
    init = efi_init;
    destroy = λ path w. w;
    size = efi_size;
    read = efi_read;
    write = efi_write;
    section = λ path. path;
  }
