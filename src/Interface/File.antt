-- ===== src/Interface/File.antt =====
-- The file interface, nvram_interface_file.c. The tests of a pointer against NULL have no counterpart
-- here: a buffer and a section are values.
pub mod Restore
pub mod Restart
pub mod Descriptors
mod Tests
use nvram.Base.{
  ℕ, ◌-◌, ◌^◌, ◌==◌, ltb, if◌then◌else◌, Bytes, Result, ok, err, Io, pure, fail, ◌>>=◌, ◌>>◌,
  enoent, enomem, eopnotsupp,
}
use nvram.Entry.{Runtime, allocate}
use nvram.Device.{Device}
use nvram.Posix.{
  Posix, OpenFlags, read_only, write_create_truncate, Stat, FileType, regular, block_device, other,
  read_all, write_all, closing,
}

-- `sizeof(struct nvram_priv)`, a pointer.
abbrev priv_size : ℕ
priv_size = 8

abbrev size_max : ℕ
size_max = 2 ^ 64 - 1

module _ {World : Type 0} (R : Runtime World) (P : Posix World) where
  -- `struct nvram_priv` is the path.
  pub file_init : Bytes → Io World Bytes
  file_init section = do allocate R priv_size; pure section

  -- BLKGETSIZE64 on the device, which is closed before the result is looked at.
  block_bytes : Bytes → Io World ℕ
  unfolding closing
  block_bytes path = do fd ← P.open_file path read_only; closing P fd (P.block_size fd)

  size_of : Bytes → FileType → ℕ → Io World ℕ
  unfolding block_bytes
  size_of path regular st_size = pure st_size
  size_of path block_device st_size = do
    bytes ← block_bytes path
    if ltb size_max bytes then fail enomem else pure bytes
  size_of path other st_size = fail eopnotsupp

  -- A file that does not exist has size 0.
  pub file_size : Bytes → Io World ℕ
  unfolding size_of
  file_size path w =
      let (r, w') = P.stat path w in
      elim r [
        | err c ↦ (if c == enoent then ok 0 else err c, w')
        | ok sb ↦ size_of path sb.type sb.st_size w'
      ]

  pub file_read : Bytes → ℕ → Io World Bytes
  unfolding read_all closing
  file_read path size = do fd ← P.open_file path read_only; closing P fd (read_all P fd size)

  pub file_write : Bytes → Bytes → Io World (Unit {0})
  unfolding write_all closing
  file_write path buf = do
    fd ← P.open_file path write_create_truncate
    closing P fd (write_all P fd buf)

  -- `nvram_file_interface`; `file_destroy` only frees.
  abbrev pub nvram_file_interface : Device World
  nvram_file_interface = record {
    Priv = Bytes;
    init = file_init;
    destroy = λ path w. w;
    size = file_size;
    read = file_read;
    write = file_write;
    section = λ path. path;
  }
